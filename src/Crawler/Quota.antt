-- ===== src/Crawler/Quota.antt =====
-- internal/app/crawler.go: `reserve` in workers that run at the same time. A step is one of the
-- atomic operations on `saved`: a load, or a compare-and-swap.
use sauce_dust.Prelude.{ℕ, ◌+◌, ◌≤◌, ◌<◌, ◌≡◌, ◌==◌, if◌then◌else◌, arith}
use sauce_dust.Crawler.{take_at}

-- A worker in `reserve` wants some posts and has read `cur`, or not yet.
pub data Worker : Type 0 where
  idle : Worker
  wants : ℕ → Worker
  has_read : ℕ → ℕ → Worker

pub record Shared : Type 0 where
  pub saved : ℕ
  pub granted : ℕ
  pub worker : ℕ → Worker

unfoldable pub put : (ℕ → Worker) → ℕ → Worker → ℕ → Worker
put f i w j = if i == j then w else f j

-- The compare-and-swap of worker `i`, which starts over when another worker came in between.
unfoldable pub swap : ℕ → ℕ → ℕ → ℕ → Shared → Shared
unfolding put
swap max_images i want cur s =
    if s.saved == cur
    then record {
      saved = s.saved + take_at max_images cur want;
      granted = s.granted + take_at max_images cur want;
      worker = put s.worker i idle;
    }
    else record s { worker = put s.worker i (wants want) }

pub data Step (max_images : ℕ) : Shared → Shared → Type 0 where
  calls :
      {s : Shared} (i want : ℕ)
      → s.worker i ≡ idle
      → Step max_images s (record s { worker = put s.worker i (wants want) })
  loads :
      {s : Shared} (i want : ℕ)
      → s.worker i ≡ wants want
      → s.saved < max_images
      → Step max_images s (record s { worker = put s.worker i (has_read want s.saved) })
  finds_none :
      {s : Shared} (i want : ℕ)
      → s.worker i ≡ wants want
      → max_images ≤ s.saved
      → Step max_images s (record s { worker = put s.worker i idle })
  swaps :
      {s : Shared} (i want cur : ℕ)
      → s.worker i ≡ has_read want cur
      → Step max_images s (swap max_images i want cur s)

pub data Reach (max_images : ℕ) : Shared → Shared → Type 0 where
  here : {s : Shared} → Reach max_images s s
  step : {s t u : Shared} → Reach max_images s t → Step max_images t u → Reach max_images s u

-- What is granted is what was counted, within the cap.
Within : ℕ → Shared → Type 0
Within max_images s = (s.granted ≡ s.saved) × (s.saved ≤ max_images)

Step-Within :
    (max_images : ℕ) {s t : Shared}
    → Step max_images s t
    → Within max_images s
    → Within max_images t
unfolding Within swap take_at
Step-Within max_images (calls i want e) h = h
Step-Within max_images (loads i want e lt) h = h
Step-Within max_images (finds_none i want e le) h = h
Step-Within max_images (swaps {s} i want cur e) h = ground arith

-- However the workers' loads and compare-and-swaps come in between each other, from a count of 0 the
-- posts granted to all of them together are the posts counted, and never more than the cap.
pub granted_within :
    (max_images : ℕ) {s t : Shared}
    → s.saved ≡ 0
    → s.granted ≡ 0
    → Reach max_images s t
    → (t.granted ≡ t.saved) × (t.saved ≤ max_images)
unfolding Within
granted_within max_images saved granted here = omega arith
granted_within max_images saved granted (step r st) =
    Step-Within max_images st (granted_within max_images saved granted r)
