-- ===== src/Indexer.antt =====
-- internal/app/indexer.go: `IndexBatch`. The posts that are left after the first tests are worked on by
-- goroutines; Steps has what they do to the shared variables, one locked part at a time.
pub mod Steps
pub mod Accounted
pub mod Finished
mod Examples
use sauce_dust.Prelude.{
  ℕ, suc, ◌+◌, ◌==◌, Bool, true, false, Option, none, some, List, [], ◌∷◌, length, if◌then◌else◌,
}
use sauce_dust.Domain.Source.{SourcePost, skip_reason, Reason}
use sauce_dust.Limiter.{Outcome, ok, throttled, timeout, failed}

pub record FullReport : Type 0 where
  pub total : ℕ
  pub saved : ℕ
  pub skipped : ℕ
  pub existing : ℕ
  pub failed_posts : List ℕ

unfoldable pub is_skipped : SourcePost → Bool
is_skipped p = elim (skip_reason p) [ none ↦ false | some r ↦ true ]

-- The posts to be worked on, and the number of those that are passed over.
unfoldable pub pending_posts : List SourcePost → List ℕ
unfolding is_skipped
pending_posts [] = []
pending_posts (p ∷ ps) =
    let rest = pending_posts ps in if is_skipped p then rest else p.post_id ∷ rest

unfoldable pub skipped_count : List SourcePost → ℕ
unfolding is_skipped
skipped_count [] = 0
skipped_count (p ∷ ps) = let rest = skipped_count ps in if is_skipped p then suc rest else rest

unfoldable pub new_posts : (ℕ → Bool) → List ℕ → List ℕ
new_posts existing [] = []
new_posts existing (p ∷ ps) =
    let rest = new_posts existing ps in if existing p then rest else p ∷ rest

unfoldable pub existing_count : (ℕ → Bool) → List ℕ → ℕ
existing_count existing [] = 0
existing_count existing (p ∷ ps) =
    let rest = existing_count existing ps in if existing p then suc rest else rest

-- The part before the goroutines: the report so far and the posts that are left, `none` where
-- `ExistingPostIDs` fails. Where no posts are left the function returns there with this report.
unfoldable pub prepare :
    (List ℕ → Option (ℕ → Bool)) → List SourcePost → FullReport × Option (List ℕ)
unfolding pending_posts skipped_count new_posts existing_count
prepare lookup posts =
    let pending = pending_posts posts in
    let first : FullReport = record {
      total = length posts;
      saved = 0;
      skipped = skipped_count posts;
      existing = 0;
      failed_posts = [];
    } in
    if length pending == 0 then (first, some []) else elim (lookup pending) [
      | none ↦ (first, none)
      | some known ↦
          (record first { existing = existing_count known pending }, some (new_posts known pending))
    ]

-- What the interfaces of an error say of it.
pub record ErrorSigns : Type 0 where
  pub deadline_exceeded : Bool
  pub is_throttled : Option Bool
  pub is_timeout : Option Bool
  pub is_retryable : Option Bool

unfoldable pub holds : Option Bool → Bool
holds none = false
holds (some b) = b

unfoldable pub classify : Option ErrorSigns → Outcome
unfolding holds
classify none = ok
classify (some e) =
    if e.deadline_exceeded
    then timeout
    else if holds e.is_throttled
    then throttled
    else if holds e.is_timeout
    then timeout
    else if holds e.is_retryable
    then throttled
    else failed
