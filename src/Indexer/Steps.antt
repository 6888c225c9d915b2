-- ===== src/Indexer/Steps.antt =====
-- internal/app/indexer.go: the loop that starts the goroutines, the goroutines, and `flush`.
use sauce_dust.Prelude.{
  ℕ, suc, ◌+◌, ◌<◌, ◌≡◌, leb, if◌then◌else◌, Bool, true, false, List, [], ◌∷◌, ◌++◌, length,
}

-- The shared variables: the posts that are not started, those being processed, the batch, the calls of
-- `flush` that wait for a sender, the batches being sent, and of the report what changes. `lost` counts
-- the posts that a cancelled context drops.
pub record Run : Type 0 where
  pub work : List ℕ
  pub running : List ℕ
  pub batch : List ℕ
  pub waiting : ℕ
  pub sending : List (List ℕ)
  pub saved : ℕ
  pub failed : List ℕ
  pub lost : ℕ
  pub flushed : Bool
  pub cancelled : Bool
  pub final : Bool

unfoldable pub start : List ℕ → Run
start work = record {
  work = work;
  running = [];
  batch = [];
  waiting = 0;
  sending = [];
  saved = 0;
  failed = [];
  lost = 0;
  flushed = false;
  cancelled = false;
  final = false;
}

-- A processed image is appended, and the goroutine calls `flush` when the batch is full.
unfoldable pub append_image : ℕ → ℕ → Run → Run
append_image submit_batch p r = record r {
  batch = r.batch ++ (p ∷ []);
  waiting = if leb submit_batch (length (r.batch ++ (p ∷ []))) then suc r.waiting else r.waiting;
}

-- `flush` with a sender: it takes the whole batch, or returns where there is none.
unfoldable pub take_ready : List ℕ → ℕ → Run → Run
take_ready [] waiting r = record r { waiting = waiting }
take_ready (p ∷ ps) waiting r = record r {
  waiting = waiting;
  batch = [];
  sending = (p ∷ ps) ∷ r.sending;
}

unfoldable pub take_batch : ℕ → Run → Run
unfolding take_ready
take_batch waiting r = take_ready r.batch waiting r

-- What happens next, by any of the goroutines.
pub data Step (submit_batch : ℕ) : Run → Run → Type 0 where
  begins :
      {r : Run} (p : ℕ) (w : List ℕ)
      → r.work ≡ p ∷ w
      → r.cancelled ≡ false
      → Step submit_batch r (record r { work = w; running = p ∷ r.running })
  cancels : {r : Run} → Step submit_batch r (record r { cancelled = true })
  breaks :
      {r : Run}
      → r.cancelled ≡ true
      → Step submit_batch r (record r { work = []; lost = r.lost + length r.work })
  succeeds :
      {r : Run} (xs ys : List ℕ) (p : ℕ)
      → r.running ≡ xs ++ (p ∷ ys)
      → Step submit_batch r (append_image submit_batch p (record r { running = xs ++ ys }))
  fails :
      {r : Run} (xs ys : List ℕ) (p : ℕ)
      → r.running ≡ xs ++ (p ∷ ys)
      → r.cancelled ≡ false
      → Step submit_batch r (record r { running = xs ++ ys; failed = r.failed ++ (p ∷ []) })
  drops :
      {r : Run} (xs ys : List ℕ) (p : ℕ)
      → r.running ≡ xs ++ (p ∷ ys)
      → r.cancelled ≡ true
      → Step submit_batch r (record r { running = xs ++ ys; lost = suc r.lost })
  takes :
      {r : Run} (n : ℕ)
      → r.waiting ≡ suc n
      → length r.sending < 2
      → Step submit_batch r (take_batch n r)
  saves :
      {r : Run} (xs ys : List (List ℕ)) (ready : List ℕ)
      → r.sending ≡ xs ++ (ready ∷ ys)
      → Step submit_batch r (record r { sending = xs ++ ys; saved = r.saved + length ready })
  refuses :
      {r : Run} (xs ys : List (List ℕ)) (ready : List ℕ)
      → r.sending ≡ xs ++ (ready ∷ ys)
      → Step submit_batch r
          (record r { sending = xs ++ ys; failed = r.failed ++ ready; flushed = true })
  finishes :
      {r : Run}
      → r.work ≡ []
      → r.running ≡ []
      → r.waiting ≡ 0
      → r.sending ≡ []
      → r.final ≡ false
      → Step submit_batch r (record r { waiting = 1; final = true })

pub data Reach (submit_batch : ℕ) (first : Run) : Run → Type 0 where
  here : Reach submit_batch first first
  next :
      {r s : Run} → Reach submit_batch first r → Step submit_batch r s → Reach submit_batch first s

-- The last call of `flush` has returned.
pub record IsFinished (r : Run) : Type 0 where
  pub final_flush : r.final ≡ true
  pub none_waiting : r.waiting ≡ 0
  pub none_sending : r.sending ≡ []
