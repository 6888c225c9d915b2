-- ===== src/Lease/Backoff.antt =====
-- internal/adapter/postgres/lease.go: how long a failed range waits.
use sauce_dust.Prelude.{
  ℕ, zero, suc, ◌+◌, ◌*◌, ◌≤◌, ◌≡◌, refl, Bool, true, Option, List, arith, ltb, if◌then◌else◌,
}
use sauce_dust.Lease.Store.{Row, failed, minute}
use sauce_dust.Lease.Acquire.{LeaseRequest, is_candidate}
use sauce_dust.Lease.Report.{retry_backoff, finish_row, finish_wait}

retry_backoff_high : (n : ℕ) → 6 ≤ n → retry_backoff n ≡ 30 * minute
unfolding retry_backoff
retry_backoff_high zero h = absurd (omega arith)
retry_backoff_high (suc zero) h = absurd (omega arith)
retry_backoff_high (suc (suc zero)) h = absurd (omega arith)
retry_backoff_high (suc (suc (suc zero))) h = absurd (omega arith)
retry_backoff_high (suc (suc (suc (suc zero)))) h = absurd (omega arith)
retry_backoff_high (suc (suc (suc (suc (suc zero))))) h = absurd (omega arith)
retry_backoff_high (suc (suc (suc (suc (suc (suc n)))))) h = ground arith

-- The wait doubles with each attempt from one minute on, up to half an hour.
pub retry_backoff_doubles :
    (n : ℕ)
    → 1 ≤ n
    → retry_backoff (n + 1)
      ≡ (if ltb (30 * minute) (retry_backoff n * 2) then 30 * minute else retry_backoff n * 2)
unfolding retry_backoff
retry_backoff_doubles zero h = absurd (omega arith)
retry_backoff_doubles (suc zero) h = refl
retry_backoff_doubles (suc (suc zero)) h = refl
retry_backoff_doubles (suc (suc (suc zero))) h = refl
retry_backoff_doubles (suc (suc (suc (suc zero)))) h = refl
retry_backoff_doubles (suc (suc (suc (suc (suc zero))))) h = refl
retry_backoff_doubles (suc (suc (suc (suc (suc (suc n)))))) h = ground (
  arith,
  retry_backoff_high (suc (suc (suc (suc (suc (suc n)))))) (omega arith),
  retry_backoff_high (suc (suc (suc (suc (suc (suc n))))) + 1) (omega arith),
)

pub retry_backoff_bounds : (n : ℕ) → (minute ≤ retry_backoff n) × (retry_backoff n ≤ 30 * minute)
unfolding retry_backoff
retry_backoff_bounds zero = omega arith
retry_backoff_bounds (suc zero) = omega arith
retry_backoff_bounds (suc (suc zero)) = omega arith
retry_backoff_bounds (suc (suc (suc zero))) = omega arith
retry_backoff_bounds (suc (suc (suc (suc zero)))) = omega arith
retry_backoff_bounds (suc (suc (suc (suc (suc zero))))) = omega arith
retry_backoff_bounds (suc (suc (suc (suc (suc (suc n)))))) =
    omega (arith, retry_backoff_high (suc (suc (suc (suc (suc (suc n)))))) (omega arith))

-- A range that was reported as failed is leased again no earlier than a minute later, and no
-- earlier than its backoff; a failure is what makes it wait.
pub failed_waits :
    (locked : ℕ → Bool) (now later saved attempts : ℕ) (cause : Option (List ℕ))
    (req : LeaseRequest) (r : Row)
    → is_candidate locked later req
        (finish_row failed saved cause now (finish_wait failed attempts) r)
      ≡ true
    → (now + retry_backoff attempts ≤ later) × (now + minute ≤ later)
unfolding is_candidate
failed_waits locked now later saved attempts cause req r h =
    ground (arith, retry_backoff_bounds attempts)
