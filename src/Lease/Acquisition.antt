-- ===== src/Lease/Acquisition.antt =====
-- internal/adapter/postgres/lease.go: `AcquireBackfillRange` and the coverage.
use sauce_dust.Prelude.{ℕ, ◌≤◌, refl, Bool, arith, ◌∙◌, ltb, Bool-cases, inl, inr}
use sauce_dust.Lease.Store.{Store, CrawlRange, Reply, ok, err, no_work}
use sauce_dust.Lease.Acquire.{
  LeaseRequest, reuse_range, or_carve, with_floor, acquire_backfill_range,
}
use sauce_dust.Lease.Coverage.{IsSound}
use sauce_dust.Lease.Reuse.{Keeps, reuse_range-Keeps}
use sauce_dust.Lease.Carving.{carve_range-Keeps}

or_carve-Keeps :
    (req : LeaseRequest) (now : ℕ) (s : Store) (out : Reply CrawlRange × Store)
    → 1 ≤ req.range_size
    → 1 ≤ req.floor
    → Keeps s out
    → Keeps s (or_carve req now out)
or_carve-Keeps req now s (ok c, t) sized floored k = k
or_carve-Keeps req now s (err no_work, t) sized floored k =
    let done = carve_range-Keeps req now t k.0 sized floored in (done.0, λ x. done.1 x ∙ k.1 x)
or_carve-Keeps req now s (err e, t) sized floored k = k

-- On a table where no number is covered twice, leasing a range leaves every number in as many
-- places as it was: a row of the table, or the numbers below the mark that are still to be carved.
-- So nothing is lost and nothing is covered twice, also where a range is split at the floor, where
-- other transactions hold locks, and where the call fails.
pub acquire_backfill_range-Keeps :
    (locked : ℕ → Bool) (raw : LeaseRequest) (now : ℕ) (s : Store)
    → IsSound s
    → Keeps s (acquire_backfill_range locked raw now s)
unfolding acquire_backfill_range
acquire_backfill_range-Keeps locked raw now s v = elim (Bool-cases (ltb raw.range_size 1)) [
  | inl small ↦ rw small (v, λ x. refl)
  | inr sized ↦ rw sized (
      or_carve-Keeps (with_floor raw) now s (reuse_range locked (with_floor raw) now s)
        (ground arith) (ground arith) (reuse_range-Keeps locked (with_floor raw) now s v))
]
