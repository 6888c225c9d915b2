-- ===== src/Lease/Examples.antt =====
-- internal/adapter/postgres/lease.go: a short history of the table, and the theorems at it.
use sauce_dust.Prelude.{ℕ, ◌+◌, ◌≡◌, refl, Bool, false, none, some, [], ◌∷◌, arith}
use sauce_dust.Lease.Store.{
  running, failed, completed, Row, Store, CrawlRange, ok, affected, is_node, update,
}
use sauce_dust.Lease.Acquire
use sauce_dust.Lease.Acquire.{LeaseRequest, acquire_backfill_range, is_candidate, with_floor}
use sauce_dust.Lease.Report.{finish_range}
use sauce_dust.Lease.Admin.{IdGap, reclaim, reset_range, plan_gap_ranges}
use sauce_dust.Lease.Coverage.{IsSound, covers, inside}
use sauce_dust.Lease.Acquisition.{acquire_backfill_range-Keeps}
use sauce_dust.Lease.Reuse.{Keeps}
use sauce_dust.Lease.Granted.{IsGranted, acquire_backfill_range-IsGranted}
use sauce_dust.Lease.History.{acquires, run}
use sauce_dust.Lease.Tokens.{IsFenced, reclaimed_stays-IsFenced}
use sauce_dust.Lease.Gaps.{plan_gap_ranges-covers}

abbrev request : LeaseRequest
request = record { node = "a"; range_size = 100; floor = 950 }

-- A failed range that crosses the floor, and the numbers below it still to be carved.
abbrev failed_row : Row
failed_row = record {
  id = 1;
  lower = 901;
  upper = 1000;
  status = failed;
  attempts = 1;
  node = none;
  leased_at = none;
  ready_at = 5;
  finished_at = none;
  saved_count = 0;
  last_error = none;
}

abbrev crossing : Store
crossing = record {
  rows = failed_row ∷ [];
  next_id = 2;
  state = some (record { high_watermark = some 1000; backfill_before = some 901 });
}

crossing-IsSound : IsSound crossing
crossing-IsSound = record { ids = omega arith; ordered = omega arith; once = λ x. ground arith }

abbrev nothing_locked : ℕ → Bool
nothing_locked id = false

acquire_backfill_range-Keeps_example :
    Keeps crossing (acquire_backfill_range nothing_locked request 9 crossing)
acquire_backfill_range-Keeps_example =
    acquire_backfill_range-Keeps nothing_locked request 9 crossing crossing-IsSound

acquire_backfill_range-IsGranted_example :
    IsGranted (with_floor request) (acquire_backfill_range nothing_locked request 9 crossing)
acquire_backfill_range-IsGranted_example =
    acquire_backfill_range-IsGranted nothing_locked request 9 crossing crossing-IsSound

abbrev granted : CrawlRange
granted = record { id = 1; lower = 950; upper = 1000; attempts = 2; node = "a" }

crossing_split : (acquire_backfill_range nothing_locked request 9 crossing).0 ≡ ok granted
unfolding acquire_backfill_range Acquire.reuse_range Acquire.pick is_candidate Acquire.lease_picked
    Acquire.split_at_floor affected Acquire.insert_waiting update
crossing_split = refl

-- Node "a" holds the row; the sweeper takes it back, "b" leases it.
abbrev held_row : Row
held_row = record failed_row { status = running; attempts = 1; node = some "a"; leased_at = some 0 }

abbrev held : Store
held = record crossing { rows = held_row ∷ [] }

held-IsSound : IsSound held
held-IsSound = record { ids = omega arith; ordered = omega arith; once = λ x. ground arith }

abbrev token : CrawlRange
token = record { id = 1; lower = 901; upper = 1000; attempts = 1; node = "a" }

reclaimed_stays-IsFenced_example : IsFenced token (
    run
      ((9, acquires nothing_locked (record { node = "b"; range_size = 10; floor = 1 })) ∷ [])
      ((reclaim (λ n. is_node n "a") [] held).0))
reclaimed_stays-IsFenced_example =
    reclaimed_stays-IsFenced token held (λ n. is_node n "a") []
      ((9, acquires nothing_locked (record { node = "b"; range_size = 10; floor = 1 })) ∷ [])
      held-IsSound (unfold affected in omega arith) refl (refl, tt)

-- An operator's reset brings an old token back to life.
reset_revives :
    (finish_range token completed 0 none 9
      (acquire_backfill_range nothing_locked
        (record request { floor = 1 })
        8
        ((reset_range 1 held).1)).1).0
    ≡ ok tt
unfolding acquire_backfill_range finish_range reset_range affected Acquire.reuse_range Acquire.pick
    update is_candidate Acquire.lease_picked
reset_revives = refl

abbrev gap : IdGap
gap = record { from = 11; to = 40 }

plan_gap_ranges-covers_example :
    covers 25 (plan_gap_ranges (gap ∷ []) 8 0 crossing).0.rows
    ≡ covers 25 crossing.rows + inside 25 11 40
plan_gap_ranges-covers_example =
    plan_gap_ranges-covers gap 8 0 25 crossing (omega arith) (omega arith) (λ y a b. ground arith)
