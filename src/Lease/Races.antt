-- ===== src/Lease/Races.antt =====
-- internal/adapter/postgres/lease.go: commits of two nodes that come between one another.
use Prim.Native.String.{String}
use sauce_dust.Prelude.{
  ℕ, ◌≡◌, refl, Bool, true, false, none, some, List, [], ◌∷◌, arith, ltb, if◌then◌else◌,
}
use sauce_dust.Lease.Store.{CrawlRange, affected, update, Row, running}
use sauce_dust.Lease.Acquire
use sauce_dust.Lease.Acquire.{LeaseRequest}
use sauce_dust.Lease.Report.{init_catchup_state, release_range, report}
use sauce_dust.Lease.Admin.{reclaim}
use sauce_dust.Lease.Coverage.{weight}
use sauce_dust.Lease.History.{apply, releases, reclaims, no_store}
use sauce_dust.Lease.Interleaved.{
  Commit, claims, splits, carves, other, commit, commit_all, commit_all-partition, AllInTime,
}

abbrev no_lock : ℕ → Bool
no_lock id = false

abbrev asks_for : String → ℕ → LeaseRequest
asks_for node floor = record { node = node; range_size = 100; floor = floor }

abbrev held_by : String → ℕ → CrawlRange
held_by node attempts = record {
  id = 1;
  lower = 901;
  upper = 1000;
  attempts = attempts;
  node = node;
}

-- Node "c" carves a range between the claim and the split of "b".
abbrev between : List (ℕ × Commit)
between =
    (1, carves (asks_for "a" 0))
    ∷ (2, other (releases (held_by "a" 1)))
    ∷ (3, claims no_lock (asks_for "b" 950))
    ∷ (4, carves (asks_for "c" 0))
    ∷ (5, splits (held_by "b" 1) (asks_for "b" 950))
    ∷ []

-- The row when "b" splits it.
abbrev claimed : Row
claimed = record {
  id = 1;
  lower = 901;
  upper = 1000;
  status = running;
  attempts = 1;
  node = some "b";
  leased_at = some 3;
  ready_at = 2;
  finished_at = none;
  saved_count = 0;
  last_error = none;
}

between_in_time : AllInTime between (init_catchup_state 1001 no_store)
unfolding commit apply init_catchup_state release_range report affected update Acquire.pick
    Acquire.is_candidate Acquire.carve_range Acquire.carve_below Acquire.upsert_running Acquire.find
between_in_time = (tt, (tt, (tt, (tt, ((claimed, refl, refl, refl, refl, omega arith), tt)))))

commit_all-partition_example :
    weight 870 (commit_all between (init_catchup_state 1001 no_store))
    ≡ (if ltb 870 1001 then 1 else 0)
commit_all-partition_example = commit_all-partition 1001 between 870 between_in_time

-- Between the claim and the split of "a" the sweeper takes the row back and "b" claims and splits it.
abbrev raced : List (ℕ × Commit)
raced =
    (1, carves (asks_for "z" 0))
    ∷ (2, other (releases (held_by "z" 1)))
    ∷ (3, claims no_lock (asks_for "a" 950))
    ∷ (4, other (reclaims (λ n. true) []))
    ∷ (5, claims no_lock (asks_for "b" 960))
    ∷ (6, splits (held_by "b" 2) (asks_for "b" 960))
    ∷ (7, splits (held_by "a" 1) (asks_for "a" 950))
    ∷ []

-- Then a number is in two rows.
raced_test : weight 955 (commit_all raced (init_catchup_state 1001 no_store)) ≡ 2
unfolding commit_all commit apply init_catchup_state release_range report affected update
    Acquire.pick Acquire.is_candidate Acquire.carve_range Acquire.carve_below Acquire.upsert_running
    Acquire.find reclaim Acquire.split_at_floor Acquire.insert_waiting
raced_test = refl
