-- ===== src/Lease/Started.antt =====
-- internal/adapter/postgres/lease.go: the starting mark of a crawl under the leases.
use sauce_dust.Prelude.{ℕ, ◌-◌, ◌≡◌, refl, Bool, true, false, Option, none, some, arith}
use sauce_dust.Lease.Store.{Row, CrawlState, Store, CrawlRange, Reply, ok, err, no_work}
use sauce_dust.Lease.Acquire.{
  LeaseRequest, pick, is_candidate, claim, insert_waiting, split_at_floor, lease_picked, to_range,
  reuse_picked, reuse_range, state_or_new, carve_below, carve_range, or_carve, with_floor,
  acquire_backfill_range,
}
use sauce_dust.Lease.Report.{init_state}
use sauce_dust.Lease.Coverage.{uncarved}

abbrev pub is_started : Option CrawlState → Bool
is_started none = false
is_started (some st) = elim (st.backfill_before) [ none ↦ false | some before ↦ true ]

insert_waiting-state :
    (lower upper now : ℕ) (s : Store) → (insert_waiting lower upper now s).state ≡ s.state
unfolding insert_waiting
insert_waiting-state lower upper now s = ground arith

pub split_at_floor-state :
    (c : CrawlRange) (req : LeaseRequest) (now : ℕ) (s : Store)
    → (split_at_floor c req now s).1.state ≡ s.state
unfolding split_at_floor
split_at_floor-state c req now s =
    ground (arith, insert_waiting-state c.lower (req.floor - 1) now s)

lease_picked-state :
    (req : LeaseRequest) (now : ℕ) (r : Row) (s : Store)
    → (lease_picked req now r s).1.state ≡ s.state
unfolding lease_picked
lease_picked-state req now r s =
    ground (arith, split_at_floor-state (to_range req r) req now (claim req now r s))

reuse_picked-state :
    (req : LeaseRequest) (now : ℕ) (s : Store) (o : Option Row)
    → (reuse_picked req now s o).1.state ≡ s.state
reuse_picked-state req now s none = refl
reuse_picked-state req now s (some r) = lease_picked-state req now r s

carve_below-started :
    (req : LeaseRequest) (now : ℕ) (st : CrawlState) (before : Option ℕ) (s : Store)
    → is_started s.state ≡ true
    → is_started ((carve_below req now st before s).1.state) ≡ true
unfolding carve_below
carve_below-started req now st none s h = h
carve_below-started req now st (some before) s h = ground arith

pub carve_range-started :
    (req : LeaseRequest) (now : ℕ) (s : Store)
    → is_started s.state ≡ true
    → is_started ((carve_range req now s).1.state) ≡ true
unfolding carve_range
carve_range-started req now s h =
    carve_below-started req now (state_or_new s.state) (state_or_new s.state).backfill_before s h

or_carve-started :
    (req : LeaseRequest) (now : ℕ) (out : Reply CrawlRange × Store)
    → is_started (out.1.state) ≡ true
    → is_started ((or_carve req now out).1.state) ≡ true
or_carve-started req now (ok c, s) h = h
or_carve-started req now (err no_work, s) h = carve_range-started req now s h
or_carve-started req now (err e, s) h = h

pub acquire-started :
    (locked : ℕ → Bool) (raw : LeaseRequest) (now : ℕ) (s : Store)
    → is_started s.state ≡ true
    → is_started ((acquire_backfill_range locked raw now s).1.state) ≡ true
unfolding acquire_backfill_range reuse_range
acquire-started locked raw now s h =
    let req = with_floor raw in
    let picked = pick (is_candidate locked now req) s.rows in
    ground (
      arith,
      or_carve-started req now (reuse_picked req now s picked),
      reuse_picked-state req now s picked,
    )

-- `InitCatchupState` on a crawl that has begun leaves the mark of the backfill where it is.
pub init_state-uncarved :
    (latest x : ℕ) (o : Option CrawlState)
    → is_started o ≡ true
    → uncarved x (some (init_state latest o)) ≡ uncarved x o
init_state-uncarved latest x none h = ground arith
init_state-uncarved latest x (some st) h = ground arith

pub init_state-started :
    (latest : ℕ) (o : Option CrawlState) → is_started (some (init_state latest o)) ≡ true
init_state-started latest none = refl
init_state-started latest (some st) = refl
