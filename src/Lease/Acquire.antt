-- ===== src/Lease/Acquire.antt =====
-- internal/adapter/postgres/lease.go: `AcquireBackfillRange` and what it calls. `locked` are the rows
-- that another transaction has locked, which SKIP LOCKED passes over.
use Prim.Native.String.{String}
use sauce_dust.Prelude.{
  ℕ, suc, ◌+◌, ◌-◌, Bool, not, ◌&&◌, ◌||◌, Option, none, some, List, [], ◌∷◌, ltb, leb, ◌==◌,
  if◌then◌else◌,
}
use sauce_dust.Lease.Store.{
  Row, CrawlState, Store, CrawlRange, bad_request, no_work, lease_conflict, unique_violation, Reply,
  ok, err, running, failed, max_attempts, is_running, is_failed, is_stale, update, affected,
  has_bounds,
}

pub record LeaseRequest : Type 0 where
  pub node : String
  pub range_size : ℕ
  pub floor : ℕ

-- The WHERE clause of `reuseRange`.
unfoldable pub is_candidate : (ℕ → Bool) → ℕ → LeaseRequest → Row → Bool
is_candidate locked now req r =
    ltb r.attempts max_attempts
    && (leb req.floor r.upper
        && (((is_failed r.status && leb r.ready_at now)
              || (is_running r.status && is_stale r.leased_at now))
            && not (locked r.id)))

-- ORDER BY attempts, id
abbrev pub goes_first : Row → Row → Bool
goes_first a b = ltb a.attempts b.attempts || (a.attempts == b.attempts && ltb a.id b.id)

abbrev pub better : Row → Option Row → Option Row
better r none = some r
better r (some s) = if goes_first r s then some r else some s

-- LIMIT 1
unfoldable pub pick : (Row → Bool) → List Row → Option Row
pick test [] = none
pick test (r ∷ rs) = let rest = pick test rs in if test r then better r rest else rest

abbrev pub lease_row : String → ℕ → Row → Row
lease_row node now r = record r {
  status = running;
  attempts = r.attempts + 1;
  node = some node;
  leased_at = some now;
  last_error = none;
}

abbrev pub blank_row : ℕ → ℕ → ℕ → ℕ → Row
blank_row id lower upper now = record {
  id = id;
  lower = lower;
  upper = upper;
  status = failed;
  attempts = 0;
  node = none;
  leased_at = none;
  ready_at = now;
  finished_at = none;
  saved_count = 0;
  last_error = none;
}

-- `INSERT … ON CONFLICT DO NOTHING` of a row that waits to be leased.
unfoldable pub insert_waiting : ℕ → ℕ → ℕ → Store → Store
insert_waiting lower upper now s =
    if ltb 0 (affected (has_bounds lower upper) s.rows)
    then s
    else record s { rows = blank_row s.next_id lower upper now ∷ s.rows; next_id = suc s.next_id }

abbrev pub is_running_id : ℕ → Row → Bool
is_running_id id r = r.id == id && is_running r.status

abbrev pub set_lower : ℕ → Row → Row
set_lower lower r = record r { lower = lower }

-- The transaction of `splitAtFloor`: an error rolls both statements back.
unfoldable pub split_at_floor : CrawlRange → LeaseRequest → ℕ → Store → Reply CrawlRange × Store
split_at_floor c req now s =
    let s' = insert_waiting c.lower (req.floor - 1) now s in
    if affected (is_running_id c.id) s'.rows == 0
    then (err lease_conflict, s)
    else if ltb 0 (affected (has_bounds req.floor c.upper) s'.rows)
    then (err unique_violation, s)
    else (
      ok (record c { lower = req.floor }),
      record s' { rows = update (is_running_id c.id) (set_lower req.floor) s'.rows },
    )

abbrev pub to_range : LeaseRequest → Row → CrawlRange
to_range req r = record {
  id = r.id;
  lower = r.lower;
  upper = r.upper;
  attempts = r.attempts + 1;
  node = req.node;
}

abbrev pub has_id : ℕ → Row → Bool
has_id id r = r.id == id

abbrev pub claim : LeaseRequest → ℕ → Row → Store → Store
claim req now r s = record s { rows = update (has_id r.id) (lease_row req.node now) s.rows }

unfoldable pub lease_picked : LeaseRequest → ℕ → Row → Store → Reply CrawlRange × Store
lease_picked req now r s =
    if ltb r.lower req.floor
    then split_at_floor (to_range req r) req now (claim req now r s)
    else (ok (to_range req r), claim req now r s)

abbrev pub reuse_picked : LeaseRequest → ℕ → Store → Option Row → Reply CrawlRange × Store
reuse_picked req now s none = (err no_work, s)
reuse_picked req now s (some r) = lease_picked req now r s

unfoldable pub reuse_range : (ℕ → Bool) → LeaseRequest → ℕ → Store → Reply CrawlRange × Store
reuse_range locked req now s = reuse_picked req now s (pick (is_candidate locked now req) s.rows)

abbrev pub state_or_new : Option CrawlState → CrawlState
state_or_new none = record { high_watermark = none; backfill_before = none }
state_or_new (some st) = st

abbrev pub new_row : String → ℕ → ℕ → ℕ → ℕ → Row
new_row node id lower upper now = record (blank_row id lower upper now) {
  status = running;
  attempts = 1;
  node = some node;
  leased_at = some now;
}

-- ON CONFLICT DO UPDATE, which keeps `last_error` and the rest.
abbrev pub release_row : String → ℕ → Row → Row
release_row node now r = record r {
  status = running;
  attempts = r.attempts + 1;
  node = some node;
  leased_at = some now;
}

-- `RETURNING id, attempts` of the row that the conflict found.
unfoldable pub find : (Row → Bool) → List Row → Option Row
find test [] = none
find test (r ∷ rs) = if test r then some r else find test rs

abbrev pub upsert_found : String → ℕ → ℕ → ℕ → Store → Option Row → CrawlRange × Store
upsert_found node lower upper now s none = (
  record { id = s.next_id; lower = lower; upper = upper; attempts = 1; node = node },
  record s { rows = new_row node s.next_id lower upper now ∷ s.rows; next_id = suc s.next_id },
)
upsert_found node lower upper now s (some r) = (
  record { id = r.id; lower = lower; upper = upper; attempts = r.attempts + 1; node = node },
  record s { rows = update (has_bounds lower upper) (release_row node now) s.rows },
)

unfoldable pub upsert_running : String → ℕ → ℕ → ℕ → Store → CrawlRange × Store
unfolding find
upsert_running node lower upper now s =
    upsert_found node lower upper now s (find (has_bounds lower upper) s.rows)

-- lower = upper - size + 1, no less than the floor. On ℕ the difference stops at 0, below a floor.
abbrev pub carve_lower : LeaseRequest → ℕ → ℕ
carve_lower req upper =
    let lower = upper + 1 - req.range_size in if ltb lower req.floor then req.floor else lower

unfoldable pub carve_below :
    LeaseRequest → ℕ → CrawlState → Option ℕ → Store → Reply CrawlRange × Store
unfolding upsert_running
carve_below req now st none s = (err no_work, s)
carve_below req now st (some before) s =
    let upper = before - 1 in
    let lower = carve_lower req upper in
    let done = upsert_running req.node lower upper now s in
    if ltb upper req.floor then (err no_work, s) else (
      ok (done.0),
      record (done.1) { state = some (record st { backfill_before = some lower }) },
    )

-- Without work the transaction is rolled back, the insertion of the state row with it.
unfoldable pub carve_range : LeaseRequest → ℕ → Store → Reply CrawlRange × Store
carve_range req now s = let st = state_or_new s.state in carve_below req now st st.backfill_before s

abbrev pub or_carve : LeaseRequest → ℕ → Reply CrawlRange × Store → Reply CrawlRange × Store
or_carve req now (ok c, s) = (ok c, s)
or_carve req now (err no_work, s) = carve_range req now s
or_carve req now (err e, s) = (err e, s)

abbrev pub with_floor : LeaseRequest → LeaseRequest
with_floor req = record req { floor = if ltb req.floor 1 then 1 else req.floor }

unfoldable pub acquire_backfill_range :
    (ℕ → Bool) → LeaseRequest → ℕ → Store → Reply CrawlRange × Store
acquire_backfill_range locked raw now s =
    let req = with_floor raw in
    if ltb raw.range_size 1
    then (err bad_request, s)
    else or_carve req now (reuse_range locked req now s)
