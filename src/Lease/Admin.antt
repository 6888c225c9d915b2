-- ===== src/Lease/Admin.antt =====
-- internal/adapter/postgres/nodes.go and ranges.go: leases taken back from nodes that stopped, and
-- the commands by which an operator mends the ranges.
use Prim.Native.String.{String}
use sauce_dust.Prelude.{
  ℕ, zero, suc, ◌+◌, ◌-◌, Bool, true, false, not, ◌&&◌, Option, none, some, List, [], ◌∷◌, ltb, leb,
  ◌==◌, if◌then◌else◌,
}
use sauce_dust.Lease.Store.{
  Row, Store, not_found, Reply, ok, err, completed, failed, empty, max_attempts, is_running,
  is_failed, is_node, update, affected,
}
use sauce_dust.Lease.Acquire.{has_id, insert_waiting}

abbrev pub reclaim_row : List ℕ → Row → Row
reclaim_row note r = record r { status = failed; node = none; last_error = some note }

-- `reclaim` for the ranges; `note` is the text that it writes as the last error.
unfoldable pub reclaim : (Option String → Bool) → List ℕ → Store → Store × ℕ
reclaim lost note s =
    let test = λ (r : Row). is_running r.status && lost r.node in
    (record s { rows = update test (reclaim_row note) s.rows }, affected test s.rows)

unfoldable pub reclaim_own_leases : String → List ℕ → Store → Store × ℕ
unfolding reclaim
reclaim_own_leases node note s = reclaim (λ n. is_node n node) note s

abbrev pub is_dead : (String → Bool) → Option String → Bool
is_dead online none = false
is_dead online (some n) = not (online n)

-- `online` are the nodes of the subquery, whose heartbeat is recent.
unfoldable pub reclaim_dead_node_leases : (String → Bool) → List ℕ → Store → Store × ℕ
unfolding reclaim
reclaim_dead_node_leases online note s = reclaim (is_dead online) note s

abbrev pub is_exhausted : Row → Bool
is_exhausted r = is_failed r.status && leb max_attempts r.attempts

abbrev pub reset_attempts : Row → Row
reset_attempts r = record r { attempts = 0; last_error = none; node = none }

unfoldable pub reset_exhausted_ranges : Store → Store × ℕ
reset_exhausted_ranges s =
    (record s { rows = update is_exhausted reset_attempts s.rows }, affected is_exhausted s.rows)

abbrev pub reset_row : Row → Row
reset_row r = record r { status = failed; attempts = 0; last_error = none; node = none }

unfoldable pub reset_range : ℕ → Store → Reply (Unit {0}) × Store
reset_range id s =
    let s' = record s { rows = update (has_id id) reset_row s.rows } in
    if affected (has_id id) s.rows == 0 then (err not_found, s') else (ok tt, s')

abbrev pub retry_row : ℕ → Row → Row
retry_row now r = record r {
  attempts = 0;
  ready_at = now;
  last_error = none;
  node = none;
  leased_at = none;
}

abbrev pub is_failed_row : Row → Bool
is_failed_row r = is_failed r.status

unfoldable pub retry_failed_ranges : ℕ → Store → Store × ℕ
retry_failed_ranges now s =
    (record s { rows = update is_failed_row (retry_row now) s.rows }, affected is_failed_row s.rows)

pub record IdGap : Type 0 where
  pub from : ℕ
  pub to : ℕ

-- The inner loop of `PlanGapRanges`, from `upper` down to `from`. A round costs one fuel.
unfoldable pub plan_gap : ℕ → ℕ → ℕ → ℕ → ℕ → Store → Store
plan_gap zero from upper size now s = s
plan_gap (suc fuel) from upper size now s =
    let low = upper + 1 - size in
    let lower = if ltb low from then from else low in
    let s' = insert_waiting lower upper now s in
    let rest = plan_gap fuel from (upper - size) size now s' in
    if ltb upper from then s else if lower == from then s' else rest

abbrev pub default_range_size : ℕ
default_range_size = 10_000

unfoldable pub plan_gaps : List IdGap → ℕ → ℕ → Store → Store
plan_gaps [] size now s = s
plan_gaps (g ∷ gs) size now s =
    plan_gaps gs size now (plan_gap (suc (suc g.to)) g.from g.to size now s)

-- `created` counts the inserted rows; every insertion takes one id.
unfoldable pub plan_gap_ranges : List IdGap → ℕ → ℕ → Store → Store × ℕ
unfolding plan_gaps
plan_gap_ranges gaps raw now s =
    let size = if ltb raw 1 then default_range_size else raw in
    let s' = plan_gaps gaps size now s in (s', s'.next_id - s.next_id)

pub record RangeStats : Type 0 where
  pub total : ℕ
  pub completed : ℕ
  pub running : ℕ
  pub empty : ℕ
  pub failed : ℕ
  pub exhausted : ℕ
  pub saved : ℕ
  pub missing_ids : ℕ

abbrev pub is_completed : Row → Bool
is_completed r = elim (r.status) [ completed ↦ true | _ ↦ false ]

abbrev pub is_empty : Row → Bool
is_empty r = elim (r.status) [ empty ↦ true | _ ↦ false ]

unfoldable pub sum_saved : List Row → ℕ
sum_saved [] = 0
sum_saved (r ∷ rs) = r.saved_count + sum_saved rs

unfoldable pub sum_missing : List Row → ℕ
sum_missing [] = 0
sum_missing (r ∷ rs) = (if is_failed r.status then r.upper + 1 - r.lower else 0) + sum_missing rs

unfoldable pub range_stats : Store → RangeStats
unfolding affected sum_saved sum_missing
range_stats s = record {
  total = affected (λ r. true) s.rows;
  completed = affected is_completed s.rows;
  running = affected (λ r. is_running r.status) s.rows;
  empty = affected is_empty s.rows;
  failed = affected is_failed_row s.rows;
  exhausted = affected is_exhausted s.rows;
  saved = sum_saved s.rows;
  missing_ids = sum_missing s.rows;
}

-- internal/domain/stats.go
unfoldable pub complete : RangeStats → Bool
complete s = ltb 0 s.total && (s.failed == 0 && s.running == 0)
