-- ===== src/Retry/Report.antt =====
-- internal/adapter/postgres/lease.go, nodes.go and ranges.go: what a node reports of a post that it
-- tries again, leases taken back, and the commands by which an operator mends the queue.
use Prim.Native.String.{String}
use sauce_dust.Prelude.{ℕ, ◌+◌, ◌-◌, Bool, ◌&&◌, ◌||◌, Option, none, List, leb, ◌==◌, if◌then◌else◌}
use sauce_dust.Lease.Store.{lease_conflict, Reply, ok, err, max_attempts}
use sauce_dust.Lease.Report.{detail}
use sauce_dust.Retry.{
  RetryStatus, RetryRow, RetryQueue, PostRetry, pending, is_queued, is_running, is_dead,
  update_retries, affected_retries,
}

abbrev pub holds_item : PostRetry → RetryRow → Bool
holds_item i r = r.id == i.id && (r.attempts == i.attempts && is_running r.status)

abbrev pub give_up_item : ℕ → RetryRow → RetryRow
give_up_item now r = record r {
  status = pending;
  attempts = r.attempts - 1;
  node = none;
  ready_at = now;
}

unfoldable pub release_retry : PostRetry → ℕ → RetryQueue → RetryQueue
release_retry i now q = record q { rows = update_retries (holds_item i) (give_up_item now) q.rows }

abbrev pub finish_item : RetryStatus → Option (List ℕ) → RetryRow → RetryRow
finish_item status cause r = record r { status = status; last_error = detail cause; node = none }

unfoldable pub finish_retry :
    PostRetry → RetryStatus → Option (List ℕ) → RetryQueue → Reply (Unit {0}) × RetryQueue
finish_retry i status cause q =
    let q' = record q { rows = update_retries (holds_item i) (finish_item status cause) q.rows } in
    if affected_retries (holds_item i) q.rows == 0 then (err lease_conflict, q') else (ok tt, q')

abbrev pub wait_item : ℕ → Option (List ℕ) → RetryRow → RetryRow
wait_item at cause r = record r {
  status = pending;
  ready_at = at;
  last_error = detail cause;
  node = none;
}

unfoldable pub reschedule_retry : PostRetry → ℕ → Option (List ℕ) → ℕ → RetryQueue → RetryQueue
reschedule_retry i delay cause now q = record q {
  rows = update_retries (holds_item i) (wait_item (now + delay) cause) q.rows;
}

abbrev pub reclaim_item : RetryRow → RetryRow
reclaim_item r = record r { status = pending; node = none; leased_at = none }

-- `reclaim` for the retries; `lost` is its condition on the node.
unfoldable pub reclaim_retries : (Option String → Bool) → RetryQueue → RetryQueue
reclaim_retries lost q = record q {
  rows = update_retries (λ r. is_running r.status && lost r.node) reclaim_item q.rows;
}

abbrev pub is_retriable : RetryRow → Bool
is_retriable r = is_queued r.status || is_dead r.status

abbrev pub retry_item : ℕ → RetryRow → RetryRow
retry_item now r = record r {
  status = pending;
  attempts = if is_dead r.status || leb max_attempts r.attempts then 0 else r.attempts;
  ready_at = now;
  node = none;
  leased_at = none;
  last_error = none;
}

unfoldable pub retry_pending_queue : ℕ → RetryQueue → RetryQueue × ℕ
retry_pending_queue now q = (
  record q { rows = update_retries is_retriable (retry_item now) q.rows },
  affected_retries is_retriable q.rows,
)

abbrev pub is_spent : RetryRow → Bool
is_spent r = is_dead r.status || leb max_attempts r.attempts

abbrev pub reset_item : ℕ → RetryRow → RetryRow
reset_item now r = record r {
  status = pending;
  attempts = 0;
  ready_at = now;
  node = none;
  last_error = none;
}

unfoldable pub reset_retry_queue : ℕ → RetryQueue → RetryQueue × ℕ
reset_retry_queue now q = (
  record q { rows = update_retries is_spent (reset_item now) q.rows },
  affected_retries is_spent q.rows,
)
