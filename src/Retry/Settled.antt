-- ===== src/Retry/Settled.antt =====
-- internal/adapter/postgres/lease.go, nodes.go and ranges.go: the statements on the queue of
-- retries in any order, and what they do to a post that is done.
use Prim.Native.String.{String}
use sauce_dust.Prelude.{ℕ, ◌<◌, ◌≡◌, Bool, Option, List, [], ◌∷◌, ◌++◌}
use sauce_dust.Retry.Rows.{has_id}
use sauce_dust.Retry.{
  RetryStatus, RetryRow, RetryQueue, PostRetry, select, enqueue_retries, lease_retries,
}
use sauce_dust.Retry.Report.{
  release_retry, finish_retry, reschedule_retry, reclaim_retries, retry_pending_queue,
  reset_retry_queue,
}

pub data Op : Type 0 where
  enqueues : List ℕ → ℕ → Op
  leases : (ℕ → Bool) → String → ℕ → ℕ → Op
  finishes : PostRetry → RetryStatus → Option (List ℕ) → Op
  reschedules : PostRetry → ℕ → Option (List ℕ) → Op
  releases : PostRetry → Op
  reclaims : (Option String → Bool) → Op
  retries_pending : Op
  resets : Op

-- One statement at its time, with the items that it hands to a node.
unfoldable pub apply : ℕ × Op → RetryQueue → RetryQueue × List PostRetry
apply (now, enqueues posts delay) q = (enqueue_retries posts delay now q, [])
apply (now, leases locked node limit floor) q = lease_retries locked node limit floor now q
apply (now, finishes i status cause) q = ((finish_retry i status cause q).1, [])
apply (now, reschedules i delay cause) q = (reschedule_retry i delay cause now q, [])
apply (now, releases i) q = (release_retry i now q, [])
apply (now, reclaims lost) q = (reclaim_retries lost q, [])
apply (now, retries_pending) q = ((retry_pending_queue now q).0, [])
apply (now, resets) q = ((reset_retry_queue now q).0, [])

-- The queue after all of them, and everything that was handed out.
unfoldable pub run : List (ℕ × Op) → RetryQueue → RetryQueue × List PostRetry
unfolding apply
run [] q = (q, [])
run (op ∷ ops) q =
    let step = apply op q in let rest = run ops (step.0) in (rest.0, step.1 ++ rest.1)

-- A row stands alone under its id, which the sequence has given out.
abbrev pub StandsIn : RetryRow → RetryQueue → Type 0
StandsIn r q = (select (has_id r.id) q.rows ≡ r ∷ []) × (r.id < q.next_id)
