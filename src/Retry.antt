-- ===== src/Retry.antt =====
-- internal/adapter/postgres/lease.go, nodes.go and ranges.go: the table `crawl_post_retries`, the
-- posts to be tried again, for one site and scope. A statement of SQL is one step. Times and
-- durations are nanoseconds; a comparison with NULL is false.
use Prim.Native.String.{String}
use sauce_dust.Prelude.{
  ℕ, suc, ◌+◌, ◌-◌, Bool, true, false, not, ◌&&◌, ◌||◌, Option, none, some, List, [], ◌∷◌, ◌++◌,
  map, ltb, leb, ◌==◌, if◌then◌else◌, take,
}
use sauce_dust.Lease.Store.{lease_conflict, Reply, ok, err, max_attempts, is_stale}
use sauce_dust.Lease.Report.{detail}
pub mod Report
pub mod Rows
pub mod Settled
mod Examples

pub data RetryStatus : Type 0 where
  pending running succeeded dead : RetryStatus

-- One row of `crawl_post_retries`.
pub record RetryRow : Type 0 where
  pub id : ℕ
  pub source_post_id : ℕ
  pub status : RetryStatus
  pub attempts : ℕ
  pub node : Option String
  pub ready_at : ℕ
  pub leased_at : Option ℕ
  pub last_error : Option (List ℕ)

pub record RetryQueue : Type 0 where
  pub rows : List RetryRow
  pub next_id : ℕ

-- What a node holds: the row, and the attempts as its fencing token.
pub record PostRetry : Type 0 where
  pub id : ℕ
  pub source_post_id : ℕ
  pub attempts : ℕ

abbrev pub is_queued : RetryStatus → Bool
is_queued pending = true
is_queued _ = false

abbrev pub is_running : RetryStatus → Bool
is_running running = true
is_running _ = false

abbrev pub is_succeeded : RetryStatus → Bool
is_succeeded succeeded = true
is_succeeded _ = false

abbrev pub is_dead : RetryStatus → Bool
is_dead dead = true
is_dead _ = false

-- `UPDATE … WHERE` a test of the row.
unfoldable pub update_retries :
    (RetryRow → Bool) → (RetryRow → RetryRow) → List RetryRow → List RetryRow
update_retries test f [] = []
update_retries test f (r ∷ rs) = (if test r then f r else r) ∷ update_retries test f rs

-- `RowsAffected`
unfoldable pub affected_retries : (RetryRow → Bool) → List RetryRow → ℕ
affected_retries test [] = 0
affected_retries test (r ∷ rs) =
    (if test r then suc (affected_retries test rs) else affected_retries test rs)

abbrev pub has_post : ℕ → RetryRow → Bool
has_post post r = r.source_post_id == post

abbrev pub new_retry : ℕ → ℕ → ℕ → RetryRow
new_retry id post at = record {
  id = id;
  source_post_id = post;
  status = pending;
  attempts = 0;
  node = none;
  ready_at = at;
  leased_at = none;
  last_error = none;
}

abbrev pub is_open_post : ℕ → RetryRow → Bool
is_open_post post r = has_post post r && not (is_succeeded r.status)

abbrev pub requeue_item : ℕ → RetryRow → RetryRow
requeue_item at r = record r { status = pending; ready_at = at }

-- `INSERT … ON CONFLICT DO UPDATE`. The sequence takes an id in either case.
unfoldable pub enqueue_retry : ℕ → ℕ → RetryQueue → RetryQueue
enqueue_retry at post q =
    if affected_retries (has_post post) q.rows == 0
    then record { rows = new_retry q.next_id post at ∷ q.rows; next_id = suc q.next_id }
    else record {
      rows = update_retries (is_open_post post) (requeue_item at) q.rows;
      next_id = suc q.next_id;
    }

unfoldable pub enqueue_all : ℕ → List ℕ → RetryQueue → RetryQueue
enqueue_all at [] q = q
enqueue_all at (post ∷ posts) q = enqueue_all at posts (enqueue_retry at post q)

unfoldable pub enqueue_retries : List ℕ → ℕ → ℕ → RetryQueue → RetryQueue
unfolding enqueue_all
enqueue_retries posts delay now q = enqueue_all (now + delay) posts q

-- The rows that `LeaseRetries` may take: `locked` are those that another transaction has locked.
abbrev pub is_leasable : (ℕ → Bool) → ℕ → ℕ → RetryRow → Bool
is_leasable locked floor now r =
    ltb r.attempts max_attempts
    && (leb floor r.source_post_id
        && (((is_queued r.status && leb r.ready_at now)
              || (is_running r.status && is_stale r.leased_at now))
            && not (locked r.id)))

unfoldable pub select : (RetryRow → Bool) → List RetryRow → List RetryRow
select test [] = []
select test (r ∷ rs) = (if test r then r ∷ select test rs else select test rs)

-- `ORDER BY ready_at`
unfoldable pub insert_ready : RetryRow → List RetryRow → List RetryRow
insert_ready r [] = r ∷ []
insert_ready r (x ∷ xs) = (if ltb x.ready_at r.ready_at then x ∷ insert_ready r xs else r ∷ x ∷ xs)

unfoldable pub order_ready : List RetryRow → List RetryRow
order_ready [] = []
order_ready (r ∷ rs) = insert_ready r (order_ready rs)

unfoldable pub candidates : (ℕ → Bool) → ℕ → ℕ → ℕ → List RetryRow → List RetryRow
candidates locked limit floor now rs =
    take limit (order_ready (select (is_leasable locked floor now) rs))

-- The join on the id.
unfoldable pub is_among : List RetryRow → ℕ → Bool
is_among [] id = false
is_among (r ∷ rs) id = r.id == id || is_among rs id

abbrev pub lease_item : String → ℕ → RetryRow → RetryRow
lease_item node now r = record r {
  status = running;
  attempts = suc r.attempts;
  node = some node;
  leased_at = some now;
}

abbrev pub leased_item : RetryRow → PostRetry
leased_item r = record { id = r.id; source_post_id = r.source_post_id; attempts = suc r.attempts }

unfoldable pub lease_retries :
    (ℕ → Bool) → String → ℕ → ℕ → ℕ → RetryQueue → RetryQueue × List PostRetry
lease_retries locked node limit floor now q =
    let cs = candidates locked limit floor now q.rows in
    (
      record q { rows = update_retries (λ r. is_among cs r.id) (lease_item node now) q.rows },
      map leased_item cs,
    )
