-- ===== src/Retry/Examples.antt =====
-- internal/adapter/postgres/lease.go and ranges.go: runs of the queue of retries on small tables.
use sauce_dust.Prelude.{ℕ, ◌+◌, ◌*◌, ◌≡◌, refl, Bool, false, none, List, [], ◌∷◌, map}
use sauce_dust.Lease.Store.{minute, err, lease_conflict}
use sauce_dust.Retry.{
  RetryRow, RetryStatus, RetryQueue, PostRetry, update_retries, affected_retries, select,
  candidates, order_ready, insert_ready, enqueue_retry, is_among, pending, running, succeeded, dead,
  lease_retries, enqueue_retries,
}
use sauce_dust.Retry.Report.{finish_retry, reset_retry_queue}
use sauce_dust.Retry.Settled.{Op, enqueues, leases, finishes, resets, run}

abbrev row : ℕ → ℕ → RetryStatus → ℕ → RetryRow
row id post status attempts = record {
  id = id;
  source_post_id = post;
  status = status;
  attempts = attempts;
  node = none;
  ready_at = 10 + id;
  leased_at = none;
  last_error = none;
}

-- Post 70 is done, post 80 waits, post 90 has used up its attempts.
abbrev three_posts : RetryQueue
three_posts = record {
  rows = row 1 70 succeeded 2 ∷ row 2 80 pending 1 ∷ row 3 90 dead 5 ∷ [];
  next_id = 4;
}

abbrev unlocked : ℕ → Bool
unlocked id = false

abbrev item : ℕ → ℕ → ℕ → PostRetry
item id post attempts = record { id = id; source_post_id = post; attempts = attempts }

abbrev day : List (ℕ × Op)
day =
    (20, enqueues (70 ∷ 80 ∷ 100 ∷ []) 5)
    ∷ (30, leases unlocked "a" 10 0)
    ∷ (40, finishes (item 2 80 2) succeeded none)
    ∷ (50, resets)
    ∷ (60, leases unlocked "b" 10 0)
    ∷ []

abbrev ids : List PostRetry → List ℕ
ids is = map (λ (i : PostRetry). i.id) is

-- The three posts that are not done are handed out, the dead one after the reset.
day_test : ids ((run day three_posts).1) ≡ 6 ∷ 2 ∷ 3 ∷ []
unfolding run lease_retries candidates order_ready select enqueue_retries enqueue_retry
    affected_retries update_retries insert_ready reset_retry_queue finish_retry is_among
day_test = refl

-- A post that succeeded at its fifth attempt, and a node that still works on another.
abbrev last_chance : RetryQueue
last_chance = record { rows = row 1 70 succeeded 5 ∷ row 2 80 running 5 ∷ []; next_id = 3 }

abbrev statuses : List RetryRow → List RetryStatus
statuses rs = map (λ (r : RetryRow). r.status) rs

-- The reset puts both back, and the node's report is refused.
reset_test : statuses ((reset_retry_queue 50 last_chance).0.rows) ≡ pending ∷ pending ∷ []
unfolding reset_retry_queue update_retries
reset_test = refl

reset_refuses_test :
    (finish_retry (item 2 80 5) succeeded none ((reset_retry_queue 50 last_chance).0)).0
    ≡ err lease_conflict
unfolding finish_retry affected_retries reset_retry_queue update_retries
reset_refuses_test = refl

-- An enqueued post whose attempts are used up is pending and is not handed out any more.
stuck_test :
    ids (
      (lease_retries unlocked "a" 10 0 (2 * minute) (enqueue_retries (90 ∷ []) 0 30 three_posts)).1)
    ≡ 2 ∷ []
unfolding lease_retries candidates order_ready select enqueue_retries enqueue_retry affected_retries
    update_retries insert_ready
stuck_test = refl
