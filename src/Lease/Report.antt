-- ===== src/Lease/Report.antt =====
-- internal/adapter/postgres/lease.go: what a node reports of the range that it holds, and the
-- progress marks of `crawl_states`.
use sauce_dust.Prelude.{
  ℕ, ◌+◌, ◌-◌, ◌*◌, ◌^◌, max, Option, none, some, List, ltb, ◌==◌, if◌then◌else◌, take,
}
use sauce_dust.Lease.Store.{
  RangeStatus, Row, CrawlState, Store, CrawlRange, lease_conflict, Reply, ok, err, failed, minute,
  is_failed, update, affected, holds_lease,
}

-- A minute for the first failure, doubled for each one more, half an hour at most.
unfoldable pub retry_backoff : ℕ → ℕ
retry_backoff attempts =
    let low = if ltb attempts 1 then 1 else attempts in
    let n = if ltb 6 low then 6 else low in
    let wait = 2 ^ (n - 1) * minute in if ltb (30 * minute) wait then 30 * minute else wait

-- An error text is cut to 500 bytes.
abbrev pub detail : Option (List ℕ) → Option (List ℕ)
detail none = none
detail (some msg) = some (take 500 msg)

abbrev pub finish_row : RangeStatus → ℕ → Option (List ℕ) → ℕ → ℕ → Row → Row
finish_row status saved cause now wait r = record r {
  status = status;
  saved_count = saved;
  last_error = detail cause;
  finished_at = some now;
  node = none;
  ready_at = now + wait;
}

abbrev pub renew_row : ℕ → Row → Row
renew_row now r = record r { leased_at = some now }

-- GREATEST(attempts - 1, 0)
abbrev pub give_up_row : ℕ → Row → Row
give_up_row now r = record r {
  status = failed;
  attempts = r.attempts - 1;
  node = none;
  last_error = none;
  finished_at = none;
  ready_at = now;
}

-- An UPDATE that is an error when it reaches no row.
unfoldable pub report : CrawlRange → (Row → Row) → Store → Reply (Unit {0}) × Store
report c f s =
    if affected (holds_lease c) s.rows == 0
    then (err lease_conflict, s)
    else (ok tt, record s { rows = update (holds_lease c) f s.rows })

-- Only a failure makes the range wait.
abbrev pub finish_wait : RangeStatus → ℕ → ℕ
finish_wait status attempts = if is_failed status then retry_backoff attempts else 0

unfoldable pub finish_range :
    CrawlRange → RangeStatus → ℕ → Option (List ℕ) → ℕ → Store → Reply (Unit {0}) × Store
unfolding report
finish_range c status saved cause now s =
    report c (finish_row status saved cause now (finish_wait status c.attempts)) s

unfoldable pub renew_range : CrawlRange → ℕ → Store → Reply (Unit {0}) × Store
unfolding report
renew_range c now s = report c (renew_row now) s

unfoldable pub release_range : CrawlRange → ℕ → Store → Reply (Unit {0}) × Store
unfolding report
release_range c now s = report c (give_up_row now) s

abbrev pub or_zero : Option ℕ → ℕ
or_zero none = 0
or_zero (some n) = n

abbrev pub coalesce : Option ℕ → ℕ → ℕ
coalesce none d = d
coalesce (some n) d = n

abbrev pub init_state : ℕ → Option CrawlState → CrawlState
init_state latest none = record { high_watermark = some latest; backfill_before = some latest }
init_state latest (some st) = record {
  high_watermark = some (max (or_zero st.high_watermark) latest);
  backfill_before = some (coalesce st.backfill_before latest);
}

unfoldable pub init_catchup_state : ℕ → Store → Store
init_catchup_state latest s = record s { state = some (init_state latest s.state) }

abbrev pub watermark_of : Option CrawlState → ℕ
watermark_of none = 0
watermark_of (some st) = or_zero st.high_watermark

unfoldable pub high_watermark : Store → ℕ
high_watermark s = watermark_of s.state

abbrev pub advance_state : ℕ → Option CrawlState → Option CrawlState
advance_state id none = none
advance_state id (some st) =
    some (record st { high_watermark = some (max (or_zero st.high_watermark) id) })

unfoldable pub advance_watermark : ℕ → Store → Store
advance_watermark id s = record s { state = advance_state id s.state }
