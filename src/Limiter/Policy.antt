-- ===== src/Limiter/Policy.antt =====
-- internal/app/adaptive.go: by how much the limit moves.
use sauce_dust.Prelude.{
  ℕ, ◌+◌, ◌/◌, ◌≤◌, ◌≡◌, true, false, arith, max, min, ltb, if◌then◌else◌, ◌<◌, ◌⊎◌,
}
use sauce_dust.Limiter.{
  Limiter, WindowStats, Outcome, ok, throttled, timeout, failed, empty_window, total, should_shrink,
  count_outcome, clamp_target, set_locked, target_of, adjust_locked, tick, report,
}

abbrev pub policy : WindowStats → Limiter → ℕ
policy w l =
    if should_shrink w
    then max l.cfg.min (l.limit / 2)
    else if ltb 0 w.oks
    then min l.cfg.max (l.limit + 1)
    else l.limit

set_locked-limit : (t : ℕ) (l : Limiter) → (set_locked t l).limit ≡ clamp_target l.cfg t
unfolding set_locked
set_locked-limit t l = ground arith

clamp-target_of :
    (l : Limiter)
    → 1 ≤ l.cfg.min
    → l.cfg.min ≤ l.limit
    → l.limit ≤ l.cfg.max
    → clamp_target l.cfg (target_of l) ≡ policy l.window l
unfolding clamp_target target_of
clamp-target_of l one lo hi = ground arith

total-count_outcome : (o : Outcome) (w : WindowStats) → 0 < total (count_outcome o w)
unfolding total count_outcome
total-count_outcome ok w = omega arith
total-count_outcome throttled w = omega arith
total-count_outcome timeout w = omega arith
total-count_outcome failed w = omega arith

adjust_due :
    (now : ℕ) (l : Limiter)
    → 0 < total l.window
    → 1 ≤ l.cfg.min
    → l.cfg.min ≤ l.limit
    → l.limit ≤ l.cfg.max
    → ((adjust_locked now l).limit ≡ policy l.window l)
      × ((adjust_locked now l).window ≡ empty_window)
      × ((adjust_locked now l).last_adj ≡ now)
unfolding adjust_locked
adjust_due now l some_outcome one lo hi =
    ground (arith, set_locked-limit (target_of l) l, clamp-target_of l one lo hi)

tick_due :
    (now : ℕ) (l : Limiter)
    → l.cfg.enabled ≡ true
    → l.last_adj + l.cfg.interval ≤ now
    → tick now l ≡ adjust_locked now l
unfolding tick
tick_due now l on due = ground arith

-- A due report moves the limit by the policy: half of it, and no less than `Min`, when the window
-- with this outcome has a refusal, a timeout or more than a quarter of at least eight failed; one
-- more, and no more than `Max`, when it does not and has a success; else it stays. The window
-- starts afresh.
pub report_due :
    (o : Outcome) (now : ℕ) (l : Limiter)
    → l.cfg.enabled ≡ true
    → l.last_adj + l.cfg.interval ≤ now
    → 1 ≤ l.cfg.min
    → l.cfg.min ≤ l.limit
    → l.limit ≤ l.cfg.max
    → ((report o now l).limit ≡ policy (count_outcome o l.window) l)
      × ((report o now l).window ≡ empty_window)
      × ((report o now l).last_adj ≡ now)
unfolding report
report_due o now l on due one lo hi =
    rw (tick_due now (record l { window = count_outcome o l.window }) on due) (
      adjust_due now (record l { window = count_outcome o l.window })
        (total-count_outcome o l.window) one lo hi)

-- Before the interval is over, or with adjustment switched off, a report only counts its outcome.
pub report_not_due :
    (o : Outcome) (now : ℕ) (l : Limiter)
    → (l.cfg.enabled ≡ false) ⊎ (now < l.last_adj + l.cfg.interval)
    → 0 < l.cfg.interval
    → report o now l ≡ record l { window = count_outcome o l.window }
unfolding report tick
report_not_due o now l early positive = ground arith
