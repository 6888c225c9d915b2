-- ===== src/Limiter/Examples.antt =====
-- internal/app/adaptive.go: runs of the limiter, and its theorems at concrete inputs.
use sauce_dust.Prelude.{
  ℕ, ◌+◌, ◌-◌, ◌≤◌, ◌≡◌, refl, ltb, if◌then◌else◌, true, some, none, List, [], ◌∷◌,
}
use sauce_dust.Limiter.{
  LimiterConfig, Limiter, ok, throttled, normalize_config, new_limiter, acquire, give_back_locked,
  send_slot, total, report, clamp_target, shrink_one, empty_window, acquire, should_shrink,
  count_outcome,
}
use sauce_dust.Limiter
use sauce_dust.Limiter.Calls
use sauce_dust.Limiter.Interleaving
use sauce_dust.Limiter.Interleaving.{System, Reach, here, next, unlocks, starts, shrinks, ends}
use sauce_dust.Limiter.Invariant.{slots_conserved}
use sauce_dust.Limiter.Calls.{
  Call, acquires, releases, reports, ticks, set_limits, boot, run, acquire_iff_below_limit,
}

abbrev config : LimiterConfig
config = record { start = 2; min = 1; max = 4; interval = 10; enabled = true }

abbrev started : Limiter
started = record {
  cfg = config;
  limit = 2;
  slots = 2;
  debt = 0;
  window = empty_window;
  last_adj = 0;
}

-- One job takes a slot and is about to send it back.
abbrev one_returning : System
one_returning = record {
  limiter = record started { slots = 1 };
  level = 2;
  goal = none;
  holders = 0;
  returning = 1;
}

one_returning-Reach : Reach (Interleaving.boot config 0) one_returning
unfolding Interleaving.boot new_limiter acquire give_back_locked
one_returning-Reach =
    next (next here (Interleaving.Step.acquires (record started { slots = 1 }) refl refl))
      (unlocks 0 refl refl refl refl)

slots_conserved_example : (◌≡◌ {A = ℕ} (1 + 0 + 1) (2 + 0)) × (2 + 0 ≤ 4)
slots_conserved_example = slots_conserved config 0 one_returning one_returning-Reach refl

-- Two jobs run, the limit is halved, one of them ends: the next one has to wait.
abbrev shrunk : List Call
shrunk = acquires ∷ acquires ∷ reports throttled 20 ∷ releases ∷ []

shrunk_pays : (run (boot config 0) shrunk).limiter.debt ≡ 0
unfolding run boot Calls.step acquire Limiter.give_back report Limiter.tick Limiter.adjust_locked
    total count_outcome Limiter.set_locked clamp_target Limiter.target_of should_shrink
    Limiter.shrink shrink_one
shrunk_pays = refl

acquire_iff_below_limit_example : acquire (run (boot config 0) shrunk).limiter ≡ (
    if ltb (run (boot config 0) shrunk).holders (run (boot config 0) shrunk).limiter.limit
    then some (record ((run (boot config 0) shrunk).limiter) {
      slots = (run (boot config 0) shrunk).limiter.slots - 1;
    })
    else none)
acquire_iff_below_limit_example = acquire_iff_below_limit config 0 shrunk
