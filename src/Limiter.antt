-- ===== src/Limiter.antt =====
-- internal/app/adaptive.go: the number of jobs that run at once, raised by one while all goes well
-- and halved when the other side pushes back. The channel `slots` is the number of tokens in it.
pub mod Interleaving
pub mod Invariant
pub mod Calls
pub mod Policy
mod Examples
use sauce_dust.Prelude.{
  ℕ, zero, suc, ◌+◌, ◌-◌, ◌*◌, ◌/◌, Bool, true, false, ◌&&◌, ◌||◌, ltb, leb, ◌==◌, if◌then◌else◌,
  Option, none, some,
}

pub data Outcome : Type 0 where
  ok throttled timeout failed : Outcome

-- Durations and times are nanoseconds.
pub record LimiterConfig : Type 0 where
  pub start : ℕ
  pub min : ℕ
  pub max : ℕ
  pub interval : ℕ
  pub enabled : Bool

pub record WindowStats : Type 0 where
  pub oks : ℕ
  pub throttleds : ℕ
  pub timeouts : ℕ
  pub faileds : ℕ

pub record Limiter : Type 0 where
  pub cfg : LimiterConfig
  pub limit : ℕ
  pub slots : ℕ
  pub debt : ℕ
  pub window : WindowStats
  pub last_adj : ℕ

abbrev pub empty_window : WindowStats
empty_window = record { oks = 0; throttleds = 0; timeouts = 0; faileds = 0 }

unfoldable pub total : WindowStats → ℕ
total w = w.oks + w.throttleds + w.timeouts + w.faileds

unfoldable pub should_shrink : WindowStats → Bool
unfolding total
should_shrink w =
    if ltb 0 w.throttleds || ltb 0 w.timeouts
    then true
    else leb 8 (total w) && ltb (total w) (w.faileds * 4)

abbrev pub default_interval : ℕ
default_interval = 10_000_000_000

abbrev raise_to : ℕ → ℕ → ℕ
raise_to lo n = if ltb n lo then lo else n

-- The three corrections that `NewLimiter` makes to the configuration.
unfoldable pub normalize_config : LimiterConfig → LimiterConfig
normalize_config cfg = record cfg {
  min = raise_to 1 cfg.min;
  max = raise_to (raise_to 1 cfg.min) cfg.max;
  interval = if cfg.interval == 0 then default_interval else cfg.interval;
}

unfoldable pub new_limiter : LimiterConfig → ℕ → Limiter
unfolding normalize_config
new_limiter raw now =
    let cfg = normalize_config raw in
    let low = raise_to cfg.min cfg.start in
    let start = if ltb cfg.max low then cfg.max else low in
    record {
      cfg = cfg;
      limit = start;
      slots = start;
      debt = 0;
      window = empty_window;
      last_adj = now;
    }

-- The non-blocking send on `slots`, whose buffer has `cfg.Max` places.
unfoldable pub send_slot : Limiter → Limiter
send_slot l = if ltb l.slots l.cfg.max then record l { slots = l.slots + 1 } else l

-- `giveBack` up to the unlock: the flag says that the slot is still to be sent.
unfoldable pub give_back_locked : Limiter → Limiter × Bool
give_back_locked l = if ltb 0 l.debt then (record l { debt = l.debt - 1 }, false) else (l, true)

-- The whole of `giveBack`, when nothing comes in between.
unfoldable pub give_back : Limiter → Limiter
unfolding give_back_locked send_slot
give_back l = let (l', sends) = give_back_locked l in if sends then send_slot l' else l'

-- `Acquire` where the context is not done: it waits while there is no slot.
unfoldable pub acquire : Limiter → Option Limiter
acquire l = if ltb 0 l.slots then some (record l { slots = l.slots - 1 }) else none

-- One round of each loop of `setLocked`.
unfoldable pub grow_one : Limiter → Limiter
unfolding send_slot
grow_one l = if ltb 0 l.debt then record l { debt = l.debt - 1 } else send_slot l

unfoldable pub shrink_one : Limiter → Limiter
shrink_one l =
    if ltb 0 l.slots then record l { slots = l.slots - 1 } else record l { debt = l.debt + 1 }

unfoldable pub grow : ℕ → Limiter → Limiter
grow zero l = l
grow (suc n) l = grow n (grow_one l)

unfoldable pub shrink : ℕ → Limiter → Limiter
shrink zero l = l
shrink (suc n) l = shrink n (shrink_one l)

-- The target within `Min` and `Max`, by the two tests at the head of `setLocked`.
unfoldable pub clamp_target : LimiterConfig → ℕ → ℕ
clamp_target cfg target =
    let low = raise_to cfg.min target in if ltb cfg.max low then cfg.max else low

unfoldable pub move_to : ℕ → Limiter → Limiter
move_to target l =
    if target == l.limit
    then l
    else if ltb l.limit target
    then record (grow (target - l.limit) l) { limit = target }
    else record (shrink (l.limit - target) l) { limit = target }

unfoldable pub set_locked : ℕ → Limiter → Limiter
unfolding move_to
set_locked target l = move_to (clamp_target l.cfg target) l

unfoldable pub target_of : Limiter → ℕ
target_of l =
    if should_shrink l.window
    then l.limit / 2
    else if ltb 0 l.window.oks
    then l.limit + 1
    else l.limit

-- The deferred reset runs on both ways out.
unfoldable pub adjust_locked : ℕ → Limiter → Limiter
adjust_locked now l =
    let l' = if total l.window == 0 then l else set_locked (target_of l) l in
    record l' { window = empty_window; last_adj = now }

unfoldable pub count_outcome : Outcome → WindowStats → WindowStats
count_outcome ok w = record w { oks = w.oks + 1 }
count_outcome throttled w = record w { throttleds = w.throttleds + 1 }
count_outcome timeout w = record w { timeouts = w.timeouts + 1 }
count_outcome failed w = record w { faileds = w.faileds + 1 }

-- `now.Sub(lastAdj) < Interval`: a clock that runs backwards gives less than any interval.
unfoldable pub tick : ℕ → Limiter → Limiter
tick now l = if not_due then l else adjust_locked now l
  where
    not_due : Bool
    not_due = if l.cfg.enabled then ltb (now - l.last_adj) l.cfg.interval else true

unfoldable pub report : Outcome → ℕ → Limiter → Limiter
report outcome now l = tick now (record l { window = count_outcome outcome l.window })

unfoldable pub set_limit : ℕ → Limiter → Limiter
set_limit target l = set_locked target l
