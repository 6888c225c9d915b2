-- ===== src/Limiter/Invariant.antt =====
-- What holds of the limiter in every interleaving (internal/app/adaptive.go).
use sauce_dust.Prelude.{ℕ, ◌+◌, ◌≤◌, ◌<◌, ◌≡◌, Option, none, some, arith}
use sauce_dust.Limiter.{
  LimiterConfig, normalize_config, acquire, give_back_locked, send_slot, grow_one, shrink_one,
  clamp_target,
}
use sauce_dust.Limiter.Interleaving.{
  System, boot, Step, acquires, pays, unlocks, sends, records, starts, grows, shrinks, ends, Reach,
  here, next,
}

abbrev pub IsWithin : LimiterConfig → ℕ → Type 0
IsWithin cfg n = (cfg.min ≤ n) × (n ≤ cfg.max)

abbrev pub GoalIsWithin : LimiterConfig → Option ℕ → Type 0
GoalIsWithin cfg none = Unit {0}
GoalIsWithin cfg (some g) = IsWithin cfg g

abbrev pub IsSettled : Option ℕ → ℕ → ℕ → Type 0
IsSettled none level limit = level ≡ limit
IsSettled (some g) level limit = Unit {0}

pub record Inv (s : System) : Type 0 where
  pub config_ordered : (1 ≤ s.limiter.cfg.min) × (s.limiter.cfg.min ≤ s.limiter.cfg.max)
  pub conserved : s.limiter.slots + s.holders + s.returning ≡ s.level + s.limiter.debt
  pub capped : s.level + s.limiter.debt ≤ s.limiter.cfg.max
  pub level_within : IsWithin s.limiter.cfg s.level
  pub limit_within : IsWithin s.limiter.cfg s.limiter.limit
  pub goal_within : GoalIsWithin s.limiter.cfg s.goal
  pub settled : IsSettled s.goal s.level s.limiter.limit

pub clamp_target-IsWithin :
    (cfg : LimiterConfig) (n : ℕ) → cfg.min ≤ cfg.max → IsWithin cfg (clamp_target cfg n)
unfolding clamp_target
clamp_target-IsWithin cfg n h = ground arith

pub boot-Inv : (cfg : LimiterConfig) (now : ℕ) → Inv (boot cfg now)
unfolding boot normalize_config
boot-Inv cfg now = ground arith

-- Every step of every goroutine keeps the invariant.
pub Step-Inv : (s t : System) → Step s t → Inv s → Inv t
unfolding acquire give_back_locked send_slot grow_one shrink_one
Step-Inv s t (acquires l h e) v = ground arith
Step-Inv s t (pays h free held flag e) v = ground arith
Step-Inv s t (unlocks h free held flag e) v = ground arith
Step-Inv s t (sends r owed e) v = ground arith
Step-Inv s t (records w at free e) v = ground arith
Step-Inv s t (starts target free e) v =
    ground (arith, clamp_target-IsWithin s.limiter.cfg target v.config_ordered.1)
Step-Inv s t (grows goal g below e) v = ground arith
Step-Inv s t (shrinks goal g above e) v = ground arith
Step-Inv s t (ends g e) v = ground arith

pub Reach-Inv : (s : System) {t : System} → Inv s → Reach s t → Inv t
Reach-Inv s v here = v
Reach-Inv s v (next {t} {u} r st) = Step-Inv t u st (Reach-Inv s v r)

-- A slot is never lost or made up: whatever the order of the steps, the free slots, the running
-- jobs and the slots on their way back make up the limit and the debt, and fit into the channel.
pub slots_conserved :
    (cfg : LimiterConfig) (now : ℕ) (s : System)
    → Reach (boot cfg now) s
    → s.goal ≡ none
    → (s.limiter.slots + s.holders + s.returning ≡ s.limiter.limit + s.limiter.debt)
      × (s.limiter.limit + s.limiter.debt ≤ s.limiter.cfg.max)
slots_conserved cfg now s r free = ground (arith, Reach-Inv (boot cfg now) (boot-Inv cfg now) r)

-- The `default` branch of `giveBack` is dead: a slot on its way back always finds room.
pub send_never_drops :
    (cfg : LimiterConfig) (now : ℕ) (s : System)
    → Reach (boot cfg now) s
    → 0 < s.returning
    → (send_slot s.limiter).slots ≡ s.limiter.slots + 1
unfolding send_slot
send_never_drops cfg now s r owed = ground (arith, Reach-Inv (boot cfg now) (boot-Inv cfg now) r)
