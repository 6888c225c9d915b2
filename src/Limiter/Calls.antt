-- ===== src/Limiter/Calls.antt =====
-- internal/app/adaptive.go where calls do not overlap: each call of the limiter as one step, and
-- the calls as runs of the steps of Limiter/Interleaving.
use sauce_dust.Prelude.{
  ℕ, zero, suc, ◌+◌, ◌-◌, ◌≤◌, ◌<◌, ◌≡◌, refl, Option, none, some, List, [], ◌∷◌, arith, ◌⊎◌, ltb,
  if◌then◌else◌,
}
use sauce_dust.Limiter.{
  LimiterConfig, Limiter, Outcome, normalize_config, new_limiter, acquire, give_back, grow_one,
  shrink_one, grow, shrink, clamp_target, move_to, set_locked, adjust_locked, tick, report,
  set_limit, target_of,
}

pub data Call : Type 0 where
  acquires releases : Call
  reports : Outcome → ℕ → Call
  ticks : ℕ → Call
  set_limits : ℕ → Call

-- The limiter with the number of jobs that hold a slot.
pub record Held : Type 0 where
  pub limiter : Limiter
  pub holders : ℕ

acquire_step : Option Limiter → Held → Held
acquire_step none s = s
acquire_step (some l) s = record s { limiter = l; holders = s.holders + 1 }

release_step : ℕ → Held → Held
release_step zero s = s
release_step (suc h) s = record s { limiter = give_back s.limiter; holders = h }

-- A job that finds no slot waits, and `once.Do` makes a second release of one slot do nothing.
unfoldable pub step : Held → Call → Held
unfolding acquire_step release_step
step s acquires = acquire_step (acquire s.limiter) s
step s releases = release_step s.holders s
step s (reports o now) = record s { limiter = report o now s.limiter }
step s (ticks now) = record s { limiter = tick now s.limiter }
step s (set_limits n) = record s { limiter = set_limit n s.limiter }

unfoldable pub run : Held → List Call → Held
run s [] = s
run s (c ∷ cs) = run (step s c) cs

unfoldable pub boot : LimiterConfig → ℕ → Held
unfolding new_limiter
boot cfg now = record { limiter = new_limiter cfg now; holders = 0 }

-- `level` is the value that `limit` is moving through.
record Balanced (l : Limiter) (level holders : ℕ) : Type 0 where
  ordered : (1 ≤ l.cfg.min) × (l.cfg.min ≤ l.cfg.max)
  conserved : l.slots + holders ≡ level + l.debt
  capped : level + l.debt ≤ l.cfg.max
  paid : (l.slots ≡ 0) ⊎ (l.debt ≡ 0)

grow_one-Balanced :
    (l : Limiter) (level holders : ℕ)
    → Balanced l level holders
    → level < l.cfg.max
    → Balanced (grow_one l) (suc level) holders
unfolding grow_one
grow_one-Balanced l level holders v below = ground arith

shrink_one-Balanced :
    (l : Limiter) (level holders : ℕ)
    → Balanced l (suc level) holders
    → Balanced (shrink_one l) level holders
unfolding shrink_one
shrink_one-Balanced l level holders v = ground arith

grow_one-cfg : (l : Limiter) → (grow_one l).cfg ≡ l.cfg
unfolding grow_one
grow_one-cfg l = ground arith

shrink_one-cfg : (l : Limiter) → (shrink_one l).cfg ≡ l.cfg
unfolding shrink_one
shrink_one-cfg l = ground arith

pub grow-cfg : (n : ℕ) (l : Limiter) → (grow n l).cfg ≡ l.cfg
unfolding grow
grow-cfg zero l = refl
grow-cfg (suc n) l = ground (arith, grow-cfg n (grow_one l), grow_one-cfg l)

pub shrink-cfg : (n : ℕ) (l : Limiter) → (shrink n l).cfg ≡ l.cfg
unfolding shrink
shrink-cfg zero l = refl
shrink-cfg (suc n) l = ground (arith, shrink-cfg n (shrink_one l), shrink_one-cfg l)

grow-Balanced :
    (n : ℕ) (l : Limiter) (level holders goal : ℕ)
    → Balanced l level holders
    → level + n ≡ goal
    → goal ≤ l.cfg.max
    → Balanced (grow n l) goal holders
unfolding grow
grow-Balanced zero l level holders goal v e h = ground arith
grow-Balanced (suc n) l level holders goal v e h =
    grow-Balanced n (grow_one l) (suc level) holders goal
      (grow_one-Balanced l level holders v (omega arith)) (omega arith)
      (ground (arith, grow_one-cfg l))

shrink-Balanced :
    (n : ℕ) (l : Limiter) (level holders goal : ℕ)
    → Balanced l level holders
    → goal + n ≡ level
    → Balanced (shrink n l) goal holders
unfolding shrink
shrink-Balanced zero l level holders goal v e = ground arith
shrink-Balanced (suc n) l level holders goal v e =
    let e' : level ≡ suc (goal + n) = omega arith in
    shrink-Balanced n (shrink_one l) (goal + n) holders goal
      (shrink_one-Balanced l (goal + n) holders (subst_level e')) refl
  where
    subst_level : level ≡ suc (goal + n) → Balanced l (suc (goal + n)) holders
    subst_level e' = ground arith

abbrev IsGood : Limiter → ℕ → Type 0
IsGood l holders = Balanced l l.limit holders

move_to-IsGood :
    (t : ℕ) (l : Limiter) (holders : ℕ)
    → IsGood l holders
    → t ≤ l.cfg.max
    → IsGood (move_to t l) holders
unfolding move_to
move_to-IsGood t l holders v h = ground (
  arith,
  grow-Balanced (t - l.limit) l l.limit holders t v,
  shrink-Balanced (l.limit - t) l l.limit holders t v,
)

clamp_target-le : (cfg : LimiterConfig) (n : ℕ) → clamp_target cfg n ≤ cfg.max
unfolding clamp_target
clamp_target-le cfg n = ground arith

set_locked-IsGood :
    (t : ℕ) (l : Limiter) (holders : ℕ) → IsGood l holders → IsGood (set_locked t l) holders
unfolding set_locked
set_locked-IsGood t l holders v =
    move_to-IsGood (clamp_target l.cfg t) l holders v (clamp_target-le l.cfg t)

tick-IsGood : (now : ℕ) (l : Limiter) (holders : ℕ) → IsGood l holders → IsGood (tick now l) holders
unfolding tick adjust_locked
tick-IsGood now l holders v = ground (arith, set_locked-IsGood (target_of l) l holders v)

step-IsGood :
    (s : Held) (c : Call)
    → IsGood s.limiter s.holders
    → IsGood (step s c).limiter (step s c).holders
unfolding step acquire give_back report set_limit
step-IsGood s acquires v = ground arith
step-IsGood s releases v = ground arith
step-IsGood s (reports o now) v = tick-IsGood now _ s.holders (ground arith)
step-IsGood s (ticks now) v = tick-IsGood now s.limiter s.holders v
step-IsGood s (set_limits n) v = set_locked-IsGood n s.limiter s.holders v

run-IsGood :
    (s : Held) (cs : List Call)
    → IsGood s.limiter s.holders
    → IsGood (run s cs).limiter (run s cs).holders
unfolding run
run-IsGood s [] v = v
run-IsGood s (c ∷ cs) v = run-IsGood (step s c) cs (step-IsGood s c v)

boot-IsGood : (cfg : LimiterConfig) (now : ℕ) → IsGood (boot cfg now).limiter (boot cfg now).holders
unfolding boot normalize_config
boot-IsGood cfg now = ground arith

-- After any calls that do not overlap, a job gets a slot exactly when fewer than `limit` jobs
-- run, whatever the limit was while those jobs started, and taking it uses up one slot.
pub acquire_iff_below_limit :
    (cfg : LimiterConfig) (now : ℕ) (cs : List Call)
    → let s = run (boot cfg now) cs in
      acquire s.limiter ≡ (
        if ltb s.holders s.limiter.limit
        then some (record (s.limiter) { slots = s.limiter.slots - 1 })
        else none)
unfolding acquire
acquire_iff_below_limit cfg now cs =
    ground (arith, run-IsGood (boot cfg now) cs (boot-IsGood cfg now))
