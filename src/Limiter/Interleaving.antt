-- ===== src/Limiter/Interleaving.antt =====
-- internal/app/adaptive.go under concurrency. The mutex does not cover the channel: a job may take
-- a slot, or send the one that it owes after `giveBack` has unlocked, between any two rounds of the
-- loops of `setLocked`. Each step below is what one goroutine does without being seen half-way.
use sauce_dust.Prelude.{ℕ, suc, ◌+◌, ◌-◌, ◌<◌, ◌≡◌, true, false, Option, none, some}
use sauce_dust.Limiter.{
  LimiterConfig, WindowStats, Limiter, new_limiter, acquire, give_back_locked, send_slot, grow_one,
  shrink_one, clamp_target,
}

-- `level` is the loop variable of `setLocked`, `goal` its target while it holds the mutex;
-- `holders` are the jobs that run, `returning` the releases between the unlock and the send.
pub record System : Type 0 where
  pub limiter : Limiter
  pub level : ℕ
  pub goal : Option ℕ
  pub holders : ℕ
  pub returning : ℕ

unfoldable pub boot : LimiterConfig → ℕ → System
unfolding new_limiter
boot cfg now = record {
  limiter = new_limiter cfg now;
  level = (new_limiter cfg now).limit;
  goal = none;
  holders = 0;
  returning = 0;
}

pub data Step (s : System) (t : System) : Type 0 where
  acquires :
      (l : Limiter)
      → acquire s.limiter ≡ some l
      → t ≡ record s { limiter = l; holders = s.holders + 1 }
      → Step s t
  pays :
      (h : ℕ)
      → s.goal ≡ none
      → s.holders ≡ suc h
      → (give_back_locked s.limiter).1 ≡ false
      → t ≡ record s { limiter = (give_back_locked s.limiter).0; holders = h }
      → Step s t
  unlocks :
      (h : ℕ)
      → s.goal ≡ none
      → s.holders ≡ suc h
      → (give_back_locked s.limiter).1 ≡ true
      → t ≡ record s {
        limiter = (give_back_locked s.limiter).0;
        holders = h;
        returning = s.returning + 1;
      }
      → Step s t
  sends :
      (r : ℕ)
      → s.returning ≡ suc r
      → t ≡ record s { limiter = send_slot s.limiter; returning = r }
      → Step s t
  records :
      (w : WindowStats) (at : ℕ)
      → s.goal ≡ none
      → t ≡ record s { limiter = record (s.limiter) { window = w; last_adj = at } }
      → Step s t
  starts :
      (target : ℕ)
      → s.goal ≡ none
      → t ≡ record s { goal = some (clamp_target s.limiter.cfg target) }
      → Step s t
  grows :
      (goal : ℕ)
      → s.goal ≡ some goal
      → s.level < goal
      → t ≡ record s { limiter = grow_one s.limiter; level = s.level + 1 }
      → Step s t
  shrinks :
      (goal : ℕ)
      → s.goal ≡ some goal
      → goal < s.level
      → t ≡ record s { limiter = shrink_one s.limiter; level = s.level - 1 }
      → Step s t
  ends :
      s.goal ≡ some s.level
      → t ≡ record s { limiter = record (s.limiter) { limit = s.level }; goal = none }
      → Step s t

pub data Reach (s : System) : System → Type 0 where
  here : Reach s s
  next : {t u : System} → Reach s t → Step t u → Reach s u
