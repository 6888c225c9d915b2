-- ===== src/RateLimit.antt =====
-- internal/adapter/danbooru/ratelimit.go: how many requests a second are sent to the image host.
-- Times are nanoseconds after the zero `time.Time`, so a time before it does not occur: `now - burst`
-- stops at 0 and no `next` is before 0. The interval is the quotient of two floats and is given.
pub mod Spacing
mod Examples
use sauce_dust.Prelude.{
  ℕ, ◌+◌, ◌-◌, ◌*◌, Bool, ltb, ◌==◌, if◌then◌else◌, Option, none, some, List, [], ◌∷◌,
}

pub record RateLimiter : Type 0 where
  pub interval : ℕ
  pub burst : ℕ
  pub next : ℕ

-- `none` is the nil limiter of a rate that is not positive.
unfoldable pub new_rate_limiter : Bool → ℕ → ℕ → Option RateLimiter
new_rate_limiter positive interval burst =
    if positive
    then some (record {
      interval = interval;
      burst = ((if ltb burst 1 then 1 else burst) - 1) * interval;
      next = 0;
    })
    else none

-- The slot that a request at `now` gets.
unfoldable pub slot : RateLimiter → ℕ → ℕ
slot r now = if ltb r.next (now - r.burst) then now - r.burst else r.next

-- The limiter after the locked part, and the delay: the source returns at once where it is 0 or less.
unfoldable pub wait : RateLimiter → ℕ → RateLimiter × ℕ
unfolding slot
wait r now = (record r { next = slot r now + r.interval }, slot r now - now)

unfoldable pub penalize : RateLimiter → ℕ → ℕ → RateLimiter
penalize r now d = record r {
  next = if d == 0 then r.next else if ltb r.next (now + d) then now + d else r.next;
}

unfoldable pub wait_opt : Option RateLimiter → ℕ → Option RateLimiter × ℕ
unfolding wait
wait_opt none now = (none, 0)
wait_opt (some r) now = let (r', delay) = wait r now in (some r', delay)

-- The calls in the order in which they take the lock, each with the time it reads there.
pub data Call : Type 0 where
  request : ℕ → Call
  refused : ℕ → ℕ → Call

-- The times at which the requests are let go.
unfoldable pub releases : RateLimiter → List Call → List ℕ
unfolding wait
releases r [] = []
releases r (request now ∷ cs) = (now + (wait r now).1) ∷ releases (wait r now).0 cs
releases r (refused now d ∷ cs) = releases (penalize r now d) cs
