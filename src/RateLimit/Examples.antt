-- ===== src/RateLimit/Examples.antt =====
-- internal/adapter/danbooru/ratelimit.go: five requests, one of them refused.
use sauce_dust.Prelude.{◌+◌, ◌*◌, ◌≤◌, ◌≡◌, refl, some, true, List, [], ◌∷◌}
use sauce_dust.RateLimit.{
  RateLimiter, Call, request, refused, releases, new_rate_limiter, wait, slot, penalize,
}
use sauce_dust.RateLimit.Spacing.{releases_spaced}

abbrev limiter : RateLimiter
limiter = record { interval = 100; burst = 200; next = 0 }

new_rate_limiter_test : new_rate_limiter true 100 3 ≡ some limiter
unfolding new_rate_limiter
new_rate_limiter_test = refl

abbrev calls : List Call
calls =
    request 1000 ∷ request 1000 ∷ request 1000 ∷ request 1010 ∷ refused 1020 500 ∷ request 1030 ∷ []

releases_test : releases limiter calls ≡ 1000 ∷ 1000 ∷ 1000 ∷ 1100 ∷ 1520 ∷ []
unfolding releases wait slot penalize
releases_test = refl

releases_spaced_example : 1000 + 3 * 100 ≤ 1100 + 200
unfolding releases wait slot penalize
releases_spaced_example = releases_spaced limiter calls 0 3 refl refl
