-- ===== src/RateLimit/Spacing.antt =====
-- internal/adapter/danbooru/ratelimit.go: the times at which the requests are let go.
use sauce_dust.Prelude.{
  ℕ, zero, suc, ◌+◌, ◌*◌, ◌≤◌, ◌<◌, ◌≡◌, some, Option, List, [], ◌∷◌, arith, get_elem?, subst,
  replicate,
}
use sauce_dust.RateLimit.{RateLimiter, wait, penalize, slot, releases, Call, request, refused}

penalize-next : (r : RateLimiter) (now d : ℕ) → r.next ≤ (penalize r now d).next
unfolding penalize
penalize-next r now d = ground arith

-- The request number `n` goes `n` intervals after the next slot, or later.
releases_after :
    (r : RateLimiter) (cs : List Call) (n : ℕ) {go : ℕ}
    → get_elem? (releases r cs) n ≡ some go
    → r.next + n * r.interval ≤ go
unfolding releases wait slot penalize
releases_after r [] n e = absurd (ground arith)
releases_after r (request now ∷ cs) zero e = ground arith
releases_after r (request now ∷ cs) (suc n) e = ground (arith, releases_after (wait r now).0 cs n e)
releases_after r (refused now d ∷ cs) n e =
    ground (arith, releases_after (penalize r now d) cs n e, penalize-next r now d)

at_index : (xs : List ℕ) {i j : ℕ} {o : Option ℕ} → i ≡ j → get_elem? xs i ≡ o → get_elem? xs j ≡ o
at_index xs {o = o} e h = subst (λ k. get_elem? xs k ≡ o) e h

-- In any order of calls, with refusals in between or without, the request that is let go `n` requests
-- after another one goes at least `n` intervals after it, less the burst.
pub releases_spaced :
    (r : RateLimiter) (cs : List Call) (i n : ℕ) {go go' : ℕ}
    → get_elem? (releases r cs) i ≡ some go
    → get_elem? (releases r cs) (i + n) ≡ some go'
    → go + n * r.interval ≤ go' + r.burst
unfolding releases wait slot penalize
releases_spaced r [] i n e e' = absurd (ground arith)
releases_spaced r (request now ∷ cs) zero zero e e' = ground arith
releases_spaced r (request now ∷ cs) zero (suc n) e e' =
    let later = at_index (releases r (request now ∷ cs)) {j = suc n} (omega arith) e' in
    ground (arith, releases_after (wait r now).0 cs n later)
releases_spaced r (request now ∷ cs) (suc i) n e e' =
    let later = at_index (releases r (request now ∷ cs)) {j = suc (i + n)} (omega arith) e' in
    releases_spaced (wait r now).0 cs i n e later
releases_spaced r (refused now d ∷ cs) i n e e' = releases_spaced (penalize r now d) cs i n e e'

-- After a refusal at `now` no request goes before `now + d`.
pub refused_waits :
    (r : RateLimiter) (cs : List Call) (now d i : ℕ) {go : ℕ}
    → 0 < d
    → get_elem? (releases r (refused now d ∷ cs)) i ≡ some go
    → now + d ≤ go
unfolding releases penalize
refused_waits r cs now d i pos e = ground (arith, releases_after (penalize r now d) cs i e)

requests_at_once :
    (r : RateLimiter) (now k i : ℕ)
    → i < k
    → r.next + i * r.interval ≤ now
    → r.burst ≤ now
    → i * r.interval ≤ r.burst
    → get_elem? (releases r (replicate k (request now))) i ≡ some now
unfolding releases wait slot
requests_at_once r now zero i h free rest fits = absurd (omega arith)
requests_at_once r now (suc k) zero h free rest fits = ground arith
requests_at_once r now (suc k) (suc i) h free rest fits =
    requests_at_once (wait r now).0 now k i (omega arith) (ground arith) rest (ground arith)

-- When the next slot is at least the burst in the past, as many requests at one instant as fit in
-- the burst, and one more, are all let go at that instant.
pub burst_at_once :
    (r : RateLimiter) (now k i : ℕ)
    → i < k
    → r.next + r.burst ≤ now
    → i * r.interval ≤ r.burst
    → get_elem? (releases r (replicate k (request now))) i ≡ some now
burst_at_once r now k i h rest fits = requests_at_once r now k i h (omega arith) (omega arith) fits
