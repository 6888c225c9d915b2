-- ===== src/Config/Valid.antt =====
-- internal/config/config.go: what holds of settings that were accepted.
use sauce_dust.Prelude.{
  ◌≡◌, refl, sym, ap, subst, Bool, true, false, not, ◌&&◌, ◌||◌, if◌then◌else◌, arith, not_both,
}
use sauce_dust.Domain.Texts.{is_empty_text}
use sauce_dust.Domain.Source.{ℤ, pos}
use sauce_dust.Config.{
  lt_int, ◌≤ℤ◌, clamp, is_negative, Config, Refusal, Checked, ok, refused, ◌or◌, is_worker,
  corrected, validate,
}

-- What the crawler, the index and the fleet rely on.
pub record IsValid (c : Config) : Type 0 where
  pub some_jobs : pos 1 ≤ℤ c.min_concurrency
  pub jobs_low : c.min_concurrency ≤ℤ c.concurrency
  pub jobs_high : c.concurrency ≤ℤ c.max_concurrency
  pub rate_ok : is_negative c.rate_per_second ≡ false
  pub burst : pos 1 ≤ℤ c.rate_burst
  pub range : pos 1 ≤ℤ c.backfill_range_size
  pub lowest : pos 0 ≤ℤ c.backfill_floor
  pub cap : pos 0 ≤ℤ c.max_indexed
  pub size : pos 64 ≤ℤ c.thumb_size
  pub quality : (pos 1 ≤ℤ c.thumb_quality) × (c.thumb_quality ≤ℤ pos 100)
  pub beats : pos 1 ≤ℤ c.heartbeat_every
  pub patient : lt_int c.heartbeat_every c.node_timeout ≡ true
  pub reaches : (is_worker c.role && is_empty_text c.control_url) ≡ false

-- An accepted test and the tests after it.
pub or_ok :
    (test : Bool) (why : Refusal) (rest : Checked Config) (c : Config)
    → ((test, why) or rest) ≡ ok c
    → (test ≡ false) × (rest ≡ ok c)
or_ok true why rest c h = cc
or_ok false why rest c h = (refl, h)

clamp_within : (v lo hi : ℤ) → lt_int hi lo ≡ false → (lo ≤ℤ clamp v lo hi) × (clamp v lo hi ≤ℤ hi)
unfolding clamp
clamp_within v lo hi h = ground arith

ok_eq : {a b : Config} → ok a ≡ ok b → a ≡ b
ok_eq {a} h = ap (λ o. elim o [ ok x ↦ x | refused why ↦ a ]) h

at_least : (a b : ℤ) → lt_int a b ≡ false → b ≤ℤ a
at_least a b h = ground arith

corrected-burst : (z : ℤ) → pos 1 ≤ℤ (if lt_int z (pos 1) then pos 1 else z)
corrected-burst z = ground arith

both_false : (a b : Bool) → (a || b) ≡ false → (a ≡ false) × (b ≡ false)
both_false false b h = (refl, h)
both_false true b h = absurd (not_both (sym h))

pub negated : (b : Bool) → not b ≡ false → b ≡ true
negated true h = refl
negated false h = absurd (not_both (sym h))

-- The settings that are accepted are valid, and differ from those given at most in the number of jobs,
-- which is brought within its limits, and in the burst, which is at least 1.
pub validate-IsValid : (c d : Config) → validate c ≡ ok d → IsValid d × (d ≡ corrected c)
unfolding validate
validate-IsValid c d h =
    let (low, h1) = or_ok _ _ _ d h in
    let (ordered, h2) = or_ok _ _ _ d h1 in
    let (rate', h3) = or_ok _ _ _ d h2 in
    let (range', h4) = or_ok _ _ _ d h3 in
    let (floor', h5) = or_ok _ _ _ d h4 in
    let (cap', h6) = or_ok _ _ _ d h5 in
    let (size', h7) = or_ok _ _ _ d h6 in
    let (quality', h8) = or_ok _ _ _ d h7 in
    let (beats', h9) = or_ok _ _ _ d h8 in
    let (patient', h10) = or_ok _ _ _ d h9 in
    let (reaches', h11) = or_ok _ _ _ d h10 in
    let same : corrected c ≡ d = ok_eq h11 in
    let jobs = clamp_within c.concurrency c.min_concurrency c.max_concurrency ordered in
    let (bad_low, bad_high) = both_false (lt_int c.thumb_quality (pos 1)) _ quality' in
    let valid : IsValid (corrected c) = record {
      some_jobs = at_least c.min_concurrency (pos 1) low;
      jobs_low = jobs.0;
      jobs_high = jobs.1;
      rate_ok = rate';
      burst = corrected-burst c.rate_burst;
      range = at_least c.backfill_range_size (pos 1) range';
      lowest = at_least c.backfill_floor (pos 0) floor';
      cap = at_least c.max_indexed (pos 0) cap';
      size = at_least c.thumb_size (pos 64) size';
      quality =
          (at_least c.thumb_quality (pos 1) bad_low, at_least (pos 100) c.thumb_quality bad_high);
      beats = at_least c.heartbeat_every (pos 1) beats';
      patient = negated (lt_int c.heartbeat_every c.node_timeout) patient';
      reaches = reaches';
    } in
    (subst IsValid same valid, sym same)
