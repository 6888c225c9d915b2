-- ===== src/FlatIndex/Workers.antt =====
-- internal/adapter/flatindex/scan.go: `scan` merges the parts of its workers.
use sauce_dust.Prelude.{
  ℕ, zero, suc, ◌+◌, ◌-◌, ◌*◌, ◌/◌, ◌≤◌, ◌≡◌, refl, ◌∙◌, Bool, true, false, some, List, [], ◌∷◌,
  ◌++◌, length, take, ltb, ◌==◌, min, arith, if◌then◌else◌, Bool-cases, inl, inr, length-append,
  length-take,
}
use native.Mathlib.Nat.{mul-le-mul_right}
use sauce_dust.FlatIndex.Scan.{Candidate, Sort, Chunk, nearer_or_first, parts, gather, scan}
use sauce_dust.FlatIndex.TopOf.{
  countb, below, below_most, IsSort, IsTop, length-sort, countb-append, countb-take, below-take,
  nearer_or_first-IsByDist, length-countb,
}
use sauce_dust.FlatIndex.Slots.{slots}
use sauce_dust.FlatIndex.Nearest.{IsReader, scan_range-IsTop}
use sauce_dust.FlatIndex.Parts.{sum, outside, of_part, inside-parts, whole_file, sum_all}

-- The workers may finish in any order, but each does so once.
pub record IsOrder (order : List (ℕ × ℕ) → List (ℕ × ℕ)) : Type 0 where
  pub once : (weight : ℕ × ℕ → ℕ) (ps : List (ℕ × ℕ)) → sum weight (order ps) ≡ sum weight ps

module _ (sort : Sort) (laws : IsSort sort) (chunk : Chunk) (bytes query : List ℕ)
    (code_bytes want : ℕ) (reader : IsReader chunk bytes) (some_wanted : 1 ≤ want) where
  -- The results have, up to `want`, as many below each bound as the parts have, and no others.
  record IsMerged (all : List Candidate) (ps : List (ℕ × ℕ)) : Type 0 where
    nearest :
        (t : ℕ)
        → min want (below t all)
          ≡ min want (sum (of_part bytes query code_bytes (λ c. ltb c.dist t)) ps)
    size : min want (length all) ≡ min want (sum (of_part bytes query code_bytes (λ _. true)) ps)
    within :
        (test : Candidate → Bool) → countb test all ≤ sum (of_part bytes query code_bytes test) ps

  gather-IsMerged :
      (count : ℕ) (ps : List (ℕ × ℕ))
      → sum (outside count) ps ≡ 0
      → count * code_bytes ≤ length bytes
      → (all : List Candidate) × (gather sort chunk query code_bytes want ps ≡ some all)
        × IsMerged all ps
  unfolding gather sum countb
  gather-IsMerged count [] h long =
      ([], refl, record { nearest = λ t. refl; size = refl; within = λ test. omega arith })
  gather-IsMerged count ((lo, hi) ∷ ps) h long =
      let inside : hi ≤ count = ground arith in
      let first =
        scan_range-IsTop sort laws chunk bytes query code_bytes want reader some_wanted lo hi
          (omega (arith, long, mul-le-mul_right code_bytes inside)) in
      let rest = gather-IsMerged count ps (ground arith) long in
      (
        first.0 ++ rest.0,
        rw (first.1, gather) (rw (rest.1, gather) refl),
        record {
          nearest = λ t. omega (
            arith,
            first.2.nearest t,
            rest.2.nearest t,
            countb-append (λ c. ltb c.dist t) first.0 rest.0,
          );
          size = omega (
            arith,
            first.2.size,
            rest.2.size,
            length-append first.0 rest.0,
            length-countb (slots bytes query code_bytes (hi - lo) lo),
          );
          within = λ test.
              omega
                (arith, first.2.within test, rest.2.within test, countb-append test first.0 rest.0);
        },
      )

  -- What `scan` does with the results.
  cut-IsTop :
      (all target : List Candidate) (ps : List (ℕ × ℕ))
      → IsMerged all ps
      → ((test : Candidate → Bool)
          → sum (of_part bytes query code_bytes test) ps ≡ countb test target)
      → IsTop want
          (if ltb want (length (sort nearer_or_first all))
            then take want (sort nearer_or_first all)
            else sort nearer_or_first all)
          target
  cut-IsTop all target ps h same =
      let s = sort nearer_or_first all in
      let whole = length-sort sort laws nearer_or_first all in
      elim (Bool-cases (ltb want (length s))) [
        | inl long ↦ rw long (record {
          nearest = λ t. omega (
            arith,
            h.nearest t,
            same (λ c. ltb c.dist t),
            laws.same nearer_or_first (λ c. ltb c.dist t) all,
            below-take nearer_or_first nearer_or_first-IsByDist want t s
                (laws.nearer_or_first-IsSorted all),
          );
          size =
              omega
                (arith, h.size, same (λ _. true), length-countb target, whole, length-take want s);
          within = λ test. omega (
            arith,
            h.within test,
            same test,
            laws.same nearer_or_first test all,
            countb-take test want s,
          );
        })
        | inr short ↦
            let few : length s ≤ want = ground arith in
            rw short (record {
              nearest = λ t. omega (
                arith,
                few,
                h.nearest t,
                same (λ c. ltb c.dist t),
                laws.same nearer_or_first (λ c. ltb c.dist t) all,
                below_most t s,
              );
              size = omega (arith, few, h.size, same (λ _. true), length-countb target, whole);
              within = λ test.
                  omega (arith, h.within test, same test, laws.same nearer_or_first test all);
            })
      ]

  no_slots-IsTop : IsTop want [] (slots bytes query code_bytes 0 0)
  unfolding slots countb
  no_slots-IsTop = record {
    nearest = λ t. omega arith;
    size = omega arith;
    within = λ test. omega arith;
  }

  cut_all : List Candidate → List Candidate
  cut_all all =
      if ltb want (length (sort nearer_or_first all))
      then take want (sort nearer_or_first all)
      else sort nearer_or_first all

  scan_merges :
      (procs n : ℕ) (order : List (ℕ × ℕ) → List (ℕ × ℕ)) (all : List Candidate)
      → let workers = if ltb (suc n) procs then suc n else procs in
        let per = (suc n + workers - 1) / workers in
        gather sort chunk query code_bytes want (order (parts workers 0 per (suc n))) ≡ some all
        → scan sort chunk procs order query (suc n) code_bytes want ≡ some (cut_all all)
  unfolding scan cut_all
  scan_merges procs n order all e =
      let wanted : (want == 0) ≡ false = ground arith in
      let there : (suc n == 0) ≡ false = ground arith in
      rw (there, scan) (rw (wanted, scan) (rw (e, scan) refl))

  -- With readable codes and at least one processor, in whatever order the workers finish, the scan
  -- returns `want` of the nearest of all `count` slots, or all of them when there are fewer.
  pub scan-IsTop :
      (procs count : ℕ) (order : List (ℕ × ℕ) → List (ℕ × ℕ))
      → IsOrder order
      → 1 ≤ procs
      → count * code_bytes ≤ length bytes
      → (out : List Candidate) × (scan sort chunk procs order query count code_bytes want
          ≡ some out)
        × IsTop want out (slots bytes query code_bytes count 0)
  unfolding cut_all scan
  scan-IsTop procs zero order once one long = ([], refl, no_slots-IsTop)
  scan-IsTop procs (suc n) order once one long =
      let count = suc n in
      let workers = if ltb count procs then count else procs in
      let per = (count + workers - 1) / workers in
      let ps = parts workers 0 per count in
      let merged =
        gather-IsMerged count (order ps)
          (once.once (outside count) ps ∙ inside-parts bytes query code_bytes workers 0 per count)
          long in
      (
        cut_all merged.0,
        scan_merges procs n order merged.0 merged.1,
        cut-IsTop merged.0 (slots bytes query code_bytes count 0) (order ps) merged.2 (λ test.
            once.once (of_part bytes query code_bytes test) ps
            ∙ sum_all bytes query code_bytes test workers per count
                (whole_file bytes query code_bytes procs count (omega arith) one)),
      )
