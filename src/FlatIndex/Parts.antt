-- ===== src/FlatIndex/Parts.antt =====
-- internal/adapter/flatindex/scan.go: the parts of the workers and the file.
use sauce_dust.Prelude.{
  ℕ, zero, suc, ◌+◌, ◌-◌, ◌*◌, ◌/◌, ◌≤◌, ◌≡◌, refl, sym, subst, Bool, List, [], ◌∷◌, ltb, leb,
  arith, if◌then◌else◌, Bool-cases, inl, inr,
}
use native.Mathlib.Nat.{lt-div-mul-add}
use sauce_dust.FlatIndex.Scan.{Candidate, parts}
use sauce_dust.FlatIndex.TopOf.{countb, countb-append}
use sauce_dust.FlatIndex.Slots.{slots, slots-append}

unfoldable pub sum : (ℕ × ℕ → ℕ) → List (ℕ × ℕ) → ℕ
sum weight [] = 0
sum weight (p ∷ ps) = weight p + sum weight ps

-- The part ends within the file.
abbrev pub outside : ℕ → ℕ × ℕ → ℕ
outside count p = if leb p.1 count then 0 else 1

worker_parts :
    (workers count : ℕ) → 1 ≤ workers → count ≤ (0 + workers) * ((count + workers - 1) / workers)
worker_parts workers count h =
    let q = (count + workers - 1) / workers in
    let e : (0 + workers) * q ≡ q * workers = grind arith in
    rw e (omega (arith, lt-div-mul-add {a = count + workers - 1} {b = workers} h))

module _ (bytes query : List ℕ) (code_bytes : ℕ) where
  abbrev pub of_part : (Candidate → Bool) → ℕ × ℕ → ℕ
  of_part test p = countb test (slots bytes query code_bytes (p.1 - p.0) p.0)

  count_slots : (Candidate → Bool) → ℕ → ℕ → ℕ
  count_slots test n i = countb test (slots bytes query code_bytes n i)

  count_slots-add :
      (test : Candidate → Bool) (m n i : ℕ)
      → count_slots test (m + n) i ≡ count_slots test m i + count_slots test n (i + m)
  unfolding count_slots
  count_slots-add test m n i = rw (slots-append bytes query code_bytes m n i) (
      countb-append test (slots bytes query code_bytes m i)
        (slots bytes query code_bytes n (i + m)))

  count_slots-none : (test : Candidate → Bool) (n i : ℕ) → n ≡ 0 → count_slots test n i ≡ 0
  unfolding count_slots slots countb
  count_slots-none test n i e = rw e refl

  part_hi : ℕ → ℕ → ℕ
  part_hi end count = if ltb count end then count else end

  part_split :
      (test : Candidate → Bool) (lo per count : ℕ)
      → count_slots test (count - lo) lo
        ≡ count_slots test (part_hi (lo + per) count - lo) lo
          + count_slots test (count - (lo + per)) (lo + per)
  unfolding part_hi
  part_split test lo per count = elim (Bool-cases (ltb count (lo + per))) [
    | inl last ↦
        rw last
          (omega (arith, count_slots-none test (count - (lo + per)) (lo + per) (ground arith)))
    | inr more ↦
        let e : count - lo ≡ per + (count - (lo + per)) = ground arith in
        let f : lo + per - lo ≡ per = omega arith in
        rw more (rw e (rw f (count_slots-add test per (count - (lo + per)) lo)))
  ]

  sum-part :
      (test : Candidate → Bool) (lo hi : ℕ) (rest : List (ℕ × ℕ))
      → sum (of_part test) (if leb hi lo then rest else (lo, hi) ∷ rest)
        ≡ count_slots test (hi - lo) lo + sum (of_part test) rest
  unfolding sum count_slots
  sum-part test lo hi rest = elim (Bool-cases (leb hi lo)) [
    | inl no_slots ↦ rw no_slots (omega (arith, count_slots-none test (hi - lo) lo (ground arith)))
    | inr some_slots ↦ rw some_slots refl
  ]

  sum-parts :
      (test : Candidate → Bool) (n w per count : ℕ)
      → count ≤ (w + n) * per
      → sum (of_part test) (parts n w per count) ≡ count_slots test (count - w * per) (w * per)
  unfolding sum parts part_hi
  sum-parts test zero w per count h =
      let at : w + 0 ≡ w = omega arith in
      let le : count ≤ w * per = subst (λ x. count ≤ x * per) at h in
      sym (count_slots-none test (count - w * per) (w * per) (omega arith))
  sum-parts test (suc n) w per count h =
      let e : w + suc n ≡ suc w + n = omega arith in
      let next : suc w * per ≡ w * per + per = omega arith in
      let h' : count ≤ (suc w + n) * per = subst (λ x. count ≤ x * per) e h in
      let rest = sum-parts test n (suc w) per count h' in
      let split = part_split test (w * per) per count in
      rw (sum-part test (w * per) (part_hi (w * per + per) count) (parts n (suc w) per count)) (
        omega (
          arith,
          split,
          subst
              (λ x. sum (of_part test) (parts n (suc w) per count) ≡ count_slots test (count - x) x)
              next rest,
        ))

  pub inside-parts : (n w per count : ℕ) → sum (outside count) (parts n w per count) ≡ 0
  unfolding sum parts
  inside-parts zero w per count = refl
  inside-parts (suc n) w per count = ground (arith, inside-parts n (suc w) per count)

  -- The workers' parts make up the file.
  pub whole_file :
      (procs count : ℕ)
      → 1 ≤ count
      → 1 ≤ procs
      → let workers = if ltb count procs then count else procs in
        count ≤ (0 + workers) * ((count + workers - 1) / workers)
  whole_file procs count c p = elim (Bool-cases (ltb count procs)) [
    | inl few ↦ rw few (worker_parts count count c)
    | inr many ↦ rw many (worker_parts procs count p)
  ]

  pub sum_all :
      (test : Candidate → Bool) (workers per count : ℕ)
      → count ≤ (0 + workers) * per
      → sum (of_part test) (parts workers 0 per count)
        ≡ countb test (slots bytes query code_bytes count 0)
  unfolding count_slots
  sum_all test workers per count h =
      let from : 0 * per ≡ 0 = omega arith in
      let all : count - 0 ≡ count = omega arith in
      subst (λ x. sum (of_part test) (parts workers 0 per count) ≡ count_slots test x 0) all
        (subst
          (λ x. sum (of_part test) (parts workers 0 per count) ≡ count_slots test (count - x) x)
          from (sum-parts test workers 0 per count h))
