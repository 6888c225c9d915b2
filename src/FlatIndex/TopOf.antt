-- ===== src/FlatIndex/TopOf.antt =====
-- internal/adapter/flatindex/scan.go: what it is for a list to hold the nearest candidates of
-- another, and what is relied on of `sort.Slice`.
use sauce_dust.Prelude.{
  ℕ, zero, suc, ◌+◌, ◌≤◌, ◌<◌, ◌≡◌, refl, Bool, true, false, List, [], ◌∷◌, ◌++◌, length, take, min,
  ltb, arith, if◌then◌else◌, Bool-cases, inl, inr,
}
use sauce_dust.FlatIndex.Scan.{Candidate, Sort, nearer, nearer_or_first, dist_at}

unfoldable pub countb : (Candidate → Bool) → List Candidate → ℕ
countb test [] = 0
countb test (c ∷ cs) = (if test c then 1 else 0) + countb test cs

abbrev pub below : ℕ → List Candidate → ℕ
below t cs = countb (λ c. ltb c.dist t) cs

-- No element of the list comes before the candidate.
unfoldable pub IsFirst : (Candidate → Candidate → Bool) → Candidate → List Candidate → Type 0
IsFirst less c [] = Unit {0}
IsFirst less c (x ∷ cs) = (less x c ≡ false) × IsFirst less c cs

unfoldable pub IsSorted : (Candidate → Candidate → Bool) → List Candidate → Type 0
IsSorted less [] = Unit {0}
IsSorted less (c ∷ cs) = IsFirst less c cs × IsSorted less cs

-- `sort.Slice` returns the same elements, each as often, in an order that the test agrees with.
pub record IsSort (sort : Sort) : Type 0 where
  pub same :
      (less : Candidate → Candidate → Bool) (test : Candidate → Bool) (cs : List Candidate)
      → countb test (sort less cs) ≡ countb test cs
  pub nearer-IsSorted : (cs : List Candidate) → IsSorted nearer (sort nearer cs)
  pub nearer_or_first-IsSorted :
      (cs : List Candidate) → IsSorted nearer_or_first (sort nearer_or_first cs)

-- `out` holds `want` of the nearest of `all`: for each bound on the distance it has as many below it
-- as `all` has, up to `want`; it has `want` elements, or all of them; and each is one of `all`.
pub record IsTop (want : ℕ) (out all : List Candidate) : Type 0 where
  pub nearest : (t : ℕ) → below t out ≡ min want (below t all)
  pub size : length out ≡ min want (length all)
  pub within : (test : Candidate → Bool) → countb test out ≤ countb test all

pub length-countb : (cs : List Candidate) → countb (λ _. true) cs ≡ length cs
unfolding countb
length-countb [] = refl
length-countb (c ∷ cs) = omega (arith, length-countb cs)

pub countb-append :
    (test : Candidate → Bool) (xs ys : List Candidate)
    → countb test (xs ++ ys) ≡ countb test xs + countb test ys
unfolding countb
countb-append test [] ys = omega arith
countb-append test (x ∷ xs) ys = omega (arith, countb-append test xs ys)

pub countb-take :
    (test : Candidate → Bool) (n : ℕ) (xs : List Candidate)
    → countb test (take n xs) ≤ countb test xs
unfolding countb
countb-take test zero xs = omega arith
countb-take test (suc n) [] = omega arith
countb-take test (suc n) (x ∷ xs) = omega (arith, countb-take test n xs)

pub below_most : (t : ℕ) (cs : List Candidate) → below t cs ≤ length cs
unfolding countb
below_most t [] = omega arith
below_most t (c ∷ cs) = ground (arith, below_most t cs)

pub below_mono : (t t' : ℕ) (cs : List Candidate) → t ≤ t' → below t cs ≤ below t' cs
unfolding countb
below_mono t t' [] h = omega arith
below_mono t t' (c ∷ cs) h = ground (arith, below_mono t t' cs h)

module _ (sort : Sort) (laws : IsSort sort) where
  pub length-sort :
      (less : Candidate → Candidate → Bool) (cs : List Candidate)
      → length (sort less cs) ≡ length cs
  length-sort less cs =
      omega (arith, laws.same less (λ _. true) cs, length-countb cs, length-countb (sort less cs))

-- An order whose sorted lists have their distances in order.
pub IsByDist : (Candidate → Candidate → Bool) → Type 0
IsByDist less = (x y : Candidate) → less y x ≡ false → x.dist ≤ y.dist

pub nearer-IsByDist : IsByDist nearer
unfolding IsByDist
nearer-IsByDist x y h = ground arith

pub nearer_or_first-IsByDist : IsByDist nearer_or_first
unfolding IsByDist
nearer_or_first-IsByDist x y h = ground arith

module _ (less : Candidate → Candidate → Bool) (by_dist : IsByDist less) where
  below_first :
      (c : Candidate) (cs : List Candidate) (t : ℕ)
      → IsFirst less c cs
      → t ≤ c.dist
      → below t cs ≡ 0
  unfolding IsFirst countb IsByDist
  below_first c [] t h far = refl
  below_first c (x ∷ cs) t h far = ground (arith, by_dist c x h.0, below_first c cs t h.1 far)

  pub below-take :
      (n t : ℕ) (cs : List Candidate) → IsSorted less cs → below t (take n cs) ≡ min n (below t cs)
  unfolding IsSorted countb
  below-take zero t cs h = omega arith
  below-take (suc n) t [] h = omega arith
  below-take (suc n) t (c ∷ cs) h = elim (Bool-cases (ltb c.dist t)) [
    | inl near ↦ rw near (omega (arith, below-take n t cs h.1))
    | inr far ↦ rw far (omega (arith, below-take n t cs h.1, below_first c cs t h.0 (ground arith)))
  ]

  first_at :
      (c : Candidate) (cs : List Candidate) (i : ℕ)
      → IsFirst less c cs
      → i < length cs
      → c.dist ≤ dist_at cs i
  unfolding IsFirst dist_at IsByDist
  first_at c [] i h lt = absurd (omega arith)
  first_at c (x ∷ cs) zero h lt = by_dist c x h.0
  first_at c (x ∷ cs) (suc i) h lt = first_at c cs i h.1 (omega arith)

  -- The last of the elements that are kept is the farthest of them.
  pub dist_at_farthest :
      (n : ℕ) (cs : List Candidate)
      → IsSorted less cs
      → n < length cs
      → below (suc (dist_at cs n)) (take (suc n) cs) ≡ suc n
  unfolding IsSorted countb dist_at
  dist_at_farthest n [] h lt = absurd (omega arith)
  dist_at_farthest zero (c ∷ cs) h lt = ground arith
  dist_at_farthest (suc n) (c ∷ cs) h lt =
      ground (arith, dist_at_farthest n cs h.1 (omega arith), first_at c cs n h.0 (omega arith))
