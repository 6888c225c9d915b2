-- ===== src/Lease/Coverage.antt =====
-- internal/adapter/postgres/lease.go: how often a post's number is covered by the ranges of the table
-- and by the numbers that are still to be carved, and lemmas on how the statements change that.
use sauce_dust.Prelude.{
  ℕ, ◌+◌, ◌≤◌, ◌<◌, ◌≡◌, refl, Bool, true, ◌&&◌, Option, none, some, List, [], ◌∷◌, arith, ltb, leb,
  if◌then◌else◌,
}
use sauce_dust.Lease.Store.{Row, CrawlState, Store, update, affected, has_bounds}
use sauce_dust.Lease.Acquire.{find, pick, has_id}

abbrev pub inside : ℕ → ℕ → ℕ → ℕ
inside x lower upper = if leb lower x && leb x upper then 1 else 0

abbrev pub covers : ℕ → List Row → ℕ
covers x [] = 0
covers x (r ∷ rs) = inside x r.lower r.upper + covers x rs

abbrev pub uncarved : ℕ → Option CrawlState → ℕ
uncarved x none = 0
uncarved x (some st) = elim (st.backfill_before) [
  | none ↦ 0
  | some before ↦ if ltb x before then 1 else 0
]

-- In how many places the number `x` is still to be collected or has been.
abbrev pub weight : ℕ → Store → ℕ
weight x s = covers x s.rows + uncarved x s.state

-- The ids fall along the list and stay below the next one.
abbrev pub Below : ℕ → List Row → Type 0
Below n [] = Unit {0}
Below n (r ∷ rs) = (r.id < n) × Below r.id rs

abbrev pub AreOrdered : List Row → Type 0
AreOrdered [] = Unit {0}
AreOrdered (r ∷ rs) = (r.lower ≤ r.upper) × AreOrdered rs

pub record IsSound (s : Store) : Type 0 where
  pub ids : Below s.next_id s.rows
  pub ordered : AreOrdered s.rows
  pub once : (x : ℕ) → weight x s ≤ 1

-- A change of a row that leaves its number and its bounds alone.
pub record KeepsBounds (f : Row → Row) : Type 0 where
  pub keeps_id : (r : Row) → (f r).id ≡ r.id
  pub keeps_lower : (r : Row) → (f r).lower ≡ r.lower
  pub keeps_upper : (r : Row) → (f r).upper ≡ r.upper

module _ (test : Row → Bool) (f : Row → Row) (k : KeepsBounds f) where
  pub covers-update : (x : ℕ) (rs : List Row) → covers x (update test f rs) ≡ covers x rs
  unfolding update
  covers-update x [] = refl
  covers-update x (r ∷ rs) = ground (arith, k.keeps_lower r, k.keeps_upper r, covers-update x rs)

  pub update-Below : (n : ℕ) (rs : List Row) → Below n rs → Below n (update test f rs)
  unfolding update
  update-Below n [] b = tt
  update-Below n (r ∷ rs) b = ground (arith, k.keeps_id r, update-Below r.id rs b.1)

  pub update-AreOrdered : (rs : List Row) → AreOrdered rs → AreOrdered (update test f rs)
  unfolding update
  update-AreOrdered [] o = tt
  update-AreOrdered (r ∷ rs) o =
      ground (arith, k.keeps_lower r, k.keeps_upper r, update-AreOrdered rs o.1)

  -- So such a statement changes nothing of the coverage.
  pub update-IsSound : (s : Store) → IsSound s → IsSound (record s { rows = update test f s.rows })
  update-IsSound s v = record {
    ids = update-Below s.next_id s.rows v.ids;
    ordered = update-AreOrdered s.rows v.ordered;
    once = λ x. omega (arith, covers-update x s.rows, v.once x);
  }

pub covers_of_bounds :
    (x lower upper : ℕ) (rs : List Row)
    → lower ≤ x
    → x ≤ upper
    → 0 < affected (has_bounds lower upper) rs
    → 1 ≤ covers x rs
unfolding affected
covers_of_bounds x lower upper [] lo hi h = omega arith
covers_of_bounds x lower upper (r ∷ rs) lo hi h =
    ground (arith, covers_of_bounds x lower upper rs lo hi)

-- A range that is covered nowhere else is not in the table yet.
pub no_bounds :
    (lower upper : ℕ) (rs : List Row)
    → lower ≤ upper
    → covers lower rs ≡ 0
    → affected (has_bounds lower upper) rs ≡ 0
no_bounds lower upper rs h e = ground (arith, covers_of_bounds lower lower upper rs (omega arith) h)

find_above : (i n : ℕ) (rs : List Row) → Below n rs → n ≤ i → find (has_id i) rs ≡ none
unfolding find
find_above i n [] b h = refl
find_above i n (r ∷ rs) b h = ground (arith, find_above i r.id rs b.1)

-- The picked row passes the test, and is the one that its number names.
pub pick-test :
    (test : Row → Bool) (rs : List Row) (r : Row) → pick test rs ≡ some r → test r ≡ true
unfolding pick
pick-test test [] r e = ground arith
pick-test test (q ∷ rs) r e = ground (arith, pick-test test rs r)

pick-id :
    (test : Row → Bool) (n : ℕ) (rs : List Row) (r : Row)
    → Below n rs
    → pick test rs ≡ some r
    → r.id < n
unfolding pick
pick-id test n [] r b e = ground arith
pick-id test n (q ∷ rs) r b e = ground (arith, pick-id test q.id rs r b.1)

pub find-pick :
    (test : Row → Bool) (n : ℕ) (rs : List Row) (r : Row)
    → Below n rs
    → pick test rs ≡ some r
    → find (has_id r.id) rs ≡ some r
unfolding find pick
find-pick test n [] r b e = ground arith
find-pick test n (q ∷ rs) r b e =
    ground (arith, find-pick test q.id rs r b.1, pick-id test q.id rs r b.1)
