-- ===== src/Lease/Split.antt =====
-- internal/adapter/postgres/lease.go: what claiming a row and `splitAtFloor` do to the coverage.
use Prim.Native.String.{String}
use sauce_dust.Prelude.{ℕ, ◌+◌, ◌-◌, ◌≤◌, ◌<◌, ◌≡◌, refl, true, false, some, List, [], ◌∷◌, arith}
use sauce_dust.Lease.Store.{Row, Store, update, affected, has_bounds, is_running}
use sauce_dust.Lease.Acquire.{
  LeaseRequest, find, has_id, is_running_id, set_lower, lease_row, claim,
}
use sauce_dust.Lease.Coverage.{
  inside, covers, weight, Below, AreOrdered, IsSound, KeepsBounds, covers-update, update-IsSound,
  covers_of_bounds,
}

pub lease_row-KeepsBounds : (node : String) (now : ℕ) → KeepsBounds (lease_row node now)
lease_row-KeepsBounds node now = record {
  keeps_id = λ r. refl;
  keeps_lower = λ r. refl;
  keeps_upper = λ r. refl;
}

pub claim-IsSound :
    (req : LeaseRequest) (now : ℕ) (r : Row) (s : Store) → IsSound s → IsSound (claim req now r s)
claim-IsSound req now r s v =
    update-IsSound (has_id r.id) (lease_row req.node now) (lease_row-KeepsBounds req.node now) s v

pub claim-weight :
    (req : LeaseRequest) (now : ℕ) (r : Row) (s : Store) (x : ℕ)
    → weight x (claim req now r s) ≡ weight x s
claim-weight req now r s x = omega (
  arith,
  covers-update (has_id r.id) (lease_row req.node now) (lease_row-KeepsBounds req.node now) x
      s.rows,
)

pub find-claim :
    (req : LeaseRequest) (now i : ℕ) (r : Row) (rs : List Row)
    → find (has_id i) rs ≡ some r
    → find (has_id i) (update (has_id i) (lease_row req.node now) rs)
      ≡ some (lease_row req.node now r)
unfolding find update
find-claim req now i r [] e = ground arith
find-claim req now i r (q ∷ rs) e = ground (arith, find-claim req now i r rs)

-- The row of that number is the only one that an update by its number can reach.
shrink_none :
    (i n floor x : ℕ) (rs : List Row)
    → Below n rs
    → n ≤ i
    → covers x (update (is_running_id i) (set_lower floor) rs) ≡ covers x rs
unfolding update
shrink_none i n floor x [] b h = refl
shrink_none i n floor x (r ∷ rs) b h = ground (arith, shrink_none i r.id floor x rs b.1)

-- What the shrunk row gives up is what the new row below the floor takes.
pub covers-shrink :
    (i n floor x : ℕ) (r : Row) (rs : List Row)
    → Below n rs
    → find (has_id i) rs ≡ some r
    → is_running r.status ≡ true
    → r.lower < floor
    → floor ≤ r.upper
    → covers x (update (is_running_id i) (set_lower floor) rs) + inside x r.lower (floor - 1)
      ≡ covers x rs
unfolding update find
covers-shrink i n floor x r [] b e live below above = ground arith
covers-shrink i n floor x r (q ∷ rs) b e live below above =
    ground (arith, shrink_none i q.id floor x rs b.1, covers-shrink i q.id floor x r rs b.1)

pub shrink-Below :
    (i floor n : ℕ) (rs : List Row)
    → Below n rs
    → Below n (update (is_running_id i) (set_lower floor) rs)
unfolding update
shrink-Below i floor n [] b = tt
shrink-Below i floor n (r ∷ rs) b = ground (arith, shrink-Below i floor r.id rs b.1)

shrink-AreOrdered_none :
    (i n floor : ℕ) (rs : List Row)
    → Below n rs
    → n ≤ i
    → AreOrdered rs
    → AreOrdered (update (is_running_id i) (set_lower floor) rs)
unfolding update
shrink-AreOrdered_none i n floor [] b h o = tt
shrink-AreOrdered_none i n floor (r ∷ rs) b h o =
    ground (arith, shrink-AreOrdered_none i r.id floor rs b.1)

pub shrink-AreOrdered :
    (i n floor : ℕ) (r : Row) (rs : List Row)
    → Below n rs
    → find (has_id i) rs ≡ some r
    → floor ≤ r.upper
    → AreOrdered rs
    → AreOrdered (update (is_running_id i) (set_lower floor) rs)
unfolding update find
shrink-AreOrdered i n floor r [] b e h o = tt
shrink-AreOrdered i n floor r (q ∷ rs) b e h o =
    ground
      (arith, shrink-AreOrdered_none i q.id floor rs b.1, shrink-AreOrdered i q.id floor r rs b.1)

covers_of_find :
    (i x : ℕ) (r : Row) (rs : List Row)
    → find (has_id i) rs ≡ some r
    → r.lower ≤ x
    → x ≤ r.upper
    → 1 ≤ covers x rs
unfolding find
covers_of_find i x r [] e lo hi = ground arith
covers_of_find i x r (q ∷ rs) e lo hi = ground (arith, covers_of_find i x r rs)

-- A second row with other bounds over the same number.
pub covered_twice :
    (i lower upper x : ℕ) (r : Row) (rs : List Row)
    → find (has_id i) rs ≡ some r
    → has_bounds lower upper r ≡ false
    → r.lower ≤ x
    → x ≤ r.upper
    → lower ≤ x
    → x ≤ upper
    → 0 < affected (has_bounds lower upper) rs
    → 2 ≤ covers x rs
unfolding find affected
covered_twice i lower upper x r [] e other a b c d h = ground arith
covered_twice i lower upper x r (q ∷ rs) e other a b c d h = ground (
  arith,
  covers_of_find i x r rs,
  covers_of_bounds x lower upper rs,
  covered_twice i lower upper x r rs,
)

pub affected-running :
    (i : ℕ) (r : Row) (rs : List Row)
    → find (has_id i) rs ≡ some r
    → is_running r.status ≡ true
    → 0 < affected (is_running_id i) rs
unfolding find affected
affected-running i r [] e live = ground arith
affected-running i r (q ∷ rs) e live = ground (arith, affected-running i r rs)
