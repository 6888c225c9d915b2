-- ===== src/Lease/Reuse.antt =====
-- internal/adapter/postgres/lease.go: `reuseRange` and `splitAtFloor` and the coverage.
use sauce_dust.Prelude.{
  ℕ, suc, ◌-◌, ◌≤◌, ◌<◌, ◌≡◌, refl, Bool, true, some, List, [], ◌∷◌, arith, ◌∙◌, ltb, Bool-cases,
  inl, inr, ◌⊎◌, Option-cases,
}
use sauce_dust.Lease.Store.{
  Row, Store, CrawlRange, Reply, ok, update, affected, has_bounds, is_running,
}
use sauce_dust.Lease.Acquire.{
  LeaseRequest, find, pick, is_candidate, has_id, is_running_id, set_lower, blank_row,
  insert_waiting, lease_row, claim, to_range, split_at_floor, lease_picked, reuse_range,
}
use sauce_dust.Lease.Coverage.{weight, Below, IsSound, pick-test, find-pick}
use sauce_dust.Lease.Split.{
  claim-IsSound, claim-weight, find-claim, covers-shrink, shrink-Below, shrink-AreOrdered,
  covered_twice, affected-running,
}

abbrev pub split_store : CrawlRange → LeaseRequest → ℕ → Store → Store
split_store c req now s = record s {
  rows =
      update (is_running_id c.id) (set_lower req.floor)
        (blank_row s.next_id c.lower (req.floor - 1) now ∷ s.rows);
  next_id = suc s.next_id;
}

-- The row that the node holds crosses the floor.
pub record Crosses (c : CrawlRange) (req : LeaseRequest) (r : Row) (s : Store) : Type 0 where
  pub sound : IsSound s
  pub found : find (has_id c.id) s.rows ≡ some r
  pub live : is_running r.status ≡ true
  pub lower_is : r.lower ≡ c.lower
  pub upper_is : r.upper ≡ c.upper
  pub below : c.lower < req.floor
  pub above : req.floor ≤ c.upper

no_second :
    (c : CrawlRange) (req : LeaseRequest) (r : Row) (s : Store) (lower upper x : ℕ)
    → Crosses c req r s
    → (lower ≡ c.lower) × (upper < c.upper) ⊎ (c.lower < lower) × (upper ≡ c.upper)
    → lower ≤ x
    → x ≤ upper
    → affected (has_bounds lower upper) s.rows ≡ 0
no_second c req r s lower upper x k other a b =
    ground (arith, k.sound.once x, covered_twice c.id lower upper x r s.rows k.found)

pub split_ok :
    (c : CrawlRange) (req : LeaseRequest) (now : ℕ) (r : Row) (s : Store)
    → Crosses c req r s
    → split_at_floor c req now s ≡ (ok (record c { lower = req.floor }), split_store c req now s)
unfolding split_at_floor insert_waiting affected
split_ok c req now r s k = ground (
  arith,
  no_second c req r s c.lower (req.floor - 1) c.lower k,
  no_second c req r s req.floor c.upper c.upper k,
  affected-running c.id r s.rows k.found k.live,
)

find_id : (i : ℕ) (r : Row) (rs : List Row) → find (has_id i) rs ≡ some r → r.id ≡ i
unfolding find
find_id i r [] e = ground arith
find_id i r (q ∷ rs) e = ground (arith, find_id i r rs)

pub find_lt : (i n : ℕ) (r : Row) (rs : List Row) → Below n rs → find (has_id i) rs ≡ some r → i < n
unfolding find
find_lt i n r [] b e = ground arith
find_lt i n r (q ∷ rs) b e = ground (arith, find_lt i q.id r rs b.1)

pub split-weight :
    (c : CrawlRange) (req : LeaseRequest) (now x : ℕ) (r : Row) (s : Store)
    → Crosses c req r s
    → weight x (split_store c req now s) ≡ weight x s
unfolding update
split-weight c req now x r s k =
    ground (arith, covers-shrink c.id s.next_id req.floor x r s.rows k.sound.ids k.found k.live)

pub split-IsSound :
    (c : CrawlRange) (req : LeaseRequest) (now : ℕ) (r : Row) (s : Store)
    → Crosses c req r s
    → IsSound (split_store c req now s)
unfolding update
split-IsSound c req now r s k = record {
  ids = ground (
    arith,
    find_lt c.id s.next_id r s.rows k.sound.ids k.found,
    shrink-Below c.id req.floor s.next_id s.rows k.sound.ids,
  );
  ordered = ground (arith, shrink-AreOrdered c.id s.next_id req.floor r s.rows k.sound.ids k.found);
  once = λ x. omega (arith, split-weight c req now x r s k, k.sound.once x);
}

-- A reply leaves the table sound, and every number in as many places as before.
abbrev pub Keeps : Store → Reply CrawlRange × Store → Type 0
Keeps s out = IsSound (out.1) × ((x : ℕ) → weight x (out.1) ≡ weight x s)

pub claim-Crosses :
    (req : LeaseRequest) (now : ℕ) (r : Row) (s : Store)
    → IsSound s
    → find (has_id r.id) s.rows ≡ some r
    → req.floor ≤ r.upper
    → ltb r.lower req.floor ≡ true
    → Crosses (to_range req r) req (lease_row req.node now r) (claim req now r s)
claim-Crosses req now r s v e above crosses = record {
  sound = claim-IsSound req now r s v;
  found = find-claim req now r.id r s.rows e;
  live = refl;
  lower_is = refl;
  upper_is = refl;
  below = ground arith;
  above = above;
}

lease_picked-Keeps :
    (req : LeaseRequest) (now : ℕ) (r : Row) (s : Store)
    → IsSound s
    → find (has_id r.id) s.rows ≡ some r
    → req.floor ≤ r.upper
    → Keeps s (lease_picked req now r s)
unfolding lease_picked
lease_picked-Keeps req now r s v e above = elim (Bool-cases (ltb r.lower req.floor)) [
  | inl crosses ↦
      let k = claim-Crosses req now r s v e above crosses in
      rw crosses (
        rw (split_ok (to_range req r) req now (lease_row req.node now r) (claim req now r s) k) (
          split-IsSound (to_range req r) req now (lease_row req.node now r) (claim req now r s) k,
          λ x.
              split-weight (to_range req r) req now x (lease_row req.node now r) (claim req now r s)
                k
              ∙ claim-weight req now r s x,
        ))
  | inr whole ↦ rw whole (claim-IsSound req now r s v, λ x. claim-weight req now r s x)
]

pub candidate-above :
    (locked : ℕ → Bool) (now : ℕ) (req : LeaseRequest) (r : Row)
    → is_candidate locked now req r ≡ true
    → req.floor ≤ r.upper
unfolding is_candidate
candidate-above locked now req r h = ground arith

pub reuse_range-Keeps :
    (locked : ℕ → Bool) (req : LeaseRequest) (now : ℕ) (s : Store)
    → IsSound s
    → Keeps s (reuse_range locked req now s)
unfolding reuse_range
reuse_range-Keeps locked req now s v =
    elim (Option-cases (pick (is_candidate locked now req) s.rows)) [
      | inl e ↦ rw e (v, λ x. refl)
      | inr (r, e) ↦ rw e (
          lease_picked-Keeps req now r s v
            (find-pick (is_candidate locked now req) s.next_id s.rows r v.ids e)
            (candidate-above locked now req r (pick-test (is_candidate locked now req) s.rows r e)))
    ]
