-- ===== src/Lease/Granted.antt =====
-- internal/adapter/postgres/lease.go: the range that `AcquireBackfillRange` returns.
use text.Mathlib.TextPositions.{eq_refl}
use sauce_dust.Prelude.{
  ℕ, ◌-◌, ◌≤◌, ◌<◌, ◌≡◌, refl, ◌∙◌, Bool, true, ◌&&◌, Option, none, some, List, [], ◌∷◌, arith, ltb,
  Bool-cases, inl, inr, subst, sym,
}
use sauce_dust.Lease.Store.{
  Row, CrawlState, Store, CrawlRange, Reply, ok, err, no_work, update, affected, holds_lease,
  is_running, has_bounds,
}
use sauce_dust.Lease.Acquire.{
  LeaseRequest, find, pick, has_id, is_candidate, lease_row, claim, blank_row, is_running_id,
  set_lower, lease_picked, to_range, reuse_picked, reuse_range, carve_lower, carve_below,
  state_or_new, carve_range, or_carve, with_floor, acquire_backfill_range,
}
use sauce_dust.Lease.Coverage.{AreOrdered, IsSound, pick-test, find-pick}
use sauce_dust.Lease.Split.{find-claim}
use sauce_dust.Lease.Reuse.{
  split_ok, split_store, find_lt, claim-Crosses, candidate-above, reuse_range-Keeps,
}
use sauce_dust.Lease.Carving.{CanCarve, carve_ok, carved}

abbrev pub is_leased : CrawlRange → Row → Bool
is_leased c r = holds_lease c r && has_bounds c.lower c.upper r

-- The range is not empty, lies above the floor, and its row is in the table under its token.
abbrev pub IsGranted : LeaseRequest → Reply CrawlRange × Store → Type 0
IsGranted req (ok c, t) =
    (req.floor ≤ c.lower) × (c.lower ≤ c.upper) × (0 < affected (is_leased c) t.rows)
IsGranted req (err e, t) = Unit {0}

affected_of_find :
    (i : ℕ) (r : Row) (rs : List Row) (test : Row → Bool)
    → find (has_id i) rs ≡ some r
    → test r ≡ true
    → 0 < affected test rs
unfolding find affected
affected_of_find i r [] test e h = absurd (cc)
affected_of_find i r (q ∷ rs) test e h = ground (arith, affected_of_find i r rs test)

ordered_of_find :
    (i : ℕ) (r : Row) (rs : List Row)
    → AreOrdered rs
    → find (has_id i) rs ≡ some r
    → r.lower ≤ r.upper
unfolding find
ordered_of_find i r [] o e = absurd (cc)
ordered_of_find i r (q ∷ rs) o e = ground (arith, ordered_of_find i r rs o.1)

find-shrink :
    (i floor : ℕ) (r : Row) (rs : List Row)
    → find (has_id i) rs ≡ some r
    → is_running r.status ≡ true
    → find (has_id i) (update (is_running_id i) (set_lower floor) rs) ≡ some (set_lower floor r)
unfolding find update
find-shrink i floor r [] e live = absurd (cc)
find-shrink i floor r (q ∷ rs) e live = ground (arith, find-shrink i floor r rs)

find-blank :
    (i n lower upper now : ℕ) (rs : List Row)
    → i < n
    → find (has_id i) (blank_row n lower upper now ∷ rs) ≡ find (has_id i) rs
unfolding find
find-blank i n lower upper now rs h = ground arith

split-leased :
    (req : LeaseRequest) (now : ℕ) (r : Row) (s : Store)
    → r.id < s.next_id
    → find (has_id r.id) s.rows ≡ some r
    → 0
      < affected
          (is_leased (record (to_range req r) { lower = req.floor }))
          (split_store (to_range req r) req now (claim req now r s)).rows
split-leased req now r s known e =
    affected_of_find r.id (set_lower req.floor (lease_row req.node now r)) _ _
      (find-shrink r.id req.floor (lease_row req.node now r) _
        (find-blank r.id s.next_id r.lower (req.floor - 1) now
            (update (has_id r.id) (lease_row req.node now) s.rows) known
          ∙ find-claim req now r.id r s.rows e)
        refl)
      (ground (arith, eq_refl req.node))

claim-leased :
    (req : LeaseRequest) (now : ℕ) (r : Row) (s : Store)
    → find (has_id r.id) s.rows ≡ some r
    → 0 < affected (is_leased (to_range req r)) (claim req now r s).rows
claim-leased req now r s e =
    affected_of_find r.id (lease_row req.node now r) _ _ (find-claim req now r.id r s.rows e)
      (ground (arith, eq_refl req.node))

lease_picked-IsGranted :
    (req : LeaseRequest) (now : ℕ) (r : Row) (s : Store)
    → IsSound s
    → find (has_id r.id) s.rows ≡ some r
    → req.floor ≤ r.upper
    → IsGranted req (lease_picked req now r s)
unfolding lease_picked
lease_picked-IsGranted req now r s v e above = elim (Bool-cases (ltb r.lower req.floor)) [
  | inl crosses ↦
      let k = claim-Crosses req now r s v e above crosses in
      rw crosses (
        rw (split_ok (to_range req r) req now (lease_row req.node now r) (claim req now r s) k) (
          omega arith,
          above,
          split-leased req now r s (find_lt r.id s.next_id r s.rows v.ids e) e,
        ))
  | inr whole ↦
      rw whole (ground arith, ordered_of_find r.id r s.rows v.ordered e, claim-leased req now r s e)
]

carved-leased :
    (req : LeaseRequest) (now : ℕ) (st : CrawlState) (before : ℕ) (s : Store)
    → 0
      < affected
          (is_leased (record {
            id = s.next_id;
            lower = carve_lower req (before - 1);
            upper = before - 1;
            attempts = 1;
            node = req.node;
          }))
          (carved req now st before s).rows
unfolding affected
carved-leased req now st before s = ground (arith, eq_refl req.node)

reuse_picked-IsGranted :
    (locked : ℕ → Bool) (req : LeaseRequest) (now : ℕ) (s : Store) (o : Option Row)
    → IsSound s
    → pick (is_candidate locked now req) s.rows ≡ o
    → IsGranted req (reuse_picked req now s o)
reuse_picked-IsGranted locked req now s none v e = tt
reuse_picked-IsGranted locked req now s (some r) v e =
    lease_picked-IsGranted req now r s v
      (find-pick (is_candidate locked now req) s.next_id s.rows r v.ids e)
      (candidate-above locked now req r (pick-test (is_candidate locked now req) s.rows r e))

module _ (req : LeaseRequest) (now : ℕ) (s : Store) (v : IsSound s) (sized : 1 ≤ req.range_size)
    (floored : 1 ≤ req.floor) where
  carve_before-IsGranted :
      (st : CrawlState) (before : Option ℕ)
      → s.state ≡ some st
      → st.backfill_before ≡ before
      → IsGranted req (carve_below req now st before s)
  unfolding carve_below
  carve_before-IsGranted st none e h = tt
  carve_before-IsGranted st (some before) e h = elim (Bool-cases (ltb (before - 1) req.floor)) [
    | inl full ↦ rw full tt
    | inr room ↦
        let k : CanCarve req st before s = record {
          sound = v;
          state_is = e;
          before_is = h;
          sized = sized;
          floored = floored;
          room = ground arith;
        } in
        subst (IsGranted req) (sym (carve_ok req now st before s k))
          (ground arith, ground arith, carved-leased req now st before s)
  ]

  carve_state-IsGranted :
      (o : Option CrawlState)
      → s.state ≡ o
      → IsGranted req (carve_below req now (state_or_new o) (state_or_new o).backfill_before s)
  unfolding carve_below
  carve_state-IsGranted none e = tt
  carve_state-IsGranted (some st) e = carve_before-IsGranted st st.backfill_before e refl

or_carve-IsGranted :
    (req : LeaseRequest) (now : ℕ) (out : Reply CrawlRange × Store)
    → 1 ≤ req.range_size
    → 1 ≤ req.floor
    → IsSound (out.1)
    → IsGranted req out
    → IsGranted req (or_carve req now out)
unfolding carve_range
or_carve-IsGranted req now (ok c, t) sized floored v g = g
or_carve-IsGranted req now (err no_work, t) sized floored v g =
    carve_state-IsGranted req now t v sized floored t.state refl
or_carve-IsGranted req now (err e, t) sized floored v g = tt

-- A range that is granted on a sound table is not empty and lies above the floor, and its row is
-- in the table, running under the node and the token of the reply: a report on it will count.
pub acquire_backfill_range-IsGranted :
    (locked : ℕ → Bool) (raw : LeaseRequest) (now : ℕ) (s : Store)
    → IsSound s
    → IsGranted (with_floor raw) (acquire_backfill_range locked raw now s)
unfolding acquire_backfill_range reuse_range
acquire_backfill_range-IsGranted locked raw now s v = elim (Bool-cases (ltb raw.range_size 1)) [
  | inl small ↦ rw small tt
  | inr sized ↦ rw sized (
      or_carve-IsGranted (with_floor raw) now _ (ground arith) (ground arith)
        (reuse_range-Keeps locked (with_floor raw) now s v).0
        (reuse_picked-IsGranted locked (with_floor raw) now s _ v refl))
]
