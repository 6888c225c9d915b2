-- ===== src/Lease/Carving.antt =====
-- internal/adapter/postgres/lease.go: the numbers that `carveRange` cuts off.
use sauce_dust.Prelude.{
  ℕ, suc, ◌-◌, ◌≤◌, ◌≡◌, refl, Bool, Option, none, some, List, [], ◌∷◌, arith, sym, subst, ltb,
  if◌then◌else◌, Bool-cases, inl, inr,
}
use sauce_dust.Lease.Store.{Row, CrawlState, Store, ok, affected, has_bounds}
use sauce_dust.Lease.Acquire.{
  LeaseRequest, find, state_or_new, carve_below, carve_lower, carve_range, new_row,
}
use sauce_dust.Lease.Coverage.{uncarved, weight, IsSound, no_bounds}
use sauce_dust.Lease.Reuse.{Keeps}

find-none : (test : Row → Bool) (rs : List Row) → affected test rs ≡ 0 → find test rs ≡ none
unfolding find affected
find-none test [] h = refl
find-none test (r ∷ rs) h = ground (arith, find-none test rs)

abbrev pub carved : LeaseRequest → ℕ → CrawlState → ℕ → Store → Store
carved req now st before s =
    let lower = carve_lower req (before - 1) in
    record s {
      rows = new_row req.node s.next_id lower (before - 1) now ∷ s.rows;
      next_id = suc s.next_id;
      state = some (record st { backfill_before = some lower });
    }

pub record CanCarve (req : LeaseRequest) (st : CrawlState) (before : ℕ) (s : Store) : Type 0 where
  pub sound : IsSound s
  pub state_is : s.state ≡ some st
  pub before_is : st.backfill_before ≡ some before
  pub sized : 1 ≤ req.range_size
  pub floored : 1 ≤ req.floor
  pub room : req.floor ≤ before - 1

uncarved_of_state :
    (x : ℕ) (st : CrawlState) (before : ℕ) (o : Option CrawlState)
    → o ≡ some st
    → st.backfill_before ≡ some before
    → uncarved x o ≡ (if ltb x before then 1 else 0)
uncarved_of_state x st before o e h = ground arith

carve_free :
    (req : LeaseRequest) (st : CrawlState) (before : ℕ) (s : Store)
    → CanCarve req st before s
    → find (has_bounds (carve_lower req (before - 1)) (before - 1)) s.rows ≡ none
carve_free req st before s k =
    find-none (has_bounds (carve_lower req (before - 1)) (before - 1)) s.rows (
      no_bounds (carve_lower req (before - 1)) (before - 1) s.rows (ground arith) (
        ground (
          arith,
          k.sound.once (carve_lower req (before - 1)),
          uncarved_of_state (carve_lower req (before - 1)) st before s.state,
        )))

pub carve_ok :
    (req : LeaseRequest) (now : ℕ) (st : CrawlState) (before : ℕ) (s : Store)
    → CanCarve req st before s
    → carve_below req now st (some before) s ≡ (
      ok (record {
        id = s.next_id;
        lower = carve_lower req (before - 1);
        upper = before - 1;
        attempts = 1;
        node = req.node;
      }),
      carved req now st before s,
    )
unfolding carve_below
carve_ok req now st before s k = rw (carve_free req st before s k) (ground arith)

carved-weight :
    (req : LeaseRequest) (now : ℕ) (st : CrawlState) (before x : ℕ) (s : Store)
    → CanCarve req st before s
    → weight x (carved req now st before s) ≡ weight x s
carved-weight req now st before x s k =
    ground (arith, uncarved_of_state x st before s.state k.state_is k.before_is)

carved-IsSound :
    (req : LeaseRequest) (now : ℕ) (st : CrawlState) (before : ℕ) (s : Store)
    → CanCarve req st before s
    → IsSound (carved req now st before s)
carved-IsSound req now st before s k = record {
  ids = ground (arith, k.sound.ids);
  ordered = ground (arith, k.sound.ordered);
  once = λ x. omega (arith, carved-weight req now st before x s k, k.sound.once x);
}

module _ (req : LeaseRequest) (now : ℕ) (s : Store) (v : IsSound s) (sized : 1 ≤ req.range_size)
    (floored : 1 ≤ req.floor) where
  carve_before-Keeps :
      (st : CrawlState) (before : Option ℕ)
      → s.state ≡ some st
      → st.backfill_before ≡ before
      → Keeps s (carve_below req now st before s)
  unfolding carve_below
  carve_before-Keeps st none e h = (v, λ x. refl)
  carve_before-Keeps st (some before) e h = elim (Bool-cases (ltb (before - 1) req.floor)) [
    | inl full ↦ rw full (v, λ x. refl)
    | inr room ↦
        let k : CanCarve req st before s = record {
          sound = v;
          state_is = e;
          before_is = h;
          sized = sized;
          floored = floored;
          room = ground arith;
        } in
        subst (Keeps s) (sym (carve_ok req now st before s k))
          (carved-IsSound req now st before s k, λ x. carved-weight req now st before x s k)
  ]

  carve_state-Keeps :
      (o : Option CrawlState)
      → s.state ≡ o
      → Keeps s (carve_below req now (state_or_new o) (state_or_new o).backfill_before s)
  unfolding carve_below
  carve_state-Keeps none e = (v, λ x. refl)
  carve_state-Keeps (some st) e = carve_before-Keeps st st.backfill_before e refl

  pub carve_range-Keeps : Keeps s (carve_range req now s)
  unfolding carve_range
  carve_range-Keeps = carve_state-Keeps s.state refl
