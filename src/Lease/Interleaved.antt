-- ===== src/Lease/Interleaved.antt =====
-- internal/adapter/postgres/lease.go: `AcquireBackfillRange` commits up to three times: the claim of
-- `reuseRange`, `splitAtFloor`, and `carveRange`. Here each commit is a step of its own, and the
-- steps of several nodes, and the other operations, come between them.
use sauce_dust.Prelude.{
  ℕ, ◌≤◌, ◌≡◌, refl, Bool, true, Option, none, some, List, [], ◌∷◌, arith, ltb, if◌then◌else◌,
  Bool-cases, inl, inr, ◌∙◌,
}
use sauce_dust.Lease.Store.{Row, Store, CrawlRange, is_running}
use sauce_dust.Lease.Acquire.{
  LeaseRequest, pick, find, is_candidate, has_id, claim, split_at_floor, carve_range, with_floor,
}
use sauce_dust.Lease.Report.{init_catchup_state}
use sauce_dust.Lease.Coverage.{weight, IsSound}
use sauce_dust.Lease.Split.{claim-IsSound, claim-weight}
use sauce_dust.Lease.Reuse.{Crosses, split_ok, split-IsSound, split-weight}
use sauce_dust.Lease.Carving.{carve_range-Keeps}
use sauce_dust.Lease.Started.{is_started, split_at_floor-state, carve_range-started}
use sauce_dust.Lease.History.{
  Op, apply, KeepsAll, apply-KeepsAll, apply-started, no_store, no_store-IsSound,
}

-- A commit: one of the three of an acquisition, or another operation.
pub data Commit : Type 0 where
  claims : (ℕ → Bool) → LeaseRequest → Commit
  splits : CrawlRange → LeaseRequest → Commit
  carves : LeaseRequest → Commit
  other : Op → Commit

abbrev pub claim_picked : LeaseRequest → ℕ → Store → Option Row → Store
claim_picked req now s none = s
claim_picked req now s (some r) = claim req now r s

-- One commit at the time `now`. A range is split if it goes below the floor.
unfoldable pub commit : ℕ × Commit → Store → Store
commit (now, claims locked raw) s =
    let req = with_floor raw in
    if ltb raw.range_size 1
    then s
    else claim_picked req now s (pick (is_candidate locked now req) s.rows)
commit (now, splits c raw) s =
    let req = with_floor raw in if ltb c.lower req.floor then (split_at_floor c req now s).1 else s
commit (now, carves raw) s =
    if ltb raw.range_size 1 then s else (carve_range (with_floor raw) now s).1
commit (now, other op) s = apply (now, op) s

unfoldable pub commit_all : List (ℕ × Commit) → Store → Store
unfolding commit
commit_all [] s = s
commit_all (p ∷ ps) s = commit_all ps (commit p s)

-- The row is still running with the bounds with which it was claimed, and reaches above the floor.
abbrev pub IsHeld : CrawlRange → LeaseRequest → Store → Type 0
IsHeld c req s =
    (r : Row) × (find (has_id c.id) s.rows ≡ some r)
    × (is_running r.status ≡ true)
    × (r.lower ≡ c.lower)
    × (r.upper ≡ c.upper)
    × (req.floor ≤ c.upper)

-- A commit is in time: where it splits a range, no one has taken the range and split it since the claim.
abbrev pub InTime : Commit → Store → Type 0
InTime (claims locked raw) s = Unit {0}
InTime (splits c raw) s = IsHeld c (with_floor raw) s
InTime (carves raw) s = Unit {0}
InTime (other op) s = Unit {0}

abbrev pub AllInTime : List (ℕ × Commit) → Store → Type 0
AllInTime [] s = Unit {0}
AllInTime (p ∷ ps) s = InTime p.1 s × AllInTime ps (commit p s)

claim_picked-KeepsAll :
    (req : LeaseRequest) (now : ℕ) (s : Store) (o : Option Row)
    → IsSound s
    → KeepsAll s (claim_picked req now s o)
claim_picked-KeepsAll req now s none v = (v, λ x. refl)
claim_picked-KeepsAll req now s (some r) v =
    (claim-IsSound req now r s v, λ x. claim-weight req now r s x)

held-Crosses :
    (c : CrawlRange) (req : LeaseRequest) (s : Store) (h : IsHeld c req s)
    → IsSound s
    → ltb c.lower req.floor ≡ true
    → Crosses c req h.0 s
held-Crosses c req s (r, found, live, low, high, above) v below = record {
  sound = v;
  found = found;
  live = live;
  lower_is = low;
  upper_is = high;
  below = ground arith;
  above = above;
}

split-KeepsAll :
    (c : CrawlRange) (req : LeaseRequest) (now : ℕ) (r : Row) (s : Store)
    → Crosses c req r s
    → KeepsAll s (split_at_floor c req now s).1
split-KeepsAll c req now r s k =
    rw (split_ok c req now r s k)
      (split-IsSound c req now r s k, λ x. split-weight c req now x r s k)

commit-KeepsAll :
    (p : ℕ × Commit) (s : Store)
    → IsSound s
    → is_started s.state ≡ true
    → InTime p.1 s
    → KeepsAll s (commit p s)
unfolding commit
commit-KeepsAll (now, claims locked raw) s v h t = elim (Bool-cases (ltb raw.range_size 1)) [
  | inl small ↦ rw small (v, λ x. refl)
  | inr sized ↦ rw sized (
      claim_picked-KeepsAll (with_floor raw) now s
        (pick (is_candidate locked now (with_floor raw)) s.rows) v)
]
commit-KeepsAll (now, splits c raw) s v h t =
    elim (Bool-cases (ltb c.lower (with_floor raw).floor)) [
      | inl below ↦ rw below (
          split-KeepsAll c (with_floor raw) now t.0 s (held-Crosses c (with_floor raw) s t v below))
      | inr whole ↦ rw whole (v, λ x. refl)
    ]
commit-KeepsAll (now, carves raw) s v h t = elim (Bool-cases (ltb raw.range_size 1)) [
  | inl small ↦ rw small (v, λ x. refl)
  | inr sized ↦ rw sized (carve_range-Keeps (with_floor raw) now s v (ground arith) (ground arith))
]
commit-KeepsAll (now, other op) s v h t = apply-KeepsAll (now, op) s v h

claim_picked-started :
    (req : LeaseRequest) (now : ℕ) (s : Store) (o : Option Row)
    → is_started s.state ≡ true
    → is_started (claim_picked req now s o).state ≡ true
claim_picked-started req now s none h = h
claim_picked-started req now s (some r) h = h

commit-started :
    (p : ℕ × Commit) (s : Store) → is_started s.state ≡ true → is_started (commit p s).state ≡ true
unfolding commit
commit-started (now, claims locked raw) s h = elim (Bool-cases (ltb raw.range_size 1)) [
  | inl small ↦ rw small h
  | inr sized ↦ rw sized (
      claim_picked-started (with_floor raw) now s
        (pick (is_candidate locked now (with_floor raw)) s.rows) h)
]
commit-started (now, splits c raw) s h = elim (Bool-cases (ltb c.lower (with_floor raw).floor)) [
  | inl below ↦ rw (below, split_at_floor-state c (with_floor raw) now s) h
  | inr whole ↦ rw whole h
]
commit-started (now, carves raw) s h = elim (Bool-cases (ltb raw.range_size 1)) [
  | inl small ↦ rw small h
  | inr sized ↦ rw sized (carve_range-started (with_floor raw) now s h)
]
commit-started (now, other op) s h = apply-started (now, op) s h

commit_all-KeepsAll :
    (ps : List (ℕ × Commit)) (s : Store)
    → IsSound s
    → is_started s.state ≡ true
    → AllInTime ps s
    → KeepsAll s (commit_all ps s)
unfolding commit_all
commit_all-KeepsAll [] s v h t = (v, λ x. refl)
commit_all-KeepsAll (p ∷ ps) s v h t =
    let (sound, same) = commit-KeepsAll p s v h t.0 in
    let rest = commit_all-KeepsAll ps (commit p s) sound (commit-started p s h) t.1 in
    (rest.0, λ x. rest.1 x ∙ same x)

-- A crawl that begins at the post `latest` has every earlier number in exactly one place, a row of the
-- table or the numbers still to be carved, and no other number in any, after any commits in any order:
-- the claims, splits and carvings of all nodes, their reports, reclaims, and the operator's resets and
-- retries, the planning of gaps aside. This is so where each split finds its range as it was claimed.
pub commit_all-partition :
    (latest : ℕ) (ps : List (ℕ × Commit)) (x : ℕ)
    → AllInTime ps (init_catchup_state latest no_store)
    → weight x (commit_all ps (init_catchup_state latest no_store))
      ≡ (if ltb x latest then 1 else 0)
unfolding init_catchup_state
commit_all-partition latest ps x t = omega (
  arith,
  (commit_all-KeepsAll ps (init_catchup_state latest no_store) (no_store-IsSound latest) refl t).1
      x,
)
