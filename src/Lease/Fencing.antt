-- ===== src/Lease/Fencing.antt =====
-- internal/adapter/postgres/lease.go: the attempts as a fencing token.
use Prim.Native.String.{String}
use sauce_dust.Prelude.{
  ℕ, ◌-◌, ◌≤◌, ◌<◌, ◌≡◌, Bool, true, Option, none, some, List, [], ◌∷◌, arith, ltb, Bool-cases, inl,
  inr,
}
use sauce_dust.Lease.Store.{
  Row, CrawlState, Store, CrawlRange, Reply, ok, err, no_work, update, affected, is_running,
  has_bounds,
}
use sauce_dust.Lease.Acquire.{
  LeaseRequest, find, pick, has_id, is_candidate, lease_row, claim, blank_row, insert_waiting,
  is_running_id, set_lower, split_at_floor, lease_picked, to_range, reuse_picked, reuse_range,
  new_row, release_row, upsert_found, carve_lower, carve_below, state_or_new, carve_range, or_carve,
  with_floor, acquire_backfill_range,
}

-- The row of that number has gone past the token: leased anew since, or waiting at least as high.
abbrev pub IsPast : CrawlRange → Row → Type 0
IsPast c r =
    r.id ≡ c.id → (c.attempts ≤ r.attempts) × (is_running r.status ≡ true → c.attempts < r.attempts)

abbrev pub ArePast : CrawlRange → List Row → Type 0
ArePast c [] = Unit {0}
ArePast c (r ∷ rs) = IsPast c r × ArePast c rs

pub record IsSuperseded (c : CrawlRange) (s : Store) : Type 0 where
  pub known : c.id < s.next_id
  pub past : ArePast c s.rows

pub update-ArePast :
    (c : CrawlRange) (test : Row → Bool) (f : Row → Row)
    → ((r : Row) → test r ≡ true → IsPast c r → IsPast c (f r))
    → (rs : List Row) → ArePast c rs
    → ArePast c (update test f rs)
unfolding update
update-ArePast c test f keep [] p = tt
update-ArePast c test f keep (r ∷ rs) p = elim (Bool-cases (test r)) [
  | inl hit ↦ rw hit (keep r hit p.0, update-ArePast c test f keep rs p.1)
  | inr miss ↦ rw miss (p.0, update-ArePast c test f keep rs p.1)
]

lease_row-IsPast :
    (c : CrawlRange) (node : String) (now : ℕ) (r : Row)
    → IsPast c r
    → IsPast c (lease_row node now r)
lease_row-IsPast c node now r p e = (omega (arith, (p e).0), λ live. omega (arith, (p e).0))

release_row-IsPast :
    (c : CrawlRange) (node : String) (now : ℕ) (r : Row)
    → IsPast c r
    → IsPast c (release_row node now r)
release_row-IsPast c node now r p e = (omega (arith, (p e).0), λ live. omega (arith, (p e).0))

fresh-IsPast : (c : CrawlRange) (r : Row) → c.id < r.id → IsPast c r
fresh-IsPast c r h e = absurd (omega arith)

insert_waiting-IsSuperseded :
    (c : CrawlRange) (lower upper now : ℕ) (s : Store)
    → IsSuperseded c s
    → IsSuperseded c (insert_waiting lower upper now s)
unfolding insert_waiting
insert_waiting-IsSuperseded c lower upper now s v =
    elim (Bool-cases (ltb 0 (affected (has_bounds lower upper) s.rows))) [
      | inl dup ↦ rw dup v
      | inr new ↦ rw new (record {
        known = omega (arith, v.known);
        past = (fresh-IsPast c (blank_row s.next_id lower upper now) v.known, v.past);
      })
    ]

pub update-IsSuperseded :
    (c : CrawlRange) (test : Row → Bool) (f : Row → Row) (s : Store)
    → ((r : Row) → test r ≡ true → IsPast c r → IsPast c (f r))
    → IsSuperseded c s
    → IsSuperseded c (record s { rows = update test f s.rows })
update-IsSuperseded c test f s keep v = record {
  known = v.known;
  past = update-ArePast c test f keep s.rows v.past;
}

split_at_floor-IsSuperseded :
    (c d : CrawlRange) (req : LeaseRequest) (now : ℕ) (s : Store)
    → IsSuperseded c s
    → IsSuperseded c ((split_at_floor d req now s).1)
unfolding split_at_floor
split_at_floor-IsSuperseded c d req now s v =
    let v' = insert_waiting-IsSuperseded c d.lower (req.floor - 1) now s v in
    let done =
      update-IsSuperseded c (is_running_id d.id) (set_lower req.floor)
        (insert_waiting d.lower (req.floor - 1) now s) (λ r hit p. p) v' in
    ground (arith, v, done)

lease_picked-IsSuperseded :
    (c : CrawlRange) (req : LeaseRequest) (now : ℕ) (r : Row) (s : Store)
    → IsSuperseded c s
    → IsSuperseded c ((lease_picked req now r s).1)
unfolding lease_picked
lease_picked-IsSuperseded c req now r s v =
    let v' =
      update-IsSuperseded c (has_id r.id) (lease_row req.node now) s
        (λ q hit p. lease_row-IsPast c req.node now q p) v in
    ground
      (arith, v', split_at_floor-IsSuperseded c (to_range req r) req now (claim req now r s) v')

reuse_picked-IsSuperseded :
    (c : CrawlRange) (req : LeaseRequest) (now : ℕ) (s : Store) (o : Option Row)
    → IsSuperseded c s
    → IsSuperseded c ((reuse_picked req now s o).1)
reuse_picked-IsSuperseded c req now s none v = v
reuse_picked-IsSuperseded c req now s (some r) v = lease_picked-IsSuperseded c req now r s v

upsert_found-IsSuperseded :
    (c : CrawlRange) (node : String) (lower upper now : ℕ) (s : Store) (o : Option Row)
    → IsSuperseded c s
    → IsSuperseded c ((upsert_found node lower upper now s o).1)
upsert_found-IsSuperseded c node lower upper now s none v = record {
  known = omega (arith, v.known);
  past = (fresh-IsPast c (new_row node s.next_id lower upper now) v.known, v.past);
}
upsert_found-IsSuperseded c node lower upper now s (some r) v =
    update-IsSuperseded c (has_bounds lower upper) (release_row node now) s
      (λ q hit p. release_row-IsPast c node now q p) v

carve_below-IsSuperseded :
    (c : CrawlRange) (req : LeaseRequest) (now : ℕ) (st : CrawlState) (before : Option ℕ)
    (s : Store)
    → IsSuperseded c s
    → IsSuperseded c ((carve_below req now st before s).1)
unfolding carve_below
carve_below-IsSuperseded c req now st none s v = v
carve_below-IsSuperseded c req now st (some before) s v =
    let done =
      upsert_found-IsSuperseded c req.node (carve_lower req (before - 1)) (before - 1) now s
        (find (has_bounds (carve_lower req (before - 1)) (before - 1)) s.rows) v in
    ground (arith, v, done)

or_carve-IsSuperseded :
    (c : CrawlRange) (req : LeaseRequest) (now : ℕ) (out : Reply CrawlRange × Store)
    → IsSuperseded c (out.1)
    → IsSuperseded c ((or_carve req now out).1)
unfolding carve_range
or_carve-IsSuperseded c req now (ok d, s) v = v
or_carve-IsSuperseded c req now (err no_work, s) v =
    carve_below-IsSuperseded c req now (state_or_new s.state) (state_or_new s.state).backfill_before
      s v
or_carve-IsSuperseded c req now (err e, s) v = v

pub acquire-IsSuperseded :
    (c : CrawlRange) (locked : ℕ → Bool) (raw : LeaseRequest) (now : ℕ) (s : Store)
    → IsSuperseded c s
    → IsSuperseded c ((acquire_backfill_range locked raw now s).1)
unfolding acquire_backfill_range reuse_range
acquire-IsSuperseded c locked raw now s v =
    let picked = pick (is_candidate locked now (with_floor raw)) s.rows in
    let done =
      or_carve-IsSuperseded c (with_floor raw) now (reuse_picked (with_floor raw) now s picked)
        (reuse_picked-IsSuperseded c (with_floor raw) now s picked v) in
    ground (arith, v, done)
