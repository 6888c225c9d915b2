-- ===== src/Lease/Tokens.antt =====
-- internal/adapter/postgres/lease.go and nodes.go: what a report is worth after the lease was taken
-- away from its node.
use Prim.Native.String.{String}
use text.Mathlib.TextEquality.{eq_iff}
use sauce_dust.Prelude.{
  ℕ, ◌≤◌, ◌<◌, ◌≡◌, refl, Bool, true, false, ◌&&◌, Option, none, some, List, [], ◌∷◌, arith,
  Bool-cases, inl, inr, ap,
}
use sauce_dust.Lease.Store.{
  RangeStatus, Row, Store, CrawlRange, err, lease_conflict, update, affected, holds_lease,
  is_running, is_node,
}
use sauce_dust.Lease.Report.{
  finish_row, finish_wait, renew_row, give_up_row, report, finish_range, renew_range, release_range,
  advance_watermark, init_catchup_state,
}
use sauce_dust.Lease.Admin.{reclaim, reclaim_row}
use sauce_dust.Lease.Coverage.{Below, IsSound}
use sauce_dust.Lease.Fencing.{
  IsPast, ArePast, IsSuperseded, update-IsSuperseded, acquire-IsSuperseded,
}
use sauce_dust.Lease.History.{
  Op, acquires, finishes, renews, releases, reclaims, resets, resets_exhausted, retries_failed,
  advances, inits, apply, run,
}

-- The statements that set the attempts back to 0 are an operator's.
abbrev pub keeps_tokens : Op → Bool
keeps_tokens (resets id) = false
keeps_tokens resets_exhausted = false
keeps_tokens retries_failed = false
keeps_tokens _ = true

abbrev pub AllKeepTokens : List (ℕ × Op) → Type 0
AllKeepTokens [] = Unit {0}
AllKeepTokens (op ∷ ops) = (keeps_tokens (op.1) ≡ true) × AllKeepTokens ops

holds_lease-running :
    (d : CrawlRange) (r : Row) → holds_lease d r ≡ true → is_running r.status ≡ true
holds_lease-running d r h = ground arith

module _ (c d : CrawlRange) where
  report-IsSuperseded :
      (f : Row → Row) (s : Store)
      → ((r : Row) → holds_lease d r ≡ true → IsPast c r → IsPast c (f r))
      → IsSuperseded c s
      → IsSuperseded c ((report d f s).1)
  unfolding report
  report-IsSuperseded f s keep v =
      let done = update-IsSuperseded c (holds_lease d) f s keep v in ground (arith, v, done)

  finish_row-IsPast :
      (status : RangeStatus) (saved : ℕ) (cause : Option (List ℕ)) (now wait : ℕ) (r : Row)
      → holds_lease d r ≡ true
      → IsPast c r
      → IsPast c (finish_row status saved cause now wait r)
  finish_row-IsPast status saved cause now wait r h p e =
      ((p e).0, λ live. (p e).1 (holds_lease-running d r h))

  renew_row-IsPast :
      (now : ℕ) (r : Row) → holds_lease d r ≡ true → IsPast c r → IsPast c (renew_row now r)
  renew_row-IsPast now r h p = p

  give_up_row-IsPast :
      (now : ℕ) (r : Row) → holds_lease d r ≡ true → IsPast c r → IsPast c (give_up_row now r)
  give_up_row-IsPast now r h p e = (omega (arith, (p e).1 (holds_lease-running d r h)), λ live. cc)

apply-IsSuperseded :
    (c : CrawlRange) (op : ℕ × Op) (s : Store)
    → keeps_tokens (op.1) ≡ true
    → IsSuperseded c s
    → IsSuperseded c (apply op s)
unfolding apply finish_range renew_range release_range reclaim advance_watermark init_catchup_state
apply-IsSuperseded c (now, acquires locked req) s k v = acquire-IsSuperseded c locked req now s v
apply-IsSuperseded c (now, finishes d status saved cause) s k v =
    report-IsSuperseded c d (finish_row status saved cause now (finish_wait status d.attempts)) s
      (finish_row-IsPast c d status saved cause now (finish_wait status d.attempts)) v
apply-IsSuperseded c (now, renews d) s k v =
    report-IsSuperseded c d (renew_row now) s (renew_row-IsPast c d now) v
apply-IsSuperseded c (now, releases d) s k v =
    report-IsSuperseded c d (give_up_row now) s (give_up_row-IsPast c d now) v
apply-IsSuperseded c (now, reclaims lost note) s k v =
    update-IsSuperseded c _ (reclaim_row note) s (λ r hit p e. ((p e).0, λ live. cc)) v
apply-IsSuperseded c (now, resets id) s k v = absurd (cc k)
apply-IsSuperseded c (now, resets_exhausted) s k v = absurd (cc k)
apply-IsSuperseded c (now, retries_failed) s k v = absurd (cc k)
apply-IsSuperseded c (now, advances id) s k v = record { known = v.known; past = v.past }
apply-IsSuperseded c (now, inits latest) s k v = record { known = v.known; past = v.past }

run-IsSuperseded :
    (c : CrawlRange) (ops : List (ℕ × Op)) (s : Store)
    → AllKeepTokens ops
    → IsSuperseded c s
    → IsSuperseded c (run ops s)
unfolding run
run-IsSuperseded c [] s k v = v
run-IsSuperseded c (op ∷ ops) s k v =
    run-IsSuperseded c ops (apply op s) k.1 (apply-IsSuperseded c op s k.0 v)

past_holds_nothing :
    (c : CrawlRange) (rs : List Row) → ArePast c rs → affected (holds_lease c) rs ≡ 0
unfolding affected
past_holds_nothing c [] p = refl
past_holds_nothing c (r ∷ rs) p = ground (arith, past_holds_nothing c rs p.1, p.0)

-- A lease that its row has gone past is refused by every report, which changes nothing.
abbrev pub IsFenced : CrawlRange → Store → Type 0
IsFenced c s =
    ((status : RangeStatus) (saved : ℕ) (cause : Option (List ℕ)) (now : ℕ)
      → finish_range c status saved cause now s ≡ (err lease_conflict, s))
    × ((now : ℕ) → renew_range c now s ≡ (err lease_conflict, s))
    × ((now : ℕ) → release_range c now s ≡ (err lease_conflict, s))

report_past :
    (c : CrawlRange) (f : Row → Row) (s : Store)
    → IsSuperseded c s
    → report c f s ≡ (err lease_conflict, s)
unfolding report
report_past c f s v = ground (arith, past_holds_nothing c s.rows v.past)

pub superseded-IsFenced : (c : CrawlRange) (s : Store) → IsSuperseded c s → IsFenced c s
unfolding finish_range renew_range release_range
superseded-IsFenced c s v = (
  λ status saved cause now.
      report_past c (finish_row status saved cause now (finish_wait status c.attempts)) s v,
  λ now. report_past c (renew_row now) s v,
  λ now. report_past c (give_up_row now) s v,
)

other_ids :
    (c : CrawlRange) (n : ℕ) (rs : List Row) (test : Row → Bool) (note : List ℕ)
    → Below n rs
    → n ≤ c.id
    → ArePast c (update test (reclaim_row note) rs)
unfolding update
other_ids c n [] test note b h = tt
other_ids c n (r ∷ rs) test note b h = elim (Bool-cases (test r)) [
  | inl hit ↦ rw hit (λ e. absurd (omega arith), other_ids c r.id rs test note b.1 (omega arith))
  | inr miss ↦ rw miss (λ e. absurd (omega arith), other_ids c r.id rs test note b.1 (omega arith))
]

holds_lease-id : (c : CrawlRange) (r : Row) → holds_lease c r ≡ true → r.id ≡ c.id
holds_lease-id c r h = ground arith

holds_lease-attempts : (c : CrawlRange) (r : Row) → holds_lease c r ≡ true → r.attempts ≡ c.attempts
holds_lease-attempts c r h = ground arith

is_node-eq : (o : Option String) (n : String) → is_node o n ≡ true → o ≡ some n
is_node-eq none n h = cc
is_node-eq (some m) n h = ap some ((eq_iff m n).0 h)

held-lost :
    (c : CrawlRange) (r : Row) (lost : Option String → Bool)
    → holds_lease c r ≡ true
    → lost (some c.node) ≡ true
    → (is_running r.status && lost r.node) ≡ true
held-lost c r lost h l = ground (arith, is_node-eq r.node c.node)

held_id-lt :
    (c : CrawlRange) (n : ℕ) (rs : List Row)
    → Below n rs
    → 0 < affected (holds_lease c) rs
    → c.id < n
unfolding affected
held_id-lt c n [] b h = absurd (omega arith)
held_id-lt c n (r ∷ rs) b h = elim (Bool-cases (holds_lease c r)) [
  | inl held ↦ omega (arith, holds_lease-id c r held)
  | inr free ↦
      let tail : 0 < affected (holds_lease c) rs = rw free at h in
      omega (arith, held_id-lt c r.id rs b.1 tail)
]

reclaim-ArePast :
    (c : CrawlRange) (n : ℕ) (rs : List Row) (lost : Option String → Bool) (note : List ℕ)
    → Below n rs
    → 0 < affected (holds_lease c) rs
    → lost (some c.node) ≡ true
    → ArePast c (update (λ r. is_running r.status && lost r.node) (reclaim_row note) rs)
unfolding update affected
reclaim-ArePast c n [] lost note b h l = tt
reclaim-ArePast c n (r ∷ rs) lost note b h l = elim (Bool-cases (holds_lease c r)) [
  | inl held ↦ rw (held-lost c r lost held l) (
    λ e. (omega (arith, holds_lease-attempts c r held), λ live. cc),
    other_ids c r.id rs _ note b.1 (omega (arith, holds_lease-id c r held)),
  )
  | inr free ↦
      let tail : 0 < affected (holds_lease c) rs = rw free at h in
      let rest = reclaim-ArePast c r.id rs lost note b.1 tail l in
      let above = held_id-lt c r.id rs b.1 tail in
      elim (Bool-cases (is_running r.status && lost r.node)) [
        | inl hit ↦ rw hit (λ e. absurd (omega arith), rest)
        | inr miss ↦ rw miss (λ e. absurd (omega arith), rest)
      ]
]

pub reclaim-IsSuperseded :
    (c : CrawlRange) (s : Store) (lost : Option String → Bool) (note : List ℕ)
    → IsSound s
    → 0 < affected (holds_lease c) s.rows
    → lost (some c.node) ≡ true
    → IsSuperseded c ((reclaim lost note s).0)
unfolding reclaim
reclaim-IsSuperseded c s lost note v h l = record {
  known = held_id-lt c s.next_id s.rows v.ids h;
  past = reclaim-ArePast c s.next_id s.rows lost note v.ids h l;
}

-- A node whose lease was taken back can report whatever and whenever it likes: after any leases,
-- reports and further reclaims its finish, renewal and release are conflicts that change nothing.
-- (Resetting the attempts by hand is left out, and does bring an old token back.)
pub reclaimed_stays-IsFenced :
    (c : CrawlRange) (s : Store) (lost : Option String → Bool) (note : List ℕ) (ops : List (ℕ × Op))
    → IsSound s
    → 0 < affected (holds_lease c) s.rows
    → lost (some c.node) ≡ true
    → AllKeepTokens ops
    → IsFenced c (run ops ((reclaim lost note s).0))
reclaimed_stays-IsFenced c s lost note ops v h l k =
    superseded-IsFenced c (run ops ((reclaim lost note s).0)) (
      run-IsSuperseded c ops ((reclaim lost note s).0) k (reclaim-IsSuperseded c s lost note v h l))
