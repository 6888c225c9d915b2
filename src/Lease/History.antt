-- ===== src/Lease/History.antt =====
-- internal/adapter/postgres/lease.go, nodes.go and ranges.go: sequences of the operations that nodes, the
-- sweeper and an operator run on the table, each as a whole, without the planning of gaps.
use Prim.Native.String.{String}
use sauce_dust.Prelude.{
  ℕ, ◌≡◌, refl, ◌∙◌, Bool, true, Option, none, some, List, [], ◌∷◌, arith, Bool-cases, inl, inr,
  ◌==◌,
}
use sauce_dust.Lease.Store.{
  RangeStatus, Row, CrawlState, Store, CrawlRange, update, affected, holds_lease,
}
use sauce_dust.Lease.Acquire.{LeaseRequest, has_id, acquire_backfill_range}
use sauce_dust.Lease.Report.{
  finish_row, finish_wait, renew_row, give_up_row, report, finish_range, renew_range, release_range,
  init_catchup_state, advance_watermark, init_state, advance_state,
}
use sauce_dust.Lease.Admin.{
  reclaim, reclaim_row, reset_attempts, reset_exhausted_ranges, reset_row, reset_range, retry_row,
  retry_failed_ranges,
}
use sauce_dust.Lease.Coverage.{
  uncarved, weight, IsSound, KeepsBounds, update-IsSound, covers-update,
}
use sauce_dust.Lease.Acquisition.{acquire_backfill_range-Keeps}
use sauce_dust.Lease.Started.{is_started, acquire-started, init_state-uncarved, init_state-started}

pub data Op : Type 0 where
  acquires : (ℕ → Bool) → LeaseRequest → Op
  finishes : CrawlRange → RangeStatus → ℕ → Option (List ℕ) → Op
  renews releases : CrawlRange → Op
  reclaims : (Option String → Bool) → List ℕ → Op
  resets : ℕ → Op
  resets_exhausted retries_failed : Op
  advances inits : ℕ → Op

-- One operation at the time `now`; an error leaves what the operation has left.
unfoldable pub apply : ℕ × Op → Store → Store
apply (now, acquires locked req) s = (acquire_backfill_range locked req now s).1
apply (now, finishes c status saved cause) s = (finish_range c status saved cause now s).1
apply (now, renews c) s = (renew_range c now s).1
apply (now, releases c) s = (release_range c now s).1
apply (now, reclaims lost note) s = (reclaim lost note s).0
apply (now, resets id) s = (reset_range id s).1
apply (now, resets_exhausted) s = (reset_exhausted_ranges s).0
apply (now, retries_failed) s = (retry_failed_ranges now s).0
apply (now, advances id) s = advance_watermark id s
apply (now, inits latest) s = init_catchup_state latest s

unfoldable pub run : List (ℕ × Op) → Store → Store
run [] s = s
run (op ∷ ops) s = run ops (apply op s)

abbrev pub KeepsAll : Store → Store → Type 0
KeepsAll s t = IsSound t × ((x : ℕ) → weight x t ≡ weight x s)

update-KeepsAll :
    (test : Row → Bool) (f : Row → Row) (k : KeepsBounds f) (s : Store)
    → IsSound s
    → KeepsAll s (record s { rows = update test f s.rows })
update-KeepsAll test f k s v =
    (update-IsSound test f k s v, λ x. omega (arith, covers-update test f k x s.rows))

report-KeepsAll :
    (c : CrawlRange) (f : Row → Row) (k : KeepsBounds f) (s : Store)
    → IsSound s
    → KeepsAll s ((report c f s).1)
unfolding report
report-KeepsAll c f k s v = elim (Bool-cases (affected (holds_lease c) s.rows == 0)) [
  | inl lost ↦ rw lost (v, λ x. refl)
  | inr held ↦ rw held (update-KeepsAll (holds_lease c) f k s v)
]

state-KeepsAll :
    (o : Option CrawlState) (s : Store)
    → ((x : ℕ) → uncarved x o ≡ uncarved x s.state)
    → IsSound s
    → KeepsAll s (record s { state = o })
state-KeepsAll o s same v = (
  record { ids = v.ids; ordered = v.ordered; once = λ x. omega (arith, same x, v.once x) },
  λ x. omega (arith, same x),
)

advance_state-uncarved :
    (id x : ℕ) (o : Option CrawlState) → uncarved x (advance_state id o) ≡ uncarved x o
advance_state-uncarved id x none = refl
advance_state-uncarved id x (some st) = refl

advance_state-started :
    (id : ℕ) (o : Option CrawlState) → is_started (advance_state id o) ≡ is_started o
advance_state-started id none = refl
advance_state-started id (some st) = refl

bounds_of :
    (f : Row → Row)
    → ((r : Row) → (f r).id ≡ r.id)
    → ((r : Row) → (f r).lower ≡ r.lower)
    → ((r : Row) → (f r).upper ≡ r.upper)
    → KeepsBounds f
bounds_of f a b c = record { keeps_id = a; keeps_lower = b; keeps_upper = c }

reset_range-store :
    (id : ℕ) (s : Store)
    → (reset_range id s).1 ≡ record s { rows = update (has_id id) reset_row s.rows }
unfolding reset_range
reset_range-store id s = ground arith

pub apply-KeepsAll :
    (op : ℕ × Op) (s : Store) → IsSound s → is_started s.state ≡ true → KeepsAll s (apply op s)
unfolding apply finish_range renew_range release_range reclaim reset_exhausted_ranges
    retry_failed_ranges advance_watermark init_catchup_state
apply-KeepsAll (now, acquires locked req) s v st = acquire_backfill_range-Keeps locked req now s v
apply-KeepsAll (now, finishes c status saved cause) s v st =
    report-KeepsAll c (finish_row status saved cause now (finish_wait status c.attempts))
      (bounds_of _ (λ r. refl) (λ r. refl) (λ r. refl)) s v
apply-KeepsAll (now, renews c) s v st =
    report-KeepsAll c (renew_row now) (bounds_of _ (λ r. refl) (λ r. refl) (λ r. refl)) s v
apply-KeepsAll (now, releases c) s v st =
    report-KeepsAll c (give_up_row now) (bounds_of _ (λ r. refl) (λ r. refl) (λ r. refl)) s v
apply-KeepsAll (now, reclaims lost note) s v st =
    update-KeepsAll _ (reclaim_row note) (bounds_of _ (λ r. refl) (λ r. refl) (λ r. refl)) s v
apply-KeepsAll (now, resets id) s v st =
    rw (reset_range-store id s)
      (update-KeepsAll (has_id id) reset_row (bounds_of _ (λ r. refl) (λ r. refl) (λ r. refl)) s v)
apply-KeepsAll (now, resets_exhausted) s v st =
    update-KeepsAll _ reset_attempts (bounds_of _ (λ r. refl) (λ r. refl) (λ r. refl)) s v
apply-KeepsAll (now, retries_failed) s v st =
    update-KeepsAll _ (retry_row now) (bounds_of _ (λ r. refl) (λ r. refl) (λ r. refl)) s v
apply-KeepsAll (now, advances id) s v st =
    state-KeepsAll (advance_state id s.state) s (λ x. advance_state-uncarved id x s.state) v
apply-KeepsAll (now, inits latest) s v st =
    state-KeepsAll (some (init_state latest s.state)) s
      (λ x. init_state-uncarved latest x s.state st) v

report-state : (c : CrawlRange) (f : Row → Row) (s : Store) → (report c f s).1.state ≡ s.state
unfolding report
report-state c f s = ground arith

pub apply-started :
    (op : ℕ × Op) (s : Store) → is_started s.state ≡ true → is_started ((apply op s).state) ≡ true
unfolding apply finish_range renew_range release_range reset_range reclaim reset_exhausted_ranges
    retry_failed_ranges advance_watermark init_catchup_state
apply-started (now, acquires locked req) s h = acquire-started locked req now s h
apply-started (now, finishes c status saved cause) s h = rw report-state h
apply-started (now, renews c) s h = rw report-state h
apply-started (now, releases c) s h = rw report-state h
apply-started (now, reclaims lost note) s h = h
apply-started (now, resets id) s h = ground arith
apply-started (now, resets_exhausted) s h = h
apply-started (now, retries_failed) s h = h
apply-started (now, advances id) s h = rw advance_state-started h
apply-started (now, inits latest) s h = init_state-started latest s.state

pub run-KeepsAll :
    (ops : List (ℕ × Op)) (s : Store)
    → IsSound s
    → is_started s.state ≡ true
    → KeepsAll s (run ops s)
unfolding run
run-KeepsAll [] s v h = (v, λ x. refl)
run-KeepsAll (op ∷ ops) s v h =
    let (sound, same) = apply-KeepsAll op s v h in
    let rest = run-KeepsAll ops (apply op s) sound (apply-started op s h) in
    (rest.0, λ x. rest.1 x ∙ same x)

abbrev pub no_store : Store
no_store = record { rows = []; next_id = 1; state = none }

pub no_store-IsSound : (latest : ℕ) → IsSound (init_catchup_state latest no_store)
unfolding init_catchup_state
no_store-IsSound latest = record { ids = tt; ordered = tt; once = λ x. ground arith }
