-- ===== src/Lease/Gaps.antt =====
-- internal/adapter/postgres/ranges.go: the ranges that `PlanGapRanges` puts into a gap.
use sauce_dust.Prelude.{
  ℕ, zero, suc, ◌+◌, ◌-◌, ◌≤◌, ◌<◌, ◌≡◌, refl, arith, ltb, if◌then◌else◌, Bool-cases, inl, inr,
  ◌==◌, [], ◌∷◌,
}
use sauce_dust.Lease.Store.{Store}
use sauce_dust.Lease.Acquire.{insert_waiting, blank_row}
use sauce_dust.Lease.Admin.{IdGap, plan_gap, plan_gap_ranges, default_range_size}
use sauce_dust.Lease.Coverage.{inside, covers, no_bounds}

insert_free :
    (lower upper now : ℕ) (s : Store)
    → lower ≤ upper
    → covers lower s.rows ≡ 0
    → insert_waiting lower upper now s
      ≡ record s { rows = blank_row s.next_id lower upper now ∷ s.rows; next_id = suc s.next_id }
unfolding insert_waiting
insert_free lower upper now s h free = ground (arith, no_bounds lower upper s.rows h free)

insert-covers :
    (lower upper now x : ℕ) (s : Store)
    → lower ≤ upper
    → covers lower s.rows ≡ 0
    → covers x (insert_waiting lower upper now s).rows ≡ inside x lower upper + covers x s.rows
insert-covers lower upper now x s h free = rw (insert_free lower upper now s h free) refl

-- With enough rounds the gap, which no row covers yet, is cut into ranges that cover each of its
-- numbers once more and no other number; so is what is left of it at every round.
plan_gap-covers :
    (fuel from upper size now x : ℕ) (s : Store)
    → upper < fuel + from
    → 1 ≤ from
    → from ≤ upper
    → 1 ≤ size
    → ((y : ℕ) → from ≤ y → y ≤ upper → covers y s.rows ≡ 0)
    → covers x (plan_gap fuel from upper size now s).rows ≡ covers x s.rows + inside x from upper
unfolding plan_gap
plan_gap-covers zero from upper size now x s enough one some_left sized free = absurd (omega arith)
plan_gap-covers (suc fuel) from upper size now x s enough one some_left sized free =
    elim (Bool-cases (ltb (upper + 1 - size) from)) [
      | inl last ↦
          ground
            (arith, insert-covers from upper now x s some_left (free from (omega arith) some_left))
      | inr more ↦ elim (Bool-cases (upper + 1 - size == from)) [
        | inl exact ↦
            ground (
              arith,
              insert-covers from upper now x s some_left (free from (omega arith) some_left),
            )
        | inr rest ↦
            let lower = upper + 1 - size in
            let s' = insert_waiting lower upper now s in
            let here : covers lower s.rows ≡ 0 = free lower (ground arith) (omega arith) in
            let free' : (y : ℕ) → from ≤ y → y ≤ upper - size → covers y s'.rows ≡ 0 = λ y a b.
              ground (
                arith,
                free y a (omega arith),
                insert-covers lower upper now y s (omega arith) here,
              ) in
            ground (
              arith,
              insert-covers lower upper now x s (omega arith) here,
              plan_gap-covers fuel from (upper - size) size now x s' (omega arith) one
                  (ground arith) sized free',
            )
      ]
    ]

-- Filling a gap that no row covers yet covers each of its numbers exactly once, and no other
-- number more than before. Zero as the range size means the default of 10,000.
pub plan_gap_ranges-covers :
    (g : IdGap) (raw now x : ℕ) (s : Store)
    → 1 ≤ g.from
    → g.from ≤ g.to
    → ((y : ℕ) → g.from ≤ y → y ≤ g.to → covers y s.rows ≡ 0)
    → covers x (plan_gap_ranges (g ∷ []) raw now s).0.rows ≡ covers x s.rows + inside x g.from g.to
unfolding plan_gap_ranges
plan_gap_ranges-covers g raw now x s one some_left free =
    plan_gap-covers (suc (suc g.to)) g.from g.to (if ltb raw 1 then default_range_size else raw) now
      x s (omega arith) one some_left (ground arith) free
