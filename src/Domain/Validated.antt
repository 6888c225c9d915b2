-- ===== src/Domain/Validated.antt =====
-- internal/domain/embed.go: what the test of a batch of vectors accepts.
use sauce_dust.Prelude.{
  ℕ, ◌+◌, ◌≡◌, ◌↔◌, refl, sym, ap, ◌∙◌, ◌==◌, Option, none, some, List, [], ◌∷◌, length, arith,
  Bool-cases, Option-cases, inl, inr, not_both,
}
use mathlib.Core.Option.{some-injective}
use sauce_dust.Domain.Named.{IsFinite, is_non_finite_iff, IsLast, by_id_iff}
use sauce_dust.Domain.Vectors.{
  Vector, EmbeddingModel, Verdict, valid, missing, wrong_size, bad_value, by_id, check_values,
  and_then, validate_vectors, first_non_finite, first_non_finite_from, is_non_finite,
}

abbrev AllFinite : List ℕ → Type 0
AllFinite [] = Unit {0}
AllFinite (v ∷ vs) = IsFinite v × AllFinite vs

-- For each active model there is a vector with its name and none after it, which has the model's size
-- and only finite values.
abbrev pub IsGood : List Vector → List EmbeddingModel → Type 0
IsGood vectors [] = Unit {0}
IsGood vectors (m ∷ active) =
    ((values : List ℕ) × IsLast m.id values vectors
      × (length values ≡ m.vector_size)
      × AllFinite values)
    × IsGood vectors active

first_non_finite_from-none :
    (i : ℕ) (vs : List ℕ) → (first_non_finite_from i vs ≡ none) ↔ AllFinite vs
unfolding first_non_finite_from
first_non_finite_from-none i [] = (λ e. tt, λ h. refl)
first_non_finite_from-none i (v ∷ vs) =
    let rest = first_non_finite_from-none (i + 1) vs in
    elim (Bool-cases (is_non_finite v)) [
      | inl bad ↦ rw bad (
        λ e. absurd (ground arith),
        λ h. absurd (not_both (sym ((is_non_finite_iff v).1 h.0) ∙ bad)),
      )
      | inr fine ↦ rw fine (λ e. ((is_non_finite_iff v).0 fine, rest.0 e), λ h. rest.1 h.1)
    ]

check_values-valid :
    (m : EmbeddingModel) (values : List ℕ)
    → (check_values m (some values) ≡ valid) ↔ ((length values ≡ m.vector_size) × AllFinite values)
unfolding check_values first_non_finite
check_values-valid m values =
    let finite = first_non_finite_from-none 0 values in
    elim (Bool-cases (length values == m.vector_size)) [
      | inr other ↦ rw other (λ e. absurd (ground arith), λ h. absurd (ground (arith, h.0)))
      | inl same ↦ elim (Option-cases (first_non_finite_from 0 values)) [
        | inl all ↦ rw (same, all) (λ e. (ground arith, finite.0 all), λ h. refl)
        | inr (i, found) ↦
            rw (same, found)
              (
                λ e. absurd (ground arith),
                λ h.
                    let bad : Path (Option ℕ) (some i) none = sym found ∙ finite.1 h.1 in
                    absurd (ground arith),
              )
      ]
    ]

check_values-missing : (m : EmbeddingModel) → ¬ (check_values m none ≡ valid)
unfolding check_values
check_values-missing m e = ground arith

pub and_then-valid : (a b : Verdict) → (and_then a b ≡ valid) ↔ ((a ≡ valid) × (b ≡ valid))
unfolding and_then
and_then-valid valid b = (λ e. (refl, e), λ h. h.1)
and_then-valid (missing id) b = (λ e. absurd (ground arith), λ h. h.0)
and_then-valid (wrong_size id n) b = (λ e. absurd (ground arith), λ h. h.0)
and_then-valid (bad_value id i) b = (λ e. absurd (ground arith), λ h. h.0)

-- One model.
check_by_id :
    (m : EmbeddingModel) (vectors : List Vector)
    → (check_values m (by_id m.id vectors) ≡ valid) ↔ (
        (values : List ℕ) × IsLast m.id values vectors
        × (length values ≡ m.vector_size)
        × AllFinite values)
check_by_id m vectors = elim (Option-cases (by_id m.id vectors)) [
  | inl none' ↦ (
    λ e.
        let lost : check_values m none ≡ valid = ap (check_values m) (sym none') ∙ e in
        absurd (check_values-missing m lost),
    λ (values, last, size, finite).
        let bad : Path (Option (List ℕ)) none (some values) =
          sym none' ∙ (by_id_iff m.id vectors values).1 last in
        absurd (ground arith),
  )
  | inr (values, is) ↦ (
    λ e.
        let good = (check_values-valid m values).0 (ap (check_values m) (sym is) ∙ e) in
        (values, (by_id_iff m.id vectors values).0 is, good.0, good.1),
    λ (others, last, size, finite).
        let is' = (by_id_iff m.id vectors others).1 last in
        let same : others ≡ values = some-injective others values (sym is' ∙ is) in
        ap (check_values m) is' ∙ (check_values-valid m others).1 (size, finite),
  )
]

-- The test accepts a batch of vectors exactly if for each active model a vector has its name,
-- and the last that has it has the size of the model and only values that are finite float32.
pub validate_vectors-IsGood :
    (vectors : List Vector) (active : List EmbeddingModel)
    → (validate_vectors vectors active ≡ valid) ↔ IsGood vectors active
unfolding validate_vectors
validate_vectors-IsGood vectors [] = (λ e. tt, λ h. refl)
validate_vectors-IsGood vectors (m ∷ active) =
    let rest = validate_vectors-IsGood vectors active in
    let here = check_by_id m vectors in
    let both =
      and_then-valid (check_values m (by_id m.id vectors)) (validate_vectors vectors active) in
    (λ e. (here.0 (both.0 e).0, rest.0 (both.0 e).1), λ h. both.1 (here.1 h.0, rest.1 h.1))
