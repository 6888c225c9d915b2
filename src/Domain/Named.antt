-- ===== src/Domain/Named.antt =====
-- internal/domain/embed.go: the vector that `byID` holds for a model, and the float32 that are finite.
use text.Mathlib.TextEquality.{eq_iff}
use mathlib.Core.Option.{some-injective}
use sauce_dust.Prelude.{
  ℕ, ◌+◌, ◌*◌, ◌/◌, ◌%◌, ◌^◌, ◌<◌, ◌≡◌, ◌≢◌, ◌↔◌, refl, sym, ap, ◌∙◌, false, Option, none, some,
  List, [], ◌∷◌, ◌++◌, arith, Bool-cases, Option-cases, inl, inr, not_both,
}
use sauce_dust.Domain.Texts.{Text, ◌=t=◌}
use sauce_dust.Domain.Vectors.{Vector, by_id, is_non_finite}

-- The bits of a finite float32: a sign, which is 0 or 1 in 32 bits, an exponent that is not all ones,
-- and a fraction.
abbrev pub IsFinite : ℕ → Type 0
IsFinite v =
    (sign : ℕ) × (exponent : ℕ) × (fraction : ℕ) × (exponent < 255)
    × (fraction < 2 ^ 23)
    × (v ≡ sign * 2 ^ 31 + exponent * 2 ^ 23 + fraction)

pub is_non_finite_iff : (v : ℕ) → (is_non_finite v ≡ false) ↔ IsFinite v
unfolding is_non_finite
is_non_finite_iff v = (
  λ h. (v / 2 ^ 31, (v / 2 ^ 23) % 256, v % 2 ^ 23, ground arith, omega arith, omega arith),
  λ (s, e, f, low, small, is). ground arith,
)

-- No vector has this name.
abbrev pub NoneNamed : Text → List Vector → Type 0
NoneNamed id [] = Unit {0}
NoneNamed id (v ∷ vs) = (v.model_id ≢ id) × NoneNamed id vs

-- The vector with this name after which there is no other, with these values.
pub record IsLast (id : Text) (values : List ℕ) (vs : List Vector) : Type 0 where
  pub before : List Vector
  pub after : List Vector
  pub vector : Vector
  pub parts : vs ≡ before ++ (vector ∷ after)
  pub named : vector.model_id ≡ id
  pub holds : vector.values ≡ values
  pub alone : NoneNamed id after

IsLast-later :
    {id : Text} {values : List ℕ} {vs : List Vector} (v : Vector)
    → IsLast id values vs
    → IsLast id values (v ∷ vs)
IsLast-later v l = record {
  before = v ∷ l.before;
  after = l.after;
  vector = l.vector;
  parts = ap (λ us. v ∷ us) l.parts;
  named = l.named;
  holds = l.holds;
  alone = l.alone;
}

other_name : (s t : Text) → (s =t= t) ≡ false → s ≢ t
other_name s t h e = not_both (sym h ∙ (eq_iff s t).1 e)

by_id-none : (id : Text) (vs : List Vector) → by_id id vs ≡ none → NoneNamed id vs
unfolding by_id
by_id-none id [] h = tt
by_id-none id (v ∷ vs) h = elim (Option-cases (by_id id vs)) [
  | inr (later, e) ↦
      let bad : Path (Option (List ℕ)) (some later) none = sym (rw e refl) ∙ h in
      absurd (ground arith)
  | inl e ↦ elim (Bool-cases (v.model_id =t= id)) [
    | inl same ↦
        let bad : Path (Option (List ℕ)) (some v.values) none = sym (rw (e, same) refl) ∙ h in
        absurd (ground arith)
    | inr other ↦ (other_name v.model_id id other, by_id-none id vs e)
  ]
]

by_id-some :
    (id : Text) (vs : List Vector) (values : List ℕ)
    → by_id id vs ≡ some values
    → IsLast id values vs
unfolding by_id
by_id-some id [] values h = absurd (ground arith)
by_id-some id (v ∷ vs) values h = elim (Option-cases (by_id id vs)) [
  | inr (later, e) ↦ IsLast-later v (by_id-some id vs values (e ∙ (sym (rw e refl) ∙ h)))
  | inl e ↦ elim (Bool-cases (v.model_id =t= id)) [
    | inl same ↦ record {
      before = [];
      after = vs;
      vector = v;
      parts = refl;
      named = (eq_iff v.model_id id).0 same;
      holds = some-injective v.values values (sym (rw (e, same) refl) ∙ h);
      alone = by_id-none id vs e;
    }
    | inr other ↦
        let bad : Path (Option (List ℕ)) none (some values) = sym (rw (e, other) refl) ∙ h in
        absurd (ground arith)
  ]
]

NoneNamed-by_id : (id : Text) (vs : List Vector) → NoneNamed id vs → by_id id vs ≡ none
unfolding by_id
NoneNamed-by_id id [] h = refl
NoneNamed-by_id id (v ∷ vs) h = elim (Bool-cases (v.model_id =t= id)) [
  | inl same ↦ absurd (h.0 ((eq_iff v.model_id id).0 same))
  | inr other ↦ rw (NoneNamed-by_id id vs h.1, other) refl
]

by_id-here :
    (id : Text) (v : Vector) (after before : List Vector)
    → v.model_id ≡ id
    → NoneNamed id after
    → by_id id (before ++ (v ∷ after)) ≡ some v.values
unfolding by_id
by_id-here id v after [] same alone =
    rw (NoneNamed-by_id id after alone, (eq_iff v.model_id id).1 same) refl
by_id-here id v after (u ∷ before) same alone = rw (by_id-here id v after before same alone) refl

-- `byID` holds the values of the last vector with the name.
pub by_id_iff :
    (id : Text) (vs : List Vector) (values : List ℕ)
    → (by_id id vs ≡ some values) ↔ IsLast id values vs
by_id_iff id vs values = (
  by_id-some id vs values,
  λ l.
      ap (by_id id) l.parts
      ∙ (by_id-here id l.vector l.after l.before l.named l.alone ∙ ap (λ x. some x) l.holds),
)
