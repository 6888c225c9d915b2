-- ===== src/Search/Exact.antt =====
-- internal/app/search.go: what `ExactMatch` says of the candidates.
use sauce_dust.Prelude.{
  ℕ, zero, suc, ◌≤◌, ◌≡◌, refl, sym, ap, ◌∙◌, ◌||◌, Bool, true, false, List, [], ◌∷◌, length, take,
  length-take, arith, Bool-cases, inl, inr, min,
}
use sauce_dust.Search.{Hit, Sort, before, same_flag, first_exact, rank}

-- Whether a hit of a list is exact.
unfoldable pub any_exact : List Hit → Bool
any_exact [] = false
any_exact (h ∷ hs) = h.exact || any_exact hs

-- No hit goes before the one in front of it.
abbrev pub IsSorted : (Hit → Hit → Bool) → List Hit → Type 0
IsSorted less [] = Unit {0}
IsSorted less (h ∷ []) = Unit {0}
IsSorted less (h ∷ g ∷ hs) = (less g h ≡ false) × IsSorted less (g ∷ hs)

-- With this comparison the sort keeps the hits and sorts them.
pub record IsSort (sort : Sort) (less : Hit → Hit → Bool) : Type 0 where
  pub keeps : (hs : List Hit) → any_exact (sort less hs) ≡ any_exact hs
  pub keeps_length : (hs : List Hit) → length (sort less hs) ≡ length hs
  pub sorts : (hs : List Hit) → IsSorted less (sort less hs)

exact_before :
    (above : ℕ → ℕ → Bool) (g h : Hit) → g.exact ≡ true → h.exact ≡ false → before above g h ≡ true
unfolding before same_flag
exact_before above g h e f = rw (e, f, same_flag) refl

-- Behind a hit that is not exact stands none that is.
none_exact :
    (above : ℕ → ℕ → Bool) (h : Hit) (hs : List Hit)
    → h.exact ≡ false
    → IsSorted (before above) (h ∷ hs)
    → any_exact hs ≡ false
unfolding any_exact
none_exact above h [] e sorted = refl
none_exact above h (g ∷ hs) e sorted = elim (Bool-cases g.exact) [
  | inr f ↦ rw f (none_exact above g hs f sorted.1)
  | inl f ↦
      let bad : Path Bool true false = sym (exact_before above g h f e) ∙ sorted.0 in
      absurd (ground arith)
]

first_exact-any :
    (above : ℕ → ℕ → Bool) (hs : List Hit)
    → IsSorted (before above) hs
    → first_exact hs ≡ any_exact hs
unfolding first_exact any_exact
first_exact-any above [] sorted = refl
first_exact-any above (h ∷ hs) sorted = elim (Bool-cases h.exact) [
  | inl e ↦ rw e refl
  | inr e ↦ rw e (sym (none_exact above h hs e sorted))
]

first_exact-take : (n : ℕ) (hs : List Hit) → first_exact (take (suc n) hs) ≡ first_exact hs
unfolding first_exact
first_exact-take n [] = refl
first_exact-take n (h ∷ hs) = refl

-- With a sort that sorts by the comparison of `rerank`, and a limit of at least one, a result claims an exact match exactly if one of all candidates is exact,
-- whichever the limit, and has as many hits as there are candidates, up to the limit.
pub rank-any_exact :
    (sort : Sort) (above : ℕ → ℕ → Bool) (limit : ℕ) (hits : List Hit)
    → IsSort sort (before above)
    → 1 ≤ limit
    → ((rank sort above limit hits).exact_match ≡ any_exact hits)
      × (length (rank sort above limit hits).hits ≡ min limit (length hits))
unfolding rank
rank-any_exact sort above zero hits laws h = absurd (omega arith)
rank-any_exact sort above (suc n) hits laws h = (
  first_exact-take n (sort (before above) hits)
      ∙ first_exact-any above (sort (before above) hits) (laws.sorts hits)
      ∙ laws.keeps hits,
  length-take (suc n) (sort (before above) hits) ∙ ap (min (suc n)) (laws.keeps_length hits),
)
