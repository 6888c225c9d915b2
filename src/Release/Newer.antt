-- ===== src/Release/Newer.antt =====
-- internal/release/release.go: which of two versions is newer.
use sauce_dust.Prelude.{
  not_both, ==_iff, ℕ, zero, suc, ◌+◌, ◌≡◌, ◌≤◌, ◌<◌, refl, sym, ap, subst, ◌↔◌, inl, inr, ◌||◌,
  true, false, Option, none, some, List, [], ◌∷◌, Bool-cases, length, get_or, ltb, ◌==◌,
  if◌then◌else◌, arith, max, ◌∙◌, ltb→lt, lt→ltb,
}
use Prim.Native.String.{String}
use text.Mathlib.TextEquality.{eq_iff}
use sauce_dust.Domain.Texts.{Text, ◌=t=◌, is_empty_text, trim_space}
use sauce_dust.Release.{newer_from, newer, parse_version}

-- The i-th number of a version; a number that is missing counts as 0.
abbrev pub part : List ℕ → ℕ → ℕ
part v i = get_or v i 0

-- The versions agree before a place, from `start` on, and the first is greater there.
abbrev pub AboveFrom : ℕ → List ℕ → List ℕ → Type 0
AboveFrom start lv cv =
    (i : ℕ) × (start ≤ i)
    × ((j : ℕ) → start ≤ j → j < i → part lv j ≡ part cv j)
    × (part cv i < part lv i)

get_or-past : (v : List ℕ) (i : ℕ) → length v ≤ i → part v i ≡ 0
get_or-past [] i h = refl
get_or-past (x ∷ v) zero h = absurd (omega arith)
get_or-past (x ∷ v) (suc i) h = get_or-past v i (omega arith)

newer_from-above : (n i : ℕ) (lv cv : List ℕ) → newer_from n i lv cv ≡ true → AboveFrom i lv cv
unfolding newer_from
newer_from-above zero i lv cv h = cc
newer_from-above (suc n) i lv cv h = elim (Bool-cases (part lv i == part cv i)) [
  | inl same ↦
      let (k, low, agree, more) = newer_from-above n (suc i) lv cv (
        subst (λ b. (if b then newer_from n (suc i) lv cv else ltb (part cv i) (part lv i)) ≡ true)
          same h) in
      (
        k,
        omega arith,
        (λ j from to. elim (Bool-cases (j == i)) [
          | inl at' ↦
              subst (λ x. part lv x ≡ part cv x) (sym ((==_iff j i).0 at'))
                ((==_iff (part lv i) (part cv i)).0 same)
          | inr past ↦ agree j (ground arith) to
        ]),
        more,
      )
  | inr differ ↦ (
    i,
    omega arith,
    (λ j from to. absurd (omega arith)),
    ltb→lt (part cv i) (part lv i) (
        subst (λ b. (if b then newer_from n (suc i) lv cv else ltb (part cv i) (part lv i)) ≡ true)
          differ h),
  )
]

above-newer_from :
    (n i : ℕ) (lv cv : List ℕ) (k : ℕ)
    → i ≤ k
    → k < i + n
    → ((j : ℕ) → i ≤ j → j < k → part lv j ≡ part cv j)
    → part cv k < part lv k
    → newer_from n i lv cv ≡ true
unfolding newer_from
above-newer_from zero i lv cv k low high agree more = absurd (omega arith)
above-newer_from (suc n) i lv cv k low high agree more = elim (Bool-cases (k == i)) [
  | inl here ↦
      let greater : part cv i < part lv i =
        subst (λ x. part cv x < part lv x) ((==_iff k i).0 here) more in
      let differ : (part lv i == part cv i) ≡ false = ground arith in
      rw differ (lt→ltb (part cv i) (part lv i) greater)
  | inr past ↦
      let later : i < k = ground arith in
      let same : (part lv i == part cv i) ≡ true = ground (arith, agree i (omega arith) later) in
      rw same (
        above-newer_from n (suc i) lv cv k (omega arith) (omega arith)
          (λ j from to. agree j (omega arith) to) more)
]

-- Where a number is positive, the version has one.
shown : (v : List ℕ) (k : ℕ) → 0 < part v k → k < length v
shown v k more = elim (Bool-cases (ltb k (length v))) [
  | inl inside ↦ ltb→lt k (length v) inside
  | inr outside ↦ absurd (omega (arith, more, get_or-past v k (ground arith)))
]

compare-above :
    (lv cv : List ℕ) → (newer_from (max (length lv) (length cv)) 0 lv cv ≡ true) ↔ AboveFrom 0 lv cv
compare-above lv cv = (
  newer_from-above (max (length lv) (length cv)) 0 lv cv,
  λ (k, low, agree, more).
      above-newer_from (max (length lv) (length cv)) 0 lv cv k (omega arith)
        (omega (arith, shown lv k (omega arith))) agree more,
)

not_above : (lv cv : List ℕ) → lv ≡ cv → AboveFrom 0 lv cv → ⊥
not_above lv cv same (k, low, agree, more) = omega (arith, more, ap (λ v. part v k) same)

some_list : {a b : List ℕ} → some a ≡ some b → a ≡ b
some_list {a} h = ap (λ o. elim o [ none ↦ a | some x ↦ x ]) h

no_none : {v : List ℕ} → none ≡ some v → ⊥
no_none h = cc

blank-none :
    (atoi : Text → Option ℕ) (l : Text) → is_empty_text l ≡ true → parse_version atoi l ≡ none
unfolding parse_version is_empty_text trim_space
blank-none atoi String.[] h = refl
blank-none atoi (String.◌∷◌ c s) h = absurd (not_both h)

-- A text that is empty or the same has no version above.
no_news :
    (atoi : Text → Option ℕ) (l c : Text) (lv cv : List ℕ)
    → (is_empty_text l || l =t= c) ≡ true
    → parse_version atoi c ≡ some cv
    → parse_version atoi l ≡ some lv
    → AboveFrom 0 lv cv
    → ⊥
no_news atoi l c lv cv h pc pl = elim (Bool-cases (is_empty_text l)) [
  | inl blank ↦ λ above. no_none (sym (blank-none atoi l blank) ∙ pl)
  | inr some' ↦
      let same : l ≡ c = (eq_iff l c).0 (subst (λ b. (b || l =t= c) ≡ true) some' h) in
      not_above lv cv (some_list (sym pl ∙ (ap (parse_version atoi) same ∙ pc)))
]

-- Of two versions that can be read the second is newer exactly if at the first place where their numbers
-- differ its number is greater, where a number that is missing counts as 0.
pub newer-AboveFrom :
    (atoi : Text → Option ℕ) (current latest : Text) (cv lv : List ℕ)
    → parse_version atoi (trim_space current) ≡ some cv
    → parse_version atoi (trim_space latest) ≡ some lv
    → (newer atoi current latest ≡ true) ↔ AboveFrom 0 lv cv
unfolding newer
newer-AboveFrom atoi current latest cv lv c l =
    elim (Bool-cases
      (is_empty_text (trim_space latest) || trim_space latest =t= trim_space current)) [
        | inl old ↦ rw old (
          (λ h. absurd (not_both h)),
          λ above.
              absurd (no_news atoi (trim_space latest) (trim_space current) lv cv old c l above),
        )
        | inr other ↦ rw (other, l, c) (compare-above lv cv)
      ]
