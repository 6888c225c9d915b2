-- ===== src/Domain/Trimmed.antt =====
-- internal/domain/bot.go: what `Trimmed` leaves of a text.
use Prim.Native.Nat.{Ordering, compare}
use Prim.Native.String.{String, len, slice, ◌++◌ as ◌+++◌}
use Prim.Native.String.append
use Prim.Native.String.len as len_laws
use Prim.Native.Char.{Char, len_utf8, width, len_utf8_def, code}
use text.Mathlib.TextPositions.{len-append, slice-append_left}
use sauce_dust.Prelude.{
  ℕ, ◌+◌, ◌≤◌, ◌<◌, ◌≡◌, refl, sym, ap, ◌∙◌, subst, false, ltb, leb, arith, Bool-cases, ◌⊎◌, inl,
  inr,
}
use sauce_dust.Domain.Texts.{Text}
use sauce_dust.Domain.Bot.{trimmed, cut_end, ellipsis}

width_le : (o p q : Ordering) → width o p q ≤ 4
width_le Ordering.lt p q = omega arith
width_le Ordering.eq Ordering.lt q = omega arith
width_le Ordering.eq Ordering.eq Ordering.lt = omega arith
width_le Ordering.eq Ordering.eq Ordering.eq = omega arith
width_le Ordering.eq Ordering.eq Ordering.gt = omega arith
width_le Ordering.eq Ordering.gt Ordering.lt = omega arith
width_le Ordering.eq Ordering.gt Ordering.eq = omega arith
width_le Ordering.eq Ordering.gt Ordering.gt = omega arith
width_le Ordering.gt Ordering.lt q = omega arith
width_le Ordering.gt Ordering.eq Ordering.lt = omega arith
width_le Ordering.gt Ordering.eq Ordering.eq = omega arith
width_le Ordering.gt Ordering.eq Ordering.gt = omega arith
width_le Ordering.gt Ordering.gt Ordering.lt = omega arith
width_le Ordering.gt Ordering.gt Ordering.eq = omega arith
width_le Ordering.gt Ordering.gt Ordering.gt = omega arith

len_utf8-le : (c : Char) → len_utf8 c ≤ 4
len_utf8-le c =
    subst (λ k. k ≤ 4) (sym (λ i. len_utf8_def c i))
      (width_le (compare (code c) 128) (compare (code c) 2048) (compare (code c) 65536))

zero_add : (n : ℕ) → 0 + n ≡ n
zero_add n = omega arith

empty_len : len String.[] ≡ 0
empty_len = len_laws.nil

cons_len : (c : Char) (s : Text) → len (String.◌∷◌ c s) ≡ len_utf8 c + len s
cons_len c s = len_laws.cons c s

-- A cut after whole characters within the budget, at most three bytes short of it if there are more.
record IsCut (budget at' : ℕ) (s : Text) (k : ℕ) : Type 0 where
  before : Text
  after : Text
  parts : before +++ after ≡ s
  place : k ≡ at' + len before
  inside : at' + len before ≤ budget
  near : budget < at' + len s → budget ≤ at' + len before + 3

IsCut-here :
    (budget at' : ℕ) (c : Char) (s : Text)
    → at' ≤ budget
    → (budget < at' + len (String.◌∷◌ c s) → budget < at' + len_utf8 c)
    → IsCut budget at' (String.◌∷◌ c s) at'
IsCut-here budget at' c s h over = record {
  before = String.[];
  after = String.◌∷◌ c s;
  parts = append.nil (String.◌∷◌ c s);
  place = omega (arith, empty_len);
  inside = omega (arith, empty_len);
  near = λ more. let wide = over more in omega (arith, empty_len, len_utf8-le c);
}

IsCut-later :
    (budget at' k : ℕ) (c : Char) (s : Text)
    → IsCut budget (at' + len_utf8 c) s k
    → IsCut budget at' (String.◌∷◌ c s) k
IsCut-later budget at' k c s cut =
    let place' = cut.place in
    let inside' = cut.inside in
    let near' = cut.near in
    record {
      before = String.◌∷◌ c cut.before;
      after = cut.after;
      parts = append.cons c cut.before cut.after ∙ ap (λ t. String.◌∷◌ c t) cut.parts;
      place = omega (arith, cons_len c cut.before);
      inside = omega (arith, cons_len c cut.before);
      near = λ more.
          let close = near' (omega (arith, cons_len c s)) in omega (arith, cons_len c cut.before);
    }

cut_end-IsCut :
    (budget at' end' : ℕ) (c : Char) (s : Text)
    → at' ≤ budget
    → IsCut budget at' (String.◌∷◌ c s) (cut_end budget at' end' (String.◌∷◌ c s))
unfolding cut_end
cut_end-IsCut budget at' end' c String.[] h =
    let first : ltb budget at' ≡ false = ground arith in
    rw first
      (IsCut-here budget at' c String.[] h (λ more. omega (arith, cons_len c String.[], empty_len)))
cut_end-IsCut budget at' end' c (String.◌∷◌ d s) h =
    let first : ltb budget at' ≡ false = ground arith in
    elim (Bool-cases (ltb budget (at' + len_utf8 c))) [
      | inl over ↦
          rw (first, over) (IsCut-here budget at' c (String.◌∷◌ d s) h (λ more. ground arith))
      | inr inside ↦ rw first (
          IsCut-later budget at' (cut_end budget (at' + len_utf8 c) at' (String.◌∷◌ d s)) c
            (String.◌∷◌ d s) (cut_end-IsCut budget (at' + len_utf8 c) at' d s (ground arith)))
    ]

long-IsCut : (t : Text) → 3900 < len t → IsCut 3897 0 t (cut_end 3897 0 0 t)
long-IsCut String.[] h = absurd (omega (arith, empty_len))
long-IsCut (String.◌∷◌ c s) h = cut_end-IsCut 3897 0 0 c s (omega arith)

trimmed_long :
    (t : Text)
    → leb (len t) 3900 ≡ false
    → IsCut 3897 0 t (cut_end 3897 0 0 t)
    → (before after : Text) × (before +++ after ≡ t)
      × (trimmed t ≡ before +++ ellipsis)
      × (3897 ≤ len (trimmed t))
      × (len (trimmed t) ≤ 3900)
unfolding trimmed
trimmed_long t long cut =
    let place' = cut.place in
    let inside' = cut.inside in
    let near' = cut.near (ground arith) in
    let taken : slice t 0 (cut_end 3897 0 0 t) ≡ cut.before =
      ap (λ k. slice t 0 k) (cut.place ∙ zero_add (len cut.before))
      ∙ ap (λ u. slice u 0 (len cut.before)) (sym cut.parts)
      ∙ slice-append_left cut.before cut.after in
    let is : trimmed t ≡ cut.before +++ ellipsis = rw long (ap (λ u. u +++ ellipsis) taken) in
    let size : len (trimmed t) ≡ len cut.before + 3 = ap len is ∙ len-append cut.before ellipsis in
    (cut.before, cut.after, cut.parts, is, omega (arith, size), omega (arith, size))

-- A text of at most 3900 bytes stays. A longer one is cut after whole characters and gets the mark
-- `…`; then it has at most 3900 bytes, and no less than 3897.
pub trimmed_limit :
    (t : Text)
    → ((len t ≤ 3900) × (trimmed t ≡ t))
      ⊎ ((before after : Text) × (before +++ after ≡ t)
          × (trimmed t ≡ before +++ ellipsis)
          × (3897 ≤ len (trimmed t))
          × (len (trimmed t) ≤ 3900))
unfolding trimmed
trimmed_limit t = elim (Bool-cases (leb (len t) 3900)) [
  | inl fits ↦ inl (ground arith, rw fits refl)
  | inr long ↦ inr (trimmed_long t long (long-IsCut t (ground arith)))
]
