-- ===== src/Domain/Distances.antt =====
-- internal/domain/hash.go: the distance of two hashes, digit by digit.
use sauce_dust.Prelude.{
  ℕ, ◌+◌, ◌*◌, ◌≤◌, ◌<◌, ◌≡◌, refl, ap, ◌∙◌, true, false, ◌==◌, none, some, List, [], ◌∷◌, length,
  arith,
}
use sauce_dust.FlatIndex.Differing.{differing, differing_split, shift, ones_count-bit_xor}
use sauce_dust.Domain.Hash.{
  hex_value, hex_byte, decode_string, count_differing, compare_decoded, hamming_distance,
}

-- The value of a digit, and the digits that have one.
abbrev digit : ℕ → ℕ
digit c = elim (hex_value c) [ none ↦ 0 | some v ↦ v ]

abbrev pub IsHex : List ℕ → Type 0
IsHex [] = Unit {0}
IsHex (c ∷ s) = ((v : ℕ) × (hex_value c ≡ some v) × (v < 16)) × IsHex s

-- A sequence of pairs of digits.
abbrev pub IsEven : List ℕ → Type 0
IsEven [] = Unit {0}
IsEven (h ∷ []) = ⊥
IsEven (h ∷ l ∷ s) = IsEven s

-- The bits in which the digits at the same places differ.
unfoldable pub digits_apart : List ℕ → List ℕ → ℕ
digits_apart [] t = 0
digits_apart (c ∷ s) [] = 0
digits_apart (c ∷ s) (d ∷ t) = differing 4 (digit c) (digit d) + digits_apart s t

shift_four : (n : ℕ) → shift 4 n ≡ n * 16
unfolding shift
shift_four n = omega arith

zero_left : (d : ℕ) → 0 + d ≡ d
zero_left d = omega arith

add_swap : (a b : ℕ) → a + b ≡ b + a
add_swap a b = omega arith

byte_split :
    (h l h' l' : ℕ)
    → l < 16
    → l' < 16
    → differing 8 (h * 16 + l) (h' * 16 + l') ≡ differing 4 h h' + differing 4 l l'
byte_split h l h' l' a b =
    let one = shift_four 1 in
    let left : h * 16 + l ≡ l + shift 4 h = omega (arith, shift_four h) in
    let right : h' * 16 + l' ≡ l' + shift 4 h' = omega (arith, shift_four h') in
    ap (λ k. differing 8 k (h' * 16 + l')) left
    ∙ ap (λ k. differing 8 (l + shift 4 h) k) right
    ∙ differing_split 4 8 4 l l' h h' refl (omega arith) (omega arith)
    ∙ add_swap (differing 4 l l') (differing 4 h h')

count_differing-cons :
    (x y : ℕ) (xs ys : List ℕ) (d : ℕ)
    → count_differing (x ∷ xs) (y ∷ ys) d ≡ count_differing xs ys (d + differing 8 x y)
unfolding count_differing
count_differing-cons x y xs ys d =
    ap (λ k. count_differing xs ys (d + k)) (ones_count-bit_xor 8 x y)

count_differing-none : (ys : List ℕ) (d : ℕ) → count_differing [] ys d ≡ d
unfolding count_differing
count_differing-none ys d = refl

digits_apart-none : (d : ℕ) → d ≡ d + digits_apart [] []
unfolding digits_apart
digits_apart-none d = omega arith

digit-value : (c v : ℕ) → hex_value c ≡ some v → digit c ≡ v
digit-value c v e = ap (λ o. elim o [ none ↦ 0 | some v ↦ v ]) e

digit_apart :
    (c d v w : ℕ)
    → hex_value c ≡ some v
    → hex_value d ≡ some w
    → differing 4 (digit c) (digit d) ≡ differing 4 v w
digit_apart c d v w e f =
    ap (λ k. differing 4 k (digit d)) (digit-value c v e)
    ∙ ap (λ k. differing 4 v k) (digit-value d w f)

digits_apart-cons :
    (c d v w : ℕ) (s t : List ℕ)
    → hex_value c ≡ some v
    → hex_value d ≡ some w
    → digits_apart (c ∷ s) (d ∷ t) ≡ differing 4 v w + digits_apart s t
unfolding digits_apart
digits_apart-cons c d v w s t e f = ap (λ k. k + digits_apart s t) (digit_apart c d v w e f)

decode_pair :
    (h l : ℕ) (s : List ℕ) (vh vl : ℕ) (xs : List ℕ)
    → hex_value h ≡ some vh
    → hex_value l ≡ some vl
    → decode_string s ≡ some xs
    → decode_string (h ∷ l ∷ s) ≡ some ((vh * 16 + vl) ∷ xs)
unfolding decode_string hex_byte
decode_pair h l s vh vl xs eh el e = rw (eh, el, e) refl

decode_none : decode_string [] ≡ some []
unfolding decode_string
decode_none = refl

-- Both decode, and the loop counts the bits in which the digits differ.
decoded_apart :
    (s t : List ℕ)
    → IsHex s
    → IsHex t
    → IsEven s
    → length s ≡ length t
    → (xs ys : List ℕ) × (decode_string s ≡ some xs)
      × (decode_string t ≡ some ys)
      × ((d : ℕ) → count_differing xs ys d ≡ d + digits_apart s t)
decoded_apart [] [] p q e n =
    ([], [], decode_none, decode_none, λ d. count_differing-none [] d ∙ digits_apart-none d)
decoded_apart [] (d ∷ t) p q e n = absurd (omega arith)
decoded_apart (h ∷ []) t p q e n = absurd e
decoded_apart (h ∷ l ∷ s) [] p q e n = absurd (omega arith)
decoded_apart (h ∷ l ∷ s) (h' ∷ []) p q e n = absurd (omega arith)
decoded_apart (h ∷ l ∷ s) (h' ∷ l' ∷ t) p q e n =
    let inner = decoded_apart s t p.1.1 q.1.1 e (omega arith) in
    let (vh, eh, hb) = p.0 in
    let (vl, el, lb) = p.1.0 in
    let (vh', eh', hb') = q.0 in
    let (vl', el', lb') = q.1.0 in
    (
      (vh * 16 + vl) ∷ inner.0,
      (vh' * 16 + vl') ∷ inner.1,
      decode_pair h l s vh vl inner.0 eh el inner.2,
      decode_pair h' l' t vh' vl' inner.1 eh' el' inner.3,
      λ d.
          count_differing-cons (vh * 16 + vl) (vh' * 16 + vl') inner.0 inner.1 d
          ∙ omega (
            arith,
            inner.4 (d + differing 8 (vh * 16 + vl) (vh' * 16 + vl')),
            byte_split vh vl vh' vl' lb lb',
            digits_apart-cons h h' vh vh' (l ∷ s) (l' ∷ t) eh eh',
            digits_apart-cons l l' vl vl' s t el el',
          ),
    )

-- For two hashes of hexadecimal digits, not empty, of the same even length, the distance is the number
-- of bits in which the digits at the same places differ.
pub hamming_distance-digits :
    (s t : List ℕ)
    → IsHex s
    → IsHex t
    → IsEven s
    → length s ≡ length t
    → 1 ≤ length s
    → hamming_distance s t ≡ some (digits_apart s t)
unfolding hamming_distance compare_decoded
hamming_distance-digits s t p q e n one =
    let (xs, ys, ds, dt, counts) = decoded_apart s t p q e n in
    let zs : (length s == 0) ≡ false = ground arith in
    let zt : (length t == 0) ≡ false = ground arith in
    let same : (length s == length t) ≡ true = ground arith in
    rw (zs, zt, same, ds, dt) (ap some (counts 0 ∙ zero_left (digits_apart s t)))
