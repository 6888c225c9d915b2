-- ===== src/FlatIndex/Hamming.antt =====
-- internal/adapter/flatindex/scan.go: `hamming` and the bits that differ.
use Prim.Native.Nat.{bit_xor}
use sauce_dust.Prelude.{
  ℕ, zero, suc, ◌+◌, ◌*◌, ◌/◌, ◌%◌, ◌≤◌, ◌<◌, ◌≡◌, refl, List, [], ◌∷◌, length, take, drop,
  length-take, length-drop, subst, arith,
}
use sauce_dust.FlatIndex.Codes.{ones_count, le64, count_bytes, count_words, hamming}
use sauce_dust.FlatIndex.Differing.{
  differing, bits_apart, shift, differ_bit, ones_count-bit_xor, differing_split,
}

-- All are bytes.
unfoldable pub IsBytes : List ℕ → Type 0
IsBytes [] = Unit {0}
IsBytes (x ∷ a) = (x < 256) × IsBytes a

unfoldable le : List ℕ → ℕ
le [] = 0
le (x ∷ a) = x + shift 8 (le a)

unfoldable width : List ℕ → ℕ
width [] = 0
width (x ∷ a) = 8 + width a

differing_none : (b : ℕ) → differing 0 0 b ≡ 0
unfolding differing
differing_none b = refl

differing_byte :
    (w x y a b : ℕ)
    → x < 256
    → y < 256
    → differing (8 + w) (x + shift 8 a) (y + shift 8 b) ≡ differing 8 x y + differing w a b
unfolding shift
differing_byte w x y a b hx hy = differing_split 8 (8 + w) w x y a b refl hx hy

differing-le :
    (a b : List ℕ)
    → IsBytes a
    → IsBytes b
    → length a ≡ length b
    → differing (width a) (le a) (le b) ≡ bits_apart a b
unfolding IsBytes le width bits_apart
differing-le [] b ha hb e = differing_none (le b)
differing-le (x ∷ a) [] ha hb e = absurd (omega arith)
differing-le (x ∷ a) (y ∷ b) ha hb e =
    rw (differing_byte (width a) x y (le a) (le b) ha.0 hb.0)
      (omega (arith, differing-le a b ha.1 hb.1 (omega arith)))

le64-le : (a : List ℕ) → le64 a ≡ le (take 8 a)
unfolding le64 le shift
le64-le [] = refl
le64-le (a0 ∷ []) = omega arith
le64-le (a0 ∷ a1 ∷ []) = omega arith
le64-le (a0 ∷ a1 ∷ a2 ∷ []) = omega arith
le64-le (a0 ∷ a1 ∷ a2 ∷ a3 ∷ []) = omega arith
le64-le (a0 ∷ a1 ∷ a2 ∷ a3 ∷ a4 ∷ []) = omega arith
le64-le (a0 ∷ a1 ∷ a2 ∷ a3 ∷ a4 ∷ a5 ∷ []) = omega arith
le64-le (a0 ∷ a1 ∷ a2 ∷ a3 ∷ a4 ∷ a5 ∷ a6 ∷ []) = omega arith
le64-le (a0 ∷ a1 ∷ a2 ∷ a3 ∷ a4 ∷ a5 ∷ a6 ∷ a7 ∷ a) = omega arith

take-IsBytes : (n : ℕ) (a : List ℕ) → IsBytes a → IsBytes (take n a)
unfolding IsBytes
take-IsBytes zero a h = tt
take-IsBytes (suc n) [] h = tt
take-IsBytes (suc n) (x ∷ a) h = (h.0, take-IsBytes n a h.1)

drop-IsBytes : (n : ℕ) (a : List ℕ) → IsBytes a → IsBytes (drop n a)
unfolding IsBytes
drop-IsBytes zero a h = h
drop-IsBytes (suc n) [] h = tt
drop-IsBytes (suc n) (x ∷ a) h = drop-IsBytes n a h.1

bits_apart-none : (a : List ℕ) → bits_apart a [] ≡ 0
unfolding bits_apart
bits_apart-none [] = refl
bits_apart-none (x ∷ a) = refl

bits_apart-take :
    (n : ℕ) (a b : List ℕ)
    → bits_apart a b ≡ bits_apart (take n a) (take n b) + bits_apart (drop n a) (drop n b)
unfolding bits_apart
bits_apart-take zero a b = omega arith
bits_apart-take (suc n) [] b = refl
bits_apart-take (suc n) (x ∷ a) [] = omega (arith, bits_apart-none (drop n a))
bits_apart-take (suc n) (x ∷ a) (y ∷ b) = omega (arith, bits_apart-take n a b)

width-length : (a : List ℕ) → width a ≡ 8 * length a
unfolding width
width-length [] = refl
width-length (x ∷ a) = omega (arith, width-length a)

-- A word of eight bytes.
ones_count-le64 :
    (a b : List ℕ)
    → IsBytes a
    → IsBytes b
    → length a ≡ length b
    → 8 ≤ length a
    → ones_count 64 (bit_xor (le64 a) (le64 b)) ≡ bits_apart (take 8 a) (take 8 b)
ones_count-le64 a b ha hb e long =
    let w : width (take 8 a) ≡ 64 = omega (arith, width-length (take 8 a), length-take 8 a) in
    let apart =
      differing-le (take 8 a) (take 8 b) (take-IsBytes 8 a ha) (take-IsBytes 8 b hb)
        (omega (arith, length-take 8 a, length-take 8 b)) in
    rw (ones_count-bit_xor 64 (le64 a) (le64 b)) (
      rw (le64-le a) (
        rw (le64-le b) (
          subst
            (λ n. differing n (le (take 8 a)) (le (take 8 b)) ≡ bits_apart (take 8 a) (take 8 b)) w
            apart)))

count_bytes-apart : (a b : List ℕ) (d : ℕ) → count_bytes a b d ≡ d + bits_apart a b
unfolding count_bytes bits_apart
count_bytes-apart [] b d = omega arith
count_bytes-apart (x ∷ a) [] d = omega arith
count_bytes-apart (x ∷ a) (y ∷ b) d =
    omega (arith, count_bytes-apart a b (d + ones_count 8 (bit_xor x y)), ones_count-bit_xor 8 x y)

count_words-apart :
    (n : ℕ) (a b : List ℕ) (d : ℕ)
    → IsBytes a
    → IsBytes b
    → length a ≡ length b
    → 8 * n ≤ length a
    → count_words n a b d ≡ d + bits_apart a b
unfolding count_words
count_words-apart zero a b d ha hb e long = count_bytes-apart a b d
count_words-apart (suc n) a b d ha hb e long =
    let word = ones_count 64 (bit_xor (le64 a) (le64 b)) in
    omega (
      arith,
      count_words-apart n (drop 8 a) (drop 8 b) (d + word) (drop-IsBytes 8 a ha)
          (drop-IsBytes 8 b hb) (omega (arith, length-drop 8 a, length-drop 8 b))
          (omega (arith, length-drop 8 a)),
      ones_count-le64 a b ha hb e (omega arith),
      bits_apart-take 8 a b,
    )

differing_most : (w a b : ℕ) → differing w a b ≤ w
unfolding differing
differing_most zero a b = omega arith
differing_most (suc w) a b = omega (
  arith,
  differing_most w (a / 2) (b / 2),
  differ_bit (a % 2) (b % 2) (omega arith) (omega arith),
)

bits_apart_most : (a b : List ℕ) → bits_apart a b ≤ 8 * length a
unfolding bits_apart
bits_apart_most [] b = omega arith
bits_apart_most (x ∷ a) [] = omega arith
bits_apart_most (x ∷ a) (y ∷ b) = omega (arith, bits_apart_most a b, differing_most 8 x y)

-- For two codes of the same length, of fewer than 8,192 bytes, the distance that is counted eight
-- bytes at a time is the number of positions at which their bits differ, byte by byte.
pub hamming-apart :
    (a b : List ℕ)
    → IsBytes a
    → IsBytes b
    → length a ≡ length b
    → length a < 8192
    → hamming a b ≡ bits_apart a b
unfolding hamming
hamming-apart a b ha hb e short =
    omega (arith, count_words-apart (length a / 8) a b 0 ha hb e (omega arith), bits_apart_most a b)
