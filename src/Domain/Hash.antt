-- ===== src/Domain/Hash.antt =====
-- internal/domain/hash.go: the distance of two perceptual hashes, which are hexadecimal digits in bytes.
use Prim.Native.Nat.{bit_xor}
use sauce_dust.Prelude.{
  ℕ, ◌+◌, ◌-◌, ◌*◌, ◌/◌, ltb, leb, ◌==◌, ◌&&◌, ◌||◌, not, if◌then◌else◌, Option, none, some, List,
  [], ◌∷◌, length,
}
use sauce_dust.FlatIndex.Codes.{ones_count}

unfoldable pub hex_value : ℕ → Option ℕ
hex_value c =
    if leb 48 c && leb c 57
    then some (c - 48)
    else if leb 97 c && leb c 102
    then some (c - 87)
    else if leb 65 c && leb c 70
    then some (c - 55)
    else none

unfoldable pub hex_byte : Option ℕ → Option ℕ → Option (List ℕ) → Option (List ℕ)
hex_byte (some h) (some l) (some rest) = some ((h * 16 + l) ∷ rest)
hex_byte none l rest = none
hex_byte (some h) none rest = none
hex_byte (some h) (some l) none = none

-- `hex.DecodeString`
unfoldable pub decode_string : List ℕ → Option (List ℕ)
unfolding hex_value hex_byte
decode_string [] = some []
decode_string (h ∷ []) = none
decode_string (h ∷ l ∷ s) = hex_byte (hex_value h) (hex_value l) (decode_string s)

-- The loop over the bytes of the left hash; both have the same length there.
unfoldable pub count_differing : List ℕ → List ℕ → ℕ → ℕ
unfolding ones_count
count_differing [] right d = d
count_differing (x ∷ left) [] d = d
count_differing (x ∷ left) (y ∷ right) d =
    count_differing left right (d + ones_count 8 (bit_xor x y))

unfoldable pub compare_decoded : Option (List ℕ) → Option (List ℕ) → Option ℕ
unfolding count_differing
compare_decoded (some left) (some right) = some (count_differing left right 0)
compare_decoded (some left) none = none
compare_decoded none right = none

-- `none` is an error.
unfoldable pub hamming_distance : List ℕ → List ℕ → Option ℕ
unfolding compare_decoded decode_string
hamming_distance a b =
    if length a == 0 || length b == 0
    then none
    else if not (length a == length b)
    then none
    else compare_decoded (decode_string a) (decode_string b)

unfoldable pub hash_bits : List ℕ → ℕ
hash_bits hash = length hash * 4

unfoldable pub same_image_threshold : List ℕ → ℕ
unfolding hash_bits
same_image_threshold hash =
    let threshold = hash_bits hash * 5 / 64 in if ltb threshold 1 then 1 else threshold
