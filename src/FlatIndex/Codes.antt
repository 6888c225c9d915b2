-- ===== src/FlatIndex/Codes.antt =====
-- internal/adapter/flatindex/flatindex.go and scan.go: the binary code of a vector and the distance
-- of two codes. Bytes are numbers below 256; a float is known only by the test `x > 0`.
use Prim.Native.Nat.{bit_or, bit_xor}
use sauce_dust.Prelude.{
  ℕ, zero, suc, ◌+◌, ◌*◌, ◌/◌, ◌%◌, ◌^◌, Bool, List, [], ◌∷◌, if◌then◌else◌, set, get_or, replicate,
  length, drop,
}

-- The loop of `encode` from dimension `i` on.
unfoldable pub encode_from : ℕ → List Bool → List ℕ → List ℕ
encode_from i [] code = code
encode_from i (positive ∷ v) code =
    encode_from (i + 1) v
      (if positive then set code (i / 8) (bit_or (get_or code (i / 8) 0) (2 ^ (i % 8))) else code)

unfoldable pub encode : List Bool → ℕ → List ℕ
unfolding encode_from
encode v code_bytes = encode_from 0 v (replicate code_bytes 0)

-- `bits.OnesCount8` and `bits.OnesCount64`: the ones among the lowest `w` binary digits.
unfoldable pub ones_count : ℕ → ℕ → ℕ
ones_count zero x = 0
ones_count (suc w) x = x % 2 + ones_count w (x / 2)

unfoldable pub le64 : List ℕ → ℕ
le64 b =
    get_or b 0 0
    + get_or b 1 0 * 2 ^ 8
    + get_or b 2 0 * 2 ^ 16
    + get_or b 3 0 * 2 ^ 24
    + get_or b 4 0 * 2 ^ 32
    + get_or b 5 0 * 2 ^ 40
    + get_or b 6 0 * 2 ^ 48
    + get_or b 7 0 * 2 ^ 56

-- The second loop: the bytes that are left, at most seven of them.
unfoldable pub count_bytes : List ℕ → List ℕ → ℕ → ℕ
count_bytes [] b d = d
count_bytes (x ∷ a) [] d = d
count_bytes (x ∷ a) (y ∷ b) d = count_bytes a b (d + ones_count 8 (bit_xor x y))

-- The first loop, which runs for each whole word of eight bytes, before the second.
unfoldable pub count_words : ℕ → List ℕ → List ℕ → ℕ → ℕ
unfolding ones_count le64 count_bytes
count_words zero a b d = count_bytes a b d
count_words (suc n) a b d =
    count_words n (drop 8 a) (drop 8 b) (d + ones_count 64 (bit_xor (le64 a) (le64 b)))

-- The result is converted to `uint16`.
unfoldable pub hamming : List ℕ → List ℕ → ℕ
unfolding count_words
hamming a b = count_words (length a / 8) a b 0 % 2 ^ 16
