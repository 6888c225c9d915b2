-- ===== src/Domain/Encoding.antt =====
-- internal/domain/vector.go: the bytes of a vector.
use sauce_dust.Prelude.{
  ℕ, ◌+◌, ◌*◌, ◌/◌, ◌%◌, ◌^◌, ◌<◌, ◌≡◌, ◌↔◌, refl, sym, ap, ◌∙◌, true, ◌==◌, Option, none, some,
  List, [], ◌∷◌, length, arith, Bool-cases, inl, inr,
}
use mathlib.Core.Option.{some-injective}
use sauce_dust.Domain.Vectors.{put_uint32, encode_vector, uint32, decode_words, decode_vector}

abbrev pub AllBelow : ℕ → List ℕ → Type 0
AllBelow n [] = Unit {0}
AllBelow n (v ∷ vs) = (v < n) × AllBelow n vs

uint32_put :
    (v : ℕ)
    → v < 2 ^ 32
    → uint32 (v % 256) ((v / 2 ^ 8) % 256) ((v / 2 ^ 16) % 256) ((v / 2 ^ 24) % 256) ≡ v
unfolding uint32
uint32_put v h = omega arith

decode_words-encode : (vs : List ℕ) → AllBelow (2 ^ 32) vs → decode_words (encode_vector vs) ≡ vs
unfolding decode_words encode_vector put_uint32
decode_words-encode [] h = refl
decode_words-encode (v ∷ vs) h =
    ap (λ k. k ∷ decode_words (encode_vector vs)) (uint32_put v h.0)
    ∙ ap (λ k. v ∷ k) (decode_words-encode vs h.1)

length-encode_vector : (vs : List ℕ) → length (encode_vector vs) ≡ length vs * 4
unfolding encode_vector put_uint32
length-encode_vector [] = omega arith
length-encode_vector (v ∷ vs) = omega (arith, length-encode_vector vs)

-- The bytes of a vector of 32-bit patterns decode to it.
decode-encode : (vs : List ℕ) → AllBelow (2 ^ 32) vs → decode_vector (encode_vector vs) ≡ some vs
unfolding decode_vector
decode-encode vs h =
    let whole : (length (encode_vector vs) % 4 == 0) ≡ true =
      ground (arith, length-encode_vector vs) in
    rw whole (ap some (decode_words-encode vs h))

put_bytes :
    (a b c d : ℕ) (rest : List ℕ)
    → a < 256
    → b < 256
    → c < 256
    → d < 256
    → put_uint32 (uint32 a b c d) rest ≡ a ∷ b ∷ c ∷ d ∷ rest
unfolding put_uint32 uint32
put_bytes a b c d rest ha hb hc hd =
    let n = a + b * 2 ^ 8 + c * 2 ^ 16 + d * 2 ^ 24 in
    let one : n % 256 ≡ a = omega arith in
    let two : (n / 2 ^ 8) % 256 ≡ b = omega arith in
    let three : (n / 2 ^ 16) % 256 ≡ c = omega arith in
    let four : (n / 2 ^ 24) % 256 ≡ d = omega arith in
    ap (λ k. k ∷ (n / 2 ^ 8) % 256 ∷ (n / 2 ^ 16) % 256 ∷ (n / 2 ^ 24) % 256 ∷ rest) one
    ∙ ap (λ k. a ∷ k ∷ (n / 2 ^ 16) % 256 ∷ (n / 2 ^ 24) % 256 ∷ rest) two
    ∙ ap (λ k. a ∷ b ∷ k ∷ (n / 2 ^ 24) % 256 ∷ rest) three
    ∙ ap (λ k. a ∷ b ∷ c ∷ k ∷ rest) four

encode-decode_words :
    (buf : List ℕ) → AllBelow 256 buf → length buf % 4 ≡ 0 → encode_vector (decode_words buf) ≡ buf
unfolding decode_words encode_vector
encode-decode_words [] h e = refl
encode-decode_words (a ∷ []) h e = absurd (omega arith)
encode-decode_words (a ∷ b ∷ []) h e = absurd (omega arith)
encode-decode_words (a ∷ b ∷ c ∷ []) h e = absurd (omega arith)
encode-decode_words (a ∷ b ∷ c ∷ d ∷ buf) h e =
    put_bytes a b c d (encode_vector (decode_words buf)) h.0 h.1.0 h.1.1.0 h.1.1.1.0
    ∙ ap (λ k. a ∷ b ∷ c ∷ d ∷ k) (encode-decode_words buf h.1.1.1.1 (omega arith))

encode-decode :
    (buf vs : List ℕ) → AllBelow 256 buf → decode_vector buf ≡ some vs → encode_vector vs ≡ buf
unfolding decode_vector
encode-decode buf vs h e = elim (Bool-cases (length buf % 4 == 0)) [
  | inl whole ↦
      let is : decode_words buf ≡ vs =
        some-injective (decode_words buf) vs (sym (rw whole refl) ∙ e) in
      ap encode_vector (sym is) ∙ encode-decode_words buf h (ground arith)
  | inr part ↦
      let bad : Path (Option (List ℕ)) none (some vs) = sym (rw part refl) ∙ e in
      absurd (ground arith)
]

-- For bytes and 32-bit patterns: bytes decode to a vector exactly if they are what it encodes to.
pub decode_iff-encode :
    (buf vs : List ℕ)
    → AllBelow 256 buf
    → AllBelow (2 ^ 32) vs
    → (decode_vector buf ≡ some vs) ↔ (encode_vector vs ≡ buf)
decode_iff-encode buf vs hb hv =
    (encode-decode buf vs hb, λ e. ap decode_vector (sym e) ∙ decode-encode vs hv)
