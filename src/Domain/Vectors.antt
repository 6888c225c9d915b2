-- ===== src/Domain/Vectors.antt =====
-- internal/domain/vector.go and embed.go: vectors, their bytes, and the test of a batch of vectors
-- against the active models. A float32 is its 32 bits.
use sauce_dust.Prelude.{
  ℕ, ◌+◌, ◌*◌, ◌/◌, ◌%◌, ◌^◌, ◌==◌, not, if◌then◌else◌, Bool, Option, none, some, List, [], ◌∷◌,
  length,
}
use sauce_dust.Domain.Texts.{Text, ◌=t=◌}

pub record Vector : Type 0 where
  pub model_id : Text
  pub values : List ℕ

pub data ModelKind : Type 0 where
  copy semantic : ModelKind

pub record EmbeddingModel : Type 0 where
  pub id : Text
  pub kind : ModelKind
  pub backend : Text
  pub checkpoint : Text
  pub vector_size : ℕ
  pub distance : Text
  pub collection : Text
  pub input_size : ℕ
  pub active : Bool

-- `binary.LittleEndian.PutUint32` in front of the bytes that follow.
unfoldable pub put_uint32 : ℕ → List ℕ → List ℕ
put_uint32 v rest = v % 256 ∷ (v / 2 ^ 8) % 256 ∷ (v / 2 ^ 16) % 256 ∷ (v / 2 ^ 24) % 256 ∷ rest

unfoldable pub encode_vector : List ℕ → List ℕ
unfolding put_uint32
encode_vector [] = []
encode_vector (v ∷ vs) = put_uint32 v (encode_vector vs)

unfoldable pub uint32 : ℕ → ℕ → ℕ → ℕ → ℕ
uint32 a b c d = a + b * 2 ^ 8 + c * 2 ^ 16 + d * 2 ^ 24

-- The loop of `DecodeVector`, once for each four bytes.
unfoldable pub decode_words : List ℕ → List ℕ
unfolding uint32
decode_words (a ∷ b ∷ c ∷ d ∷ buf) = uint32 a b c d ∷ decode_words buf
decode_words [] = []
decode_words (a ∷ []) = []
decode_words (a ∷ b ∷ []) = []
decode_words (a ∷ b ∷ c ∷ []) = []

unfoldable pub decode_vector : List ℕ → Option (List ℕ)
unfolding decode_words
decode_vector buf = if not (length buf % 4 == 0) then none else some (decode_words buf)

-- `math.IsNaN` or `math.IsInf`: the eight bits of the exponent are ones.
unfoldable pub is_non_finite : ℕ → Bool
is_non_finite v = (v / 2 ^ 23) % 256 == 255

unfoldable pub first_non_finite_from : ℕ → List ℕ → Option ℕ
unfolding is_non_finite
first_non_finite_from i [] = none
first_non_finite_from i (v ∷ vs) =
    let rest = first_non_finite_from (i + 1) vs in if is_non_finite v then some i else rest

unfoldable pub first_non_finite : List ℕ → Option ℕ
unfolding first_non_finite_from
first_non_finite vs = first_non_finite_from 0 vs

-- `byID[id]`: a later vector of the same model replaces an earlier one.
unfoldable pub by_id : Text → List Vector → Option (List ℕ)
by_id id [] = none
by_id id (v ∷ vs) =
    let later = by_id id vs in
    elim later [
      | some values ↦ some values
      | none ↦ if v.model_id =t= id then some v.values else none
    ]

pub data Verdict : Type 0 where
  valid : Verdict
  missing : Text → Verdict
  wrong_size : Text → ℕ → Verdict
  bad_value : Text → ℕ → Verdict

unfoldable pub check_values : EmbeddingModel → Option (List ℕ) → Verdict
unfolding first_non_finite
check_values m none = missing m.id
check_values m (some values) =
    if not (length values == m.vector_size)
    then wrong_size m.id (length values)
    else elim (first_non_finite values) [ none ↦ valid | some i ↦ bad_value m.id i ]

unfoldable pub and_then : Verdict → Verdict → Verdict
and_then valid rest = rest
and_then (missing id) rest = missing id
and_then (wrong_size id n) rest = wrong_size id n
and_then (bad_value id i) rest = bad_value id i

unfoldable pub validate_vectors : List Vector → List EmbeddingModel → Verdict
unfolding check_values by_id and_then
validate_vectors vectors [] = valid
validate_vectors vectors (m ∷ active) =
    and_then (check_values m (by_id m.id vectors)) (validate_vectors vectors active)

unfoldable pub find_model : List EmbeddingModel → Text → Option EmbeddingModel
find_model [] id = none
find_model (m ∷ models) id = let rest = find_model models id in if m.id =t= id then some m else rest

-- `EmbedResult.Vector`: the first vector of a model.
unfoldable pub vector_of : List Vector → Text → Option (List ℕ)
vector_of [] id = none
vector_of (v ∷ vs) id =
    let rest = vector_of vs id in if v.model_id =t= id then some v.values else rest
