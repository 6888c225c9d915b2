-- ===== src/Ingest/Table.antt =====
-- internal/adapter/postgres/images.go: the table of backed-up vectors. A row is identified by image and
-- model; the statements are read as functions on the list of rows in the order of the image numbers.
use sauce_dust.Prelude.{
  ℕ, ◌==◌, ◌&&◌, ◌||◌, not, if◌then◌else◌, Bool, true, false, List, [], ◌∷◌, take, ltb,
}
use sauce_dust.Domain.Texts.{Text, ◌=t=◌}
use sauce_dust.Ingest.{StoredVector}

pub record VectorRow : Type 0 where
  pub row_image : ℕ
  pub row_model : Text
  pub row_values : List ℕ
  pub is_indexed : Bool

unfoldable pub is_row : ℕ → Text → VectorRow → Bool
is_row image_id model_id r = r.row_image == image_id && r.row_model =t= model_id

-- `saveVectorSQL` on a new row or the row that is there; a new row takes its place by its image.
unfoldable pub save_vector : StoredVector → List VectorRow → List VectorRow
unfolding is_row
save_vector v [] =
    record {
      row_image = v.image_id;
      row_model = v.model_id;
      row_values = v.values;
      is_indexed = false;
    }
    ∷ []
save_vector v (r ∷ rs) =
    let rest = save_vector v rs in
    if is_row v.image_id v.model_id r
    then record r { row_values = v.values; is_indexed = false } ∷ rs
    else if ltb v.image_id r.row_image
    then record {
      row_image = v.image_id;
      row_model = v.model_id;
      row_values = v.values;
      is_indexed = false;
    }
      ∷ r
      ∷ rs
    else r ∷ rest

unfoldable pub save_vector_batch : List StoredVector → List VectorRow → List VectorRow
unfolding save_vector
save_vector_batch [] rs = rs
save_vector_batch (v ∷ vs) rs = save_vector_batch vs (save_vector v rs)

unfoldable pub has_image_id : ℕ → List ℕ → Bool
has_image_id n [] = false
has_image_id n (m ∷ ms) = m == n || has_image_id n ms

unfoldable pub has_model : Text → List Text → Bool
has_model t [] = false
has_model t (u ∷ us) = u =t= t || has_model t us

unfoldable pub mark_indexed_batch : List ℕ → List Text → List VectorRow → List VectorRow
unfolding has_image_id has_model
mark_indexed_batch ids models [] = []
mark_indexed_batch ids models (r ∷ rs) =
    let rest = mark_indexed_batch ids models rs in
    if has_image_id r.row_image ids && has_model r.row_model models
    then record r { is_indexed = true } ∷ rest
    else r ∷ rest

unfoldable pub is_pending : Text → VectorRow → Bool
is_pending model_id r = r.row_model =t= model_id && not r.is_indexed

unfoldable pub all_pending : Text → List VectorRow → List StoredVector
unfolding is_pending
all_pending model_id [] = []
all_pending model_id (r ∷ rs) =
    let rest = all_pending model_id rs in
    if is_pending model_id r
    then record { image_id = r.row_image; model_id = model_id; values = r.row_values } ∷ rest
    else rest

unfoldable pub pending_vectors : Text → ℕ → List VectorRow → List StoredVector
unfolding all_pending
pending_vectors model_id limit rs = take limit (all_pending model_id rs)

unfoldable pub has_vector : ℕ → Text → List VectorRow → Bool
unfolding is_row
has_vector image_id model_id [] = false
has_vector image_id model_id (r ∷ rs) =
    is_row image_id model_id r || has_vector image_id model_id rs

unfoldable pub vectors_missing : List ℕ → Text → List VectorRow → List ℕ
unfolding has_vector
vectors_missing [] model_id rs = []
vectors_missing (i ∷ is) model_id rs =
    let rest = vectors_missing is model_id rs in if has_vector i model_id rs then rest else i ∷ rest
