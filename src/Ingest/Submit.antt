-- ===== src/Ingest/Submit.antt =====
-- internal/app/ingest.go: `Submit`.
use sauce_dust.Prelude.{
  ℕ, ◌==◌, ◌||◌, ◌&&◌, if◌then◌else◌, Bool, true, false, Option, none, some, List, [], ◌∷◌, ◌++◌,
  length,
}
use sauce_dust.Domain.Texts.{Text, ◌=t=◌}
use sauce_dust.Domain.Vectors.{
  Vector, EmbeddingModel, Verdict, valid, missing, wrong_size, bad_value, validate_vectors,
  and_then, find_model,
}
use sauce_dust.Ingest.{Image, IndexedImage, StoredVector, IndexPoint, payload_for}

-- The calls, each with whether it succeeded.
pub data Effect : Type 0 where
  put_thumb : Text → ℕ → Effect
  upsert_images : List Image → Effect
  save_vectors : List StoredVector → Bool → Effect
  upsert_points : Text → List IndexPoint → Bool → Effect
  mark_indexed : List ℕ → List Text → Bool → Effect

pub data Submitted : Type 0 where
  ok no_room images_failed unknown_model backup_failed index_failed : Submitted
  invalid : Verdict → Submitted

-- What the stores answer: the path of a thumbnail, the numbers of the images, and whether the other calls
-- succeed; `order` is the order in which the collections are sent.
pub record Stores : Type 0 where
  pub has_thumbs : Bool
  pub put : Text → ℕ → List ℕ → Option Text
  pub ids_of : List Image → Option (List ℕ)
  pub saved : Bool
  pub indexed : Text → Bool
  pub marked : Bool
  pub order : List Text → List Text

unfoldable pub validate_batch : List EmbeddingModel → List IndexedImage → Verdict
unfolding validate_vectors and_then
validate_batch models [] = valid
validate_batch models (item ∷ batch) =
    and_then (validate_vectors item.vectors models) (validate_batch models batch)

-- One item of `storeThumbs`; a failure leaves the item as it is.
unfoldable pub store_thumb : Stores → IndexedImage → IndexedImage × List Effect
store_thumb s item = if length item.thumb == 0 then (item, []) else (
  elim (s.put item.image.source_site item.image.source_post_id item.thumb) [
    | none ↦ item
    | some path ↦ record item { image = record item.image { thumb_path = path } }
  ],
  put_thumb item.image.source_site item.image.source_post_id ∷ [],
)

unfoldable pub store_each : Stores → List IndexedImage → List IndexedImage × List Effect
unfolding store_thumb
store_each s [] = ([], [])
store_each s (item ∷ batch) =
    let rest = store_each s batch in
    let here = store_thumb s item in (here.0 ∷ rest.0, here.1 ++ rest.1)

unfoldable pub store_thumbs : Stores → List IndexedImage → List IndexedImage × List Effect
unfolding store_each
store_thumbs s batch = if s.has_thumbs then store_each s batch else (batch, [])

-- `stored` and `byCollection`; the map is the list of what was appended, each with its key.
pub record Gathered : Type 0 where
  pub stored : List StoredVector
  pub by_collection : List (Text × IndexPoint)

unfoldable pub gather_vector : ℕ → Image → Vector → EmbeddingModel → Gathered → Gathered
unfolding payload_for
gather_vector image_id img v model g = record {
  stored =
      g.stored ++ (record { image_id = image_id; model_id = v.model_id; values = v.values } ∷ []);
  by_collection =
      g.by_collection
      ++ ((
        model.collection,
        record { point_id = image_id; vector = v.values; payload = payload_for img image_id },
      )
          ∷ []);
}

-- The loop over the vectors of an image; `none` for a model that is not registered.
unfoldable pub gather_vectors :
    List EmbeddingModel → ℕ → Image → List Vector → Gathered → Option Gathered
unfolding gather_vector find_model
gather_vectors models image_id img [] g = some g
gather_vectors models image_id img (v ∷ vs) g = elim (find_model models v.model_id) [
  | none ↦ none
  | some model ↦ gather_vectors models image_id img vs (gather_vector image_id img v model g)
]

-- The loop over the batch, with the numbers of the images; the source stops where a number is missing.
unfoldable pub gather_batch :
    List EmbeddingModel → List ℕ → List IndexedImage → Gathered → Option Gathered
unfolding gather_vectors
gather_batch models ids [] g = some g
gather_batch models [] (item ∷ batch) g = none
gather_batch models (id ∷ ids) (item ∷ batch) g =
    elim (gather_vectors models id item.image item.vectors g) [
      | none ↦ none
      | some g' ↦ gather_batch models ids batch g'
    ]

unfoldable pub has_key : Text → List Text → Bool
has_key c [] = false
has_key c (k ∷ ks) = k =t= c || has_key c ks

unfoldable pub keys_of : List (Text × IndexPoint) → List Text
unfolding has_key
keys_of [] = []
keys_of ((c, p) ∷ es) = let rest = keys_of es in if has_key c rest then rest else c ∷ rest

unfoldable pub points_of : Text → List (Text × IndexPoint) → List IndexPoint
points_of c [] = []
points_of c ((k, p) ∷ es) = let rest = points_of c es in if k =t= c then p ∷ rest else rest

-- `upsertCollections`: every collection is sent, whatever becomes of the others.
unfoldable pub send_collections : Stores → List (Text × IndexPoint) → List Text → List Effect × Bool
unfolding points_of
send_collections s es [] = ([], true)
send_collections s es (c ∷ cs) =
    let rest = send_collections s es cs in
    (upsert_points c (points_of c es) (s.indexed c) ∷ rest.0, s.indexed c && rest.1)

unfoldable pub upsert_collections : Stores → List (Text × IndexPoint) → List Effect × Bool
unfolding send_collections keys_of
upsert_collections s es = send_collections s es (s.order (keys_of es))

unfoldable pub model_ids : List EmbeddingModel → List Text
model_ids [] = []
model_ids (m ∷ models) = m.id ∷ model_ids models

-- Steps 4 and 5: a failure of the mark is only logged.
unfoldable pub index_and_mark :
    Stores → List EmbeddingModel → List ℕ → Gathered → List Effect × Submitted
unfolding upsert_collections model_ids
index_and_mark s models ids g =
    let sent = upsert_collections s g.by_collection in
    if sent.1
    then (sent.0 ++ (mark_indexed ids (model_ids models) s.marked ∷ []), ok)
    else (sent.0, index_failed)

-- Step 3 and what follows.
unfoldable pub back_up :
    Stores → List EmbeddingModel → List ℕ → Option Gathered → List Effect × Submitted
unfolding index_and_mark
back_up s models ids none = ([], unknown_model)
back_up s models ids (some g) =
    if s.saved
    then (
      save_vectors g.stored true ∷ (index_and_mark s models ids g).0,
      (index_and_mark s models ids g).1,
    )
    else (save_vectors g.stored false ∷ [], backup_failed)

unfoldable pub images_of : List IndexedImage → List Image
images_of [] = []
images_of (item ∷ batch) = item.image ∷ images_of batch

-- Step 2 and what follows.
unfoldable pub write_images :
    Stores → List EmbeddingModel → List IndexedImage → Option (List ℕ) → List Effect × Submitted
unfolding back_up gather_batch images_of
write_images s models batch none = (upsert_images (images_of batch) ∷ [], images_failed)
write_images s models batch (some ids) =
    let rest =
      back_up s models ids
        (gather_batch models ids batch (record { stored = []; by_collection = [] })) in
    (upsert_images (images_of batch) ∷ rest.0, rest.1)

unfoldable pub write_batch :
    Stores → List EmbeddingModel → List IndexedImage → List Effect × Submitted
unfolding store_thumbs write_images
write_batch s models batch =
    let thumbs = store_thumbs s batch in
    let rest = write_images s models thumbs.0 (s.ids_of (images_of thumbs.0)) in
    (thumbs.1 ++ rest.0, rest.1)

-- `Submit`; whether `checkRoom` lets the batch in is given.
unfoldable pub submit :
    Stores → Bool → List EmbeddingModel → List IndexedImage → List Effect × Submitted
unfolding validate_batch write_batch
submit s room models [] = ([], ok)
submit s room models (item ∷ batch) =
    if room
    then elim (validate_batch models (item ∷ batch)) [
      | valid ↦ write_batch s models (item ∷ batch)
      | missing id ↦ ([], invalid (missing id))
      | wrong_size id n ↦ ([], invalid (wrong_size id n))
      | bad_value id i ↦ ([], invalid (bad_value id i))
    ]
    else ([], no_room)
