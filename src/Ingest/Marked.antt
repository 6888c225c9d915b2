-- ===== src/Ingest/Marked.antt =====
-- internal/app/ingest.go: what has been sent to the index when images are marked as indexed.
use sauce_dust.Prelude.{
  ℕ, suc, ◌≡◌, refl, sym, ap, ◌∙◌, subst, Bool, ◌==◌, Option, none, some, List, [], ◌∷◌, ◌++◌,
  length, inl, inr, append_assoc, Bool-cases, Option-cases,
}
use sauce_dust.Domain.Vectors.{
  EmbeddingModel, Verdict, valid, missing, wrong_size, bad_value, validate_vectors,
}
use sauce_dust.Domain.Validated.{IsGood, validate_vectors-IsGood, and_then-valid}
use sauce_dust.Ingest.{IndexedImage}
use sauce_dust.Ingest.Submit.{
  Effect, mark_indexed, Submitted, invalid, Stores, Gathered, gather_batch, send_collections,
  upsert_collections, index_and_mark, back_up, write_images, write_batch, submit, store_thumb,
  store_each, store_thumbs, keys_of, validate_batch, images_of, model_ids,
}
use sauce_dust.Ingest.Gathering.{AllIds, AllGood, gather_batch-AllIds}
use sauce_dust.Ingest.Sent.{IsMarked, IsLawful, sends_done, sends_only, AllIds-sent}

module _ (models : List EmbeddingModel) where
  index_and_mark-IsMarked :
      (s : Stores) (ids : List ℕ) (g : Gathered)
      → IsLawful s
      → AllIds models ids (some g)
      → IsMarked models [] (index_and_mark s models ids g).0
  unfolding index_and_mark upsert_collections
  index_and_mark-IsMarked s ids g law h =
      let es = g.by_collection in
      let cs = s.order (keys_of es) in
      let all = AllIds-sent models es cs (λ c. law.ordered c (keys_of es)) ids g.stored h in
      elim (Bool-cases (send_collections s es cs).1) [
        | inl done ↦ rw done (
            sends_done models s es cs [] (mark_indexed ids (model_ids models) s.marked ∷ []) done
              (all, tt))
        | inr failed ↦ rw failed (sends_only models s es cs [])
      ]

  back_up-IsMarked :
      (s : Stores) (ids : List ℕ) (o : Option Gathered)
      → IsLawful s
      → AllIds models ids o
      → IsMarked models [] (back_up s models ids o).0
  unfolding back_up
  back_up-IsMarked s ids none law h = tt
  back_up-IsMarked s ids (some g) law h = elim (Bool-cases s.saved) [
    | inl done ↦ rw done (index_and_mark-IsMarked s ids g law h)
    | inr failed ↦ rw failed tt
  ]

  length-images_of : (batch : List IndexedImage) → length (images_of batch) ≡ length batch
  unfolding images_of
  length-images_of [] = refl
  length-images_of (item ∷ batch) = ap suc (length-images_of batch)

  write_images-IsMarked :
      (s : Stores) (batch : List IndexedImage)
      → IsLawful s
      → AllGood models batch
      → IsMarked models [] (write_images s models batch (s.ids_of (images_of batch))).0
  unfolding write_images
  write_images-IsMarked s batch law h = elim (Option-cases (s.ids_of (images_of batch))) [
    | inl e ↦ rw (e, write_images) tt
    | inr (ids, e) ↦
        let start : Gathered = record { stored = []; by_collection = [] } in
        let many : length ids ≡ length batch =
          law.counted (images_of batch) ids e ∙ length-images_of batch in
        rw (e, write_images)
          (back_up-IsMarked s ids (gather_batch models ids batch start) law
            (gather_batch-AllIds models ids batch start many h))
  ]

  store_thumb-IsGood :
      (s : Stores) (item : IndexedImage)
      → IsGood item.vectors models
      → IsGood (store_thumb s item).0.vectors models
  unfolding store_thumb
  store_thumb-IsGood s item h = elim (Bool-cases (length item.thumb == 0)) [
    | inl e ↦ rw e h
    | inr e ↦
        elim (Option-cases (s.put item.image.source_site item.image.source_post_id item.thumb)) [
          | inl f ↦ rw (e, f) h
          | inr (path, f) ↦ rw (e, f) h
        ]
  ]

  store_each-AllGood :
      (s : Stores) (batch : List IndexedImage)
      → AllGood models batch
      → AllGood models (store_each s batch).0
  unfolding store_each
  store_each-AllGood s [] h = tt
  store_each-AllGood s (item ∷ batch) h =
      (store_thumb-IsGood s item h.0, store_each-AllGood s batch h.1)

  store_thumb-IsMarked :
      (s : Stores) (item : IndexedImage) (rest : List Effect)
      → IsMarked models [] rest
      → IsMarked models [] ((store_thumb s item).1 ++ rest)
  unfolding store_thumb
  store_thumb-IsMarked s item rest r = elim (Bool-cases (length item.thumb == 0)) [
    | inl e ↦ rw e r
    | inr e ↦ rw e r
  ]

  store_each-IsMarked :
      (s : Stores) (batch : List IndexedImage) (rest : List Effect)
      → IsMarked models [] rest
      → IsMarked models [] ((store_each s batch).1 ++ rest)
  unfolding store_each
  store_each-IsMarked s [] rest r = r
  store_each-IsMarked s (item ∷ batch) rest r =
      subst (IsMarked models [])
        (sym (append_assoc (store_thumb s item).1 (store_each s batch).1 rest))
        (store_thumb-IsMarked s item ((store_each s batch).1 ++ rest)
          (store_each-IsMarked s batch rest r))

  write_batch-IsMarked :
      (s : Stores) (batch : List IndexedImage)
      → IsLawful s
      → AllGood models batch
      → IsMarked models [] (write_batch s models batch).0
  unfolding write_batch store_thumbs
  write_batch-IsMarked s batch law h = elim (Bool-cases s.has_thumbs) [
    | inl has ↦
        let stored = (store_each s batch).0 in
        rw has (
          store_each-IsMarked s batch (write_images s models stored (s.ids_of (images_of stored))).0
            (write_images-IsMarked s stored law (store_each-AllGood s batch h)))
    | inr no' ↦ rw no' (write_images-IsMarked s batch law h)
  ]

  validate_batch-AllGood :
      (batch : List IndexedImage) → validate_batch models batch ≡ valid → AllGood models batch
  unfolding validate_batch
  validate_batch-AllGood [] e = tt
  validate_batch-AllGood (item ∷ batch) e =
      let both =
        (and_then-valid (validate_vectors item.vectors models) (validate_batch models batch)).0 e in
      ((validate_vectors-IsGood item.vectors models).0 both.0, validate_batch-AllGood batch both.1)

  after_validation :
      (s : Stores) (batch : List IndexedImage) (v : Verdict)
      → IsLawful s
      → validate_batch models batch ≡ v
      → IsMarked models []
          (elim v as (λ x. List Effect × Submitted) [
            | valid ↦ write_batch s models batch
            | missing id ↦ ([], invalid (missing id))
            | wrong_size id n ↦ ([], invalid (wrong_size id n))
            | bad_value id i ↦ ([], invalid (bad_value id i))
          ]).0
  after_validation s batch valid law e =
      write_batch-IsMarked s batch law (validate_batch-AllGood batch e)
  after_validation s batch (missing id) law e = tt
  after_validation s batch (wrong_size id n) law e = tt
  after_validation s batch (bad_value id i) law e = tt

  -- With stores that give a number for each image, and when no collection is left out, `Submit` marks
  -- images as indexed only after it sent, for each of them and each registered model, a point to the
  -- collection of the model with success.
  pub submit-IsMarked :
      (s : Stores) (room : Bool) (batch : List IndexedImage)
      → IsLawful s
      → IsMarked models [] (submit s room models batch).0
  unfolding submit
  submit-IsMarked s room [] law = tt
  submit-IsMarked s room (item ∷ batch) law = elim (Bool-cases room) [
    | inr full ↦ rw full tt
    | inl free ↦
        rw free (after_validation s (item ∷ batch) (validate_batch models (item ∷ batch)) law refl)
  ]
