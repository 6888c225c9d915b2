-- ===== src/Ingest/Backed.antt =====
-- internal/app/ingest.go: what has been backed up when points are sent to the index.
use sauce_dust.Prelude.{
  ℕ, ◌≡◌, refl, sym, subst, Bool, true, false, ◌==◌, Option, none, some, List, [], ◌∷◌, ◌++◌,
  length, ◌⊎◌, inl, inr, append_assoc, Bool-cases, Option-cases,
}
use text.Mathlib.TextEquality.{eq_iff}
use sauce_dust.Domain.Texts.{Text, ◌=t=◌}
use sauce_dust.Domain.Vectors.{
  Vector, EmbeddingModel, Verdict, valid, missing, wrong_size, bad_value, find_model,
}
use sauce_dust.Ingest.{Image, IndexedImage, StoredVector, IndexPoint, payload_for}
use sauce_dust.Ingest.Submit.{
  Effect, put_thumb, upsert_images, save_vectors, upsert_points, mark_indexed, Submitted, invalid,
  Stores, Gathered, gather_vector, gather_vectors, gather_batch, points_of, send_collections,
  upsert_collections, index_and_mark, back_up, write_images, write_batch, submit, store_thumb,
  store_each, store_thumbs, keys_of, validate_batch, images_of, model_ids,
}

module _ (models : List EmbeddingModel) where
  -- A stored vector is the one of a point that goes to a collection.
  abbrev pub IsBackup : Text → IndexPoint → StoredVector → Type 0
  IsBackup c p v =
      (v.image_id ≡ p.point_id)
      × (v.values ≡ p.vector)
      × ((m : EmbeddingModel) × (find_model models v.model_id ≡ some m) × (m.collection ≡ c))

  abbrev pub IsStored : Text → IndexPoint → List StoredVector → Type 0
  IsStored c p [] = ⊥
  IsStored c p (v ∷ vs) = IsBackup c p v ⊎ IsStored c p vs

  abbrev pub AllStored : Text → List IndexPoint → List StoredVector → Type 0
  AllStored c [] saved = Unit {0}
  AllStored c (p ∷ ps) saved = IsStored c p saved × AllStored c ps saved

  -- Every point is sent after a backup of its vector that succeeded; `saved` holds the backups so far.
  abbrev pub IsBacked : List StoredVector → List Effect → Type 0
  IsBacked saved [] = Unit {0}
  IsBacked saved (put_thumb site id ∷ es) = IsBacked saved es
  IsBacked saved (upsert_images imgs ∷ es) = IsBacked saved es
  IsBacked saved (save_vectors vs true ∷ es) = IsBacked (vs ++ saved) es
  IsBacked saved (save_vectors vs false ∷ es) = IsBacked saved es
  IsBacked saved (upsert_points c ps done ∷ es) = AllStored c ps saved × IsBacked saved es
  IsBacked saved (mark_indexed ids ms done ∷ es) = IsBacked saved es

  abbrev AllGathered : List (Text × IndexPoint) → List StoredVector → Type 0
  AllGathered [] stored = Unit {0}
  AllGathered (e ∷ es) stored = IsStored e.0 e.1 stored × AllGathered es stored

  IsStored-left :
      (c : Text) (p : IndexPoint) (vs us : List StoredVector)
      → IsStored c p vs
      → IsStored c p (vs ++ us)
  IsStored-left c p [] us h = absurd h
  IsStored-left c p (v ∷ vs) us (inl h) = inl h
  IsStored-left c p (v ∷ vs) us (inr h) = inr (IsStored-left c p vs us h)

  IsStored-last :
      (c : Text) (p : IndexPoint) (vs : List StoredVector) (v : StoredVector)
      → IsBackup c p v
      → IsStored c p (vs ++ (v ∷ []))
  IsStored-last c p [] v h = inl h
  IsStored-last c p (u ∷ vs) v h = inr (IsStored-last c p vs v h)

  AllGathered-grown :
      (es : List (Text × IndexPoint)) (vs us : List StoredVector)
      → AllGathered es vs
      → AllGathered es (vs ++ us)
  AllGathered-grown [] vs us h = tt
  AllGathered-grown (e ∷ es) vs us h =
      (IsStored-left e.0 e.1 vs us h.0, AllGathered-grown es vs us h.1)

  AllGathered-last :
      (es : List (Text × IndexPoint)) (c : Text) (p : IndexPoint) (vs : List StoredVector)
      → AllGathered es vs
      → IsStored c p vs
      → AllGathered (es ++ ((c, p) ∷ [])) vs
  AllGathered-last [] c p vs h s = (s, tt)
  AllGathered-last (e ∷ es) c p vs h s = (h.0, AllGathered-last es c p vs h.1 s)

  abbrev IsGathered : Gathered → Type 0
  IsGathered g = AllGathered g.by_collection g.stored

  gather_vector-IsGathered :
      (id : ℕ) (img : Image) (v : Vector) (m : EmbeddingModel) (g : Gathered)
      → find_model models v.model_id ≡ some m
      → IsGathered g
      → IsGathered (gather_vector id img v m g)
  unfolding gather_vector
  gather_vector-IsGathered id img v m g found h =
      let here : StoredVector = record {
        image_id = id;
        model_id = v.model_id;
        values = v.values;
      } in
      let point : IndexPoint = record {
        point_id = id;
        vector = v.values;
        payload = payload_for img id;
      } in
      AllGathered-last g.by_collection m.collection point (g.stored ++ (here ∷ []))
        (AllGathered-grown g.by_collection g.stored (here ∷ []) h)
        (IsStored-last m.collection point g.stored here (refl, refl, (m, found, refl)))

  -- What the loops give back is gathered.
  abbrev IsResult : Option Gathered → Type 0
  IsResult none = Unit {0}
  IsResult (some g) = IsGathered g

  gather_vectors-IsResult :
      (id : ℕ) (img : Image) (vs : List Vector) (g : Gathered)
      → IsGathered g
      → IsResult (gather_vectors models id img vs g)
  unfolding gather_vectors
  gather_vectors-IsResult id img [] g h = h
  gather_vectors-IsResult id img (v ∷ vs) g h = elim (Option-cases (find_model models v.model_id)) [
    | inl e ↦ rw (e, gather_vectors) tt
    | inr (m, e) ↦
        rw (e, gather_vectors)
          (gather_vectors-IsResult id img vs (gather_vector id img v m g)
            (gather_vector-IsGathered id img v m g e h))
  ]

  gather_batch-IsResult :
      (ids : List ℕ) (batch : List IndexedImage) (g : Gathered)
      → IsGathered g
      → IsResult (gather_batch models ids batch g)
  unfolding gather_batch
  gather_batch-IsResult ids [] g h = h
  gather_batch-IsResult [] (item ∷ batch) g h = tt
  gather_batch-IsResult (id ∷ ids) (item ∷ batch) g h =
      let one = gather_vectors-IsResult id item.image item.vectors g h in
      elim (Option-cases (gather_vectors models id item.image item.vectors g)) [
        | inl e ↦ rw (e, gather_batch) tt
        | inr (g', e) ↦
            rw (e, gather_batch) (gather_batch-IsResult ids batch g' (subst IsResult e one))
      ]

  points_of-AllStored :
      (c : Text) (es : List (Text × IndexPoint)) (saved : List StoredVector)
      → AllGathered es saved
      → AllStored c (points_of c es) saved
  unfolding points_of
  points_of-AllStored c [] saved h = tt
  points_of-AllStored c ((k, p) ∷ es) saved h =
      let rest = points_of-AllStored c es saved h.1 in
      elim (Bool-cases (k =t= c)) [
        | inl same ↦ rw same (subst (λ d. IsStored d p saved) ((eq_iff k c).0 same) h.0, rest)
        | inr other ↦ rw other rest
      ]

  send_collections-IsBacked :
      (s : Stores) (es : List (Text × IndexPoint)) (cs : List Text) (saved : List StoredVector)
      (rest : List Effect)
      → AllGathered es saved
      → IsBacked saved rest
      → IsBacked saved ((send_collections s es cs).0 ++ rest)
  unfolding send_collections
  send_collections-IsBacked s es [] saved rest h r = r
  send_collections-IsBacked s es (c ∷ cs) saved rest h r =
      (points_of-AllStored c es saved h, send_collections-IsBacked s es cs saved rest h r)

  sent_alone :
      (s : Stores) (es : List (Text × IndexPoint)) (cs : List Text) (saved : List StoredVector)
      → AllGathered es saved
      → IsBacked saved (send_collections s es cs).0
  unfolding send_collections
  sent_alone s es [] saved h = tt
  sent_alone s es (c ∷ cs) saved h = (points_of-AllStored c es saved h, sent_alone s es cs saved h)

  index_and_mark-IsBacked :
      (s : Stores) (ids : List ℕ) (g : Gathered) (saved : List StoredVector)
      → AllGathered g.by_collection saved
      → IsBacked saved (index_and_mark s models ids g).0
  unfolding index_and_mark upsert_collections
  index_and_mark-IsBacked s ids g saved h =
      let es = g.by_collection in
      let cs = s.order (keys_of es) in
      elim (Bool-cases (send_collections s es cs).1) [
        | inl done ↦ rw done (
            send_collections-IsBacked s es cs saved
              (mark_indexed ids (model_ids models) s.marked ∷ []) h tt)
        | inr failed ↦ rw failed (sent_alone s es cs saved h)
      ]

  back_up-IsBacked :
      (s : Stores) (ids : List ℕ) (o : Option Gathered)
      → IsResult o
      → IsBacked [] (back_up s models ids o).0
  unfolding back_up
  back_up-IsBacked s ids none h = tt
  back_up-IsBacked s ids (some g) h = elim (Bool-cases s.saved) [
    | inl done ↦ rw done (
        index_and_mark-IsBacked s ids g (g.stored ++ [])
          (AllGathered-grown g.by_collection g.stored [] h))
    | inr failed ↦ rw failed tt
  ]

  write_images-IsBacked :
      (s : Stores) (batch : List IndexedImage) (o : Option (List ℕ))
      → IsBacked [] (write_images s models batch o).0
  unfolding write_images
  write_images-IsBacked s batch none = tt
  write_images-IsBacked s batch (some ids) =
      back_up-IsBacked s ids
        (gather_batch models ids batch (record { stored = []; by_collection = [] }))
        (gather_batch-IsResult ids batch (record { stored = []; by_collection = [] }) tt)

  store_thumb-IsBacked :
      (s : Stores) (item : IndexedImage) (rest : List Effect)
      → IsBacked [] rest
      → IsBacked [] ((store_thumb s item).1 ++ rest)
  unfolding store_thumb
  store_thumb-IsBacked s item rest r = elim (Bool-cases (length item.thumb == 0)) [
    | inl e ↦ rw e r
    | inr e ↦ rw e r
  ]

  store_each-IsBacked :
      (s : Stores) (batch : List IndexedImage) (rest : List Effect)
      → IsBacked [] rest
      → IsBacked [] ((store_each s batch).1 ++ rest)
  unfolding store_each
  store_each-IsBacked s [] rest r = r
  store_each-IsBacked s (item ∷ batch) rest r =
      subst (IsBacked []) (sym (append_assoc (store_thumb s item).1 (store_each s batch).1 rest)) (
        store_thumb-IsBacked s item ((store_each s batch).1 ++ rest)
          (store_each-IsBacked s batch rest r))

  write_batch-IsBacked :
      (s : Stores) (batch : List IndexedImage) → IsBacked [] (write_batch s models batch).0
  unfolding write_batch store_thumbs
  write_batch-IsBacked s batch = elim (Bool-cases s.has_thumbs) [
    | inl has ↦ rw has (
        store_each-IsBacked s batch
          (write_images s models (store_each s batch).0
            (s.ids_of (images_of (store_each s batch).0))).0
          (write_images-IsBacked s (store_each s batch).0
            (s.ids_of (images_of (store_each s batch).0))))
    | inr no' ↦ rw no' (write_images-IsBacked s batch (s.ids_of (images_of batch)))
  ]

  after_validation :
      (s : Stores) (batch : List IndexedImage) (v : Verdict)
      → IsBacked []
          (elim v as (λ x. List Effect × Submitted) [
            | valid ↦ write_batch s models batch
            | missing id ↦ ([], invalid (missing id))
            | wrong_size id n ↦ ([], invalid (wrong_size id n))
            | bad_value id i ↦ ([], invalid (bad_value id i))
          ]).0
  after_validation s batch valid = write_batch-IsBacked s batch
  after_validation s batch (missing id) = tt
  after_validation s batch (wrong_size id n) = tt
  after_validation s batch (bad_value id i) = tt

  -- Whatever the stores answer, `Submit` sends a point to a collection of the index only after a backup
  -- that succeeded of the same vector, for the same image and a model of that collection.
  pub submit-IsBacked :
      (s : Stores) (room : Bool) (batch : List IndexedImage)
      → IsBacked [] (submit s room models batch).0
  unfolding submit
  submit-IsBacked s room [] = tt
  submit-IsBacked s room (item ∷ batch) = elim (Bool-cases room) [
    | inr full ↦ rw full tt
    | inl free ↦ rw free (after_validation s (item ∷ batch) (validate_batch models (item ∷ batch)))
  ]
