-- ===== src/Ingest/Gathering.antt =====
-- internal/app/ingest.go: what the loops of `Submit` gather_batch for each image and each model.
use sauce_dust.Prelude.{
  ℕ, ◌≡◌, refl, sym, ◌∙◌, subst, true, Option, none, some, List, [], ◌∷◌, ◌++◌, length, ◌⊎◌, inl,
  inr, Bool-cases, Option-cases, arith,
}
use text.Mathlib.TextEquality.{eq_iff}
use sauce_dust.Domain.Texts.{Text, ◌=t=◌}
use sauce_dust.Domain.Vectors.{Vector, EmbeddingModel, by_id, find_model}
use sauce_dust.Domain.Named.{by_id_iff}
use sauce_dust.Domain.Validated.{IsGood}
use sauce_dust.Ingest.{Image, IndexedImage, IndexPoint, payload_for}
use sauce_dust.Ingest.Submit.{Gathered, gather_vector, gather_vectors, gather_batch}

abbrev pub HasEntry : Text → ℕ → List (Text × IndexPoint) → Type 0
HasEntry c id [] = ⊥
HasEntry c id (e ∷ es) = ((e.0 ≡ c) × (e.1.point_id ≡ id)) ⊎ HasEntry c id es

HasEntry-left :
    (c : Text) (id : ℕ) (es fs : List (Text × IndexPoint))
    → HasEntry c id es
    → HasEntry c id (es ++ fs)
HasEntry-left c id [] fs h = absurd h
HasEntry-left c id (e ∷ es) fs (inl h) = inl h
HasEntry-left c id (e ∷ es) fs (inr h) = inr (HasEntry-left c id es fs h)

HasEntry-last :
    (c : Text) (id : ℕ) (es : List (Text × IndexPoint)) (e : Text × IndexPoint)
    → (e.0 ≡ c) × (e.1.point_id ≡ id)
    → HasEntry c id (es ++ (e ∷ []))
HasEntry-last c id [] e h = inl h
HasEntry-last c id (f ∷ es) e h = inr (HasEntry-last c id es e h)

by_id-none : (mid : Text) (values : List ℕ) → ¬ (by_id mid [] ≡ some values)
unfolding by_id
by_id-none mid values h = ground arith

-- The vector that is found stands later, or is the first one.
by_id-cons :
    (mid : Text) (v : Vector) (vs : List Vector) (values : List ℕ)
    → by_id mid (v ∷ vs) ≡ some values
    → ((later : List ℕ) × (by_id mid vs ≡ some later)) ⊎ ((v.model_id =t= mid) ≡ true)
unfolding by_id
by_id-cons mid v vs values h = elim (Option-cases (by_id mid vs)) [
  | inr (later, e) ↦ inl (later, e)
  | inl e ↦ elim (Bool-cases (v.model_id =t= mid)) [
    | inl same ↦ inr same
    | inr other ↦
        let bad : Path (Option (List ℕ)) none (some values) = sym (rw (e, other, by_id) refl) ∙ h in
        absurd (ground arith)
  ]
]

module _ (models : List EmbeddingModel) where
  -- The model with a name, and a point of the image for its collection.
  abbrev pub HasFor : Text → ℕ → List (Text × IndexPoint) → Type 0
  HasFor mid id es =
      (m : EmbeddingModel) × (find_model models mid ≡ some m) × HasEntry m.collection id es

  abbrev pub Grows : Gathered → Option Gathered → Type 0
  Grows g none = Unit {0}
  Grows g (some g') =
      (c : Text) (id : ℕ) → HasEntry c id g.by_collection → HasEntry c id g'.by_collection

  abbrev pub ResultHas : Text → ℕ → Option Gathered → Type 0
  ResultHas mid id none = Unit {0}
  ResultHas mid id (some g) = HasFor mid id g.by_collection

  Grows-HasFor :
      (mid : Text) (id : ℕ) (g : Gathered) (o : Option Gathered)
      → Grows g o
      → HasFor mid id g.by_collection
      → ResultHas mid id o
  Grows-HasFor mid id g none h f = tt
  Grows-HasFor mid id g (some g') h f = (f.0, f.1, h f.0.collection id f.2)

  Grows-after : (g g' : Gathered) (o : Option Gathered) → Grows g (some g') → Grows g' o → Grows g o
  Grows-after g g' none h k = tt
  Grows-after g g' (some g'') h k = λ c id e. k c id (h c id e)

  gather_vector-Grows :
      (id : ℕ) (img : Image) (v : Vector) (m : EmbeddingModel) (g : Gathered)
      → Grows g (some (gather_vector id img v m g))
  unfolding gather_vector
  gather_vector-Grows id img v m g = λ c i e.
      HasEntry-left c i g.by_collection
        ((m.collection, record { point_id = id; vector = v.values; payload = payload_for img id })
          ∷ [])
        e

  gather_vector-HasFor :
      (id : ℕ) (img : Image) (v : Vector) (m : EmbeddingModel) (g : Gathered) (mid : Text)
      → find_model models v.model_id ≡ some m
      → (v.model_id =t= mid) ≡ true
      → HasFor mid id (gather_vector id img v m g).by_collection
  unfolding gather_vector
  gather_vector-HasFor id img v m g mid found same = (
    m,
    subst (λ k. find_model models k ≡ some m) ((eq_iff v.model_id mid).0 same) found,
    HasEntry-last m.collection id g.by_collection
        (m.collection, record { point_id = id; vector = v.values; payload = payload_for img id })
        (refl, refl),
  )

  gather_vectors-Grows :
      (id : ℕ) (img : Image) (vs : List Vector) (g : Gathered)
      → Grows g (gather_vectors models id img vs g)
  unfolding gather_vectors
  gather_vectors-Grows id img [] g = λ c i e. e
  gather_vectors-Grows id img (v ∷ vs) g = elim (Option-cases (find_model models v.model_id)) [
    | inl e ↦ rw (e, gather_vectors) tt
    | inr (m, e) ↦
        let g' = gather_vector id img v m g in
        rw (e, gather_vectors)
          (Grows-after g g' (gather_vectors models id img vs g') (gather_vector-Grows id img v m g)
            (gather_vectors-Grows id img vs g'))
  ]

  gather_vectors-ResultHas :
      (id : ℕ) (img : Image) (vs : List Vector) (g : Gathered) (mid : Text) (values : List ℕ)
      → by_id mid vs ≡ some values
      → ResultHas mid id (gather_vectors models id img vs g)
  unfolding gather_vectors
  gather_vectors-ResultHas id img [] g mid values h = absurd (by_id-none mid values h)
  gather_vectors-ResultHas id img (v ∷ vs) g mid values h =
      elim (Option-cases (find_model models v.model_id)) [
        | inl e ↦ rw (e, gather_vectors) tt
        | inr (m, e) ↦
            let g' = gather_vector id img v m g in
            rw (e, gather_vectors)
              (elim (by_id-cons mid v vs values h) [
                | inl (later, found) ↦ gather_vectors-ResultHas id img vs g' mid later found
                | inr same ↦
                    Grows-HasFor mid id g' (gather_vectors models id img vs g')
                      (gather_vectors-Grows id img vs g')
                      (gather_vector-HasFor id img v m g mid e same)
              ])
      ]

  -- For each of the models.
  abbrev pub AllFor : List EmbeddingModel → ℕ → Option Gathered → Type 0
  AllFor [] id o = Unit {0}
  AllFor (m ∷ ms) id o = ResultHas m.id id o × AllFor ms id o

  AllFor-later :
      (ms : List EmbeddingModel) (id : ℕ) (g : Gathered) (o : Option Gathered)
      → Grows g o
      → AllFor ms id (some g)
      → AllFor ms id o
  AllFor-later [] id g o h f = tt
  AllFor-later (m ∷ ms) id g o h f = (Grows-HasFor m.id id g o h f.0, AllFor-later ms id g o h f.1)

  good_gathered :
      (ms : List EmbeddingModel) (id : ℕ) (img : Image) (vs : List Vector) (g : Gathered)
      → IsGood vs ms
      → AllFor ms id (gather_vectors models id img vs g)
  good_gathered [] id img vs g h = tt
  good_gathered (m ∷ ms) id img vs g h = (
    gather_vectors-ResultHas id img vs g m.id h.0.0 ((by_id_iff m.id vs h.0.0).1 h.0.1),
    good_gathered ms id img vs g h.1,
  )

  abbrev pub AllIds : List ℕ → Option Gathered → Type 0
  AllIds [] o = Unit {0}
  AllIds (id ∷ ids) o = AllFor models id o × AllIds ids o

  abbrev pub AllGood : List IndexedImage → Type 0
  AllGood [] = Unit {0}
  AllGood (item ∷ batch) = IsGood item.vectors models × AllGood batch

  AllFor-none : (ms : List EmbeddingModel) (id : ℕ) → AllFor ms id none
  AllFor-none [] id = tt
  AllFor-none (m ∷ ms) id = (tt, AllFor-none ms id)

  AllIds-none : (ids : List ℕ) → AllIds ids none
  AllIds-none [] = tt
  AllIds-none (id ∷ ids) = (AllFor-none models id, AllIds-none ids)

  gather_batch-Grows :
      (ids : List ℕ) (batch : List IndexedImage) (g : Gathered)
      → Grows g (gather_batch models ids batch g)
  unfolding gather_batch
  gather_batch-Grows ids [] g = λ c i e. e
  gather_batch-Grows [] (item ∷ batch) g = tt
  gather_batch-Grows (id ∷ ids) (item ∷ batch) g =
      let first = gather_vectors-Grows id item.image item.vectors g in
      elim (Option-cases (gather_vectors models id item.image item.vectors g)) [
        | inl e ↦ rw (e, gather_batch) tt
        | inr (g', e) ↦
            rw (e, gather_batch)
              (Grows-after g g' (gather_batch models ids batch g') (subst (Grows g) e first)
                (gather_batch-Grows ids batch g'))
      ]

  -- After the loop over the batch, each image has a point for each model.
  pub gather_batch-AllIds :
      (ids : List ℕ) (batch : List IndexedImage) (g : Gathered)
      → length ids ≡ length batch
      → AllGood batch
      → AllIds ids (gather_batch models ids batch g)
  unfolding gather_batch
  gather_batch-AllIds [] batch g n h = tt
  gather_batch-AllIds (id ∷ ids) [] g n h = absurd (omega arith)
  gather_batch-AllIds (id ∷ ids) (item ∷ batch) g n h =
      let here = good_gathered models id item.image item.vectors g h.0 in
      elim (Option-cases (gather_vectors models id item.image item.vectors g)) [
        | inl e ↦ rw (e, gather_batch) (AllIds-none (id ∷ ids))
        | inr (g', e) ↦
            rw (e, gather_batch)
              (
                AllFor-later models id g' (gather_batch models ids batch g')
                    (gather_batch-Grows ids batch g') (subst (AllFor models id) e here),
                gather_batch-AllIds ids batch g' (omega arith) h.1,
              )
      ]
