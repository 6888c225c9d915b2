-- ===== src/Ingest/Sent.antt =====
-- internal/app/ingest.go: what has been sent to the index after some of the calls.
use sauce_dust.Prelude.{
  ℕ, ◌≡◌, refl, sym, ◌∙◌, subst, Bool, true, false, ◌||◌, some, List, [], ◌∷◌, ◌++◌, length, ◌⊎◌,
  inl, inr, Bool-cases, arith,
}
use text.Mathlib.TextEquality.{eq_iff}
use sauce_dust.Domain.Texts.{Text, ◌=t=◌}
use sauce_dust.Domain.Vectors.{EmbeddingModel, find_model}
use sauce_dust.Ingest.{Image, StoredVector, IndexPoint}
use sauce_dust.Ingest.Submit.{
  Effect, put_thumb, upsert_images, save_vectors, upsert_points, mark_indexed, Stores, points_of,
  send_collections, keys_of, has_key, model_ids,
}
use sauce_dust.Ingest.Gathering.{HasEntry, AllFor, AllIds}

abbrev pub HasId : ℕ → List IndexPoint → Type 0
HasId id [] = ⊥
HasId id (p ∷ ps) = (p.point_id ≡ id) ⊎ HasId id ps

-- A point of an image among what was sent to a collection.
abbrev pub HasPoint : Text → ℕ → List (Text × List IndexPoint) → Type 0
HasPoint c id [] = ⊥
HasPoint c id (s ∷ sent) = ((s.0 ≡ c) × HasId id s.1) ⊎ HasPoint c id sent

HasEntry-points :
    (c : Text) (id : ℕ) (es : List (Text × IndexPoint))
    → HasEntry c id es
    → HasId id (points_of c es)
unfolding points_of
HasEntry-points c id [] h = absurd h
HasEntry-points c id ((k, p) ∷ es) (inl h) =
    let same : (k =t= c) ≡ true = (eq_iff k c).1 h.0 in rw same (inl h.1)
HasEntry-points c id ((k, p) ∷ es) (inr h) =
    let rest = HasEntry-points c id es h in
    elim (Bool-cases (k =t= c)) [ inl same ↦ rw same (inr rest) | inr other ↦ rw other rest ]

or_true : (b : Bool) → (b || true) ≡ true
or_true true = refl
or_true false = refl

HasEntry-key :
    (c : Text) (id : ℕ) (es : List (Text × IndexPoint))
    → HasEntry c id es
    → has_key c (keys_of es) ≡ true
unfolding keys_of has_key
HasEntry-key c id [] h = absurd h
HasEntry-key c id ((k, p) ∷ es) (inl h) = elim (Bool-cases (has_key k (keys_of es))) [
  | inl known ↦ rw known (subst (λ d. has_key d (keys_of es) ≡ true) h.0 known)
  | inr new ↦ let same : (k =t= c) ≡ true = (eq_iff k c).1 h.0 in rw (new, same) refl
]
HasEntry-key c id ((k, p) ∷ es) (inr h) =
    let rest = HasEntry-key c id es h in
    elim (Bool-cases (has_key k (keys_of es))) [
      | inl known ↦ rw known rest
      | inr new ↦ rw (new, rest) (or_true (k =t= c))
    ]

-- What has been sent after the collections `cs`.
unfoldable pub after_sends :
    List (Text × IndexPoint)
    → List Text
    → List (Text × List IndexPoint)
    → List (Text × List IndexPoint)
after_sends es [] sent = sent
after_sends es (c ∷ cs) sent = after_sends es cs ((c, points_of c es) ∷ sent)

after_sends-earlier :
    (es : List (Text × IndexPoint)) (cs : List Text) (sent : List (Text × List IndexPoint))
    (c : Text) (id : ℕ)
    → HasPoint c id sent
    → HasPoint c id (after_sends es cs sent)
unfolding after_sends
after_sends-earlier es [] sent c id h = h
after_sends-earlier es (k ∷ cs) sent c id h =
    after_sends-earlier es cs ((k, points_of k es) ∷ sent) c id (inr h)

after_sends-HasPoint :
    (es : List (Text × IndexPoint)) (cs : List Text) (sent : List (Text × List IndexPoint))
    (c : Text) (id : ℕ)
    → HasEntry c id es
    → has_key c cs ≡ true
    → HasPoint c id (after_sends es cs sent)
unfolding after_sends has_key
after_sends-HasPoint es [] sent c id h k = absurd (ground arith)
after_sends-HasPoint es (d ∷ cs) sent c id h k = elim (Bool-cases (d =t= c)) [
  | inl same ↦
      let is : d ≡ c = (eq_iff d c).0 same in
      after_sends-earlier es cs ((d, points_of d es) ∷ sent) c id
        (inl (is, subst (λ e. HasId id (points_of e es)) (sym is) (HasEntry-points c id es h)))
  | inr other ↦
      let later : has_key c cs ≡ true = sym (rw other refl) ∙ k in
      after_sends-HasPoint es cs ((d, points_of d es) ∷ sent) c id h later
]

-- The stores give a number for each image, and no collection is left out.
pub record IsLawful (s : Stores) : Type 0 where
  pub counted :
      (imgs : List Image) (ids : List ℕ) → s.ids_of imgs ≡ some ids → length ids ≡ length imgs
  pub ordered : (c : Text) (cs : List Text) → has_key c cs ≡ true → has_key c (s.order cs) ≡ true

module _ (models : List EmbeddingModel) where
  abbrev pub AllSentFor : List Text → ℕ → List (Text × List IndexPoint) → Type 0
  AllSentFor [] id sent = Unit {0}
  AllSentFor (mid ∷ mids) id sent =
      ((m : EmbeddingModel) × (find_model models mid ≡ some m) × HasPoint m.collection id sent)
      × AllSentFor mids id sent

  abbrev pub AllSent : List ℕ → List Text → List (Text × List IndexPoint) → Type 0
  AllSent [] mids sent = Unit {0}
  AllSent (id ∷ ids) mids sent = AllSentFor mids id sent × AllSent ids mids sent

  -- Images are marked for models only after a point for each was sent to the model's collection with
  -- success; `sent` holds what was sent so far.
  abbrev pub IsMarked : List (Text × List IndexPoint) → List Effect → Type 0
  IsMarked sent [] = Unit {0}
  IsMarked sent (put_thumb site id ∷ es) = IsMarked sent es
  IsMarked sent (upsert_images imgs ∷ es) = IsMarked sent es
  IsMarked sent (save_vectors vs done ∷ es) = IsMarked sent es
  IsMarked sent (upsert_points c ps true ∷ es) = IsMarked ((c, ps) ∷ sent) es
  IsMarked sent (upsert_points c ps false ∷ es) = IsMarked sent es
  IsMarked sent (mark_indexed ids mids done ∷ es) = AllSent ids mids sent × IsMarked sent es

  pub sends_done :
      (s : Stores) (es : List (Text × IndexPoint)) (cs : List Text)
      (sent : List (Text × List IndexPoint)) (rest : List Effect)
      → (send_collections s es cs).1 ≡ true
      → IsMarked (after_sends es cs sent) rest
      → IsMarked sent ((send_collections s es cs).0 ++ rest)
  unfolding send_collections after_sends
  sends_done s es [] sent rest done h = h
  sends_done s es (c ∷ cs) sent rest done h = elim (Bool-cases (s.indexed c)) [
    | inl ok' ↦
        let others : (send_collections s es cs).1 ≡ true = sym (rw ok' refl) ∙ done in
        rw ok' (sends_done s es cs ((c, points_of c es) ∷ sent) rest others h)
    | inr bad ↦ let never : Path Bool false true = sym (rw bad refl) ∙ done in absurd (ground arith)
  ]

  pub sends_only :
      (s : Stores) (es : List (Text × IndexPoint)) (cs : List Text)
      (sent : List (Text × List IndexPoint))
      → IsMarked sent (send_collections s es cs).0
  unfolding send_collections
  sends_only s es [] sent = tt
  sends_only s es (c ∷ cs) sent = elim (Bool-cases (s.indexed c)) [
    | inl ok' ↦ rw ok' (sends_only s es cs ((c, points_of c es) ∷ sent))
    | inr bad ↦ rw bad (sends_only s es cs sent)
  ]

  module _ (es : List (Text × IndexPoint)) (cs : List Text)
      (all : (c : Text) → has_key c (keys_of es) ≡ true → has_key c cs ≡ true) where
    AllFor-sent :
        (ms : List EmbeddingModel) (id : ℕ) (stored : List StoredVector)
        → AllFor models ms id (some (record { stored = stored; by_collection = es }))
        → AllSentFor (model_ids ms) id (after_sends es cs [])
    unfolding model_ids
    AllFor-sent [] id stored h = tt
    AllFor-sent (m ∷ ms) id stored h =
        let (found, is, entry) = h.0 in
        (
          (
            found,
            is,
            after_sends-HasPoint es cs [] found.collection id entry
                (all found.collection (HasEntry-key found.collection id es entry)),
          ),
          AllFor-sent ms id stored h.1,
        )

    pub AllIds-sent :
        (ids : List ℕ) (stored : List StoredVector)
        → AllIds models ids (some (record { stored = stored; by_collection = es }))
        → AllSent ids (model_ids models) (after_sends es cs [])
    AllIds-sent [] stored h = tt
    AllIds-sent (id ∷ ids) stored h = (AllFor-sent models id stored h.0, AllIds-sent ids stored h.1)
