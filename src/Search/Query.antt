-- ===== src/Search/Query.antt =====
-- internal/app/search.go: the vector of a query, from the cache or the embedding worker.
use sauce_dust.Prelude.{
  ℕ, ◌==◌, not, if◌then◌else◌, Bool, true, false, Option, none, some, List, [], ◌∷◌, length,
}
use sauce_dust.Domain.Vectors.{EmbeddingModel, copy, semantic, ModelKind, Vector, vector_of}
use sauce_dust.Search.{SearchConfig, SearchResult, Sort, hits_of, rank}

-- What a lookup in the cache returns; the hash is empty for entries from before it was stored.
pub data Cached : Type 0 where
  no_cache cache_error miss : Cached
  entry : List ℕ → List ℕ → Cached

-- What the worker returns: the vectors of the models, and the hash.
pub record Embedded : Type 0 where
  pub vectors : List Vector
  pub phash : List ℕ

pub data Query : Type 0 where
  query : List ℕ → List ℕ → Query
  embed_failed no_vector wrong_size : Query

unfoldable pub is_copy : ModelKind → Bool
is_copy copy = true
is_copy semantic = false

unfoldable pub first_copy : List EmbeddingModel → Option EmbeddingModel
unfolding is_copy
first_copy [] = none
first_copy (m ∷ ms) = let rest = first_copy ms in if is_copy m.kind then some m else rest

unfoldable pub primary_model : List EmbeddingModel → Option EmbeddingModel
unfolding first_copy
primary_model [] = none
primary_model (m ∷ ms) = elim (first_copy (m ∷ ms)) [ some c ↦ some c | none ↦ some m ]

unfoldable pub check_query : EmbeddingModel → List ℕ → Option (List ℕ) → Query
check_query m phash none = no_vector
check_query m phash (some vector) =
    if not (length vector == m.vector_size) then wrong_size else query vector phash

-- The worker is asked, and the answer goes into the cache.
unfoldable pub ask_worker : EmbeddingModel → Option Embedded → Query
unfolding check_query vector_of
ask_worker m none = embed_failed
ask_worker m (some e) = check_query m e.phash (vector_of e.vectors m.id)

unfoldable pub query_vector : Cached → EmbeddingModel → Option Embedded → Query
unfolding ask_worker
query_vector no_cache m e = ask_worker m e
query_vector cache_error m e = ask_worker m e
query_vector miss m e = ask_worker m e
query_vector (entry vector []) m e = ask_worker m e
query_vector (entry vector (h ∷ hash)) m e = query vector (h ∷ hash)

pub data Searched : Type 0 where
  result : SearchResult → Searched
  empty_image no_model bad_query index_failed images_failed : Searched

-- From the matches on: none of them is an empty result.
unfoldable pub found_of :
    Sort → (ℕ → ℕ → Bool) → ℕ → List ℕ → List (ℕ × ℕ) → Option (ℕ → Option (List ℕ)) → Searched
unfolding rank hits_of
found_of sort above limit query_hash [] images = result (record { hits = []; exact_match = false })
found_of sort above limit query_hash (m ∷ ms) none = images_failed
found_of sort above limit query_hash (m ∷ ms) (some images) =
    result (rank sort above limit (hits_of query_hash images (m ∷ ms)))

-- `ByImage`; the index is asked with the collection, the vector and the number of candidates.
unfoldable pub by_image :
    Sort
    → (ℕ → ℕ → Bool)
    → SearchConfig
    → List EmbeddingModel
    → List ℕ
    → Cached
    → Option Embedded
    → (EmbeddingModel → List ℕ → ℕ → Option (List (ℕ × ℕ)))
    → (List (ℕ × ℕ) → Option (ℕ → Option (List ℕ)))
    → Searched
unfolding primary_model query_vector found_of
by_image sort above cfg models [] cached embedded index images = empty_image
by_image sort above cfg models (b ∷ bytes) cached embedded index images =
    elim (primary_model models) [
      | none ↦ no_model
      | some m ↦ elim (query_vector cached m embedded) [
        | embed_failed ↦ bad_query
        | no_vector ↦ bad_query
        | wrong_size ↦ bad_query
        | query vector hash ↦ elim (index m vector cfg.candidates) [
          | none ↦ index_failed
          | some matches ↦ found_of sort above cfg.limit hash matches (images matches)
        ]
      ]
    ]
