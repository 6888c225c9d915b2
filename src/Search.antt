-- ===== src/Search.antt =====
-- internal/app/search.go: the search by an image. What the index, the repositories and the embedding
-- worker return is given; a score is its 32 bits, and `above` compares two of them. `sort` stands for
-- `sort.SliceStable`.
pub mod Query
pub mod Exact
mod Examples
use sauce_dust.Prelude.{
  ℕ, ◌+◌, ◌*◌, ltb, leb, ◌==◌, ◌&&◌, ◌||◌, not, if◌then◌else◌, Bool, true, false, Option, none,
  some, List, [], ◌∷◌, length, take,
}
use sauce_dust.Domain.Hash.{hamming_distance, same_image_threshold}

pub record SearchConfig : Type 0 where
  pub candidates : ℕ
  pub limit : ℕ

-- The defaults that `NewSearch` sets; a negative number is written 0.
unfoldable pub new_search : SearchConfig → SearchConfig
new_search cfg =
    let limit = if cfg.limit == 0 then 5 else cfg.limit in
    record {
      limit = limit;
      candidates = if ltb cfg.candidates limit then limit * 4 else cfg.candidates;
    }

-- A hit; `none` is the hash distance -1.
pub record Hit : Type 0 where
  pub image_id : ℕ
  pub score : ℕ
  pub hash_distance : Option ℕ
  pub exact : Bool

pub record SearchResult : Type 0 where
  pub hits : List Hit
  pub exact_match : Bool

unfoldable pub with_distance : List ℕ → Option ℕ → Hit → Hit
with_distance query_hash none h = h
with_distance query_hash (some d) h = record h {
  hash_distance = some d;
  exact = leb d (same_image_threshold query_hash);
}

unfoldable pub hit_of : List ℕ → ℕ → ℕ → List ℕ → Hit
unfolding with_distance
hit_of query_hash id score phash =
    let plain : Hit = record {
      image_id = id;
      score = score;
      hash_distance = none;
      exact = false;
    } in
    if not (length query_hash == 0) && not (length phash == 0)
    then with_distance query_hash (hamming_distance query_hash phash) plain
    else plain

-- The loop over the matches; an image that is gone is passed over.
unfoldable pub hits_of : List ℕ → (ℕ → Option (List ℕ)) → List (ℕ × ℕ) → List Hit
unfolding hit_of
hits_of query_hash images [] = []
hits_of query_hash images ((id, score) ∷ ms) =
    let rest = hits_of query_hash images ms in
    elim (images id) [ none ↦ rest | some phash ↦ hit_of query_hash id score phash ∷ rest ]

unfoldable pub differs : Option ℕ → Option ℕ → Bool
differs (some a) (some b) = not (a == b)
differs none (some b) = true
differs (some a) none = true
differs none none = false

unfoldable pub closer : Option ℕ → Option ℕ → Bool
closer (some a) (some b) = ltb a b
closer none (some b) = true
closer (some a) none = false
closer none none = false

unfoldable pub same_flag : Bool → Bool → Bool
same_flag true b = b
same_flag false b = not b

-- The comparison of `rerank`.
unfoldable pub before : (ℕ → ℕ → Bool) → Hit → Hit → Bool
unfolding differs closer same_flag
before above a b =
    if not (same_flag a.exact b.exact)
    then a.exact
    else if a.exact && (b.exact && differs a.hash_distance b.hash_distance)
    then closer a.hash_distance b.hash_distance
    else above a.score b.score

abbrev pub Sort : Type 0
Sort = (Hit → Hit → Bool) → List Hit → List Hit

unfoldable pub first_exact : List Hit → Bool
first_exact [] = false
first_exact (h ∷ hs) = h.exact

-- `ByImage` from the matches on.
unfoldable pub rank : Sort → (ℕ → ℕ → Bool) → ℕ → List Hit → SearchResult
unfolding first_exact before
rank sort above limit hits =
    let best = take limit (sort (before above) hits) in
    record { hits = best; exact_match = first_exact best }
