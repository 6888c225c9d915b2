-- ===== src/Crawler/Outcomes.antt =====
-- internal/app/crawler.go: what the calls to the lease repository say of the posts.
use sauce_dust.Prelude.{
  take_all, ℕ, zero, suc, ◌≤◌, ◌≡◌, refl, false, Option, none, some, List, [], ◌∷◌, length,
  get_elem?, arith, inl, inr, ◌⊎◌,
}
use sauce_dust.Crawler.{
  Crawler, IndexError, no_error, index_full, other_error, index, reserve, index_reserved,
}
use sauce_dust.Crawler.Tasks.{RangeStatus, Call, advance_watermark, finish_range, Indexer, highest}

-- The watermark that is written, if one is, and the status that the range gets.
unfoldable pub advanced : List Call → Option ℕ
advanced [] = none
advanced (advance_watermark h ∷ cs) = some h
advanced (c ∷ cs) = advanced cs

unfoldable pub finished : List Call → Option RangeStatus
finished [] = none
finished (finish_range st n ∷ cs) = some st
finished (c ∷ cs) = finished cs

pub error_cases : (e : IndexError) → (e ≡ no_error) ⊎ ((e ≡ index_full) ⊎ (e ≡ other_error))
error_cases no_error = inl refl
error_cases index_full = inr (inl refl)
error_cases other_error = inr (inr refl)

-- Posts that are not trimmed are all handed to the indexer.
pub index_untrimmed :
    (index_batch : Indexer) (posts : List ℕ) (c : Crawler)
    → (index index_batch posts c).trimmed ≡ false
    → (index index_batch posts c).handed ≡ posts
unfolding index index_reserved
index_untrimmed index_batch posts c h = take_all (reserve c (length posts)).1 posts (ground arith)

pub highest_most : (ps : List ℕ) (i : ℕ) {p : ℕ} → get_elem? ps i ≡ some p → p ≤ highest ps
unfolding highest
highest_most [] i e = absurd (ground arith)
highest_most (q ∷ ps) zero e = ground arith
highest_most (q ∷ ps) (suc i) e = ground (arith, highest_most ps i e)
