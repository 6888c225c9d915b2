-- ===== src/Danbooru.antt =====
-- internal/adapter/danbooru/danbooru.go: reading posts from the source site. A post is its number; the
-- bodies of the answers are given, parsed, and `none` where the request fails in the end.
pub mod Requests
pub mod Tags
pub mod Pages
pub mod Answers
pub mod Merged
mod Examples
use sauce_dust.Prelude.{
  ℕ, zero, suc, ◌+◌, ◌-◌, ltb, leb, ◌==◌, ◌||◌, if◌then◌else◌, true, false, Option, none, some,
  List, [], ◌∷◌, ◌++◌, length,
}

abbrev pub page_size : ℕ
page_size = 200

-- `fetch` passes over the entries that have no number.
unfoldable pub with_id : List ℕ → List ℕ
with_id [] = []
with_id (p ∷ ps) = let rest = with_id ps in if p == 0 then rest else p ∷ rest

-- The smallest number of a page, from a first value on.
unfoldable pub lowest_from : ℕ → List ℕ → ℕ
lowest_from low [] = low
lowest_from low (p ∷ ps) = lowest_from (if ltb p low then p else low) ps

pub data Ended : Type 0 where
  complete request_failed out_of_fuel inverted : Ended

-- The site's answer to a query for the posts from a lower number on and below a cursor.
abbrev pub Site : Type 0
Site = ℕ → ℕ → Option (List ℕ)

-- What one round does with its page: the posts read so far, and the next cursor if there is one.
unfoldable pub read_page : ℕ → List ℕ → List ℕ → List ℕ × Option ℕ
unfolding lowest_from
read_page lower out [] = (out, none)
read_page lower out (p ∷ ps) =
    let lowest = lowest_from p (p ∷ ps) in
    (
      out ++ (p ∷ ps),
      if leb lowest lower || ltb (length (p ∷ ps)) page_size then none else some lowest,
    )

-- The loop of `PostsInRange`, on the number of rounds that it may take.
unfoldable pub read_pages : ℕ → Site → ℕ → ℕ → List ℕ → List ℕ × Ended
unfolding read_page with_id
read_pages zero site lower cursor out = (out, out_of_fuel)
read_pages (suc fuel) site lower cursor out = elim (ltb lower cursor) [
  | false ↦ (out, complete)
  | true ↦ elim (site lower cursor) [
    | none ↦ (out, request_failed)
    | some raw ↦
        let read = read_page lower out (with_id raw) in
        elim read.1 [
          | none ↦ (read.0, complete)
          | some next ↦ read_pages fuel site lower next read.0
        ]
  ]
]

unfoldable pub posts_in_range : Site → ℕ → ℕ → List ℕ × Ended
unfolding read_pages
posts_in_range site lower upper =
    if ltb upper lower
    then ([], inverted)
    else read_pages (suc (1 + (upper + 1 - lower))) site lower (upper + 1) []
