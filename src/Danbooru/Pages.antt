-- ===== src/Danbooru/Pages.antt =====
-- internal/adapter/danbooru/danbooru.go: what `PostsInRange` returns, page by page.
use sauce_dust.Prelude.{
  ℕ, zero, suc, ◌+◌, ◌-◌, ◌≤◌, ◌<◌, ◌≡◌, refl, sym, ap, ◌∙◌, subst, Bool, true, false, ◌&&◌, ◌||◌,
  ltb, leb, if◌then◌else◌, none, some, List, [], ◌∷◌, ◌++◌, length, take, drop, arith, Bool-cases,
  inl, inr, take-append-drop, length-take, append_assoc, append-none, ltb→lt, drop_all,
}
use sauce_dust.Danbooru.{
  Site, complete, with_id, lowest_from, read_page, read_pages, posts_in_range, page_size,
}

-- The posts from `lower` on and below `cursor`.
unfoldable pub between : ℕ → ℕ → List ℕ → List ℕ
between lower cursor [] = []
between lower cursor (p ∷ ps) =
    let rest = between lower cursor ps in if leb lower p && ltb p cursor then p ∷ rest else rest

-- Numbers from 1 on that go down, all of them below a bound.
abbrev pub IsDescending : ℕ → List ℕ → Type 0
IsDescending bound [] = Unit {0}
IsDescending bound (p ∷ ps) = (1 ≤ p) × (p < bound) × IsDescending p ps

-- The site has the posts `all`, newest first, and answers a query with the first two hundred of them
-- that it asks for.
pub record IsSite (site : Site) (bound : ℕ) (all : List ℕ) : Type 0 where
  pub descending : IsDescending bound all
  pub answers :
      (lower cursor : ℕ) → site lower cursor ≡ some (take page_size (between lower cursor all))

IsDescending-weaken : (a b : ℕ) (ps : List ℕ) → a ≤ b → IsDescending a ps → IsDescending b ps
IsDescending-weaken a b [] h d = tt
IsDescending-weaken a b (p ∷ ps) h d = (d.0, omega arith, d.2)

between-IsDescending :
    (lower cursor bound : ℕ) (ps : List ℕ)
    → IsDescending bound ps
    → IsDescending bound (between lower cursor ps)
unfolding between
between-IsDescending lower cursor bound [] d = tt
between-IsDescending lower cursor bound (p ∷ ps) d =
    let rest = between-IsDescending lower cursor p ps d.2 in
    elim (Bool-cases (leb lower p && ltb p cursor)) [
      | inl inside ↦ rw inside (d.0, d.1, rest)
      | inr outside ↦
          rw outside (IsDescending-weaken p bound (between lower cursor ps) (omega arith) rest)
    ]

with_id_all : (bound : ℕ) (ps : List ℕ) → IsDescending bound ps → with_id ps ≡ ps
unfolding with_id
with_id_all bound [] d = refl
with_id_all bound (p ∷ ps) d = ground (arith, with_id_all p ps d.2)

between-below :
    (lower cursor bound : ℕ) (ps : List ℕ)
    → IsDescending bound ps
    → IsDescending cursor (between lower cursor ps)
unfolding between
between-below lower cursor bound [] d = tt
between-below lower cursor bound (p ∷ ps) d = elim (Bool-cases (leb lower p && ltb p cursor)) [
  | inl inside ↦ rw inside (d.0, ground arith, between-IsDescending lower cursor p ps d.2)
  | inr outside ↦ rw outside (between-below lower cursor p ps d.2)
]

take-IsDescending :
    (n bound : ℕ) (ps : List ℕ) → IsDescending bound ps → IsDescending bound (take n ps)
take-IsDescending zero bound ps d = tt
take-IsDescending (suc n) bound [] d = tt
take-IsDescending (suc n) bound (p ∷ ps) d = (d.0, d.1, take-IsDescending n p ps d.2)

-- All are `lower` or above.
abbrev AllFrom : ℕ → List ℕ → Type 0
AllFrom lower [] = Unit {0}
AllFrom lower (p ∷ ps) = (lower ≤ p) × AllFrom lower ps

between-AllFrom : (lower cursor : ℕ) (ps : List ℕ) → AllFrom lower (between lower cursor ps)
unfolding between
between-AllFrom lower cursor [] = tt
between-AllFrom lower cursor (p ∷ ps) =
    let rest = between-AllFrom lower cursor ps in
    elim (Bool-cases (leb lower p && ltb p cursor)) [
      | inl inside ↦ rw inside (ground arith, rest)
      | inr outside ↦ rw outside rest
    ]

between_all :
    (lower cursor : ℕ) (ps : List ℕ)
    → AllFrom lower ps
    → IsDescending cursor ps
    → between lower cursor ps ≡ ps
unfolding between
between_all lower cursor [] h d = refl
between_all lower cursor (p ∷ ps) h d =
    ground
      (arith, between_all lower cursor ps h.1 (IsDescending-weaken p cursor ps (omega arith) d.2))

-- A query with a lower cursor finds its posts among those of the query before it.
between-between :
    (lower a b : ℕ) (ps : List ℕ)
    → a ≤ b
    → between lower a (between lower b ps) ≡ between lower a ps
unfolding between
between-between lower a b [] h = refl
between-between lower a b (p ∷ ps) h =
    let ih = between-between lower a b ps h in
    elim (Bool-cases (leb lower p && ltb p b)) [
      | inl inside ↦ rw inside (elim (Bool-cases (leb lower p && ltb p a)) [
        | inl yes' ↦ rw yes' (rw ih refl)
        | inr no' ↦ rw no' ih
      ])
      | inr outside ↦
          let low : (leb lower p && ltb p a) ≡ false = ground arith in rw outside (rw low ih)
    ]

lowest_from-le : (low : ℕ) (ps : List ℕ) → lowest_from low ps ≤ low
unfolding lowest_from
lowest_from-le low [] = omega arith
lowest_from-le low (p ∷ ps) = ground (arith, lowest_from-le (if ltb p low then p else low) ps)

lowest_from-lower : (p q : ℕ) (ps : List ℕ) → q < p → lowest_from p (q ∷ ps) ≡ lowest_from q ps
unfolding lowest_from
lowest_from-lower p q ps h = let less : ltb q p ≡ true = ground arith in rw less refl

lowest_from-none : (low : ℕ) → lowest_from low [] ≡ low
unfolding lowest_from
lowest_from-none low = refl

lowest_from_self : (p : ℕ) (ps : List ℕ) → lowest_from p (p ∷ ps) ≡ lowest_from p ps
unfolding lowest_from
lowest_from_self p ps = let same : ltb p p ≡ false = ground arith in rw same refl

-- What is below the smallest number of the first posts are the posts after them.
between-lowest :
    (n lower p : ℕ) (ps : List ℕ)
    → AllFrom lower ps
    → IsDescending p ps
    → between lower (lowest_from p (take n ps)) (p ∷ ps) ≡ drop n ps
unfolding between
between-lowest zero lower p ps h d =
    let out : (leb lower p && ltb p p) ≡ false = ground arith in
    let here : between lower p (p ∷ ps) ≡ ps = rw out (between_all lower p ps h d) in
    subst (λ k. between lower k (p ∷ ps) ≡ ps) (sym (lowest_from-none p)) here
between-lowest (suc n) lower p [] h d =
    let out : (leb lower p && ltb p p) ≡ false = ground arith in
    let here : between lower p (p ∷ []) ≡ [] = rw out refl in
    subst (λ k. between lower k (p ∷ []) ≡ []) (sym (lowest_from-none p)) here
between-lowest (suc n) lower p (q ∷ ps) h d =
    let low = lowest_from-le q (take n ps) in
    let out : (leb lower p && ltb p (lowest_from q (take n ps))) ≡ false = ground arith in
    let here : between lower (lowest_from q (take n ps)) (p ∷ q ∷ ps) ≡ drop n ps =
      rw out (between-lowest n lower q ps h.1 d.2) in
    subst (λ k. between lower k (p ∷ q ∷ ps) ≡ drop n ps)
      (sym (lowest_from-lower p q (take n ps) d.1)) here

-- What a round leaves to read: nothing, or the posts after the page.
round-lowest :
    (lower cursor p : ℕ) (ps : List ℕ)
    → AllFrom lower (p ∷ ps)
    → IsDescending cursor (p ∷ ps)
    → between lower (lowest_from p (p ∷ take 199 ps)) (p ∷ ps) ≡ drop 199 ps
round-lowest lower cursor p ps h d =
    subst (λ k. between lower k (p ∷ ps) ≡ drop 199 ps) (sym (lowest_from_self p (take 199 ps)))
      (between-lowest 199 lower p ps h.1 d.2)

between_none : (lower cursor : ℕ) (ps : List ℕ) → cursor ≤ lower → between lower cursor ps ≡ []
unfolding between
between_none lower cursor [] h = refl
between_none lower cursor (p ∷ ps) h =
    let out : (leb lower p && ltb p cursor) ≡ false = ground arith in
    rw out (between_none lower cursor ps h)

module _ (lower cursor p : ℕ) (ps all : List ℕ) (e : between lower cursor all ≡ p ∷ ps)
    (below : p < cursor) (h : AllFrom lower (p ∷ ps)) (d : IsDescending cursor (p ∷ ps)) where
  below_lowest : between lower (lowest_from p (p ∷ take 199 ps)) all ≡ drop 199 ps
  below_lowest =
      let low = lowest_from-le p (p ∷ take 199 ps) in
      let lowest = lowest_from p (p ∷ take 199 ps) in
      sym (between-between lower lowest cursor all (omega arith))
      ∙ ap (between lower lowest) e
      ∙ round-lowest lower cursor p ps h d

  -- The posts of the page, and those below its smallest number.
  page_rest : (p ∷ take 199 ps) ++ between lower (lowest_from p (p ∷ take 199 ps)) all ≡ p ∷ ps
  page_rest =
      ap (λ k. (p ∷ take 199 ps) ++ k) below_lowest ∙ ap (λ k. p ∷ k) (take-append-drop 199 ps)

  short :
      leb (lowest_from p (p ∷ take 199 ps)) lower ≡ false
      → (leb (lowest_from p (p ∷ take 199 ps)) lower || ltb (length (p ∷ take 199 ps)) page_size)
        ≡ true
      → length ps ≤ 199
  short high stops =
      let less : ltb (length (p ∷ take 199 ps)) page_size ≡ true = sym (rw high refl) ∙ stops in
      let long = length-take 199 ps in
      let few : suc (length (take 199 ps)) < 200 = ltb→lt (suc (length (take 199 ps))) 200 less in
      omega arith

  -- A round after which the loop stops leaves nothing.
  page_last :
      (leb (lowest_from p (p ∷ take 199 ps)) lower || ltb (length (p ∷ take 199 ps)) page_size)
        ≡ true
      → p ∷ take 199 ps ≡ p ∷ ps
  page_last stops =
      let long = length-take 199 ps in
      let lowest = lowest_from p (p ∷ take 199 ps) in
      let nothing : between lower lowest all ≡ [] = elim (Bool-cases (leb lowest lower)) [
        | inl low ↦ between_none lower lowest all (ground arith)
        | inr high ↦ below_lowest ∙ drop_all 199 ps (short high stops)
      ] in
      sym (append-none (p ∷ take 199 ps))
      ∙ ap (λ k. (p ∷ take 199 ps) ++ k) (sym nothing)
      ∙ page_rest

-- Whether a round with this page is the last one.
abbrev is_last : ℕ → ℕ → List ℕ → Bool
is_last lower p ps = leb (lowest_from p (p ∷ ps)) lower || ltb (length (p ∷ ps)) page_size

read_page_last :
    (lower p : ℕ) (ps out : List ℕ)
    → is_last lower p ps ≡ true
    → read_page lower out (p ∷ ps) ≡ (out ++ (p ∷ ps), none)
unfolding read_page
read_page_last lower p ps out e = rw e refl

read_page_on :
    (lower p : ℕ) (ps out : List ℕ)
    → is_last lower p ps ≡ false
    → read_page lower out (p ∷ ps) ≡ (out ++ (p ∷ ps), some (lowest_from p (p ∷ ps)))
unfolding read_page
read_page_on lower p ps out e = rw e refl

-- One round, when the loop goes on to read what is below the page.
read_pages_round :
    (fuel lower cursor : ℕ) (site : Site) (bound : ℕ) (all out b : List ℕ)
    → IsSite site bound all
    → ltb lower cursor ≡ true
    → between lower cursor all ≡ b
    → IsDescending cursor b
    → AllFrom lower b
    → ((next : ℕ) (out' : List ℕ)
        → next < cursor
        → read_pages fuel site lower next out' ≡ (out' ++ between lower next all, complete))
    → read_pages (suc fuel) site lower cursor out ≡ (out ++ b, complete)
unfolding read_pages
read_pages_round fuel lower cursor site bound all out [] h go e d a ih =
    let answer : site lower cursor ≡ some [] =
      h.answers lower cursor ∙ ap (λ k. some (take page_size k)) e in
    rw (go, answer, append-none out, read_pages) refl
read_pages_round fuel lower cursor site bound all out (p ∷ ps) h go e d a ih =
    let page : List ℕ = p ∷ take 199 ps in
    let answer : site lower cursor ≡ some page =
      h.answers lower cursor ∙ ap (λ k. some (take page_size k)) e in
    let ids : with_id page ≡ page =
      with_id_all cursor page (take-IsDescending 200 cursor (p ∷ ps) d) in
    let lowest : ℕ = lowest_from p page in
    let low = lowest_from-le p page in
    elim (Bool-cases (leb lowest lower || ltb (length page) page_size)) [
      | inl stops ↦
          let read =
            ap (read_page lower out) ids ∙ read_page_last lower p (take 199 ps) out stops in
          rw (go, answer, ap (λ k. k.1) read, read_pages)
            (ap (λ k. (k.0, complete)) read
              ∙ ap (λ k. (out ++ k, complete)) (page_last lower cursor p ps all e d.1 a d stops))
      | inr on ↦
          let read = ap (read_page lower out) ids ∙ read_page_on lower p (take 199 ps) out on in
          rw (go, answer, ap (λ k. k.1) read, read_pages)
            (ap (λ k. read_pages fuel site lower lowest k.0) read
              ∙ ih lowest (out ++ page) (omega arith)
              ∙ ap (λ k. (k, complete)) (append_assoc out page (between lower lowest all))
              ∙ ap (λ k. (out ++ k, complete)) (page_rest lower cursor p ps all e d.1 a d))
    ]

read_pages_end :
    (fuel lower cursor : ℕ) (site : Site) (all out : List ℕ)
    → cursor ≤ lower
    → read_pages (suc fuel) site lower cursor out ≡ (out ++ between lower cursor all, complete)
unfolding read_pages
read_pages_end fuel lower cursor site all out h =
    let stop : ltb lower cursor ≡ false = ground arith in
    rw (stop, between_none lower cursor all h, append-none out, read_pages) refl

read_pages_all :
    (fuel lower cursor : ℕ) (site : Site) (bound : ℕ) (all out : List ℕ)
    → IsSite site bound all
    → cursor ≤ fuel + lower
    → read_pages (suc fuel) site lower cursor out ≡ (out ++ between lower cursor all, complete)
read_pages_all zero lower cursor site bound all out h f =
    read_pages_end zero lower cursor site all out (omega arith)
read_pages_all (suc fuel) lower cursor site bound all out h f =
    elim (Bool-cases (ltb lower cursor)) [
      | inr stop ↦ read_pages_end (suc fuel) lower cursor site all out (ground arith)
      | inl go ↦
          read_pages_round (suc fuel) lower cursor site bound all out (between lower cursor all) h
            go refl (between-below lower cursor bound all h.descending)
            (between-AllFrom lower cursor all)
            (λ next out' less. read_pages_all fuel lower next site bound all out' h (omega arith))
    ]

-- Against a site that answers each query with the first two hundred posts that it asks for, newest
-- first, `PostsInRange` on a range that is not inverted reads all posts of the range, each one once, in
-- the site's order, and ends without error within its rounds.
pub posts_in_range-complete :
    (site : Site) (bound : ℕ) (all : List ℕ) (lower upper : ℕ)
    → IsSite site bound all
    → lower ≤ upper
    → posts_in_range site lower upper ≡ (between lower (upper + 1) all, complete)
unfolding posts_in_range
posts_in_range-complete site bound all lower upper h le =
    let right : ltb upper lower ≡ false = ground arith in
    rw right
      (read_pages_all (1 + (upper + 1 - lower)) lower (upper + 1) site bound all [] h (omega arith))
