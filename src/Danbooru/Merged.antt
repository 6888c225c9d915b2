-- ===== src/Danbooru/Merged.antt =====
-- internal/adapter/danbooru/post.go: the tags that `tags` puts together from the groups.
use sauce_dust.Prelude.{
  ℕ, suc, ◌+◌, ◌≡◌, refl, sym, ap, ◌∙◌, Bool, true, false, ◌||◌, if◌then◌else◌, List, [], ◌∷◌, ◌++◌,
  arith, Bool-cases, inl, inr,
}
use text.Mathlib.TextEquality.{eq_iff}
use sauce_dust.Domain.Texts.{Text, ◌=t=◌, fields}
use sauce_dust.Danbooru.Tags.{
  ApiPost, has_tag, Merging, merge_tag, merge_group, merge_groups, groups_of, tags, tags_or,
}

-- How often a tag stands in a list.
unfoldable pub times : Text → List Text → ℕ
times t [] = 0
times t (u ∷ us) = let rest = times t us in if u =t= t then suc rest else rest

-- The tags of the groups, one after another.
unfoldable pub words : List Text → List Text
words [] = []
words (group ∷ groups) = fields group ++ words groups

-- 1 for a tag that stands in the list, 0 for another.
unfoldable pub once : Text → List Text → ℕ
once t ts = if has_tag t ts then 1 else 0

-- A tag that was seen stands in `out` once, another not at all.
abbrev IsMerged : Merging → Type 0
IsMerged m = (t : Text) → times t m.out ≡ once t m.seen

merge_words :
    (ts us : List Text) (m : Merging) → merge_group (ts ++ us) m ≡ merge_group us (merge_group ts m)
unfolding merge_group
merge_words [] us m = refl
merge_words (t ∷ ts) us m = merge_words ts us (merge_tag t m)

merge_groups-words :
    (groups : List Text) (m : Merging) → merge_groups groups m ≡ merge_group (words groups) m
unfolding merge_groups words merge_group
merge_groups-words [] m = refl
merge_groups-words (group ∷ groups) m =
    merge_groups-words groups (merge_group (fields group) m)
    ∙ sym (merge_words (fields group) (words groups) m)

times-append : (t : Text) (us vs : List Text) → times t (us ++ vs) ≡ times t us + times t vs
unfolding times
times-append t [] vs = omega arith
times-append t (u ∷ us) vs = ground (arith, times-append t us vs)

has_tag-at : (t u : Text) (us : List Text) → (u =t= t) ≡ true → has_tag t us ≡ has_tag u us
has_tag-at t u us e = ap (λ k. has_tag k us) (sym ((eq_iff u t).0 e))

one_more : (t u : Text) → (u =t= t) ≡ true → times t (u ∷ []) ≡ 1
unfolding times
one_more t u e = rw e refl

no_more : (t u : Text) → (u =t= t) ≡ false → times t (u ∷ []) ≡ 0
unfolding times
no_more t u e = rw e refl

times-once_new :
    (t u : Text) (out seen : List Text)
    → times t out ≡ once t seen
    → has_tag u seen ≡ false
    → times t (out ++ (u ∷ [])) ≡ once t (u ∷ seen)
unfolding times once has_tag
times-once_new t u out seen h new = elim (Bool-cases (u =t= t)) [
  | inl same ↦
      let unseen : has_tag t seen ≡ false = has_tag-at t u seen same ∙ new in
      let none' : once t seen ≡ 0 = rw unseen refl in
      rw same (
        times-append t out (u ∷ [])
        ∙ ap (λ k. times t out + k) (one_more t u same)
        ∙ omega (arith, h, none'))
  | inr other ↦ rw other (
      times-append t out (u ∷ [])
      ∙ ap (λ k. times t out + k) (no_more t u other)
      ∙ omega (arith, h))
]

merge_tag-IsMerged : (u : Text) (m : Merging) → IsMerged m → IsMerged (merge_tag u m)
unfolding merge_tag
merge_tag-IsMerged u m h = elim (Bool-cases (has_tag u m.seen)) [
  | inl old ↦ rw old h
  | inr new ↦ rw new (λ t. times-once_new t u m.out m.seen (h t) new)
]

merge_group-IsMerged : (ts : List Text) (m : Merging) → IsMerged m → IsMerged (merge_group ts m)
unfolding merge_group
merge_group-IsMerged [] m h = h
merge_group-IsMerged (t ∷ ts) m h =
    merge_group-IsMerged ts (merge_tag t m) (merge_tag-IsMerged t m h)

or_false : (b : Bool) → b ≡ (b || false)
or_false false = refl
or_false true = refl

or_assoc : (a b c : Bool) → ((a || (b || false)) || c) ≡ (a || (b || c))
or_assoc true b c = refl
or_assoc false true c = refl
or_assoc false false c = refl

has_tag-merge_tag :
    (t u : Text) (m : Merging)
    → has_tag t (merge_tag u m).seen ≡ (has_tag t m.seen || has_tag t (u ∷ []))
unfolding merge_tag has_tag
has_tag-merge_tag t u m = elim (Bool-cases (u =t= t)) [
  | inl same ↦
      let at' = has_tag-at t u m.seen same in
      elim (Bool-cases (has_tag u m.seen)) [
        | inl old ↦ let old' : has_tag t m.seen ≡ true = at' ∙ old in rw (old, old') refl
        | inr new ↦ let new' : has_tag t m.seen ≡ false = at' ∙ new in rw (new, new', same) refl
      ]
  | inr other ↦ elim (Bool-cases (has_tag u m.seen)) [
    | inl old ↦ rw (old, other) (or_false (has_tag t m.seen))
    | inr new ↦ rw (new, other) (or_false (has_tag t m.seen))
  ]
]

has_tag-merge_group :
    (t : Text) (ts : List Text) (m : Merging)
    → has_tag t (merge_group ts m).seen ≡ (has_tag t m.seen || has_tag t ts)
unfolding merge_group has_tag
has_tag-merge_group t [] m = or_false (has_tag t m.seen)
has_tag-merge_group t (u ∷ ts) m =
    has_tag-merge_group t ts (merge_tag u m)
    ∙ ap (λ k. k || has_tag t ts) (has_tag-merge_tag t u m)
    ∙ or_assoc (has_tag t m.seen) (u =t= t) (has_tag t ts)

merged_once :
    (t : Text) (ts : List Text)
    → times t (merge_group ts (record { seen = []; out = [] })).out ≡ once t ts
unfolding once has_tag times
merged_once t ts =
    merge_group-IsMerged ts (record { seen = []; out = [] }) (λ u. refl) t
    ∙ ap (λ k. if k then 1 else 0) (has_tag-merge_group t ts (record { seen = []; out = [] }))

-- For a post whose joined field has no words, each tag of its five groups stands once among its tags,
-- and nothing else does.
pub tags_once :
    (p : ApiPost) (t : Text)
    → fields p.tag_string ≡ []
    → times t (tags p) ≡ once t (words (groups_of p))
unfolding tags tags_or
tags_once p t empty =
    ap (λ k. times t (tags_or k (merge_groups (groups_of p) (record { seen = []; out = [] })).out))
      empty
    ∙ ap (λ k. times t k.out) (merge_groups-words (groups_of p) (record { seen = []; out = [] }))
    ∙ merged_once t (words (groups_of p))
