-- ===== src/Danbooru/Tags.antt =====
-- internal/adapter/danbooru/post.go: a post of the answer, and its tags; and the words of a query.
use Prim.Native.String.{◌++◌ as ◌+++◌}
use sauce_dust.Prelude.{ℕ, Bool, false, ◌||◌, if◌then◌else◌, List, [], ◌∷◌, ◌++◌}
use sauce_dust.Domain.Texts.{Text, ◌=t=◌, is_empty_text, fields, trim_space, join}
use sauce_dust.Domain.Source.{SourcePost, ℤ}

pub record ApiPost : Type 0 where
  pub id : ℕ
  pub md5 : Text
  pub file_url : Text
  pub large_file_url : Text
  pub preview_file_url : Text
  pub source : Text
  pub rating : Text
  pub score : ℤ
  pub image_width : ℕ
  pub image_height : ℕ
  pub file_size : ℕ
  pub file_ext : Text
  pub is_deleted : Bool
  pub is_banned : Bool
  pub tag_string : Text
  pub tag_string_artist : Text
  pub tag_string_general : Text
  pub tag_string_character : Text
  pub tag_string_copyright : Text
  pub tag_string_meta : Text

-- Whether a tag stands in a list; the map `seen` is the list of its keys.
unfoldable pub has_tag : Text → List Text → Bool
has_tag t [] = false
has_tag t (u ∷ us) = u =t= t || has_tag t us

-- `seen` and `out`, as the loops change them.
pub record Merging : Type 0 where
  pub seen : List Text
  pub out : List Text

unfoldable pub merge_tag : Text → Merging → Merging
unfolding has_tag
merge_tag t m =
    if has_tag t m.seen then m else record { seen = t ∷ m.seen; out = m.out ++ (t ∷ []) }

unfoldable pub merge_group : List Text → Merging → Merging
unfolding merge_tag
merge_group [] m = m
merge_group (t ∷ ts) m = merge_group ts (merge_tag t m)

unfoldable pub merge_groups : List Text → Merging → Merging
unfolding merge_group
merge_groups [] m = m
merge_groups (group ∷ groups) m = merge_groups groups (merge_group (fields group) m)

unfoldable pub groups_of : ApiPost → List Text
groups_of p =
    p.tag_string_artist ∷ p.tag_string_character ∷ p.tag_string_copyright ∷ p.tag_string_general
    ∷ p.tag_string_meta ∷ []

unfoldable pub tags_or : List Text → List Text → List Text
tags_or [] groups = groups
tags_or (t ∷ ts) groups = t ∷ ts

unfoldable pub tags : ApiPost → List Text
unfolding merge_groups groups_of tags_or
tags p =
    tags_or (fields p.tag_string) (merge_groups (groups_of p) (record { seen = []; out = [] })).out

-- `toDomain`; the decimal digits of the number are given by `show`.
unfoldable pub to_domain : (ℕ → Text) → Text → ApiPost → SourcePost
unfolding tags
to_domain show base p = record {
  site = "danbooru";
  post_id = p.id;
  md5 = p.md5;
  rating = p.rating;
  score = p.score;
  width = p.image_width;
  height = p.image_height;
  file_size = p.file_size;
  file_url = p.file_url;
  large_url = p.large_file_url;
  preview_url = p.preview_file_url;
  source_url = trim_space p.source;
  tags = tags p;
  artist_tags = fields p.tag_string_artist;
  file_ext = p.file_ext;
  is_deleted = p.is_deleted;
  is_banned = p.is_banned;
  canonical_url = base +++ ("/posts/" +++ show p.id);
}

unfoldable pub join_tags : Text → List Text → Text
join_tags base extra =
    let trimmed = trim_space base in
    join " " (if is_empty_text trimmed then extra else trimmed ∷ extra)
