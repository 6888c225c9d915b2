-- ===== src/Domain/Source.antt =====
-- internal/domain/source.go: a post of the source site, and the address of its image.
use sauce_dust.Prelude.{ℕ, Bool, ◌&&◌, ◌||◌, not, if◌then◌else◌, Option, none, some, List, [], ◌∷◌}
use sauce_dust.Domain.Texts.{Text, ◌=t=◌, is_empty_text, lower, ext, strip_query}

pub data ℤ : Type 0 where
  pos negsuc : ℕ → ℤ

pub record SourcePost : Type 0 where
  pub site : Text
  pub post_id : ℕ
  pub md5 : Text
  pub rating : Text
  pub score : ℤ
  pub width : ℕ
  pub height : ℕ
  pub file_size : ℕ
  pub file_url : Text
  pub large_url : Text
  pub preview_url : Text
  pub source_url : Text
  pub tags : List Text
  pub artist_tags : List Text
  pub file_ext : Text
  pub is_deleted : Bool
  pub is_banned : Bool
  pub canonical_url : Text

unfoldable pub allowed_ext : Text → Bool
allowed_ext e = e =t= ".jpg" || (e =t= ".jpeg" || (e =t= ".png" || e =t= ".webp"))

unfoldable pub is_image_url : Text → Bool
unfolding allowed_ext
is_image_url url = not (is_empty_text url) && allowed_ext (lower (ext (strip_query url)))

unfoldable pub first_candidate : List Text → Text
unfolding is_image_url
first_candidate [] = ""
first_candidate (url ∷ urls) =
    let rest = first_candidate urls in if is_image_url url then url else rest

unfoldable pub download_url : SourcePost → Text
unfolding first_candidate
download_url p = first_candidate (p.large_url ∷ p.file_url ∷ p.preview_url ∷ [])

pub data Reason : Type 0 where
  deleted banned no_image : Reason

unfoldable pub skip_reason : SourcePost → Option Reason
unfolding download_url
skip_reason p =
    if p.is_deleted
    then some deleted
    else if p.is_banned
    then some banned
    else if is_empty_text (download_url p)
    then some no_image
    else none
