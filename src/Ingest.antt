-- ===== src/Ingest.antt =====
-- internal/app/ingest.go: from a batch of finished images to the stores. The repositories are given by
-- what their calls return; a run is the list of the calls with their outcomes.
pub mod Table
pub mod Submit
pub mod Backed
pub mod Gathering
pub mod Sent
pub mod Marked
pub mod Rebuild
pub mod Rebuilt
mod Examples
use sauce_dust.Prelude.{ℕ, List}
use sauce_dust.Domain.Texts.{Text}
use sauce_dust.Domain.Source.{ℤ}
use sauce_dust.Domain.Vectors.{Vector}

pub record Image : Type 0 where
  pub source_site : Text
  pub source_post_id : ℕ
  pub source_url : Text
  pub canonical_url : Text
  pub file_url : Text
  pub preview_url : Text
  pub md5 : Text
  pub phash : Text
  pub dhash : Text
  pub width : ℕ
  pub height : ℕ
  pub file_size : ℕ
  pub rating : Text
  pub score : ℤ
  pub tags : List Text
  pub artist_tags : List Text
  pub thumb_path : Text
  pub indexed_by : Text

pub record IndexedImage : Type 0 where
  pub image : Image
  pub vectors : List Vector
  pub thumb : List ℕ

pub record StoredVector : Type 0 where
  pub image_id : ℕ
  pub model_id : Text
  pub values : List ℕ

pub record Payload : Type 0 where
  pub payload_id : ℕ
  pub payload_site : Text
  pub payload_post_id : ℕ
  pub payload_url : Text
  pub payload_rating : Text
  pub payload_phash : Text
  pub payload_dhash : Text

pub record IndexPoint : Type 0 where
  pub point_id : ℕ
  pub vector : List ℕ
  pub payload : Payload

unfoldable pub payload_for : Image → ℕ → Payload
payload_for img image_id = record {
  payload_id = image_id;
  payload_site = img.source_site;
  payload_post_id = img.source_post_id;
  payload_url = img.canonical_url;
  payload_rating = img.rating;
  payload_phash = img.phash;
  payload_dhash = img.dhash;
}
