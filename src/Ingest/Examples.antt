-- ===== src/Ingest/Examples.antt =====
-- internal/app/ingest.go: a batch of one image, and a table with two rows.
use sauce_dust.Prelude.{
  ℕ, suc, ◌+◌, ◌≡◌, refl, sym, ap, ◌∙◌, true, false, some, List, [], ◌∷◌, length,
}
use mathlib.Core.Option.{some-injective}
use sauce_dust.Domain.Source.{pos}
use sauce_dust.Domain.Vectors.{EmbeddingModel, copy}
use sauce_dust.Ingest.{Image, IndexedImage, Payload}
use sauce_dust.Ingest.Table.{
  VectorRow, save_vector, mark_indexed_batch, has_image_id, has_model, is_row,
}
use sauce_dust.Ingest.Submit.{Stores, submit, ok}
use sauce_dust.Ingest.Backed.{IsBacked, submit-IsBacked}
use sauce_dust.Ingest.Sent.{IsLawful, IsMarked}
use sauce_dust.Ingest.Marked.{submit-IsMarked}
use sauce_dust.Ingest.Rebuild.{Calls, Rebuild, rebuilt, rebuild_index}
use sauce_dust.Ingest.Rebuilt.{IsSmooth, AllRebuilt, rebuild_index_done}

abbrev tiny : EmbeddingModel
tiny = record {
  id = "tiny";
  kind = copy;
  backend = "torch";
  checkpoint = "t";
  vector_size = 1;
  distance = "cosine";
  collection = "tiny";
  input_size = 8;
  active = true;
}

abbrev one_image : IndexedImage
one_image = record {
  image = record {
    source_site = "danbooru";
    source_post_id = 7;
    source_url = "";
    canonical_url = "";
    file_url = "";
    preview_url = "";
    md5 = "";
    phash = "";
    dhash = "";
    width = 1;
    height = 1;
    file_size = 1;
    rating = "g";
    score = pos 0;
    tags = [];
    artist_tags = [];
    thumb_path = "";
    indexed_by = "n";
  };
  vectors =
      record { model_id = "tiny"; values = 2139095040 ∷ [] }
      ∷ record { model_id = "tiny"; values = 1065353216 ∷ [] }
      ∷ [];
  thumb = 1 ∷ [];
}

-- The numbers of images, one after another.
unfoldable number_from : ℕ → List Image → List ℕ
number_from n [] = []
number_from n (i ∷ is) = n ∷ number_from (n + 1) is

abbrev all_well : Stores
all_well = record {
  has_thumbs = true;
  put = λ site id thumb. some "p";
  ids_of = λ imgs. some (number_from 1 imgs);
  saved = true;
  indexed = λ c. true;
  marked = true;
  order = λ cs. cs;
}

length-number_from : (n : ℕ) (imgs : List Image) → length (number_from n imgs) ≡ length imgs
unfolding number_from
length-number_from n [] = refl
length-number_from n (i ∷ is) = ap suc (length-number_from (n + 1) is)

all_well-IsLawful : IsLawful all_well
all_well-IsLawful = record {
  counted = λ imgs ids e.
      ap length (sym (some-injective (number_from 1 imgs) ids e)) ∙ length-number_from 1 imgs;
  ordered = λ c cs e. e;
}

submit-IsBacked_example :
    IsBacked (tiny ∷ []) [] (submit all_well true (tiny ∷ []) (one_image ∷ [])).0
submit-IsBacked_example = submit-IsBacked (tiny ∷ []) all_well true (one_image ∷ [])

submit-IsMarked_example :
    IsMarked (tiny ∷ []) [] (submit all_well true (tiny ∷ []) (one_image ∷ [])).0
submit-IsMarked_example =
    submit-IsMarked (tiny ∷ []) all_well true (one_image ∷ []) all_well-IsLawful

-- The first vector of the image is infinite, the second one passes the test: the batch is taken.
infinite_taken_test : (submit all_well true (tiny ∷ []) (one_image ∷ [])).1 ≡ ok
unfolding submit number_from
infinite_taken_test = refl

abbrev two_rows : List VectorRow
two_rows =
    record { row_image = 1; row_model = "tiny"; row_values = 5 ∷ []; is_indexed = false }
    ∷ record { row_image = 2; row_model = "tiny"; row_values = 6 ∷ []; is_indexed = false }
    ∷ []

abbrev no_payload : Payload
no_payload = record {
  payload_id = 0;
  payload_site = "";
  payload_post_id = 0;
  payload_url = "";
  payload_rating = "";
  payload_phash = "";
  payload_dhash = "";
}

abbrev smooth_calls : Calls
smooth_calls = record {
  is_cancelled = λ vs. false;
  payloads = λ ids. some (λ i. no_payload);
  takes = λ c ps. true;
  marks = λ ids. true;
}

smooth_calls-IsSmooth : IsSmooth smooth_calls
smooth_calls-IsSmooth = record {
  goes_on = λ vs. refl;
  finds = λ ids. ((λ i. no_payload), refl);
  sends = λ c ps. refl;
  marking = λ ids. refl;
}

rebuild_index_done_example :
    (r : Rebuild) × (rebuild_index smooth_calls (λ m. true) 1 (tiny ∷ []) two_rows ≡ (r, rebuilt))
    × AllRebuilt (tiny ∷ []) r
rebuild_index_done_example =
    rebuild_index_done smooth_calls (λ m. true) 1 (tiny ∷ []) two_rows smooth_calls-IsSmooth
      (λ m. refl)

-- A vector that is saved between the reading of the pending rows and the mark is marked although the
-- index got the vector before it.
late_save_test :
    mark_indexed_batch
      (1 ∷ [])
      ("tiny" ∷ [])
      (save_vector (record { image_id = 1; model_id = "tiny"; values = 9 ∷ [] }) two_rows)
    ≡ record { row_image = 1; row_model = "tiny"; row_values = 9 ∷ []; is_indexed = true }
      ∷ record { row_image = 2; row_model = "tiny"; row_values = 6 ∷ []; is_indexed = false }
      ∷ []
unfolding mark_indexed_batch save_vector is_row has_image_id has_model
late_save_test = refl
