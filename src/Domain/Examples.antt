-- ===== src/Domain/Examples.antt =====
-- internal/domain: hashes, vectors, addresses and messages of the bot.
use sauce_dust.Prelude.{ℕ, ◌≡◌, ◌↔◌, refl, true, false, some, List, [], ◌∷◌, arith, replicate}
use sauce_dust.FlatIndex.Differing.{differing}
use sauce_dust.Domain.Texts.{is_empty_text, fields, trim_space, lower, ext, strip_query}
use sauce_dust.Domain.Source.{SourcePost, download_url, skip_reason, no_image, pos}
use sauce_dust.Domain.Bot.{is_command}
use sauce_dust.Domain.Hash.{hex_value, hamming_distance, same_image_threshold}
use sauce_dust.Domain.Distances.{IsHex, digits_apart, hamming_distance-digits}
use sauce_dust.Domain.Vectors.{
  Vector, EmbeddingModel, copy, valid, validate_vectors, encode_vector, decode_vector,
}
use sauce_dust.Domain.Encoding.{decode_iff-encode}
use sauce_dust.Domain.Validated.{IsGood, validate_vectors-IsGood}

fields_test : fields "  sky  blue " ≡ "sky" ∷ "blue" ∷ []
unfolding fields
fields_test = refl

ext_test : ext (strip_query "https://a.b/c.tar/d.JPG?x=1.png") ≡ ".JPG"
unfolding ext strip_query
ext_test = refl

abbrev film : SourcePost
film = record {
  site = "danbooru";
  post_id = 3;
  md5 = "";
  rating = "g";
  score = pos 0;
  width = 1;
  height = 1;
  file_size = 9;
  file_url = "https://a/b.mp4";
  large_url = "https://a/b.webm";
  preview_url = "";
  source_url = "";
  tags = [];
  artist_tags = [];
  file_ext = "mp4";
  is_deleted = false;
  is_banned = false;
  canonical_url = "";
}

film_test : skip_reason film ≡ some no_image
unfolding skip_reason download_url is_empty_text lower ext strip_query
film_test = refl

picture_test :
    download_url (record film { preview_url = "https://a/p.PNG#1" }) ≡ "https://a/p.PNG#1"
unfolding download_url is_empty_text lower ext strip_query
picture_test = refl

command_test :
    is_command "/find" (record {
      chat_id = pos 1;
      sender_id = 2;
      sender = "";
      text = " /FIND@bot x";
      caption = "";
      file_id = "";
    })
    ≡ true
unfolding is_command lower trim_space
command_test = refl

abbrev hash_a : List ℕ
hash_a = 102 ∷ 48 ∷ []

abbrev hash_b : List ℕ
hash_b = 48 ∷ 49 ∷ []

threshold_test : same_image_threshold (replicate 16 48) ≡ 5
unfolding same_image_threshold
threshold_test = refl

hash_a-IsHex : IsHex hash_a
unfolding hex_value
hash_a-IsHex = ((15, refl, omega arith), ((0, refl, omega arith), tt))

hash_b-IsHex : IsHex hash_b
unfolding hex_value
hash_b-IsHex = ((0, refl, omega arith), ((1, refl, omega arith), tt))

hamming_distance-digits_example : hamming_distance hash_a hash_b ≡ some (digits_apart hash_a hash_b)
hamming_distance-digits_example =
    hamming_distance-digits hash_a hash_b hash_a-IsHex hash_b-IsHex tt refl (omega arith)

distance_test : digits_apart hash_a hash_b ≡ 5
unfolding digits_apart differing hex_value
distance_test = refl

decode_iff-encode_example :
    (decode_vector (0 ∷ 0 ∷ 128 ∷ 63 ∷ []) ≡ some (1065353216 ∷ []))
    ↔ (encode_vector (1065353216 ∷ []) ≡ 0 ∷ 0 ∷ 128 ∷ 63 ∷ [])
decode_iff-encode_example =
    decode_iff-encode (0 ∷ 0 ∷ 128 ∷ 63 ∷ []) (1065353216 ∷ [])
      (omega arith, (omega arith, (omega arith, (omega arith, tt)))) (omega arith, tt)

abbrev tiny : EmbeddingModel
tiny = record {
  id = "tiny";
  kind = copy;
  backend = "torch";
  checkpoint = "t";
  vector_size = 1;
  distance = "cosine";
  collection = "tiny";
  input_size = 8;
  active = true;
}

-- Infinity, and one.
abbrev twice : List Vector
twice =
    record { model_id = "tiny"; values = 2139095040 ∷ [] }
    ∷ record { model_id = "tiny"; values = 1065353216 ∷ [] }
    ∷ []

infinite_first_test : validate_vectors twice (tiny ∷ []) ≡ valid
unfolding validate_vectors
infinite_first_test = refl

validate_vectors-IsGood_example :
    (validate_vectors twice (tiny ∷ []) ≡ valid) ↔ IsGood twice (tiny ∷ [])
validate_vectors-IsGood_example = validate_vectors-IsGood twice (tiny ∷ [])
