-- ===== src/Danbooru/Examples.antt =====
-- internal/adapter/danbooru: a site with three posts, a busy server, and a post with tags in groups.
use sauce_dust.Prelude.{
  ℕ, zero, suc, ◌≡◌, refl, true, false, ltb, if◌then◌else◌, none, some, List, [], ◌∷◌, length, take,
  arith,
}
use sauce_dust.Domain.Texts.{fields}
use sauce_dust.Domain.Source.{pos}
use sauce_dust.Danbooru.{
  Site, posts_in_range, complete, page_size, read_pages, read_page, with_id, lowest_from,
}
use sauce_dust.Danbooru.Pages.{IsSite, between, posts_in_range-complete}
use sauce_dust.Danbooru.Requests.{
  Attempt, answer, no_answer, get, download, max_bytes_of, unread, backoff, duration, penalizes,
  observe, pause_of, throttled,
}
use sauce_dust.Danbooru.Answers.{
  IsCalm, Course, get-Course, asked, reader_of, expected, download_whole,
}
use sauce_dust.Danbooru.Tags.{ApiPost, tags}

abbrev three_posts : List ℕ
three_posts = 9 ∷ 5 ∷ 2 ∷ []

abbrev three_site : Site
three_site lower cursor = some (take page_size (between lower cursor three_posts))

three_site-IsSite : IsSite three_site 10 three_posts
three_site-IsSite = record {
  descending =
      (omega arith, omega arith, (omega arith, omega arith, (omega arith, omega arith, tt)));
  answers = λ lower cursor. refl;
}

posts_in_range-complete_example :
    posts_in_range three_site 3 9 ≡ (between 3 10 three_posts, complete)
posts_in_range-complete_example =
    posts_in_range-complete three_site 10 three_posts 3 9 three_site-IsSite (omega arith)

-- The numbers from `n` down, `k` of them.
unfoldable down : ℕ → ℕ → List ℕ
down n zero = []
down zero (suc k) = []
down (suc n) (suc k) = suc n ∷ down n k

-- A full page of which one entry has no number, and two hundred posts below it.
abbrev entry_without_id : Site
entry_without_id lower cursor =
    if ltb 201 cursor then some (0 ∷ down 399 199) else some (down 200 200)

short_page_test :
    (length (posts_in_range entry_without_id 1 400).0 ≡ 199)
    × ((posts_in_range entry_without_id 1 400).1 ≡ complete)
unfolding posts_in_range read_pages read_page with_id lowest_from down
short_page_test = (refl, refl)

abbrev busy_then_fine : ℕ → Attempt
busy_then_fine n = record {
  outlives_sleep = true;
  outlives_wait = true;
  well_formed = true;
  reply = elim n [
    | zero ↦ answer 429 (some 7) (some [])
    | suc zero ↦ no_answer
    | suc (suc k) ↦ answer 200 none (some (91 ∷ 93 ∷ []))
  ];
}

busy_then_fine-IsCalm : (n : ℕ) → IsCalm (busy_then_fine n)
busy_then_fine-IsCalm n = record { sleeping = refl; waiting = refl; built = refl }

get-Course_example :
    Course busy_then_fine 0 3 (get 3 busy_then_fine).0 (asked (get 3 busy_then_fine).1)
get-Course_example = get-Course 3 busy_then_fine busy_then_fine-IsCalm

observe_test : observe 503 (some 7) ≡ penalizes 7000000000 ∷ []
unfolding observe pause_of throttled duration
observe_test = refl

-- From the 34th try on the pause does not fit in 64 bits with its sign.
backoff_test : (backoff 4 ≡ 16000000000) × (backoff 33 ≡ 30000000000) × (backoff 34 ≡ 0)
unfolding backoff duration
backoff_test = (refl, refl, refl)

abbrev calm_answer : Attempt
calm_answer = record {
  outlives_sleep = true;
  outlives_wait = true;
  well_formed = true;
  reply = answer 200 none none;
}

calm_answer-IsCalm : IsCalm calm_answer
calm_answer-IsCalm = record { sleeping = refl; waiting = refl; built = refl }

max_two : max_bytes_of 2 ≡ 2
unfolding max_bytes_of
max_two = refl

-- A body of three bytes that breaks off after the first.
download_whole_example :
    (download 2 calm_answer 0 (reader_of (1 ∷ 2 ∷ 3 ∷ []) (some 1))).0
    ≡ expected (max_bytes_of 2) 0 (1 ∷ 2 ∷ 3 ∷ []) (some 1)
download_whole_example =
    download_whole 2 calm_answer 0 none none (1 ∷ 2 ∷ 3 ∷ []) (some 1) calm_answer-IsCalm refl
      (ground (arith, max_two)) (omega arith)

broken_test : expected (max_bytes_of 2) 0 (1 ∷ 2 ∷ 3 ∷ []) (some 1) ≡ unread
unfolding max_bytes_of
broken_test = refl

abbrev grouped : ApiPost
grouped = record {
  id = 7;
  md5 = "";
  file_url = "";
  large_file_url = "";
  preview_file_url = "";
  source = "";
  rating = "g";
  score = pos 3;
  image_width = 1;
  image_height = 1;
  file_size = 1;
  file_ext = "png";
  is_deleted = false;
  is_banned = false;
  tag_string = " ";
  tag_string_artist = "ann bob";
  tag_string_general = "sky ann";
  tag_string_character = "";
  tag_string_copyright = "";
  tag_string_meta = " sky";
}

grouped_blank : fields grouped.tag_string ≡ []
unfolding fields
grouped_blank = refl

tags_test : tags grouped ≡ "ann" ∷ "bob" ∷ "sky" ∷ []
unfolding tags fields
tags_test = refl
