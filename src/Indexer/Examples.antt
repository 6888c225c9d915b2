-- ===== src/Indexer/Examples.antt =====
-- internal/app/indexer.go: one post that is saved, and a batch that grows while both senders are busy.
use sauce_dust.Prelude.{
  ℕ, ◌+◌, ◌≡◌, refl, Bool, true, false, Option, none, some, List, [], ◌∷◌, length, arith,
}
use sauce_dust.Domain.Texts.{is_empty_text, lower, ext, strip_query}
use sauce_dust.Domain.Source.{SourcePost, pos, skip_reason, download_url}
use sauce_dust.Limiter.{throttled}
use sauce_dust.Indexer.{
  prepare, pending_posts, skipped_count, is_skipped, new_posts, existing_count, classify, holds,
}
use sauce_dust.Indexer.Steps.{
  Run, start, append_image, take_ready, take_batch, begins, succeeds, takes, saves, finishes, Reach,
  here, next, IsFinished,
}
use sauce_dust.Indexer.Finished.{index_batch_total}

abbrev picture : SourcePost
picture = record {
  site = "danbooru";
  post_id = 3;
  md5 = "";
  rating = "g";
  score = pos 0;
  width = 1;
  height = 1;
  file_size = 9;
  file_url = "https://a/b.png";
  large_url = "";
  preview_url = "";
  source_url = "";
  tags = [];
  artist_tags = [];
  file_ext = "png";
  is_deleted = false;
  is_banned = false;
  canonical_url = "";
}

abbrev known_none : List ℕ → Option (ℕ → Bool)
known_none ids = some (λ p. false)

picture_pending : (prepare known_none (picture ∷ [])).1 ≡ some (3 ∷ [])
unfolding prepare pending_posts is_skipped new_posts existing_count skipped_count skip_reason
    download_url is_empty_text lower ext strip_query
picture_pending = refl

-- The run of a single post with a submit size of 32: it is processed, and the last flush sends it.
one_saved : Run
one_saved = record (start (3 ∷ [])) { work = []; saved = 1; final = true }

one_saved_reach : Reach 32 (start (3 ∷ [])) one_saved
unfolding one_saved start append_image take_batch take_ready
one_saved_reach =
    next
      (next
        (next (next (next here (begins 3 [] refl refl)) (succeeds [] [] 3 refl))
          (finishes refl refl refl refl refl))
        (takes 0 refl (omega arith)))
      (saves [] [] (3 ∷ []) refl)

one_saved-IsFinished : IsFinished one_saved
unfolding one_saved start
one_saved-IsFinished = record { final_flush = refl; none_waiting = refl; none_sending = refl }

one_saved_going : one_saved.cancelled ≡ false
unfolding one_saved start
one_saved_going = refl

index_batch_total_example :
    (prepare known_none (picture ∷ [])).0.total
    ≡ (prepare known_none (picture ∷ [])).0.skipped
      + (prepare known_none (picture ∷ [])).0.existing
      + one_saved.saved
      + length one_saved.failed
index_batch_total_example =
    index_batch_total known_none (picture ∷ []) (3 ∷ []) 32 one_saved picture_pending
      one_saved_reach one_saved-IsFinished one_saved_going

-- With a submit size of 1 and both senders busy, two more images come into the batch before a sender is
-- free: a batch of two is sent.
abbrev both_busy : Run
both_busy = record {
  work = [];
  running = 3 ∷ 4 ∷ [];
  batch = [];
  waiting = 0;
  sending = (1 ∷ []) ∷ (2 ∷ []) ∷ [];
  saved = 0;
  failed = [];
  lost = 0;
  flushed = false;
  cancelled = false;
  final = false;
}

abbrev oversized : Run
oversized = record both_busy {
  running = [];
  waiting = 1;
  sending = (3 ∷ 4 ∷ []) ∷ (2 ∷ []) ∷ [];
  saved = 1;
}

oversized_test : Reach 1 both_busy oversized
unfolding append_image take_batch take_ready
oversized_test =
    next
      (next (next (next here (succeeds [] (4 ∷ []) 3 refl)) (succeeds [] [] 4 refl))
        (saves [] ((2 ∷ []) ∷ []) (1 ∷ []) refl))
      (takes 1 refl (omega arith))

classify_test :
    classify (
      some (record {
        deadline_exceeded = false;
        is_throttled = some false;
        is_timeout = none;
        is_retryable = some true;
      }))
    ≡ throttled
unfolding classify holds
classify_test = refl
