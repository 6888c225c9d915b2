-- ===== src/Crawler/Examples.antt =====
-- internal/app/crawler.go: rounds of a crawler with a cap of five images, and the theorems at them.
use sauce_dust.Prelude.{
  ℕ, ◌≤◌, ◌<◌, ◌≡◌, refl, true, false, some, List, [], ◌∷◌, length, get_elem?, arith,
}
use sauce_dust.Crawler.{
  Crawler, no_error, index, reserve, take_at, index_reserved, note_limit_reached, self_stopped,
  record_throughput, decay, count_saved,
}
use sauce_dust.Crawler.Tasks.{
  Indexer, finish_retry, catchup_once, catchup_ends, enqueue_failures, highest, process_range,
  range_ends, finish_or_release, retry_one,
}
use sauce_dust.Crawler.Capacity.{
  Ingest, at_capacity, check_room, judge, indexed_count, submit_headroom,
}
use sauce_dust.Crawler.Quota.{
  Worker, idle, wants, has_read, Shared, calls, loads, swaps, Reach, here, step, put, swap,
  granted_within,
}
use sauce_dust.Crawler.Outcomes.{advanced, finished}
use sauce_dust.Crawler.Watermark.{catchup_advances}
use sauce_dust.Crawler.Completed.{process_range_completes}
use sauce_dust.Crawler.Room.{open-check_room}

abbrev capped : ℕ → Crawler
capped n = record {
  cfg = record { base_range_size = 100; adaptive = false; max_indexed = 1000; max_images = 5 };
  throughput = 0;
  elapsed = 0;
  saved = n;
  limit_done = false;
  stopped = false;
  warned_full = false;
  last_count = 0;
  counted_at = 0;
}

abbrev all_saved : Indexer
all_saved posts = (record { saved_posts = length posts; failed = [] }, no_error)

abbrev posts : List ℕ
posts = 7 ∷ 9 ∷ 8 ∷ []

catchup_advances_example :
    ((index all_saved posts (capped 0)).handed ≡ posts)
    × ((index all_saved posts (capped 0)).err ≡ no_error)
    × (5 < 9)
    × ((i : ℕ) (p : ℕ) → get_elem? posts i ≡ some p → p ≤ 9)
unfolding advanced catchup_once catchup_ends enqueue_failures highest index index_reserved reserve
    take_at note_limit_reached count_saved
catchup_advances_example = catchup_advances false all_saved 5 posts (capped 0) refl

process_range_completes_example :
    (0 < length posts)
    × ((index all_saved posts (capped 0)).handed ≡ posts)
    × ((index all_saved posts (capped 0)).err ≡ no_error)
    × (length (index all_saved posts (capped 0)).report.failed ≡ 0)
unfolding finished process_range range_ends finish_or_release enqueue_failures index index_reserved
    reserve take_at note_limit_reached count_saved self_stopped record_throughput decay
process_range_completes_example =
    process_range_completes false all_saved 1_000 posts (capped 0) refl

-- When other workers have reserved all that the cap allows, a retry is recorded as done, although its
-- post is not handed to the indexer.
retry_one_test : (retry_one false all_saved 1 (some 7) (capped 5)).1 ≡ finish_retry ∷ []
unfolding retry_one index index_reserved reserve take_at note_limit_reached
retry_one_test = refl

retry_one_handed_test : (index all_saved (7 ∷ []) (capped 5)).handed ≡ []
unfolding index index_reserved reserve take_at note_limit_reached
retry_one_handed_test = refl

abbrev two_workers : ℕ → Worker
two_workers i = idle

abbrev start : Shared
start = record { saved = 0; granted = 0; worker = two_workers }

abbrev after_call : Shared
after_call = record start { worker = put two_workers 0 (wants 9) }

abbrev after_load : Shared
after_load = record after_call { worker = put after_call.worker 0 (has_read 9 0) }

history : Reach 5 start (swap 5 0 9 0 after_load)
unfolding put
history = step (step (step here (calls 0 9 refl)) (loads 0 9 refl (omega arith))) (swaps 0 9 0 refl)

granted_within_example :
    ((swap 5 0 9 0 after_load).granted ≡ (swap 5 0 9 0 after_load).saved)
    × ((swap 5 0 9 0 after_load).saved ≤ 5)
granted_within_example = granted_within 5 refl refl history

abbrev ingest : Ingest
ingest = record { max_indexed = 1000; warned_full = false; last_count = 0; counted_at = 0 }

open-check_room_example : (check_room 20 60 (some 900) ingest).1 ≡ true
unfolding at_capacity judge indexed_count submit_headroom
open-check_room_example =
    open-check_room 32 20 50 60 900 900 (some 900) (some 900) (capped 0) ingest refl refl refl
      (omega arith) (omega arith) refl
