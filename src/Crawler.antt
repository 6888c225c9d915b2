-- ===== src/Crawler.antt =====
-- internal/app/crawler.go: the counters of the crawler and the cap on the images of one run. Values
-- that the source treats alike when they are not positive are 0 here; times are nanoseconds. What the
-- indexer and the source return is an argument; a post is its number.
pub mod Tasks
pub mod Capacity
pub mod Quota
pub mod Outcomes
pub mod Watermark
pub mod Completed
pub mod Room
mod Examples
use sauce_dust.Prelude.{
  ℕ, zero, suc, ◌+◌, ◌-◌, ◌*◌, ◌/◌, ◌^◌, Bool, true, false, ◌&&◌, ◌||◌, ltb, leb, ◌==◌,
  if◌then◌else◌, Option, none, some, List, [], ◌∷◌, length, take, min,
}

pub record CrawlerConfig : Type 0 where
  pub base_range_size : ℕ
  pub adaptive : Bool
  pub max_indexed : ℕ
  pub max_images : ℕ

pub record Crawler : Type 0 where
  pub cfg : CrawlerConfig
  pub throughput : ℕ
  pub elapsed : ℕ
  pub saved : ℕ
  pub limit_done : Bool
  pub stopped : Bool
  pub warned_full : Bool
  pub last_count : ℕ
  pub counted_at : ℕ

pub record BatchReport : Type 0 where
  pub saved_posts : ℕ
  pub failed : List ℕ

abbrev pub no_report : BatchReport
no_report = record { saved_posts = 0; failed = [] }

-- What `IndexBatch` returns beside its report.
pub data IndexError : Type 0 where
  no_error index_full other_error : IndexError

-- `remaining`, where `none` stands for -1: there is no cap.
unfoldable pub remaining : Crawler → Option ℕ
remaining c = if c.cfg.max_images == 0 then none else some (c.cfg.max_images - c.saved)

-- How much `reserve` takes when it reads `cur`.
unfoldable pub take_at : ℕ → ℕ → ℕ → ℕ
take_at max_images cur want = let left = max_images - cur in if ltb left want then left else want

-- `reserve`, when no other worker comes in between.
unfoldable pub reserve : Crawler → ℕ → Crawler × ℕ
unfolding take_at
reserve c want = if c.cfg.max_images == 0 || want == 0 then (c, want) else (
  record c { saved = c.saved + take_at c.cfg.max_images c.saved want },
  take_at c.cfg.max_images c.saved want,
)

unfoldable pub note_limit_reached : Crawler → Crawler
note_limit_reached c =
    if c.cfg.max_images == 0 || ltb c.saved c.cfg.max_images
    then c
    else if c.limit_done
    then c
    else record c { limit_done = true; stopped = true }

unfoldable pub count_saved : ℕ → Crawler → Crawler
count_saved n c = if n == 0 || ltb 0 c.cfg.max_images then c else record c { saved = c.saved + n }

-- `index`: the crawler, the posts that are handed to the indexer, what it returns, and whether the
-- posts were trimmed.
pub record Indexed : Type 0 where
  pub crawler : Crawler
  pub handed : List ℕ
  pub report : BatchReport
  pub err : IndexError
  pub trimmed : Bool

-- The part of `index` after `n` of the posts were reserved.
unfoldable pub index_reserved : (List ℕ → BatchReport × IndexError) → List ℕ → Crawler → ℕ → Indexed
unfolding note_limit_reached
index_reserved index_batch posts c n =
    let batch = take n posts in
    let idle = length batch == 0 in
    record {
      crawler = if idle then c else note_limit_reached c;
      handed = batch;
      report = if idle then no_report else (index_batch batch).0;
      err = if idle then no_error else (index_batch batch).1;
      trimmed = ltb n (length posts);
    }

unfoldable pub index : (List ℕ → BatchReport × IndexError) → List ℕ → Crawler → Indexed
unfolding reserve index_reserved
index index_batch posts c =
    let (c', n) = reserve c (length posts) in index_reserved index_batch posts c' n

unfoldable pub self_stopped : Crawler → Bool
self_stopped c = ltb 0 c.cfg.max_images && leb c.cfg.max_images c.saved

abbrev pub throughput_decay_at : ℕ
throughput_decay_at = 10_000

unfoldable pub decay : Crawler → Crawler
decay c =
    if ltb throughput_decay_at c.throughput
    then record c { throughput = c.throughput / 2; elapsed = c.elapsed / 2 }
    else c

-- `took` is in nanoseconds.
unfoldable pub record_throughput : ℕ → ℕ → Crawler → Crawler
unfolding decay count_saved
record_throughput n took c =
    if n == 0 || took == 0
    then c
    else let d = decay c in
      let millis = if ltb (took / 1_000_000) 1 then 1 else took / 1_000_000 in
      count_saved n (record d { throughput = d.throughput + n; elapsed = d.elapsed + millis })

-- In minutes.
unfoldable pub retry_delay : ℕ → ℕ
retry_delay attempts =
    let low = if ltb attempts 1 then 1 else attempts in 2 ^ (if ltb 6 low then 6 else low)

-- `RangeSizeFor`, given whether the rate is positive and the float product cut to a whole number.
unfoldable pub range_size_for : Bool → ℕ → ℕ → ℕ
range_size_for positive size base =
    if positive
    then if ltb size 100 then 100 else if ltb (base * 4) size then base * 4 else size
    else base

unfoldable pub range_size : (ℕ → ℕ → ℕ) → Crawler → ℕ
unfolding range_size_for
range_size hourly c =
    if c.cfg.adaptive
    then if c.throughput == 0 || c.elapsed == 0
      then c.cfg.base_range_size
      else range_size_for true (hourly c.throughput c.elapsed) c.cfg.base_range_size
    else c.cfg.base_range_size
