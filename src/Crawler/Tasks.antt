-- ===== src/Crawler/Tasks.antt =====
-- internal/app/crawler.go: one round of the catch-up, of a leased range and of a retry, given what the
-- source and the indexer return. The calls of the lease repository are listed in their order.
use sauce_dust.Prelude.{
  ℕ, Bool, ◌||◌, ltb, ◌==◌, if◌then◌else◌, Option, none, some, List, [], ◌∷◌, ◌++◌, length,
}
use sauce_dust.Crawler.{
  Crawler, BatchReport, IndexError, no_error, index_full, other_error, Indexed, index, count_saved,
  self_stopped, record_throughput, retry_delay,
}

pub data RangeStatus : Type 0 where
  completed failed empty : RangeStatus

pub data Call : Type 0 where
  enqueue_retries : List ℕ → Call
  advance_watermark : ℕ → Call
  finish_range : RangeStatus → ℕ → Call
  release_range : Call
  finish_retry : Call
  release_retry : Call
  reschedule_retry : ℕ → Call

abbrev pub Indexer : Type 0
Indexer = List ℕ → BatchReport × IndexError

unfoldable pub highest : List ℕ → ℕ
highest [] = 0
highest (p ∷ ps) = let h = highest ps in if ltb h p then p else h

-- `enqueueFailures`; the flag says that the context is done.
unfoldable pub enqueue_failures : Bool → List ℕ → List Call
enqueue_failures cancelled ids =
    if length ids == 0 || cancelled then [] else enqueue_retries ids ∷ []

-- The end of `catchupOnce`, after the posts were indexed.
unfoldable pub catchup_ends : Bool → ℕ → List ℕ → Indexed → List Call
unfolding enqueue_failures highest
catchup_ends cancelled watermark posts x = elim x.err [
  | no_error ↦
      enqueue_failures cancelled x.report.failed
      ++ (if x.trimmed
          then []
          else if ltb watermark (highest posts)
          then advance_watermark (highest posts) ∷ []
          else [])
  | index_full ↦ []
  | other_error ↦ []
]

-- `catchupOnce` below its cap on the index, with the watermark and the posts that were read.
unfoldable pub catchup_once : Bool → Indexer → ℕ → List ℕ → Crawler → Crawler × List Call
unfolding index count_saved catchup_ends
catchup_once cancelled index_batch watermark posts c =
    if length posts == 0
    then (c, [])
    else let x = index index_batch posts c in
      (count_saved x.report.saved_posts x.crawler, catchup_ends cancelled watermark posts x)

unfoldable pub finish_or_release : Bool → RangeStatus → ℕ → Crawler → List Call
unfolding self_stopped
finish_or_release cancelled status n c =
    if self_stopped c
    then release_range ∷ []
    else if cancelled
    then []
    else finish_range status n ∷ []

abbrev pub range_status : List ℕ → RangeStatus
range_status ids = if ltb 0 (length ids) then failed else completed

-- The end of `processRange`, after the posts were indexed; the counter of the index is forgotten
-- where it was full.
unfoldable pub range_ends : Bool → ℕ → Indexed → Crawler × List Call
unfolding finish_or_release enqueue_failures record_throughput
range_ends cancelled took x = if x.trimmed then (x.crawler, release_range ∷ []) else elim x.err [
  | index_full ↦ (record x.crawler { counted_at = 0 }, release_range ∷ [])
  | other_error ↦ (x.crawler, finish_or_release cancelled failed x.report.saved_posts x.crawler)
  | no_error ↦
      let c' = record_throughput x.report.saved_posts took x.crawler in
      (
        c',
        enqueue_failures cancelled x.report.failed
            ++ finish_or_release cancelled (range_status x.report.failed) x.report.saved_posts c',
      )
]

-- `processRange` with the posts of the range; `none` where the source failed.
unfoldable pub process_range : Bool → Indexer → ℕ → Option (List ℕ) → Crawler → Crawler × List Call
unfolding range_ends index
process_range cancelled index_batch took none c = (c, finish_or_release cancelled failed 0 c)
process_range cancelled index_batch took (some posts) c =
    if length posts == 0
    then (c, finish_or_release cancelled empty 0 c)
    else range_ends cancelled took (index index_batch posts c)

-- `retryOne` with the post; `none` where the source failed.
unfoldable pub retry_one : Bool → Indexer → ℕ → Option ℕ → Crawler → Crawler × List Call
unfolding index retry_delay
retry_one cancelled index_batch attempts none c =
    (c, if cancelled then [] else reschedule_retry (retry_delay attempts) ∷ [])
retry_one cancelled index_batch attempts (some post) c =
    let x = index index_batch (post ∷ []) c in
    let again = if cancelled then [] else reschedule_retry (retry_delay attempts) ∷ [] in
    (
      x.crawler,
      elim x.err [
        | index_full ↦ release_retry ∷ []
        | other_error ↦ again
        | no_error ↦ if ltb 0 (length x.report.failed) then again else finish_retry ∷ []
      ],
    )
