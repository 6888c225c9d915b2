-- ===== src/Crawler/Completed.antt =====
-- internal/app/crawler.go: when `processRange` records a range as completed.
use sauce_dust.Prelude.{
  ℕ, ◌<◌, ◌≡◌, refl, sym, ◌∙◌, Bool, true, false, ◌||◌, ◌==◌, if◌then◌else◌, none, some, List, ◌++◌,
  length, arith, Bool-cases, inl, inr,
}
use sauce_dust.Crawler.{
  Crawler, no_error, index_full, other_error, Indexed, index, self_stopped, record_throughput,
}
use sauce_dust.Crawler.Tasks.{
  RangeStatus, completed, failed, empty, Call, Indexer, enqueue_failures, finish_or_release,
  range_status, range_ends, process_range,
}
use sauce_dust.Crawler.Outcomes.{finished, error_cases, index_untrimmed}

finished_enqueue :
    (cancelled : Bool) (ids : List ℕ) (cs : List Call)
    → finished (enqueue_failures cancelled ids ++ cs) ≡ finished cs
unfolding finished enqueue_failures
finished_enqueue cancelled ids cs = elim (Bool-cases (length ids == 0 || cancelled)) [
  | inl none_sent ↦ rw none_sent refl
  | inr sent ↦ rw sent refl
]

finished_finish :
    (cancelled : Bool) (st : RangeStatus) (n : ℕ) (c : Crawler)
    → finished (finish_or_release cancelled st n c)
      ≡ (if self_stopped c then none else if cancelled then none else some st)
unfolding finish_or_release finished
finished_finish cancelled st n c = elim (Bool-cases (self_stopped c)) [
  | inl stopped ↦ rw stopped refl
  | inr runs ↦ elim (Bool-cases cancelled) [
    | inl over ↦ rw runs (rw over refl)
    | inr alive ↦ rw runs (rw alive refl)
  ]
]

finished_trimmed :
    (cancelled : Bool) (took : ℕ) (x : Indexed)
    → x.trimmed ≡ true
    → finished (range_ends cancelled took x).1 ≡ none
unfolding range_ends finished
finished_trimmed cancelled took x h = rw h refl

finished_full :
    (cancelled : Bool) (took : ℕ) (x : Indexed)
    → x.trimmed ≡ false
    → x.err ≡ index_full
    → finished (range_ends cancelled took x).1 ≡ none
unfolding range_ends finished
finished_full cancelled took x h e = rw h (rw (e, range_ends) refl)

finished_error :
    (cancelled : Bool) (took : ℕ) (x : Indexed)
    → x.trimmed ≡ false
    → x.err ≡ other_error
    → finished (range_ends cancelled took x).1
      ≡ (if self_stopped x.crawler then none else if cancelled then none else some failed)
unfolding range_ends
finished_error cancelled took x h e =
    rw h (rw (e, range_ends) (finished_finish cancelled failed x.report.saved_posts x.crawler))

finished_ok :
    (cancelled : Bool) (took : ℕ) (x : Indexed)
    → x.trimmed ≡ false
    → x.err ≡ no_error
    → let c' = record_throughput x.report.saved_posts took x.crawler in
      finished (range_ends cancelled took x).1 ≡ (
        if self_stopped c'
        then none
        else if cancelled
        then none
        else some (range_status x.report.failed))
unfolding range_ends
finished_ok cancelled took x h e =
    let c' = record_throughput x.report.saved_posts took x.crawler in
    let st = range_status x.report.failed in
    rw h (
      rw (e, range_ends)
        (finished_enqueue cancelled x.report.failed
            (finish_or_release cancelled st x.report.saved_posts c')
          ∙ finished_finish cancelled st x.report.saved_posts c'))

finished_inv :
    (cancelled : Bool) (took : ℕ) (x : Indexed)
    → finished (range_ends cancelled took x).1 ≡ some completed
    → (x.err ≡ no_error) × (x.trimmed ≡ false) × (length x.report.failed ≡ 0)
finished_inv cancelled took x e = elim (Bool-cases x.trimmed) [
  | inl cut ↦ ground (arith, finished_trimmed cancelled took x cut)
  | inr whole ↦ elim (error_cases x.err) [
    | inl ok ↦ ground (arith, finished_ok cancelled took x whole ok)
    | inr (inl full) ↦ ground (arith, finished_full cancelled took x whole full)
    | inr (inr bad) ↦ ground (arith, finished_error cancelled took x whole bad)
  ]
]

process_nothing :
    (cancelled : Bool) (index_batch : Indexer) (took : ℕ) (posts : List ℕ) (c : Crawler)
    → (length posts == 0) ≡ true
    → finished (process_range cancelled index_batch took (some posts) c).1
      ≡ (if self_stopped c then none else if cancelled then none else some empty)
unfolding process_range
process_nothing cancelled index_batch took posts c h =
    rw (h, process_range) (finished_finish cancelled empty 0 c)

process_some :
    (cancelled : Bool) (index_batch : Indexer) (took : ℕ) (posts : List ℕ) (c : Crawler)
    → (length posts == 0) ≡ false
    → finished (process_range cancelled index_batch took (some posts) c).1
      ≡ finished (range_ends cancelled took (index index_batch posts c)).1
unfolding process_range
process_some cancelled index_batch took posts c h = rw (h, process_range) refl

-- When the posts of a leased range were read and the range is recorded as completed, then the range
-- has posts, all of them have been handed to the indexer, the indexer returned no error, and none of
-- the posts failed.
pub process_range_completes :
    (cancelled : Bool) (index_batch : Indexer) (took : ℕ) (posts : List ℕ) (c : Crawler)
    → finished (process_range cancelled index_batch took (some posts) c).1 ≡ some completed
    → (0 < length posts)
      × ((index index_batch posts c).handed ≡ posts)
      × ((index index_batch posts c).err ≡ no_error)
      × (length (index index_batch posts c).report.failed ≡ 0)
unfolding process_range
process_range_completes cancelled index_batch took posts c e =
    elim (Bool-cases (length posts == 0)) [
      | inl nothing ↦ ground (arith, process_nothing cancelled index_batch took posts c nothing)
      | inr some_posts ↦
          let x = index index_batch posts c in
          let inv =
            finished_inv cancelled took x
              (sym (process_some cancelled index_batch took posts c some_posts) ∙ e) in
          (ground (arith), index_untrimmed index_batch posts c inv.1, inv.0, inv.2)
    ]
