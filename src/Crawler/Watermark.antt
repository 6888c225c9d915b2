-- ===== src/Crawler/Watermark.antt =====
-- internal/app/crawler.go: when `catchupOnce` raises the watermark.
use sauce_dust.Prelude.{
  ℕ, ◌≤◌, ◌<◌, ◌≡◌, ◌≢◌, refl, sym, ◌∙◌, Bool, true, false, ◌||◌, ltb, ◌==◌, if◌then◌else◌, none,
  some, List, [], ◌∷◌, ◌++◌, length, get_elem?, arith, Bool-cases, inl, inr,
}
use sauce_dust.Crawler.{Crawler, no_error, index_full, other_error, Indexed, index}
use sauce_dust.Crawler.Tasks.{
  Call, advance_watermark, Indexer, highest, enqueue_failures, catchup_ends, catchup_once,
}
use sauce_dust.Crawler.Outcomes.{advanced, error_cases, index_untrimmed, highest_most}

advanced_enqueue :
    (cancelled : Bool) (ids : List ℕ) (cs : List Call)
    → advanced (enqueue_failures cancelled ids ++ cs) ≡ advanced cs
unfolding advanced enqueue_failures
advanced_enqueue cancelled ids cs = elim (Bool-cases (length ids == 0 || cancelled)) [
  | inl none_sent ↦ rw none_sent refl
  | inr sent ↦ rw sent refl
]

advanced_if :
    (trimmed later : Bool) (h : ℕ)
    → advanced (if trimmed then [] else if later then advance_watermark h ∷ [] else [])
      ≡ (if trimmed then none else if later then some h else none)
unfolding advanced
advanced_if true later h = refl
advanced_if false true h = refl
advanced_if false false h = refl

not_full : index_full ≢ no_error
not_full e = absurd (ground arith)

not_other : other_error ≢ no_error
not_other e = absurd (ground arith)

advanced_error :
    (cancelled : Bool) (watermark : ℕ) (posts : List ℕ) (x : Indexed)
    → x.err ≢ no_error
    → advanced (catchup_ends cancelled watermark posts x) ≡ none
unfolding catchup_ends advanced
advanced_error cancelled watermark posts x h = elim (error_cases x.err) [
  | inl e ↦ absurd (h e)
  | inr (inl e) ↦ rw (e, catchup_ends) refl
  | inr (inr e) ↦ rw (e, catchup_ends) refl
]

advanced_ok :
    (cancelled : Bool) (watermark : ℕ) (posts : List ℕ) (x : Indexed)
    → x.err ≡ no_error
    → advanced (catchup_ends cancelled watermark posts x) ≡ (
        if x.trimmed
        then none
        else if ltb watermark (highest posts)
        then some (highest posts)
        else none)
unfolding catchup_ends
advanced_ok cancelled watermark posts x e =
    rw (e, catchup_ends)
      (advanced_enqueue cancelled x.report.failed (
          if x.trimmed
          then []
          else if ltb watermark (highest posts)
          then advance_watermark (highest posts) ∷ []
          else [])
        ∙ advanced_if x.trimmed (ltb watermark (highest posts)) (highest posts))

advanced_inv :
    (cancelled : Bool) (watermark : ℕ) (posts : List ℕ) (x : Indexed) {h : ℕ}
    → advanced (catchup_ends cancelled watermark posts x) ≡ some h
    → (x.err ≡ no_error) × (x.trimmed ≡ false) × (h ≡ highest posts) × (watermark < h)
advanced_inv cancelled watermark posts x e = elim (error_cases x.err) [
  | inl ok ↦ let f = sym (advanced_ok cancelled watermark posts x ok) ∙ e in ground (arith)
  | inr (inl bad) ↦
      ground (arith, advanced_error cancelled watermark posts x (λ ok. not_full (sym bad ∙ ok)))
  | inr (inr bad) ↦
      ground (arith, advanced_error cancelled watermark posts x (λ ok. not_other (sym bad ∙ ok)))
]

catchup_nothing :
    (cancelled : Bool) (index_batch : Indexer) (watermark : ℕ) (posts : List ℕ) (c : Crawler)
    → (length posts == 0) ≡ true
    → advanced (catchup_once cancelled index_batch watermark posts c).1 ≡ none
unfolding catchup_once advanced
catchup_nothing cancelled index_batch watermark posts c h = rw (h, catchup_once) refl

catchup_some :
    (cancelled : Bool) (index_batch : Indexer) (watermark : ℕ) (posts : List ℕ) (c : Crawler)
    → (length posts == 0) ≡ false
    → advanced (catchup_once cancelled index_batch watermark posts c).1
      ≡ advanced (catchup_ends cancelled watermark posts (index index_batch posts c))
unfolding catchup_once
catchup_some cancelled index_batch watermark posts c h = rw (h, catchup_once) refl

catchup_ends_round :
    (cancelled : Bool) (index_batch : Indexer) (watermark : ℕ) (posts : List ℕ) (c : Crawler)
    {h : ℕ}
    → advanced (catchup_once cancelled index_batch watermark posts c).1 ≡ some h
    → advanced (catchup_ends cancelled watermark posts (index index_batch posts c)) ≡ some h
catchup_ends_round cancelled index_batch watermark posts c e =
    elim (Bool-cases (length posts == 0)) [
      | inl nothing ↦
          ground (arith, catchup_nothing cancelled index_batch watermark posts c nothing)
      | inr some_posts ↦ sym (catchup_some cancelled index_batch watermark posts c some_posts) ∙ e
    ]

-- When a round of the catch-up writes the watermark, every post that was read has been handed to the
-- indexer, the indexer returned no error, and the new watermark is above the old one and is no less
-- than the number of any of those posts.
pub catchup_advances :
    (cancelled : Bool) (index_batch : Indexer) (watermark : ℕ) (posts : List ℕ) (c : Crawler)
    {h : ℕ}
    → advanced (catchup_once cancelled index_batch watermark posts c).1 ≡ some h
    → ((index index_batch posts c).handed ≡ posts)
      × ((index index_batch posts c).err ≡ no_error)
      × (watermark < h)
      × ((i : ℕ) (p : ℕ) → get_elem? posts i ≡ some p → p ≤ h)
catchup_advances cancelled index_batch watermark posts c e =
    let x = index index_batch posts c in
    let inv =
      advanced_inv cancelled watermark posts x
        (catchup_ends_round cancelled index_batch watermark posts c e) in
    (
      index_untrimmed index_batch posts c inv.1,
      inv.0,
      inv.3,
      λ i p at. omega (arith, inv.2, highest_most posts i at),
    )
