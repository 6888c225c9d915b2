-- ===== src/Indexer/Finished.antt =====
-- internal/app/indexer.go: the end of `IndexBatch`.
use sauce_dust.Prelude.{
  ℕ, ◌+◌, ◌≡◌, refl, sym, ap, ◌∙◌, subst, ◌==◌, Bool, true, false, Option, none, some, List, [],
  ◌∷◌, ◌++◌, length, arith, Bool-cases, Option-cases, inl, inr,
}
use mathlib.Core.Option.{some-injective}
use sauce_dust.Domain.Source.{SourcePost}
use sauce_dust.Indexer.{
  FullReport, is_skipped, pending_posts, skipped_count, new_posts, existing_count, prepare,
}
use sauce_dust.Indexer.Steps.{
  Run, start, append_image, take_ready, take_batch, Step, begins, cancels, breaks, succeeds, fails,
  drops, takes, saves, refuses, finishes, Reach, here, next, IsFinished,
}
use sauce_dust.Indexer.Accounted.{accounted, in_sending, Reach-accounted, Reach-lost}

-- After the last call of `flush` began, no goroutine works, and when it took the batch nothing is left.
data Phase (r : Run) : Type 0 where
  working : r.final ≡ false → Phase r
  flushing : r.work ≡ [] → r.running ≡ [] → r.waiting ≡ 1 → Phase r
  flushed_last : r.work ≡ [] → r.running ≡ [] → r.waiting ≡ 0 → r.batch ≡ [] → Phase r

none-cons : (p : ℕ) (w : List ℕ) → ¬ ([] ≡ p ∷ w)
none-cons p w e = ground arith

take_ready-working : (b : List ℕ) (m : ℕ) (r : Run) → r.final ≡ false → Phase (take_ready b m r)
unfolding take_ready
take_ready-working [] m r f = working f
take_ready-working (p ∷ ps) m r f = working f

take_ready-last :
    (b : List ℕ) (m : ℕ) (r : Run)
    → r.batch ≡ b
    → r.work ≡ []
    → r.running ≡ []
    → m ≡ 0
    → Phase (take_ready b m r)
unfolding take_ready
take_ready-last [] m r e a c z = flushed_last a c z e
take_ready-last (p ∷ ps) m r e a c z = flushed_last a c z refl

none-append_cons : (xs ys : List ℕ) (p : ℕ) → ¬ ([] ≡ xs ++ (p ∷ ys))
none-append_cons [] ys p e = ground arith
none-append_cons (x ∷ xs) ys p e = ground arith

Step-Phase : (n : ℕ) (r s : Run) → Step n r s → Phase r → Phase s
unfolding append_image take_batch
Step-Phase n r s (begins p w e c) (working f) = working f
Step-Phase n r s (begins p w e c) (flushing a b w') = absurd (none-cons p w (sym a ∙ e))
Step-Phase n r s (begins p w e c) (flushed_last a b w' d) = absurd (none-cons p w (sym a ∙ e))
Step-Phase n r s cancels (working f) = working f
Step-Phase n r s cancels (flushing a b c) = flushing a b c
Step-Phase n r s cancels (flushed_last a b c d) = flushed_last a b c d
Step-Phase n r s (breaks c) (working f) = working f
Step-Phase n r s (breaks c) (flushing a b w) = flushing refl b w
Step-Phase n r s (breaks c) (flushed_last a b w d) = flushed_last refl b w d
Step-Phase n r s (succeeds xs ys p e) (working f) = working f
Step-Phase n r s (succeeds xs ys p e) (flushing a b w) =
    absurd (none-append_cons xs ys p (sym b ∙ e))
Step-Phase n r s (succeeds xs ys p e) (flushed_last a b w d) =
    absurd (none-append_cons xs ys p (sym b ∙ e))
Step-Phase n r s (fails xs ys p e c) (working f) = working f
Step-Phase n r s (fails xs ys p e c) (flushing a b w) =
    absurd (none-append_cons xs ys p (sym b ∙ e))
Step-Phase n r s (fails xs ys p e c) (flushed_last a b w d) =
    absurd (none-append_cons xs ys p (sym b ∙ e))
Step-Phase n r s (drops xs ys p e c) (working f) = working f
Step-Phase n r s (drops xs ys p e c) (flushing a b w) =
    absurd (none-append_cons xs ys p (sym b ∙ e))
Step-Phase n r s (drops xs ys p e c) (flushed_last a b w d) =
    absurd (none-append_cons xs ys p (sym b ∙ e))
Step-Phase n r s (takes m e few) (working f) = take_ready-working r.batch m r f
Step-Phase n r s (takes m e few) (flushing a b w) =
    let last : m ≡ 0 = omega (arith, e, w) in take_ready-last r.batch m r refl a b last
Step-Phase n r s (takes m e few) (flushed_last a b w d) = absurd (omega (arith, e, w))
Step-Phase n r s (saves xs ys b' e) (working f) = working f
Step-Phase n r s (saves xs ys b' e) (flushing a b c) = flushing a b c
Step-Phase n r s (saves xs ys b' e) (flushed_last a b c d) = flushed_last a b c d
Step-Phase n r s (refuses xs ys b' e) (working f) = working f
Step-Phase n r s (refuses xs ys b' e) (flushing a b c) = flushing a b c
Step-Phase n r s (refuses xs ys b' e) (flushed_last a b c d) = flushed_last a b c d
Step-Phase n r s (finishes a b c d e) phase = flushing a b refl

Reach-Phase : (n : ℕ) (work : List ℕ) (r : Run) → Reach n (start work) r → Phase r
unfolding start
Reach-Phase n work r here = working refl
Reach-Phase n work s (next {r = r} before step) =
    Step-Phase n r s step (Reach-Phase n work r before)

-- All that is counted at the end.
finished_count :
    (r : Run) → Phase r → IsFinished r → accounted r ≡ r.saved + length r.failed + r.lost
unfolding accounted in_sending
finished_count r (working f) done =
    let bad : Path Bool false true = sym f ∙ done.final_flush in absurd (ground arith)
finished_count r (flushing a b w) done = let none' = done.none_waiting in absurd (omega (arith, w))
finished_count r (flushed_last a b w d) done =
    omega (arith, ap length a, ap length b, ap length d, ap in_sending done.none_sending)

skipped-pending :
    (posts : List SourcePost) → length posts ≡ skipped_count posts + length (pending_posts posts)
unfolding skipped_count pending_posts
skipped-pending [] = omega arith
skipped-pending (p ∷ ps) = elim (Bool-cases (is_skipped p)) [
  | inl e ↦ rw e (omega (arith, skipped-pending ps))
  | inr e ↦ rw e (omega (arith, skipped-pending ps))
]

existing-new :
    (known : ℕ → Bool) (ps : List ℕ)
    → length ps ≡ existing_count known ps + length (new_posts known ps)
unfolding existing_count new_posts
existing-new known [] = omega arith
existing-new known (p ∷ ps) = elim (Bool-cases (known p)) [
  | inl e ↦ rw e (omega (arith, existing-new known ps))
  | inr e ↦ rw e (omega (arith, existing-new known ps))
]

abbrev IsTotal : FullReport × Option (List ℕ) → Type 0
IsTotal (report, none) = Unit {0}
IsTotal (report, some work) = report.total ≡ report.skipped + report.existing + length work

total_of :
    (q : FullReport × Option (List ℕ)) (work : List ℕ)
    → IsTotal q
    → q.1 ≡ some work
    → q.0.total ≡ q.0.skipped + q.0.existing + length work
total_of (report, none) work h e = absurd (ground arith)
total_of (report, some others) work h e =
    let same : others ≡ work = some-injective others work e in
    subst (λ k. report.total ≡ report.skipped + report.existing + length k) same h

prepare-IsTotal :
    (lookup : List ℕ → Option (ℕ → Bool)) (posts : List SourcePost) → IsTotal (prepare lookup posts)
unfolding prepare
prepare-IsTotal lookup posts =
    let all = skipped-pending posts in
    elim (Bool-cases (length (pending_posts posts) == 0)) [
      | inl e ↦
          let none' : length (pending_posts posts) ≡ 0 = ground arith in
          rw (e, prepare) (omega (arith, all, none'))
      | inr e ↦ elim (Option-cases (lookup (pending_posts posts))) [
        | inl f ↦ rw (e, f, prepare) tt
        | inr (known, f) ↦
            rw (e, f, prepare) (omega (arith, all, existing-new known (pending_posts posts)))
      ]
    ]

-- Before the goroutines every post is skipped, existing, or left to be worked on.
prepare_total :
    (lookup : List ℕ → Option (ℕ → Bool)) (posts : List SourcePost) (work : List ℕ)
    → (prepare lookup posts).1 ≡ some work
    → (prepare lookup posts).0.total
      ≡ (prepare lookup posts).0.skipped + (prepare lookup posts).0.existing + length work
prepare_total lookup posts work e =
    total_of (prepare lookup posts) work (prepare-IsTotal lookup posts) e

-- When `IndexBatch` was not cancelled and has ended, in whatever order its goroutines took their turns,
-- each post of the batch is counted once: as skipped, existing, saved or failed.
pub index_batch_total :
    (lookup : List ℕ → Option (ℕ → Bool)) (posts : List SourcePost) (work : List ℕ)
    (submit_batch : ℕ) (r : Run)
    → (prepare lookup posts).1 ≡ some work
    → Reach submit_batch (start work) r
    → IsFinished r
    → r.cancelled ≡ false
    → (prepare lookup posts).0.total
      ≡ (prepare lookup posts).0.skipped
        + (prepare lookup posts).0.existing
        + r.saved
        + length r.failed
index_batch_total lookup posts work submit_batch r e reach done going =
    let first = prepare_total lookup posts work e in
    let all = Reach-accounted submit_batch work r reach in
    let end' = finished_count r (Reach-Phase submit_batch work r reach) done in
    let none' = Reach-lost submit_batch work r reach going in omega (arith, first, all, end', none')
