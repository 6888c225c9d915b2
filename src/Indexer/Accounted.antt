-- ===== src/Indexer/Accounted.antt =====
-- internal/app/indexer.go: what becomes of each post that the goroutines work on.
use sauce_dust.Prelude.{
  ℕ, suc, ◌+◌, ◌≡◌, refl, sym, ap, ◌∙◌, Bool, true, false, List, [], ◌∷◌, ◌++◌, length,
  length-append, arith,
}
use sauce_dust.Indexer.Steps.{
  Run, start, append_image, take_ready, take_batch, Step, begins, cancels, breaks, succeeds, fails,
  drops, takes, saves, refuses, finishes, Reach, here, next,
}

-- The images in the batches that are being sent.
unfoldable pub in_sending : List (List ℕ) → ℕ
in_sending [] = 0
in_sending (b ∷ bs) = length b + in_sending bs

in_sending-append : (xs ys : List (List ℕ)) → in_sending (xs ++ ys) ≡ in_sending xs + in_sending ys
unfolding in_sending
in_sending-append [] ys = omega arith
in_sending-append (b ∷ xs) ys = omega (arith, in_sending-append xs ys)

-- The posts that are counted somewhere.
unfoldable pub accounted : Run → ℕ
accounted r =
    r.saved
    + length r.failed
    + length r.batch
    + in_sending r.sending
    + length r.running
    + length r.work
    + r.lost

length-cut : (xs ys : List ℕ) (p : ℕ) → length (xs ++ (p ∷ ys)) ≡ suc (length (xs ++ ys))
length-cut xs ys p = omega (arith, length-append xs (p ∷ ys), length-append xs ys)

in_sending-cut :
    (xs ys : List (List ℕ)) (b : List ℕ)
    → in_sending (xs ++ (b ∷ ys)) ≡ length b + in_sending (xs ++ ys)
unfolding in_sending
in_sending-cut xs ys b = omega (arith, in_sending-append xs (b ∷ ys), in_sending-append xs ys)

take_ready-accounted :
    (b : List ℕ) (m : ℕ) (r : Run) → r.batch ≡ b → accounted (take_ready b m r) ≡ accounted r
unfolding accounted take_ready in_sending
take_ready-accounted [] m r e = refl
take_ready-accounted (p ∷ ps) m r e = omega (arith, ap length e)

Step-accounted : (submit_batch : ℕ) (r s : Run) → Step submit_batch r s → accounted s ≡ accounted r
unfolding accounted append_image take_batch
Step-accounted n r s (begins p w e c) = omega (arith, ap length e)
Step-accounted n r s cancels = refl
Step-accounted n r s (breaks c) = omega arith
Step-accounted n r s (succeeds xs ys p e) =
    omega (arith, ap length e, length-cut xs ys p, length-append r.batch (p ∷ []))
Step-accounted n r s (fails xs ys p e c) =
    omega (arith, ap length e, length-cut xs ys p, length-append r.failed (p ∷ []))
Step-accounted n r s (drops xs ys p e c) = omega (arith, ap length e, length-cut xs ys p)
Step-accounted n r s (takes m e few) = take_ready-accounted r.batch m r refl
Step-accounted n r s (saves xs ys b e) = omega (arith, ap in_sending e, in_sending-cut xs ys b)
Step-accounted n r s (refuses xs ys b e) =
    omega (arith, ap in_sending e, in_sending-cut xs ys b, length-append r.failed b)
Step-accounted n r s (finishes a b c d e) = refl

pub Reach-accounted :
    (n : ℕ) (work : List ℕ) (r : Run) → Reach n (start work) r → accounted r ≡ length work
unfolding accounted start in_sending
Reach-accounted n work r here = omega arith
Reach-accounted n work s (next {r = r} before step) =
    Step-accounted n r s step ∙ Reach-accounted n work r before

take_ready-lost :
    (b : List ℕ) (m : ℕ) (r : Run)
    → (r.cancelled ≡ false → r.lost ≡ 0)
    → (take_ready b m r).cancelled ≡ false
    → (take_ready b m r).lost ≡ 0
unfolding take_ready
take_ready-lost [] m r h k = h k
take_ready-lost (p ∷ ps) m r h k = h k

-- Nothing is lost before a cancel.
Step-lost :
    (n : ℕ) (r s : Run)
    → Step n r s
    → (r.cancelled ≡ false → r.lost ≡ 0)
    → s.cancelled ≡ false
    → s.lost ≡ 0
unfolding append_image take_batch
Step-lost n r s (begins p w e c) h k = h k
Step-lost n r s cancels h k = absurd (ground arith)
Step-lost n r s (breaks c) h k = let bad : Path Bool true false = sym c ∙ k in absurd (ground arith)
Step-lost n r s (succeeds xs ys p e) h k = h k
Step-lost n r s (fails xs ys p e c) h k = h k
Step-lost n r s (drops xs ys p e c) h k =
    let bad : Path Bool true false = sym c ∙ k in absurd (ground arith)
Step-lost n r s (takes m e few) h k = take_ready-lost r.batch m r h k
Step-lost n r s (saves xs ys b e) h k = h k
Step-lost n r s (refuses xs ys b e) h k = h k
Step-lost n r s (finishes a b c d e) h k = h k

pub Reach-lost :
    (n : ℕ) (work : List ℕ) (r : Run) → Reach n (start work) r → r.cancelled ≡ false → r.lost ≡ 0
unfolding start
Reach-lost n work r here k = refl
Reach-lost n work s (next {r = r} before step) k =
    Step-lost n r s step (λ c. Reach-lost n work r before c) k
