-- ===== src/ClientHello/Pieces.antt =====
-- internal/adapter/netpath/clienthello.go: the pieces that `Write` sends.
use sauce_dust.Prelude.{
  append-none, drop-none, drop_all, take_all, ℕ, zero, suc, ◌-◌, ◌≤◌, ◌≡◌, refl, sym, ap, ◌∙◌, Bool,
  true, false, List, [], ◌∷◌, ◌++◌, length, take, drop, leb, ◌==◌, arith, Bool-cases, inl, inr,
  take-append-drop, length-drop,
}
use sauce_dust.ClientHello.{pieces_from, split_points, write}

unfoldable pub concat : List (List ℕ) → List ℕ
concat [] = []
concat (xs ∷ xss) = xs ++ concat xss

drop-sub : (a b : ℕ) (xs : List ℕ) → a ≤ b → drop (b - a) (drop a xs) ≡ drop b xs
drop-sub zero b xs h = ap (λ n. drop n xs) (omega arith)
drop-sub (suc a) zero xs h = absurd (omega arith)
drop-sub (suc a) (suc b) [] h = drop-none (suc b - suc a)
drop-sub (suc a) (suc b) (x ∷ xs) h =
    let e : suc b - suc a ≡ b - a = omega arith in rw e (drop-sub a b xs (omega arith))

concat-pieces_from :
    (b : List ℕ) (prev : ℕ) (points : List ℕ)
    → concat (pieces_from b prev (points ++ length b ∷ [])) ≡ drop prev b
unfolding pieces_from concat
concat-pieces_from b prev [] = elim (Bool-cases (leb (length b) prev)) [
  | inl over ↦ rw over (sym (drop_all prev b (ground arith)))
  | inr more ↦ rw more (
      append-none (take (length b - prev) (drop prev b))
      ∙ take_all (length b - prev) (drop prev b) (omega (arith, length-drop prev b)))
]
concat-pieces_from b prev (at ∷ points) = elim (Bool-cases (leb at prev)) [
  | inl behind ↦ rw behind (concat-pieces_from b prev points)
  | inr ahead ↦ rw ahead (
      rw (concat-pieces_from b at points)
        (rw (sym (drop-sub prev at b (ground arith))) (take-append-drop (at - prev) (drop prev b))))
]

-- Whatever the sorting does and whether the buffer is split or not, the pieces that are written,
-- joined in their order, are the buffer; and after it the flag is set by which no later write is split.
pub concat-write :
    (sort : List ℕ → List ℕ) (split : Bool) (parts : ℕ) (b : List ℕ)
    → (concat (write sort split parts b).0 ≡ b) × ((write sort split parts b).1 ≡ true)
unfolding write concat
concat-write sort true parts b = (append-none b, refl)
concat-write sort false parts b = elim (Bool-cases (length (split_points sort b parts) == 0)) [
  | inl whole ↦ rw whole (append-none b, refl)
  | inr cut ↦ rw cut (concat-pieces_from b 0 (split_points sort b parts), refl)
]
