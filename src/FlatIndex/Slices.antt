-- ===== src/FlatIndex/Slices.antt =====
-- internal/adapter/flatindex/scan.go: codes in a block that was read and in the file.
use sauce_dust.Prelude.{
  drop-none, take-take, ℕ, zero, suc, ◌+◌, ◌-◌, ◌*◌, ◌≤◌, ◌<◌, ◌≡◌, refl, List, [], ◌∷◌, take, drop,
  arith, ap, sym,
}
use native.Mathlib.Nat.{add-mul, mul-le-mul_right}
use sauce_dust.FlatIndex.Scan.{slice}

drop-drop : (a b : ℕ) (xs : List ℕ) → drop b (drop a xs) ≡ drop (a + b) xs
drop-drop zero b xs = ap (λ n. drop n xs) (omega arith)
drop-drop (suc a) b [] = rw (drop-none b) (sym (drop-none (suc a + b)))
drop-drop (suc a) b (x ∷ xs) =
    let e : suc a + b ≡ suc (a + b) = omega arith in rw e (drop-drop a b xs)

take-drop-take :
    (n b m : ℕ) (xs : List ℕ) → b + n ≤ m → take n (drop b (take m xs)) ≡ take n (drop b xs)
take-drop-take n zero m xs h = take-take n m xs (omega arith)
take-drop-take zero (suc b) m xs h = refl
take-drop-take (suc n) (suc b) zero xs h = absurd (omega arith)
take-drop-take (suc n) (suc b) (suc m) [] h = refl
take-drop-take (suc n) (suc b) (suc m) (x ∷ xs) h = take-drop-take (suc n) b m xs (omega arith)

-- Slot `j` of the block from `start` to `end` is slot `start + j` of the file.
pub slice-slice :
    (bytes : List ℕ) (start end j code_bytes : ℕ)
    → start + j < end
    → slice
        (slice bytes (start * code_bytes) (end * code_bytes - start * code_bytes))
        (j * code_bytes)
        code_bytes
      ≡ slice bytes ((start + j) * code_bytes) code_bytes
slice-slice bytes start end j c h =
    let h' : start + j + 1 ≤ end = omega arith in
    let fits : j * c + c ≤ end * c - start * c =
      omega (arith, add-mul start j c, add-mul (start + j) 1 c, mul-le-mul_right c h') in
    rw (take-drop-take c (j * c) (end * c - start * c) (drop (start * c) bytes) fits)
      (rw (drop-drop (start * c) (j * c) bytes) (rw (add-mul start j c) refl))
