-- ===== src/ClientHello/Within.antt =====
-- internal/adapter/netpath/clienthello.go: where `splitPoints` cuts the buffer.
use sauce_dust.Prelude.{
  ℕ, zero, suc, ◌+◌, ◌-◌, ◌*◌, ◌/◌, ◌≡◌, refl, ◌∙◌, Bool, true, not, ◌&&◌, List, [], ◌∷◌, ◌++◌,
  length, ltb, leb, if◌then◌else◌, arith, Bool-cases, inl, inr,
}
use sauce_dust.ClientHello.{
  Range, found, no_sni, out_of_fuel, sni_range, seen, add, add_pieces, add_name, split_points,
}

unfoldable pub count : (ℕ → Bool) → List ℕ → ℕ
count test [] = 0
count test (x ∷ xs) = (if test x then 1 else 0) + count test xs

-- A point at which a buffer of `n` bytes has nothing before it or nothing after it.
abbrev pub is_outside : ℕ → ℕ → Bool
is_outside n at = not (ltb 0 at && ltb at n)

count-append :
    (test : ℕ → Bool) (xs ys : List ℕ) → count test (xs ++ ys) ≡ count test xs + count test ys
unfolding count
count-append test [] ys = omega arith
count-append test (x ∷ xs) ys = omega (arith, count-append test xs ys)

count-one : (n at : ℕ) → ltb 0 at ≡ true → ltb at n ≡ true → count (is_outside n) (at ∷ []) ≡ 0
unfolding count
count-one n at lo hi = rw lo (rw hi refl)

count-add :
    (n at : ℕ) (points : List ℕ)
    → count (is_outside n) (add n at points) ≡ count (is_outside n) points
unfolding add
count-add n at points = elim (Bool-cases (ltb 0 at)) [
  | inr first ↦ rw first refl
  | inl lo ↦ elim (Bool-cases (ltb at n)) [
    | inr last ↦ rw lo (rw last refl)
    | inl hi ↦ elim (Bool-cases (seen at points)) [
      | inl again ↦ rw lo (rw hi (rw again refl))
      | inr fresh ↦ rw lo (
          rw hi (
            rw fresh
              (omega (arith, count-append (is_outside n) points (at ∷ []), count-one n at lo hi))))
    ]
  ]
]

count-add_pieces :
    (pieces n i start end width : ℕ) (points : List ℕ)
    → count (is_outside n) (add_pieces pieces n i start end width points)
      ≡ count (is_outside n) points
unfolding add_pieces
count-add_pieces zero n i start end width points = refl
count-add_pieces (suc pieces) n i start end width points =
    elim (Bool-cases (ltb (start + i * width) end)) [
      | inr over ↦ rw (over, add_pieces) refl
      | inl more ↦
          rw (more, add_pieces)
            (count-add_pieces pieces n (suc i) start end width (add n (start + i * width) points)
              ∙ count-add n (start + i * width) points)
    ]

count-add_name :
    (n parts : ℕ) (r : Range) (points : List ℕ)
    → count (is_outside n) (add_name n parts r points) ≡ count (is_outside n) points
unfolding add_name
count-add_name n parts (found start end) points = elim (Bool-cases (leb 2 (end - start))) [
  | inr short ↦ rw short refl
  | inl long ↦
      let pieces = if ltb (end - start) (parts - 1) then end - start else parts - 1 in
      let width = (end - start) / (pieces + 1) in
      rw long (count-add_pieces pieces n 1 start end (if ltb width 1 then 1 else width) points)
]
count-add_name n parts no_sni points = refl
count-add_name n parts out_of_fuel points = refl

-- When the sorting returns the elements that it is given, each as often, then for every buffer all
-- points at which it is cut have at least a byte before and after them.
pub split_points_inside :
    (sort : List ℕ → List ℕ) (b : List ℕ) (parts : ℕ)
    → ((test : ℕ → Bool) (xs : List ℕ) → count test (sort xs) ≡ count test xs)
    → count (is_outside (length b)) (split_points sort b parts) ≡ 0
unfolding split_points count
split_points_inside sort b raw_parts same = elim (Bool-cases (ltb (length b) 10)) [
  | inl short ↦ rw short refl
  | inr long ↦
      let parts = if ltb raw_parts 2 then 2 else raw_parts in
      let header = add (length b) 5 [] in
      rw long (
        same (is_outside (length b)) (add_name (length b) parts (sni_range b) header)
        ∙ count-add_name (length b) parts (sni_range b) header
        ∙ count-add (length b) 5 [])
]
