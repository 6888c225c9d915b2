-- ===== src/ClientHello/Examples.antt =====
-- internal/adapter/netpath/clienthello.go: a greeting for the host "abcd", cut into five pieces.
use sauce_dust.Prelude.{
  ℕ, ◌≡◌, refl, Bool, true, false, List, [], ◌∷◌, ◌++◌, length, replicate, leb, if◌then◌else◌,
  arith, Bool-cases, inl, inr,
}
use sauce_dust.ClientHello.{
  sni_range, found, split_points, write, after_random, extensions, read_name, u8, u16, skip, add,
  seen, add_name, add_pieces,
}
use sauce_dust.ClientHello.Pieces.{concat, concat-write}
use sauce_dust.ClientHello.Points.{IsFound, sni_range-IsFound}
use sauce_dust.ClientHello.Within.{count}

unfoldable insert : ℕ → List ℕ → List ℕ
insert x [] = x ∷ []
insert x (y ∷ ys) = if leb x y then x ∷ y ∷ ys else y ∷ insert x ys

-- An insertion sort, to stand for `sort.Ints`.
unfoldable insertion_sort : List ℕ → List ℕ
unfolding insert
insertion_sort [] = []
insertion_sort (x ∷ xs) = insert x (insertion_sort xs)

count-insert :
    (test : ℕ → Bool) (x : ℕ) (ys : List ℕ) → count test (insert x ys) ≡ count test (x ∷ ys)
unfolding insert count
count-insert test x [] = refl
count-insert test x (y ∷ ys) = elim (Bool-cases (leb x y)) [
  | inl before ↦ rw before refl
  | inr after ↦ rw after (omega (arith, count-insert test x ys))
]

count-insertion_sort :
    (test : ℕ → Bool) (xs : List ℕ) → count test (insertion_sort xs) ≡ count test xs
unfolding insertion_sort count
count-insertion_sort test [] = refl
count-insertion_sort test (x ∷ xs) =
    omega (arith, count-insert test x (insertion_sort xs), count-insertion_sort test xs)

abbrev hello : List ℕ
hello =
    (0x16 ∷ 3 ∷ 1 ∷ 0 ∷ 60 ∷ 1 ∷ 0 ∷ 0 ∷ 56 ∷ 3 ∷ 3 ∷ [])
    ++ (replicate 32 7
        ++ (0 ∷ 0 ∷ 2 ∷ 0x13 ∷ 1 ∷ 1 ∷ 0 ∷ 0 ∷ 13 ∷ 0 ∷ 0 ∷ 0 ∷ 9 ∷ 0 ∷ 7 ∷ 0 ∷ 0 ∷ 4 ∷ 97 ∷ 98 ∷ 99
            ∷ 100 ∷ []))

sni_range_test : sni_range hello ≡ found 61 65
unfolding sni_range after_random extensions read_name u8 u16 skip
sni_range_test = refl

split_points_test : split_points insertion_sort hello 4 ≡ 5 ∷ 62 ∷ 63 ∷ 64 ∷ []
unfolding split_points insertion_sort insert add seen add_name add_pieces sni_range after_random
    extensions read_name u8 u16 skip
split_points_test = refl

concat-write_example :
    (concat (write insertion_sort false 4 hello).0 ≡ hello)
    × ((write insertion_sort false 4 hello).1 ≡ true)
concat-write_example = concat-write insertion_sort false 4 hello

sni_range-IsFound_example : IsFound (length hello) (sni_range hello)
sni_range-IsFound_example = sni_range-IsFound hello
