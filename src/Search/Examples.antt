-- ===== src/Search/Examples.antt =====
-- internal/app/search.go: an insertion sort for `sort.SliceStable`, and three hits.
use sauce_dust.Prelude.{
  ℕ, suc, ◌≡◌, refl, sym, ap, ◌∙◌, subst, ◌&&◌, ◌||◌, not, ltb, if◌then◌else◌, Bool, true, false,
  Option, none, some, List, [], ◌∷◌, length, arith, Bool-cases, inl, inr, min,
}
use sauce_dust.Domain.Vectors.{EmbeddingModel, copy}
use sauce_dust.Search.{Hit, new_search, Sort, before, same_flag, differs, closer, rank}
use sauce_dust.Search.Query.{query_vector, entry, ask_worker, embed_failed}
use sauce_dust.Search.Exact.{any_exact, IsSorted, IsSort, rank-any_exact}

unfoldable insert : (Hit → Hit → Bool) → Hit → List Hit → List Hit
insert less x [] = x ∷ []
insert less x (y ∷ ys) = let rest = insert less x ys in if less y x then y ∷ rest else x ∷ y ∷ ys

unfoldable insertion_sort : Sort
unfolding insert
insertion_sort less [] = []
insertion_sort less (x ∷ xs) = insert less x (insertion_sort less xs)

or_swap : (a b c : Bool) → (a || (b || c)) ≡ (b || (a || c))
or_swap true true c = refl
or_swap true false c = refl
or_swap false b c = refl

any_exact-insert :
    (less : Hit → Hit → Bool) (x : Hit) (ys : List Hit)
    → any_exact (insert less x ys) ≡ (x.exact || any_exact ys)
unfolding any_exact insert
any_exact-insert less x [] = refl
any_exact-insert less x (y ∷ ys) = elim (Bool-cases (less y x)) [
  | inl e ↦
      rw e (
        ap (λ k. y.exact || k) (any_exact-insert less x ys)
        ∙ or_swap y.exact x.exact (any_exact ys))
  | inr e ↦ rw e refl
]

any_exact-insertion_sort :
    (less : Hit → Hit → Bool) (xs : List Hit) → any_exact (insertion_sort less xs) ≡ any_exact xs
unfolding any_exact insertion_sort
any_exact-insertion_sort less [] = refl
any_exact-insertion_sort less (x ∷ xs) =
    any_exact-insert less x (insertion_sort less xs)
    ∙ ap (λ k. x.exact || k) (any_exact-insertion_sort less xs)

length-insert :
    (less : Hit → Hit → Bool) (x : Hit) (ys : List Hit)
    → length (insert less x ys) ≡ suc (length ys)
unfolding insert
length-insert less x [] = refl
length-insert less x (y ∷ ys) = elim (Bool-cases (less y x)) [
  | inl e ↦ rw e (ap suc (length-insert less x ys))
  | inr e ↦ rw e refl
]

length-insertion_sort :
    (less : Hit → Hit → Bool) (xs : List Hit) → length (insertion_sort less xs) ≡ length xs
unfolding insertion_sort
length-insertion_sort less [] = refl
length-insertion_sort less (x ∷ xs) =
    length-insert less x (insertion_sort less xs) ∙ ap suc (length-insertion_sort less xs)

module _ (less : Hit → Hit → Bool)
    (one_way : (a b : Hit) → less a b ≡ true → less b a ≡ false) where
  insert_on :
      (x z : Hit) (zs : List Hit) → less z x ≡ true → insert less x (z ∷ zs) ≡ z ∷ insert less x zs
  unfolding insert
  insert_on x z zs e = rw e refl

  insert_here : (x z : Hit) (zs : List Hit) → less z x ≡ false → insert less x (z ∷ zs) ≡ x ∷ z ∷ zs
  unfolding insert
  insert_here x z zs e = rw e refl

  insert_alone : (x : Hit) → insert less x [] ≡ x ∷ []
  unfolding insert
  insert_alone x = refl

  insert-after :
      (y x : Hit) (ys : List Hit)
      → less y x ≡ true
      → IsSorted less (y ∷ ys)
      → IsSorted less (insert less x ys)
      → IsSorted less (y ∷ insert less x ys)
  insert-after y x [] e sorted rest =
      subst (λ k. IsSorted less (y ∷ k)) (sym (insert_alone x)) (one_way y x e, tt)
  insert-after y x (z ∷ zs) e sorted rest = elim (Bool-cases (less z x)) [
    | inl f ↦
        let is = insert_on x z zs f in
        subst (λ k. IsSorted less (y ∷ k)) (sym is) (sorted.0, subst (IsSorted less) is rest)
    | inr f ↦
        subst (λ k. IsSorted less (y ∷ k)) (sym (insert_here x z zs f))
          (one_way y x e, (f, sorted.1))
  ]

  tail-IsSorted : (y : Hit) (ys : List Hit) → IsSorted less (y ∷ ys) → IsSorted less ys
  tail-IsSorted y [] h = tt
  tail-IsSorted y (z ∷ zs) h = h.1

  insert-IsSorted : (x : Hit) (ys : List Hit) → IsSorted less ys → IsSorted less (insert less x ys)
  insert-IsSorted x [] h = subst (IsSorted less) (sym (insert_alone x)) tt
  insert-IsSorted x (y ∷ ys) h = elim (Bool-cases (less y x)) [
    | inl e ↦
        subst (IsSorted less) (sym (insert_on x y ys e))
          (insert-after y x ys e h (insert-IsSorted x ys (tail-IsSorted y ys h)))
    | inr e ↦ subst (IsSorted less) (sym (insert_here x y ys e)) (e, h)
  ]

  insertion_sort-IsSorted : (xs : List Hit) → IsSorted less (insertion_sort less xs)
  unfolding insertion_sort
  insertion_sort-IsSorted [] = tt
  insertion_sort-IsSorted (x ∷ xs) =
      insert-IsSorted x (insertion_sort less xs) (insertion_sort-IsSorted xs)

  insertion_sort-IsSort : IsSort insertion_sort less
  insertion_sort-IsSort = record {
    keeps = any_exact-insertion_sort less;
    keeps_length = length-insertion_sort less;
    sorts = insertion_sort-IsSorted;
  }

abbrev above : ℕ → ℕ → Bool
above a b = ltb b a

differs_sym : (a b : Option ℕ) → differs a b ≡ differs b a
unfolding differs
differs_sym (some a) (some b) = ground arith
differs_sym none (some b) = refl
differs_sym (some a) none = refl
differs_sym none none = refl

closer_one_way : (a b : Option ℕ) → closer a b ≡ true → closer b a ≡ false
unfolding closer
closer_one_way (some a) (some b) e = ground arith
closer_one_way none (some b) e = refl
closer_one_way (some a) none e = absurd (ground arith)
closer_one_way none none e = absurd (ground arith)

above_one_way : (a b : ℕ) → above a b ≡ true → above b a ≡ false
above_one_way a b e = ground arith

-- The comparison on its parts.
abbrev order : Bool → Bool → Option ℕ → Option ℕ → ℕ → ℕ → Bool
order x y d e s t =
    if not (same_flag x y) then x else if x && (y && differs d e) then closer d e else above s t

order_one_way :
    (x y : Bool) (d e : Option ℕ) (s t : ℕ) → order x y d e s t ≡ true → order y x e d t s ≡ false
unfolding same_flag
order_one_way true true d e s t h = elim (Bool-cases (differs d e)) [
  | inl f ↦ rw (differs_sym e d, f) (closer_one_way d e (sym (rw f refl) ∙ h))
  | inr f ↦ rw (differs_sym e d, f) (above_one_way s t (sym (rw f refl) ∙ h))
]
order_one_way true false d e s t h = refl
order_one_way false true d e s t h = absurd (ground arith)
order_one_way false false d e s t h = above_one_way s t h

before_one_way : (a b : Hit) → before above a b ≡ true → before above b a ≡ false
unfolding before
before_one_way a b h =
    order_one_way a.exact b.exact a.hash_distance b.hash_distance a.score b.score h

abbrev three_hits : List Hit
three_hits =
    record { image_id = 1; score = 9; hash_distance = some 30; exact = false }
    ∷ record { image_id = 2; score = 4; hash_distance = some 2; exact = true }
    ∷ record { image_id = 3; score = 5; hash_distance = none; exact = false }
    ∷ []

rank-any_exact_example :
    ((rank insertion_sort above 2 three_hits).exact_match ≡ any_exact three_hits)
    × (length (rank insertion_sort above 2 three_hits).hits ≡ min 2 (length three_hits))
rank-any_exact_example =
    rank-any_exact insertion_sort above 2 three_hits
      (insertion_sort-IsSort (before above) before_one_way) (omega arith)

defaults_test :
    new_search (record { candidates = 3; limit = 0 }) ≡ record { candidates = 20; limit = 5 }
unfolding new_search
defaults_test = refl

abbrev small : EmbeddingModel
small = record {
  id = "small";
  kind = copy;
  backend = "";
  checkpoint = "";
  vector_size = 1;
  distance = "";
  collection = "small";
  input_size = 1;
  active = true;
}

-- An entry of the cache without a hash is not used.
old_entry_test : query_vector (entry (7 ∷ []) []) small none ≡ embed_failed
unfolding query_vector ask_worker
old_entry_test = refl
