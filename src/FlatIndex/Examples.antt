-- ===== src/FlatIndex/Examples.antt =====
-- internal/adapter/flatindex: a file of four codes of two bytes, searched by three workers.
use sauce_dust.Prelude.{
  ℕ, ◌+◌, ◌-◌, ◌≤◌, ◌≡◌, refl, Bool, true, false, some, List, [], ◌∷◌, ◌++◌, arith, if◌then◌else◌,
  Bool-cases, inl, inr,
}
use sauce_dust.FlatIndex.Codes.{encode, encode_from, hamming, le64}
use sauce_dust.FlatIndex.Differing.{bits_apart}
use sauce_dust.FlatIndex.Hamming.{IsBytes, hamming-apart}
use sauce_dust.FlatIndex.Scan.{Candidate, Sort, Chunk, nearer, nearer_or_first, slice, scan}
use sauce_dust.FlatIndex.TopOf.{countb, IsSort, IsSorted, IsFirst, IsTop}
use sauce_dust.FlatIndex.Slots.{slots}
use sauce_dust.FlatIndex.Nearest.{IsReader}
use sauce_dust.FlatIndex.Files.{
  Disk, Collection, VectorPoint, pos, in_ids, append, append_buffers, buffers, add_point, id_bytes,
  open_files, usable_slots, truncated, write_points, write_at, slot_pair,
}
use sauce_dust.FlatIndex.Crash.{with_slots}
use sauce_dust.FlatIndex.Appended.{append-Reopened}
use sauce_dust.FlatIndex.Workers.{IsOrder, scan-IsTop}

-- An insertion sort, to stand for `sort.Slice`.
unfoldable insert : (Candidate → Candidate → Bool) → Candidate → List Candidate → List Candidate
insert less c [] = c ∷ []
insert less c (x ∷ xs) = if less c x then c ∷ x ∷ xs else x ∷ insert less c xs

unfoldable insertion_sort : Sort
unfolding insert
insertion_sort less [] = []
insertion_sort less (c ∷ cs) = insert less c (insertion_sort less cs)

countb-insert :
    (less : Candidate → Candidate → Bool) (test : Candidate → Bool) (c : Candidate)
    (cs : List Candidate)
    → countb test (insert less c cs) ≡ countb test (c ∷ cs)
unfolding insert countb
countb-insert less test c [] = refl
countb-insert less test c (x ∷ xs) = elim (Bool-cases (less c x)) [
  | inl before ↦ rw before refl
  | inr after ↦ rw after (omega (arith, countb-insert less test c xs))
]

countb-insertion_sort :
    (less : Candidate → Candidate → Bool) (test : Candidate → Bool) (cs : List Candidate)
    → countb test (insertion_sort less cs) ≡ countb test cs
unfolding insertion_sort countb
countb-insertion_sort less test [] = refl
countb-insertion_sort less test (c ∷ cs) =
    omega (
      arith,
      countb-insert less test c (insertion_sort less cs),
      countb-insertion_sort less test cs,
    )

module _ (less : Candidate → Candidate → Bool)
    (asym : (a b : Candidate) → less a b ≡ true → less b a ≡ false)
    (trans : (a b c : Candidate) → less b a ≡ false → less c b ≡ false → less c a ≡ false) where
  IsFirst-of :
      (c x : Candidate) (cs : List Candidate)
      → less x c ≡ false
      → IsFirst less x cs
      → IsFirst less c cs
  unfolding IsFirst
  IsFirst-of c x [] h first = tt
  IsFirst-of c x (y ∷ cs) h first = (trans c x y h first.0, IsFirst-of c x cs h first.1)

  insert-IsFirst :
      (x c : Candidate) (cs : List Candidate)
      → less c x ≡ false
      → IsFirst less x cs
      → IsFirst less x (insert less c cs)
  unfolding IsFirst insert
  insert-IsFirst x c [] h first = (h, tt)
  insert-IsFirst x c (y ∷ cs) h first = elim (Bool-cases (less c y)) [
    | inl before ↦ rw before (h, first)
    | inr after ↦ rw after (first.0, insert-IsFirst x c cs h first.1)
  ]

  insert-IsSorted :
      (c : Candidate) (cs : List Candidate) → IsSorted less cs → IsSorted less (insert less c cs)
  unfolding IsSorted IsFirst insert
  insert-IsSorted c [] h = (tt, tt)
  insert-IsSorted c (x ∷ cs) h = elim (Bool-cases (less c x)) [
    | inl before ↦ rw before ((asym c x before, IsFirst-of c x cs (asym c x before) h.0), h)
    | inr after ↦ rw after (insert-IsFirst x c cs after h.0, insert-IsSorted c cs h.1)
  ]

  insertion_sort-IsSorted : (cs : List Candidate) → IsSorted less (insertion_sort less cs)
  unfolding insertion_sort IsSorted
  insertion_sort-IsSorted [] = tt
  insertion_sort-IsSorted (c ∷ cs) =
      insert-IsSorted c (insertion_sort less cs) (insertion_sort-IsSorted cs)

insertion_sort-IsSort : IsSort insertion_sort
insertion_sort-IsSort = record {
  same = countb-insertion_sort;
  nearer-IsSorted =
      insertion_sort-IsSorted nearer (λ a b h. ground arith) (λ a b c h h'. ground arith);
  nearer_or_first-IsSorted =
      insertion_sort-IsSorted nearer_or_first (λ a b h. ground arith) (λ a b c h h'. ground arith);
}

abbrev codes : List ℕ
codes = 0 ∷ 0 ∷ 255 ∷ 1 ∷ 3 ∷ 0 ∷ 0 ∷ 128 ∷ []

abbrev query_code : List ℕ
query_code = 1 ∷ 0 ∷ []

abbrev chunk : Chunk
chunk from to = some (slice codes from (to - from))

chunk-IsReader : IsReader chunk codes
chunk-IsReader = record { reads = λ from to h long. refl }

abbrev in_turn : List (ℕ × ℕ) → List (ℕ × ℕ)
in_turn ps = ps

in_turn-IsOrder : IsOrder in_turn
in_turn-IsOrder = record { once = λ weight ps. refl }

encode_test :
    encode (true ∷ false ∷ true ∷ true ∷ false ∷ false ∷ false ∷ false ∷ true ∷ []) 2 ≡ 13 ∷ 1 ∷ []
unfolding encode encode_from
encode_test = refl

hamming-apart_example : hamming query_code (255 ∷ 1 ∷ []) ≡ bits_apart query_code (255 ∷ 1 ∷ [])
unfolding IsBytes
hamming-apart_example =
    hamming-apart query_code (255 ∷ 1 ∷ []) (omega arith, (omega arith, tt))
      (omega arith, (omega arith, tt)) refl (omega arith)

scan-IsTop_example :
    (out : List Candidate) × (scan insertion_sort chunk 3 in_turn query_code 4 2 2 ≡ some out)
    × IsTop 2 out (slots codes query_code 2 4 0)
scan-IsTop_example =
    scan-IsTop insertion_sort insertion_sort-IsSort chunk codes query_code 2 2 chunk-IsReader
      (omega arith) 3 4 in_turn in_turn-IsOrder (omega arith) (omega arith)

abbrev ids_of : ℕ → List ℕ
ids_of n = n ∷ 0 ∷ 0 ∷ 0 ∷ 0 ∷ 0 ∷ 0 ∷ 0 ∷ []

abbrev nine_rest : List Bool
nine_rest = false ∷ true ∷ true ∷ false ∷ false ∷ false ∷ false ∷ true ∷ []

-- Two points behind a collection of four slots, stopped within the second identifier.
abbrev collection : Collection
collection = record {
  vector_size = 9;
  code_bytes = 2;
  disk = record { codes = codes; ids = ids_of 10 ++ ids_of 11 ++ ids_of 12 ++ ids_of 13 };
  count = 4;
}

abbrev nine : List Bool
nine = true ∷ false ∷ true ∷ true ∷ false ∷ false ∷ false ∷ false ∷ true ∷ []

abbrev points : List VectorPoint
points =
    record { image_id = pos 20; vector = nine } ∷ record { image_id = pos 21; vector = nine } ∷ []

append-Reopened_example :
    (k : ℕ) × (k ≤ 2)
    × (open_files false 2 (append (in_ids 11) collection points).0.disk
        ≡ (with_slots collection k (13 ∷ 1 ∷ 13 ∷ 1 ∷ []) (ids_of 20 ++ ids_of 21), 4 + k))
unfolding buffers add_point encode encode_from id_bytes
append-Reopened_example =
    append-Reopened (in_ids 11) collection points (13 ∷ 1 ∷ 13 ∷ 1 ∷ [], ids_of 20 ++ ids_of 21)
      (record { codes_length = refl; ids_length = refl }) (omega arith) refl

reopened_test : (open_files false 2 (append (in_ids 11) collection points).0.disk).1 ≡ 5
unfolding open_files usable_slots append append_buffers buffers add_point encode encode_from
    id_bytes write_points write_at
reopened_test = refl

-- After an append whose identifiers stop half way, a second one that stops before its identifiers
-- leaves its code beside the identifier of the first.
abbrev twice : Disk
twice =
    let first = (append (in_ids 8) collection points).0 in
    (append (in_ids 0) first (record { image_id = pos 30; vector = false ∷ nine_rest } ∷ [])).0.disk

stale_identifier_test : slot_pair 2 (open_files false 2 twice).0 4 ≡ (12 ∷ 1 ∷ [], 20)
unfolding slot_pair open_files usable_slots truncated append append_buffers buffers add_point encode
    encode_from id_bytes write_points write_at le64
stale_identifier_test = refl
