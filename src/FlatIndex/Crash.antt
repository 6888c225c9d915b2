-- ===== src/FlatIndex/Crash.antt =====
-- internal/adapter/flatindex/collection.go: a collection that is opened after `append` stopped.
use sauce_dust.Prelude.{
  append-none, take_all, drop_all, take-take, ℕ, zero, suc, ◌+◌, ◌*◌, ◌/◌, ◌≤◌, ◌≡◌, refl, ap,
  subst, false, ◌==◌, List, [], ◌∷◌, ◌++◌, length, take, min, arith, Bool-cases, inl, inr,
  length-append, length-take,
}
use native.Mathlib.Nat.{add-mul, add-mul-div_right, mul-div_cancel}
use sauce_dust.FlatIndex.Files.{
  Disk, Collection, Stop, in_codes, in_ids, finished, write_at, write_points, open_files,
  usable_slots, truncated,
}

take-append :
    (n m k : ℕ) (xs ys : List ℕ) → length xs ≡ n → m ≡ n + k → take m (xs ++ ys) ≡ xs ++ take k ys
take-append n m k [] ys e f = ap (λ i. take i ys) (omega arith)
take-append n zero k (x ∷ xs) ys e f = absurd (omega arith)
take-append zero (suc m) k (x ∷ xs) ys e f = absurd (omega arith)
take-append (suc n) (suc m) k (x ∷ xs) ys e f =
    ap (λ l. x ∷ l) (take-append n m k xs ys (omega arith) (omega arith))

take_none : {n : ℕ} (xs ys : List ℕ) → n ≡ 0 → take n xs ≡ take n ys
take_none xs ys e = rw e refl

plus_comm : (a b c : ℕ) → (a + b) / c ≡ (b + a) / c
plus_comm a b c = ap (λ x. x / c) (omega arith)

-- A write at the end of a file.
write_at_end :
    (file : List ℕ) (off : ℕ) (buf : List ℕ)
    → length file ≡ off
    → write_at file off buf ≡ file ++ buf
unfolding write_at
write_at_end file off buf e =
    rw (take_all off file (omega arith))
      (rw (drop_all (off + length buf) file (omega arith)) (append-none (file ++ buf)))

abbrev cut_disk : ℕ → ℕ → Disk → Disk
cut_disk slots code_bytes d = record {
  codes = take (slots * code_bytes) d.codes;
  ids = take (slots * 8) d.ids;
}

truncated_cuts :
    (slots code_bytes : ℕ) (d : Disk)
    → truncated false slots code_bytes d ≡ cut_disk slots code_bytes d
unfolding truncated
truncated_cuts slots code_bytes d = elim (Bool-cases (length d.codes == slots * code_bytes)) [
  | inr off ↦ rw off refl
  | inl even ↦ elim (Bool-cases (length d.ids == slots * 8)) [
    | inr off ↦ rw even (rw off refl)
    | inl whole ↦ rw even (
        rw whole (
          rw (take_all (slots * code_bytes) d.codes (ground arith))
            (rw (take_all (slots * 8) d.ids (ground arith)) refl)))
  ]
]

-- Both files hold exactly `count` slots.
pub record IsEven (c : Collection) : Type 0 where
  pub codes_length : length c.disk.codes ≡ c.count * c.code_bytes
  pub ids_length : length c.disk.ids ≡ c.count * 8

-- The files after `k` more slots.
abbrev pub with_slots : Collection → ℕ → List ℕ → List ℕ → Disk
with_slots c k code_buf id_buf = record {
  codes = c.disk.codes ++ take (k * c.code_bytes) code_buf;
  ids = c.disk.ids ++ take (k * 8) id_buf;
}

-- Opening the collection again finds the slots of before and the first `k` of the new ones.
abbrev pub Reopened : Stop → Collection → ℕ → List ℕ → List ℕ → Type 0
Reopened stop c n code_buf id_buf =
    (k : ℕ) × (k ≤ n)
    × (open_files false c.code_bytes (write_points stop c n code_buf id_buf).0.disk
        ≡ (with_slots c k code_buf id_buf, c.count + k))

module _ (c : Collection) (n : ℕ) (code_buf id_buf : List ℕ) (even : IsEven c)
    (some_bytes : 1 ≤ c.code_bytes) (codes_n : length code_buf ≡ n * c.code_bytes)
    (ids_n : length id_buf ≡ n * 8) where
  grown :
      (k : ℕ) (cs is : List ℕ)
      → usable_slots c.code_bytes (record { codes = c.disk.codes ++ cs; ids = c.disk.ids ++ is })
        ≡ c.count + k
      → take (k * c.code_bytes) cs ≡ take (k * c.code_bytes) code_buf
      → take (k * 8) is ≡ take (k * 8) id_buf
      → open_files false c.code_bytes
          (record { codes = c.disk.codes ++ cs; ids = c.disk.ids ++ is })
        ≡ (with_slots c k code_buf id_buf, c.count + k)
  unfolding open_files
  grown k cs is e same_codes same_ids =
      let cut_codes =
        take-append (c.count * c.code_bytes) ((c.count + k) * c.code_bytes) (k * c.code_bytes)
          c.disk.codes cs even.codes_length (add-mul c.count k c.code_bytes) in
      let cut_ids =
        take-append (c.count * 8) ((c.count + k) * 8) (k * 8) c.disk.ids is even.ids_length
          (omega arith) in
      rw e (
        rw
          (truncated_cuts (c.count + k) c.code_bytes
            (record { codes = c.disk.codes ++ cs; ids = c.disk.ids ++ is }))
          (rw cut_codes (rw cut_ids (rw same_codes (rw same_ids refl)))))

  usable :
      (k : ℕ) (cs is : List ℕ)
      → min (length is / 8) (length cs / c.code_bytes) ≡ k
      → usable_slots c.code_bytes (record { codes = c.disk.codes ++ cs; ids = c.disk.ids ++ is })
        ≡ c.count + k
  unfolding usable_slots
  usable k cs is e =
      let codes : length (c.disk.codes ++ cs) / c.code_bytes ≡ c.count + length cs / c.code_bytes =
        rw (length-append c.disk.codes cs) (
          rw even.codes_length (
            omega (
              arith,
              add-mul-div_right (length cs) c.count {z = c.code_bytes} some_bytes,
              plus_comm (c.count * c.code_bytes) (length cs) c.code_bytes,
            ))) in
      let ids : length (c.disk.ids ++ is) / 8 ≡ c.count + length is / 8 =
        omega (arith, length-append c.disk.ids is, even.ids_length) in
      rw codes (rw ids (ground arith))

  reopen_codes : (p : ℕ) → Reopened (in_codes p) c n code_buf id_buf
  unfolding write_points open_files
  reopen_codes p =
      let stays : usable_slots c.code_bytes
            (record { codes = c.disk.codes ++ take p code_buf; ids = c.disk.ids ++ [] })
          ≡ c.count + 0 =
        usable 0 (take p code_buf) [] (omega arith) in
      let e =
        grown 0 (take p code_buf) [] stays
          (take_none {n = 0 * c.code_bytes} (take p code_buf) code_buf (omega arith))
          (take_none {n = 0 * 8} [] id_buf (omega arith)) in
      (
        0,
        omega arith,
        rw (write_at_end c.disk.codes (c.count * c.code_bytes) (take p code_buf) even.codes_length)
            (subst
              (λ l.
                open_files false c.code_bytes
                  (record { codes = c.disk.codes ++ take p code_buf; ids = l })
                ≡ (with_slots c 0 code_buf id_buf, c.count + 0))
              (append-none c.disk.ids) e),
      )

  reopen_ids : (q : ℕ) → Reopened (in_ids q) c n code_buf id_buf
  unfolding write_points open_files
  reopen_ids q =
      let k = min (q / 8) n in
      let full : length code_buf / c.code_bytes ≡ n = rw codes_n (mul-div_cancel n some_bytes) in
      let found =
        usable k code_buf (take q id_buf) (omega (arith, full, length-take q id_buf, ids_n)) in
      (
        k,
        omega arith,
        rw (write_at_end c.disk.codes (c.count * c.code_bytes) code_buf even.codes_length) (
            rw (write_at_end c.disk.ids (c.count * 8) (take q id_buf) even.ids_length) (
              grown k code_buf (take q id_buf) found refl
                (take-take (k * 8) q id_buf (omega arith)))),
      )

  reopen_finished : Reopened finished c n code_buf id_buf
  unfolding write_points open_files
  reopen_finished =
      let full : length code_buf / c.code_bytes ≡ n = rw codes_n (mul-div_cancel n some_bytes) in
      let found = usable n code_buf id_buf (omega (arith, full, ids_n)) in
      (
        n,
        omega arith,
        rw (write_at_end c.disk.codes (c.count * c.code_bytes) code_buf even.codes_length) (
            rw (write_at_end c.disk.ids (c.count * 8) id_buf even.ids_length)
              (grown n code_buf id_buf found refl refl)),
      )

  pub reopen : (stop : Stop) → Reopened stop c n code_buf id_buf
  reopen (in_codes p) = reopen_codes p
  reopen (in_ids q) = reopen_ids q
  reopen finished = reopen_finished
