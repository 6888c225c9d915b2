-- ===== src/FlatIndex/Nearest.antt =====
-- internal/adapter/flatindex/scan.go: the result of `scanRange`.
use sauce_dust.Prelude.{
  append-none, append_assoc, ℕ, zero, suc, ◌+◌, ◌-◌, ◌*◌, ◌≤◌, ◌<◌, ◌≡◌, refl, sym, subst, ◌∙◌,
  ltb→lt, true, false, some, List, [], ◌∷◌, ◌++◌, length, ltb, arith, Bool-cases, ◌⊎◌, inl, inr, ap,
}
use native.Mathlib.Nat.{mul-le-mul_right}
use sauce_dust.FlatIndex.Codes.{hamming}
use sauce_dust.FlatIndex.Scan.{
  Candidate, Sort, Chunk, Kept, nearer, keep, slice, scan_block, scan_chunks, scan_range,
  scan_chunk_slots, chunk_end,
}
use sauce_dust.FlatIndex.TopOf.{countb, IsSort, IsTop, length-sort}
use sauce_dust.FlatIndex.Scanning.{IsKept, keep-IsKept}
use sauce_dust.FlatIndex.Slots.{at_slot, slots, slots-append}
use sauce_dust.FlatIndex.Slices.{slice-slice}

-- What the scan relies on of the reader: it returns the bytes that were asked for.
pub record IsReader (chunk : Chunk) (bytes : List ℕ) : Type 0 where
  pub reads :
      (from to : ℕ)
      → from ≤ to
      → to ≤ length bytes
      → chunk from to ≡ some (slice bytes from (to - from))

append-snoc : (xs ys : List Candidate) (c : Candidate) → (xs ++ c ∷ []) ++ ys ≡ xs ++ c ∷ ys
append-snoc [] ys c = refl
append-snoc (x ∷ xs) ys c = ap (λ l. x ∷ l) (append-snoc xs ys c)

hamming_small : (a b : List ℕ) → hamming a b ≤ 65_535
unfolding hamming
hamming_small a b = omega arith

module _ (sort : Sort) (laws : IsSort sort) (chunk : Chunk) (bytes query : List ℕ)
    (code_bytes want : ℕ) (reader : IsReader chunk bytes) (some_wanted : 1 ≤ want) where
  scan_block-IsKept :
      (n start end j : ℕ) (k : Kept) (seen : List Candidate)
      → start + j + n ≡ end
      → IsKept want k seen
      → IsKept want
          (scan_block sort want query code_bytes
            (slice bytes (start * code_bytes) (end * code_bytes - start * code_bytes))
            n
            (start + j)
            j
            k)
          (seen ++ slots bytes query code_bytes n (start + j))
  unfolding scan_block slots
  scan_block-IsKept zero start end j k seen e h = rw (append-none seen) h
  scan_block-IsKept (suc n) start end j k seen e h =
      let c = at_slot bytes query code_bytes (start + j) in
      let next : start + suc j ≡ suc (start + j) = omega arith in
      let kept =
        keep-IsKept sort laws want some_wanted c k seen
          (hamming_small (slice bytes ((start + j) * code_bytes) code_bytes) query) h in
      let rest =
        scan_block-IsKept n start end (suc j) (keep sort want c k) (seen ++ c ∷ []) (omega arith)
          kept in
      rw (slice-slice bytes start end j code_bytes (omega arith)) (
        rw (sym (append-snoc seen (slots bytes query code_bytes n (suc (start + j))) c))
          (rw (sym next) rest))

  slots_split :
      (start end next hi : ℕ)
      → start ≤ end
      → (end ≡ hi) × (hi ≤ next) ⊎ (end ≡ next) × (next ≤ hi)
      → slots bytes query code_bytes (hi - start) start
        ≡ slots bytes query code_bytes (end - start) start
          ++ slots bytes query code_bytes (hi - next) next
  unfolding slots
  slots_split start end next hi h (inl (e, last)) =
      let f : hi - next ≡ 0 = omega arith in
      rw e (rw f (sym (append-none (slots bytes query code_bytes (hi - start) start))))
  slots_split start end next hi h (inr (e, more)) =
      let f : hi - start ≡ (next - start) + (hi - next) = omega arith in
      let g : start + (next - start) ≡ next = omega arith in
      rw e (
        rw f (
          subst
            (λ i.
              slots bytes query code_bytes (next - start + (hi - next)) start
              ≡ slots bytes query code_bytes (next - start) start
                ++ slots bytes query code_bytes (hi - next) i)
            g (slots-append bytes query code_bytes (next - start) (hi - next) start)))

  scan_chunks_done :
      (fuel start hi : ℕ) (k : Kept)
      → ltb start hi ≡ false
      → scan_chunks sort chunk want query code_bytes (suc fuel) start hi k ≡ some k
  unfolding scan_chunks
  scan_chunks_done fuel start hi k done = rw (done, scan_chunks) refl

  scan_chunks_round :
      (fuel start hi : ℕ) (k : Kept) (block : List ℕ)
      → ltb start hi ≡ true
      → chunk (start * code_bytes) (chunk_end start hi * code_bytes) ≡ some block
      → scan_chunks sort chunk want query code_bytes (suc fuel) start hi k
        ≡ scan_chunks sort chunk want query code_bytes fuel
            (start + scan_chunk_slots)
            hi
            (scan_block sort want query code_bytes block (chunk_end start hi - start) start 0 k)
  unfolding scan_chunks
  scan_chunks_round fuel start hi k block more read =
      rw (more, scan_chunks) (rw (read, scan_chunks) refl)

  slots_none : (i : ℕ) → slots bytes query code_bytes 0 i ≡ []
  unfolding slots
  slots_none i = refl

  chunk_end_cases :
      (start hi : ℕ)
      → (chunk_end start hi ≡ hi) × (hi ≤ start + scan_chunk_slots)
        ⊎ (chunk_end start hi ≡ start + scan_chunk_slots) × (start + scan_chunk_slots ≤ hi)
  unfolding chunk_end
  chunk_end_cases start hi = ground arith

  nothing-IsKept : IsKept want (record { best = []; worst = 65_535 }) []
  unfolding countb
  nothing-IsKept = record {
    top = record { nearest = λ t. omega arith; size = omega arith; within = λ test. omega arith };
    bound = refl;
    unfilled = λ lt. refl;
  }

  sort-IsTop :
      (k : Kept) (seen : List Candidate) → IsKept want k seen → IsTop want (sort nearer k.best) seen
  sort-IsTop k seen h = record {
    nearest = λ t. laws.same nearer (λ x. ltb x.dist t) k.best ∙ h.top.nearest t;
    size = length-sort sort laws nearer k.best ∙ h.top.size;
    within = λ test. omega (arith, laws.same nearer test k.best, h.top.within test);
  }

  IsScanned : Kept → ℕ → ℕ → List Candidate → ℕ → Type 0
  IsScanned k fuel start seen hi =
      (k' : Kept) × (scan_chunks sort chunk want query code_bytes fuel start hi k ≡ some k')
      × IsKept want k' (seen ++ slots bytes query code_bytes (hi - start) start)

  scan_chunks-IsKept :
      (fuel start hi : ℕ) (k : Kept) (seen : List Candidate)
      → hi < fuel + start
      → 1 ≤ fuel
      → hi * code_bytes ≤ length bytes
      → IsKept want k seen
      → IsScanned k fuel start seen hi
  unfolding IsScanned
  scan_chunks-IsKept zero start hi k seen enough one long h = absurd (omega arith)
  scan_chunks-IsKept (suc fuel) start hi k seen enough one long h =
      elim (Bool-cases (ltb start hi)) [
        | inr done ↦
            let e : hi - start ≡ 0 = ground arith in
            let none_left : slots bytes query code_bytes (hi - start) start ≡ [] =
              rw e (slots_none start) in
            (k, scan_chunks_done fuel start hi k done, rw none_left (rw (append-none seen) h))
        | inl more ↦
            let end = chunk_end start hi in
            let cases = chunk_end_cases start hi in
            let lt : start < hi = ltb→lt start hi more in
            let le_end : start ≤ end = ground arith in
            let le_hi : end ≤ hi = ground arith in
            let block = slice bytes (start * code_bytes) (end * code_bytes - start * code_bytes) in
            let read =
              reader.reads (start * code_bytes) (end * code_bytes)
                (mul-le-mul_right code_bytes le_end)
                (omega (arith, long, mul-le-mul_right code_bytes le_hi)) in
            let at : start + 0 ≡ start = omega arith in
            let k' = scan_block sort want query code_bytes block (end - start) start 0 k in
            let kept : IsKept want k' (seen ++ slots bytes query code_bytes (end - start) start) =
              subst
                (λ i.
                  IsKept want (scan_block sort want query code_bytes block (end - start) i 0 k)
                    (seen ++ slots bytes query code_bytes (end - start) i))
                at (scan_block-IsKept (end - start) start end 0 k seen (omega arith) h) in
            let later =
              scan_chunks-IsKept fuel (start + scan_chunk_slots) hi k'
                (seen ++ slots bytes query code_bytes (end - start) start) (omega arith)
                (omega arith) long kept in
            (
              later.0,
              scan_chunks_round fuel start hi k block more read ∙ later.1,
              rw (slots_split start end (start + scan_chunk_slots) hi le_end cases) (
                  rw
                    (sym (
                      append_assoc seen (slots bytes query code_bytes (end - start) start) (
                        slots bytes query code_bytes (hi - (start + scan_chunk_slots))
                          (start + scan_chunk_slots))))
                    later.2),
            )
      ]

  -- When every read succeeds, the scan of a range of slots within the file returns `want` of the
  -- nearest slots of that range, or all of them.
  pub scan_range-IsTop :
      (lo hi : ℕ)
      → hi * code_bytes ≤ length bytes
      → (out : List Candidate) × (scan_range sort chunk query lo hi code_bytes want ≡ some out)
        × IsTop want out (slots bytes query code_bytes (hi - lo) lo)
  unfolding scan_range IsScanned
  scan_range-IsTop lo hi long =
      let scanned =
        scan_chunks-IsKept (suc hi) lo hi (record { best = []; worst = 65_535 }) [] (omega arith)
          (omega arith) long (nothing-IsKept) in
      (
        sort nearer scanned.0.best,
        rw (scanned.1, scan_range) refl,
        sort-IsTop scanned.0 (slots bytes query code_bytes (hi - lo) lo) scanned.2,
      )
