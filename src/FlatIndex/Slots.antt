-- ===== src/FlatIndex/Slots.antt =====
-- internal/adapter/flatindex/scan.go: the slots of a file, with their distances from the query.
use sauce_dust.Prelude.{ℕ, zero, suc, ◌+◌, ◌*◌, ◌≡◌, refl, ap, List, [], ◌∷◌, ◌++◌, arith}
use sauce_dust.FlatIndex.Codes.{hamming}
use sauce_dust.FlatIndex.Scan.{Candidate, slice}

-- Slot `i` of the file, with its distance from the query.
abbrev pub at_slot : List ℕ → List ℕ → ℕ → ℕ → Candidate
at_slot bytes query code_bytes i = record {
  slot = i;
  dist = hamming (slice bytes (i * code_bytes) code_bytes) query;
}

-- The `n` slots from `i` on.
unfoldable pub slots : List ℕ → List ℕ → ℕ → ℕ → ℕ → List Candidate
slots bytes query code_bytes zero i = []
slots bytes query code_bytes (suc n) i =
    at_slot bytes query code_bytes i ∷ slots bytes query code_bytes n (suc i)

module _ (bytes query : List ℕ) (code_bytes : ℕ) where
  pub slots-append :
      (m n i : ℕ)
      → slots bytes query code_bytes (m + n) i
        ≡ slots bytes query code_bytes m i ++ slots bytes query code_bytes n (i + m)
  unfolding slots
  slots-append zero n i =
      let e : 0 + n ≡ n = omega arith in let f : i + 0 ≡ i = omega arith in rw e (rw f refl)
  slots-append (suc m) n i =
      let e : suc m + n ≡ suc (m + n) = omega arith in
      let f : i + suc m ≡ suc i + m = omega arith in
      rw e (rw f (ap (λ l. at_slot bytes query code_bytes i ∷ l) (slots-append m n (suc i))))
