-- ===== src/FlatIndex/Scan.antt =====
-- internal/adapter/flatindex/scan.go: the scan of all codes for the nearest ones. `sort.Slice` is a
-- parameter, as is the reader of the codes; a failed read is `none`.
use sauce_dust.Prelude.{
  ℕ, zero, suc, ◌+◌, ◌-◌, ◌*◌, ◌/◌, Bool, true, false, ◌&&◌, ◌||◌, ltb, leb, ◌==◌, if◌then◌else◌,
  Option, none, some, List, [], ◌∷◌, ◌++◌, length, take, drop,
}
use sauce_dust.FlatIndex.Codes.{hamming}

pub record Candidate : Type 0 where
  pub slot : ℕ
  pub dist : ℕ

abbrev pub scan_chunk_slots : ℕ
scan_chunk_slots = 65_536

-- The two tests that the scan sorts by.
abbrev pub nearer : Candidate → Candidate → Bool
nearer a b = ltb a.dist b.dist

abbrev pub nearer_or_first : Candidate → Candidate → Bool
nearer_or_first a b = if a.dist == b.dist then ltb a.slot b.slot else ltb a.dist b.dist

abbrev pub Sort : Type 0
Sort = (Candidate → Candidate → Bool) → List Candidate → List Candidate

abbrev pub Chunk : Type 0
Chunk = ℕ → ℕ → Option (List ℕ)

-- The best so far and the threshold.
pub record Kept : Type 0 where
  pub best : List Candidate
  pub worst : ℕ

unfoldable pub dist_at : List Candidate → ℕ → ℕ
dist_at [] i = 0
dist_at (c ∷ cs) zero = c.dist
dist_at (c ∷ cs) (suc i) = dist_at cs i

unfoldable pub cut : ℕ → List Candidate → Kept
unfolding dist_at
cut want sorted = record { best = take want sorted; worst = dist_at sorted (want - 1) }

-- The body of the inner loop of `scanRange`.
unfoldable pub keep : Sort → ℕ → Candidate → Kept → Kept
unfolding cut
keep sort want c k =
    if (length k.best == want) && leb k.worst c.dist
    then k
    else if ltb want (length (k.best ++ c ∷ []))
    then cut want (sort nearer (k.best ++ c ∷ []))
    else record k { best = k.best ++ c ∷ [] }

abbrev pub slice : List ℕ → ℕ → ℕ → List ℕ
slice block off n = take n (drop off block)

-- The inner loop over the `n` slots that are left of a block, of which slot `i` is at `j`.
unfoldable pub scan_block : Sort → ℕ → List ℕ → ℕ → List ℕ → ℕ → ℕ → ℕ → Kept → Kept
unfolding keep
scan_block sort want query code_bytes block zero i j k = k
scan_block sort want query code_bytes block (suc n) i j k =
    let d = hamming (slice block (j * code_bytes) code_bytes) query in
    scan_block sort want query code_bytes block n (suc i) (suc j)
      (keep sort want (record { slot = i; dist = d }) k)

unfoldable pub chunk_end : ℕ → ℕ → ℕ
chunk_end start hi = if ltb hi (start + scan_chunk_slots) then hi else start + scan_chunk_slots

-- The outer loop, on the number of rounds it may take.
unfoldable pub scan_chunks : Sort → Chunk → ℕ → List ℕ → ℕ → ℕ → ℕ → ℕ → Kept → Option Kept
unfolding scan_block chunk_end
scan_chunks sort chunk want query code_bytes zero start hi k = none
scan_chunks sort chunk want query code_bytes (suc fuel) start hi k = elim (ltb start hi) [
  | false ↦ some k
  | true ↦
      let end = chunk_end start hi in
      elim (chunk (start * code_bytes) (end * code_bytes)) [
        | none ↦ none
        | some block ↦
            scan_chunks sort chunk want query code_bytes fuel (start + scan_chunk_slots) hi
              (scan_block sort want query code_bytes block (end - start) start 0 k)
      ]
]

unfoldable pub scan_range : Sort → Chunk → List ℕ → ℕ → ℕ → ℕ → ℕ → Option (List Candidate)
unfolding scan_chunks
scan_range sort chunk query lo hi code_bytes want =
    elim (scan_chunks sort chunk want query code_bytes (suc hi) lo hi
      (record { best = []; worst = 65_535 })) [ none ↦ none | some k ↦ some (sort nearer k.best) ]

-- The parts of the workers `w` on, each of `per` slots.
unfoldable pub parts : ℕ → ℕ → ℕ → ℕ → List (ℕ × ℕ)
parts zero w per count = []
parts (suc n) w per count =
    let lo = w * per in
    let hi = if ltb count (lo + per) then count else lo + per in
    let rest = parts n (suc w) per count in if leb hi lo then rest else (lo, hi) ∷ rest

-- The results in the order in which the workers come to the lock.
unfoldable pub gather : Sort → Chunk → List ℕ → ℕ → ℕ → List (ℕ × ℕ) → Option (List Candidate)
unfolding scan_range
gather sort chunk query code_bytes want [] = some []
gather sort chunk query code_bytes want ((lo, hi) ∷ rest) =
    elim (scan_range sort chunk query lo hi code_bytes want) [
      | none ↦ none
      | some part ↦ elim (gather sort chunk query code_bytes want rest) [
        | none ↦ none
        | some all ↦ some (part ++ all)
      ]
    ]

-- `scan` on `procs` processors; `order` is the order in which the workers finish.
unfoldable pub scan :
    Sort → Chunk → ℕ → (List (ℕ × ℕ) → List (ℕ × ℕ)) → List ℕ → ℕ → ℕ → ℕ → Option (List Candidate)
unfolding parts gather
scan sort chunk procs order query count code_bytes want =
    if (count == 0) || (want == 0)
    then some []
    else let workers = if ltb count procs then count else procs in
      let per = (count + workers - 1) / workers in
      elim (gather sort chunk query code_bytes want (order (parts workers 0 per count))) [
        | none ↦ none
        | some all ↦
            let sorted = sort nearer_or_first all in
            some (if ltb want (length sorted) then take want sorted else sorted)
      ]
