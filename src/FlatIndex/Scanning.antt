-- ===== src/FlatIndex/Scanning.antt =====
-- internal/adapter/flatindex/scan.go: what the scan keeps from slot to slot.
use sauce_dust.Prelude.{
  ℕ, zero, suc, ◌-◌, ◌≤◌, ◌<◌, ◌≡◌, true, false, List, [], ◌∷◌, ◌++◌, length, take, ltb, leb, arith,
  Bool-cases, inl, inr, ◌==◌, length-take, length-append,
}
use sauce_dust.FlatIndex.Scan.{Candidate, Sort, nearer, dist_at, Kept, keep, cut}
use sauce_dust.FlatIndex.TopOf.{
  countb, below, IsSort, IsSorted, IsTop, nearer-IsByDist, countb-append, countb-take, below_most,
  below_mono, length-sort, below-take, dist_at_farthest,
}

-- What holds after each round: the best of the slots seen so far are kept, none of them farther
-- than the threshold.
pub record IsKept (want : ℕ) (k : Kept) (seen : List Candidate) : Type 0 where
  pub top : IsTop want k.best seen
  pub bound : below (suc k.worst) k.best ≡ length k.best
  pub unfilled : length k.best < want → k.worst ≡ 65_535

farthest_kept :
    (want : ℕ) (s : List Candidate)
    → 1 ≤ want
    → want ≤ length s
    → IsSorted nearer s
    → below (suc (dist_at s (want - 1))) (take want s) ≡ want
farthest_kept zero s one long h = absurd (omega arith)
farthest_kept (suc n) s one long h =
    let e : suc n - 1 ≡ n = omega arith in
    rw e (dist_at_farthest nearer nearer-IsByDist n s h (omega arith))

module _ (sort : Sort) (laws : IsSort sort) (want : ℕ) (some_wanted : 1 ≤ want) where
  skip-IsKept :
      (c : Candidate) (k : Kept) (seen : List Candidate)
      → IsKept want k seen
      → length k.best ≡ want
      → k.worst ≤ c.dist
      → IsKept want k (seen ++ c ∷ [])
  unfolding countb
  skip-IsKept c k seen h full far = record {
    top = record {
      nearest = λ t. ground (
        arith,
        h.top.nearest t,
        countb-append (λ x. ltb x.dist t) seen (c ∷ []),
        below_mono (suc k.worst) t k.best,
        below_most t k.best,
        h.bound,
      );
      size = ground (arith, h.top.size, length-append seen (c ∷ []));
      within = λ test. ground (arith, h.top.within test, countb-append test seen (c ∷ []));
    };
    bound = h.bound;
    unfilled = h.unfilled;
  }

  append-IsKept :
      (c : Candidate) (k : Kept) (seen : List Candidate)
      → IsKept want k seen
      → length k.best < want
      → c.dist ≤ k.worst
      → IsKept want (record k { best = k.best ++ c ∷ [] }) (seen ++ c ∷ [])
  unfolding countb
  append-IsKept c k seen h room near = record {
    top = record {
      nearest = λ t. ground (
        arith,
        h.top.nearest t,
        h.top.size,
        countb-append (λ x. ltb x.dist t) seen (c ∷ []),
        countb-append (λ x. ltb x.dist t) k.best (c ∷ []),
        below_most t seen,
      );
      size = ground (arith, h.top.size, length-append seen (c ∷ []), length-append k.best (c ∷ []));
      within = λ test. ground (
        arith,
        h.top.within test,
        countb-append test seen (c ∷ []),
        countb-append test k.best (c ∷ []),
      );
    };
    bound = ground (
      arith,
      h.bound,
      countb-append (λ x. ltb x.dist (suc k.worst)) k.best (c ∷ []),
      length-append k.best (c ∷ []),
    );
    unfilled = λ lt. h.unfilled room;
  }

  cut-IsKept :
      (c : Candidate) (k : Kept) (seen : List Candidate)
      → IsKept want k seen
      → length k.best ≡ want
      → IsKept want (cut want (sort nearer (k.best ++ c ∷ []))) (seen ++ c ∷ [])
  unfolding countb cut
  cut-IsKept c k seen h full =
      let s = sort nearer (k.best ++ c ∷ []) in
      let long = length-sort sort laws nearer (k.best ++ c ∷ []) in
      record {
        top = record {
          nearest = λ t. ground (
            arith,
            h.top.nearest t,
            laws.same nearer (λ x. ltb x.dist t) (k.best ++ c ∷ []),
            below-take nearer nearer-IsByDist want t s (laws.nearer-IsSorted (k.best ++ c ∷ [])),
            countb-append (λ x. ltb x.dist t) seen (c ∷ []),
            countb-append (λ x. ltb x.dist t) k.best (c ∷ []),
          );
          size = ground (
            arith,
            h.top.size,
            long,
            length-take want s,
            length-append seen (c ∷ []),
            length-append k.best (c ∷ []),
          );
          within = λ test. ground (
            arith,
            h.top.within test,
            laws.same nearer test (k.best ++ c ∷ []),
            countb-take test want s,
            countb-append test seen (c ∷ []),
            countb-append test k.best (c ∷ []),
          );
        };
        bound = ground (
          arith,
          farthest_kept want s some_wanted (omega (arith, long, length-append k.best (c ∷ [])))
              (laws.nearer-IsSorted (k.best ++ c ∷ [])),
          length-take want s,
          long,
          length-append k.best (c ∷ []),
        );
        unfilled =
            λ lt. absurd (omega (arith, length-take want s, long, length-append k.best (c ∷ [])));
      }

  pub keep-IsKept :
      (c : Candidate) (k : Kept) (seen : List Candidate)
      → c.dist ≤ 65_535
      → IsKept want k seen
      → IsKept want (keep sort want c k) (seen ++ c ∷ [])
  unfolding keep
  keep-IsKept c k seen small h = elim (Bool-cases (length k.best == want)) [
    | inl full ↦ elim (Bool-cases (leb k.worst c.dist)) [
      | inl far ↦ rw full (rw far (skip-IsKept c k seen h (ground arith) (ground arith)))
      | inr near ↦
          let cuts : ltb want (length (k.best ++ c ∷ [])) ≡ true =
            ground (arith, length-append k.best (c ∷ [])) in
          rw full (rw near (rw cuts (cut-IsKept c k seen h (ground arith))))
    ]
    | inr room ↦
        let fits : ltb want (length (k.best ++ c ∷ [])) ≡ false =
          ground (arith, length-append k.best (c ∷ []), h.top.size) in
        let less : length k.best < want = ground (arith, h.top.size) in
        rw room (rw fits (append-IsKept c k seen h less (omega (arith, h.unfilled less))))
  ]
