-- ===== src/Chain/Fastest.antt =====
-- internal/adapter/netpath/netpath.go: which path is remembered after all have been tried.
use sauce_dust.Prelude.{
  ℕ, suc, ◌≡◌, ◌≤◌, ◌<◌, refl, sym, ap, subst, ◌⊎◌, inl, inr, Bool, true, false, List, [], ◌∷◌,
  arith, Bool-cases, ◌∙◌, ltb, zero, length, ◌==◌,
}
use sauce_dust.Domain.Texts.{Text}
use sauce_dust.Chain.{NetMode, is_in, Chain, remember}
use sauce_dust.Chain.Probe.{
  over, broken, took, settle, sample_loop, probe_mode, no_result, ProbeResult, no_best,
  max_duration, better, best_of, probe_all, samples_of, probe, Sample,
}
use sauce_dust.Chain.Reached.{remember-IsUsable, AllIn, IsUsable}

Sample-cases :
    (s : Sample)
    → (s ≡ over)
      ⊎ (((blocked : Bool) × (s ≡ broken blocked))
          ⊎ ((status : ℕ) × (time : ℕ) × (s ≡ took status time)))
Sample-cases over = inl refl
Sample-cases (broken blocked) = inr (inl (blocked, refl))
Sample-cases (took status time) = inr (inr (status, time, refl))

-- No path that answered took less than `n`.
abbrev pub NoneBelow : ℕ → List ProbeResult → Type 0
NoneBelow n [] = Unit {0}
NoneBelow n (r ∷ rs) = (r.ok ≡ true → n ≤ r.latency) × NoneBelow n rs

abbrev pub AllBelow : ℕ → List ProbeResult → Type 0
AllBelow n [] = Unit {0}
AllBelow n (r ∷ rs) = (r.latency < n) × AllBelow n rs

abbrev pub IsAmong : ProbeResult → List ProbeResult → Type 0
IsAmong b [] = ⊥
IsAmong b (r ∷ rs) = (b ≡ r) ⊎ IsAmong b rs

abbrev pub NoneWorks : List ProbeResult → Type 0
NoneWorks [] = Unit {0}
NoneWorks (r ∷ rs) = (r.ok ≡ false) × NoneWorks rs

NoneBelow-less : (n m : ℕ) (rs : List ProbeResult) → m ≤ n → NoneBelow n rs → NoneBelow m rs
NoneBelow-less n m [] h v = tt
NoneBelow-less n m (r ∷ rs) h v = (λ works. omega (arith, v.0 works), NoneBelow-less n m rs h v.1)

better-least :
    (b r : ProbeResult)
    → ((better b r).latency ≤ b.latency) × (r.ok ≡ true → (better b r).latency ≤ r.latency)
unfolding better
better-least b r = ground arith

best_of-least :
    (b : ProbeResult) (rs : List ProbeResult)
    → ((best_of b rs).latency ≤ b.latency) × NoneBelow ((best_of b rs).latency) rs
unfolding best_of
best_of-least b [] = (omega arith, tt)
best_of-least b (r ∷ rs) =
    let (low, none') = best_of-least (better b r) rs in
    let (keeps, beats) = better-least b r in
    (omega arith, (λ works. omega (arith, beats works, low), none'))

better-from : (b r : ProbeResult) → (better b r ≡ b) ⊎ ((better b r ≡ r) × (r.ok ≡ true))
unfolding better
better-from b r = elim (Bool-cases (r.ok)) [
  | inl works ↦ elim (Bool-cases (ltb r.latency b.latency)) [
    | inl won ↦ inr (rw (works, won) refl, works)
    | inr lost ↦ inl (rw (works, lost) refl)
  ]
  | inr fails ↦ inl (rw fails refl)
]

best_of-from :
    (b : ProbeResult) (rs : List ProbeResult)
    → (best_of b rs ≡ b) ⊎ (IsAmong (best_of b rs) rs × ((best_of b rs).ok ≡ true))
unfolding best_of
best_of-from b [] = inl refl
best_of-from b (r ∷ rs) = elim (best_of-from (better b r) rs) [
  | inl same ↦ elim (better-from b r) [
    | inl kept ↦ inl (same ∙ kept)
    | inr (won, works) ↦ inr (inl (same ∙ won), ap (λ x. x.ok) (same ∙ won) ∙ works)
  ]
  | inr (among, works) ↦ inr (inr among, works)
]

none_works :
    (rs : List ProbeResult) → AllBelow max_duration rs → NoneBelow max_duration rs → NoneWorks rs
none_works [] below v = tt
none_works (r ∷ rs) below v = (
  elim (Bool-cases r.ok) [
    | inl works ↦ absurd (omega (arith, v.0 works, below.0))
    | inr fails ↦ fails
  ],
  none_works rs below.1 v.1,
)

module _ (sort : List ℕ → List ℕ) where
  settle-mode : (times : List ℕ) (out : ProbeResult) → (settle sort times out).mode ≡ out.mode
  unfolding settle
  settle-mode times out = elim (Bool-cases (length times == 0)) [
    | inl none' ↦ rw none' refl
    | inr some' ↦ rw some' refl
  ]

  sample_loop-mode :
      (look : ℕ → Sample) (n : ℕ) (times : List ℕ) (out : ProbeResult)
      → (sample_loop sort look n times out).mode ≡ out.mode
  unfolding sample_loop
  sample_loop-mode look zero times out = settle-mode times out
  sample_loop-mode look (suc n) times out = elim (Sample-cases (look n)) [
    | inl e ↦ rw (sample_loop, e) (settle-mode times out)
    | inr (inl (blocked, e)) ↦ rw (sample_loop, e) refl
    | inr (inr (status, time, e)) ↦ rw (sample_loop, e) (sample_loop-mode look n _ _)
  ]

  -- Each result is that of a path of the order.
  among_in :
      (look : NetMode → ℕ → Sample) (n : ℕ) (ms ks : List NetMode) (b : ProbeResult)
      → AllIn ms ks
      → IsAmong b (probe_all sort look n ms)
      → is_in b.mode ks ≡ true
  unfolding probe_all probe_mode
  among_in look n [] ks b all among = absurd among
  among_in look n (m ∷ ms) ks b all (inl same) =
      let mode : b.mode ≡ m =
        ap (λ (x : ProbeResult). x.mode) same ∙ sample_loop-mode (look m) n [] (no_result m) in
      subst (λ k. is_in k ks ≡ true) (sym mode) all.0
  among_in look n (m ∷ ms) ks b all (inr later') = among_in look n ms ks b all.1 later'

-- After all paths were tried, with times below the greatest duration, either none of them works and
-- the chain is as before, or a path is remembered for the host that works and took no longer than any
-- other that works. The chain stays usable.
pub probe-IsFastest :
    (sort : List ℕ → List ℕ) (look : NetMode → ℕ → Sample) (samples : ℕ) (host : Text) (c : Chain)
    → IsUsable c
    → AllBelow max_duration (probe sort look samples host c).0
    → (NoneWorks (probe sort look samples host c).0 × ((probe sort look samples host c).1 ≡ c))
      ⊎ ((best : ProbeResult) × IsAmong best (probe sort look samples host c).0
          × (best.ok ≡ true)
          × NoneBelow best.latency (probe sort look samples host c).0
          × ((probe sort look samples host c).1 ≡ remember host best.mode c)
          × IsUsable (remember host best.mode c))
unfolding probe
probe-IsFastest sort look samples host c v below =
    let results = probe_all sort look (samples_of samples) c.order in
    let least = best_of-least no_best results in
    elim (best_of-from no_best results) [
      | inl same ↦ inl (
        none_works results below (
            NoneBelow-less _ max_duration results
              (subst (λ (x : ProbeResult). max_duration ≤ x.latency) (sym same) (omega arith))
              least.1),
        rw same refl,
      )
      | inr (among, works) ↦ inr (
        best_of no_best results,
        among,
        works,
        least.1,
        rw works refl,
        remember-IsUsable host c v _
            (among_in sort look (samples_of samples) c.order c.clients _ v.ordered among),
      )
    ]
