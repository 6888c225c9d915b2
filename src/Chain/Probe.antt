-- ===== src/Chain/Probe.antt =====
-- internal/adapter/netpath/netpath.go: `Probe`, which tries every path and remembers the fastest. What
-- each try brings is given, and `sort` stands for `sort.Slice`.
use sauce_dust.Prelude.{
  ℕ, zero, suc, ◌-◌, ◌/◌, ◌^◌, ltb, ◌==◌, if◌then◌else◌, Bool, false, List, [], ◌∷◌, ◌++◌, length,
  get_or, ◌&&◌,
}
use sauce_dust.Domain.Texts.{Text}
use sauce_dust.Chain.{NetMode, unknown, Chain, remember}

-- One turn of the loop of `probeMode`: the context is over, the request fails, or it is answered with
-- the status and the time that it took.
pub data Sample : Type 0 where
  over : Sample
  broken : Bool → Sample
  took : ℕ → ℕ → Sample

pub record ProbeResult : Type 0 where
  pub mode : NetMode
  pub ok : Bool
  pub latency : ℕ
  pub status : ℕ
  pub blocked : Bool

abbrev pub no_result : NetMode → ProbeResult
no_result m = record { mode = m; ok = false; latency = 0; status = 0; blocked = false }

-- The end of `probeMode`, with the times of the answers.
unfoldable pub settle : (List ℕ → List ℕ) → List ℕ → ProbeResult → ProbeResult
settle sort times out =
    if length times == 0
    then out
    else record out { latency = get_or (sort times) (length times / 2) 0; ok = ltb out.status 500 }

-- The loop over the samples, which are numbered downwards.
unfoldable pub sample_loop :
    (List ℕ → List ℕ) → (ℕ → Sample) → ℕ → List ℕ → ProbeResult → ProbeResult
unfolding settle
sample_loop sort look zero times out = settle sort times out
sample_loop sort look (suc n) times out = elim (look n) [
  | over ↦ settle sort times out
  | broken blocked ↦ record out { blocked = blocked }
  | took status time ↦
      sample_loop sort look n (times ++ (time ∷ [])) (record out { status = status })
]

unfoldable pub probe_mode : (List ℕ → List ℕ) → (ℕ → Sample) → ℕ → NetMode → ProbeResult
unfolding sample_loop
probe_mode sort look samples m = sample_loop sort look samples [] (no_result m)

abbrev pub max_duration : ℕ
max_duration = 2 ^ 63 - 1

abbrev pub no_best : ProbeResult
no_best = record (no_result unknown) { latency = max_duration }

-- `best` after one more result.
unfoldable pub better : ProbeResult → ProbeResult → ProbeResult
better best res = if res.ok && ltb res.latency best.latency then res else best

unfoldable pub best_of : ProbeResult → List ProbeResult → ProbeResult
unfolding better
best_of best [] = best
best_of best (r ∷ rs) = best_of (better best r) rs

unfoldable pub probe_all :
    (List ℕ → List ℕ) → (NetMode → ℕ → Sample) → ℕ → List NetMode → List ProbeResult
unfolding probe_mode
probe_all sort look samples [] = []
probe_all sort look samples (m ∷ ms) =
    probe_mode sort (look m) samples m ∷ probe_all sort look samples ms

-- The number of samples; a negative one is written 0.
abbrev pub samples_of : ℕ → ℕ
samples_of n = if ltb n 1 then 3 else n

unfoldable pub probe :
    (List ℕ → List ℕ) → (NetMode → ℕ → Sample) → ℕ → Text → Chain → List ProbeResult × Chain
unfolding probe_all best_of
probe sort look samples host c =
    let results = probe_all sort look (samples_of samples) c.order in
    let best = best_of no_best results in
    (results, if best.ok then remember host best.mode c else c)
