-- ===== src/Chain/Examples.antt =====
-- internal/adapter/netpath/netpath.go: a chain of three paths, of which the second lets requests through.
use sauce_dust.Prelude.{ℕ, ◌≡◌, refl, true, false, some, List, [], ◌∷◌, inl, inr, ◌⊎◌, arith}
use sauce_dust.Domain.Texts.{Text}
use sauce_dust.Chain.{
  NetMode, direct, ech, frag, vpn, unknown, Chain, Turn, answered, failed, remember, others,
  candidates, do_request, do_from, mode_for, chosen_for, is_in, new_chain, start_with, usable,
  can_build,
}
use sauce_dust.Chain.Probe.{
  Sample, took, broken, ProbeResult, probe, probe_all, probe_mode, sample_loop, settle, best_of,
  better,
}
use sauce_dust.Chain.Reached.{IsReached, IsUsable, do_request-reaches}
use sauce_dust.Chain.Fastest.{NoneWorks, NoneBelow, IsAmong, probe-IsFastest}

abbrev site : Text
site = "danbooru.donmai.us"

abbrev three_paths : Chain
three_paths = record {
  order = direct ∷ frag ∷ vpn ∷ [];
  clients = direct ∷ frag ∷ vpn ∷ [];
  chosen = [];
  last_mode = direct;
}

new_test : new_chain true true (direct ∷ frag ∷ unknown ∷ vpn ∷ []) ≡ some three_paths
unfolding new_chain start_with usable can_build
new_test = refl

three_paths-IsUsable : IsUsable three_paths
unfolding is_in
three_paths-IsUsable = record {
  some_path = λ e. cc;
  ordered = (refl, (refl, (refl, tt)));
  remembered = tt;
}

-- Only the second path is not cut.
abbrev blocked_site : ℕ → NetMode → Turn ℕ
blocked_site i frag = answered 200
blocked_site i _ = failed false

blocked_quiet :
    (i : ℕ) (m : NetMode)
    → ((r : ℕ) × (blocked_site i m ≡ answered r)) ⊎ (blocked_site i m ≡ failed false)
blocked_quiet i frag = inl (200, refl)
blocked_quiet i direct = inr refl
blocked_quiet i ech = inr refl
blocked_quiet i vpn = inr refl
blocked_quiet i unknown = inr refl

turns_test : (do_request blocked_site site three_paths).0 ≡ (direct, false) ∷ (frag, true) ∷ []
unfolding do_request do_from candidates others mode_for chosen_for is_in
turns_test = refl

do_request-reaches_example :
    (v : IsReached blocked_site site three_paths (do_request blocked_site site three_paths))
    × IsUsable (remember site v.path three_paths)
    × (candidates site (remember site v.path three_paths)
        ≡ v.path ∷ others v.path three_paths.order)
unfolding is_in
do_request-reaches_example =
    do_request-reaches blocked_site site three_paths frag three_paths-IsUsable blocked_quiet refl
      (λ j. (200, refl))

abbrev same_list : List ℕ → List ℕ
same_list xs = xs

abbrev looks : NetMode → ℕ → Sample
looks direct i = broken true
looks frag i = took 200 70
looks _ i = took 404 90

probe_test : (probe same_list looks 0 site three_paths).1 ≡ remember site frag three_paths
unfolding probe probe_all probe_mode sample_loop settle best_of better remember
probe_test = refl

probe-IsFastest_example :
    (NoneWorks (probe same_list looks 0 site three_paths).0
      × ((probe same_list looks 0 site three_paths).1 ≡ three_paths))
    ⊎ ((best : ProbeResult) × IsAmong best (probe same_list looks 0 site three_paths).0
        × (best.ok ≡ true)
        × NoneBelow best.latency (probe same_list looks 0 site three_paths).0
        × ((probe same_list looks 0 site three_paths).1 ≡ remember site best.mode three_paths)
        × IsUsable (remember site best.mode three_paths))
unfolding probe probe_all probe_mode sample_loop settle
probe-IsFastest_example =
    probe-IsFastest same_list looks 0 site three_paths three_paths-IsUsable
      (omega arith, (omega arith, (omega arith, tt)))
