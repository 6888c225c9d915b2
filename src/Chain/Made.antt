-- ===== src/Chain/Made.antt =====
-- internal/adapter/netpath/netpath.go: the chain that `New` makes, and the paths known from before.
use sauce_dust.Prelude.{
  ◌≡◌, refl, sym, ap, subst, inl, inr, Bool, true, none, some, List, [], ◌∷◌, Bool-cases,
}
use sauce_dust.Domain.Texts.{Text}
use sauce_dust.Chain.{
  NetMode, is_in, Chain, prime, same_mode, start_with, usable, new_chain, can_build,
}
use sauce_dust.Chain.Reached.{same_mode_refl, AllIn, IsUsable}

AllIn-more : (m : NetMode) (ms ks : List NetMode) → AllIn ms ks → AllIn ms (m ∷ ks)
unfolding is_in
AllIn-more m [] ks h = tt
AllIn-more m (k ∷ ms) ks h = (
  elim (Bool-cases (same_mode m k)) [ inl same ↦ rw same refl | inr differ ↦ rw differ h.0 ],
  AllIn-more m ms ks h.1,
)

AllIn-self : (ms : List NetMode) → AllIn ms ms
unfolding is_in
AllIn-self [] = tt
AllIn-self (m ∷ ms) =
    let same : same_mode m m ≡ true = same_mode_refl m in
    (rw same refl, AllIn-more m ms ms (AllIn-self ms))

some_chain : {a b : Chain} → some a ≡ some b → a ≡ b
some_chain {a} h = ap (λ o. elim o [ none ↦ a | some x ↦ x ]) h

start_with-IsUsable : (ms : List NetMode) (c : Chain) → start_with ms ≡ some c → IsUsable c
unfolding start_with
start_with-IsUsable [] c h = cc
start_with-IsUsable (m ∷ ms) c h =
    subst IsUsable (some_chain h)
      (record { some_path = λ e. cc; ordered = AllIn-self (m ∷ ms); remembered = tt })

prime-IsUsable :
    (known : List (Text × NetMode)) (c : Chain)
    → IsUsable c
    → IsUsable ((prime known c).0) × (((prime known c).0).clients ≡ c.clients)
unfolding prime
prime-IsUsable [] c v = (v, refl)
prime-IsUsable (e ∷ es) c v =
    let (rest, same) = prime-IsUsable es c v in
    elim (Bool-cases (is_in (e.1) c.clients)) [
      | inr out ↦ rw out (rest, same)
      | inl here ↦ rw here (
        record {
          some_path = rest.some_path;
          ordered = rest.ordered;
          remembered = (subst (λ ks. is_in (e.1) ks ≡ true) (sym same) here, rest.remembered);
        },
        same,
      )
    ]

-- What `New` makes is usable, and stays so when the paths known from an earlier run are put in.
pub new_chain-IsUsable :
    (proxy_set proxy_read : Bool) (order : List NetMode) (known : List (Text × NetMode)) (c : Chain)
    → new_chain proxy_set proxy_read order ≡ some c
    → IsUsable ((prime known c).0)
unfolding new_chain
new_chain-IsUsable proxy_set proxy_read order known c made =
    (prime-IsUsable known c
      (start_with-IsUsable (usable (can_build proxy_set proxy_read) order) c made)).0
