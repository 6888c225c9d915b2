-- ===== src/Bot/Since.antt =====
-- internal/app/bot.go: the updates that are left from an offset on.
use sauce_dust.Prelude.{
  ℕ, suc, ◌≡◌, ◌≤◌, refl, sym, ap, subst, inl, inr, true, false, List, [], ◌∷◌, if◌then◌else◌,
  arith, Bool-cases, leb, ◌∙◌,
}
use sauce_dust.Bot.Loop.{BotUpdate}

-- The updates from an offset on.
unfoldable pub since : ℕ → List BotUpdate → List BotUpdate
since offset [] = []
since offset (u ∷ us) = let rest = since offset us in if leb offset u.id then u ∷ rest else rest

abbrev pub AllFrom : ℕ → List BotUpdate → Type 0
AllFrom n [] = Unit {0}
AllFrom n (u ∷ us) = (n ≤ u.id) × AllFrom n us

-- The numbers of the updates rise.
abbrev pub IsRising : List BotUpdate → Type 0
IsRising [] = Unit {0}
IsRising (u ∷ us) = AllFrom (suc u.id) us × IsRising us

pub since-all : (n : ℕ) (us : List BotUpdate) → AllFrom n us → since n us ≡ us
unfolding since
since-all n [] h = refl
since-all n (u ∷ us) h =
    let low : leb n u.id ≡ true = ground arith in rw low (ap (λ l. u ∷ l) (since-all n us h.1))

AllFrom-less : (n m : ℕ) (us : List BotUpdate) → m ≤ n → AllFrom n us → AllFrom m us
AllFrom-less n m [] le h = tt
AllFrom-less n m (u ∷ us) le h = (omega (arith, h.0), AllFrom-less n m us le h.1)

pub head_eq : {a b : BotUpdate} {xs ys : List BotUpdate} → a ∷ xs ≡ b ∷ ys → a ≡ b
head_eq {a} h = ap (λ l. elim l [ [] ↦ a | x ∷ xs ↦ x ]) h

pub tail_eq : {a b : BotUpdate} {xs ys : List BotUpdate} → a ∷ xs ≡ b ∷ ys → xs ≡ ys
tail_eq {xs} h = ap (λ l. elim l [ [] ↦ xs | x ∷ rest ↦ rest ]) h

pub since-first :
    (n : ℕ) (all : List BotUpdate) (u : BotUpdate) (us : List BotUpdate)
    → since n all ≡ u ∷ us
    → n ≤ u.id
unfolding since
since-first n [] u us h = cc
since-first n (a ∷ all) u us h = elim (Bool-cases (leb n a.id)) [
  | inl low ↦
      let same : a ≡ u =
        head_eq (subst (λ b. (if b then a ∷ since n all else since n all) ≡ u ∷ us) low h) in
      subst (λ (x : BotUpdate). n ≤ x.id) same (ground arith)
  | inr high ↦
      since-first n all u us
        (subst (λ b. (if b then a ∷ since n all else since n all) ≡ u ∷ us) high h)
]

-- After the first of the updates from an offset on, the others are those from the next number on.
pub since-next :
    (n : ℕ) (all : List BotUpdate) (u : BotUpdate) (us : List BotUpdate)
    → IsRising all
    → since n all ≡ u ∷ us
    → since (suc u.id) all ≡ us
unfolding since
since-next n [] u us r h = cc
since-next n (a ∷ all) u us r h = elim (Bool-cases (leb n a.id)) [
  | inl low ↦
      let here = subst (λ b. (if b then a ∷ since n all else since n all) ≡ u ∷ us) low h in
      let same : a ≡ u = head_eq here in
      let past : leb (suc a.id) a.id ≡ false = ground arith in
      let rest : since (suc a.id) all ≡ us =
        since-all (suc a.id) all r.0
        ∙ (sym (since-all n all (AllFrom-less (suc a.id) n all (ground arith) r.0))
            ∙ tail_eq here) in
      subst (λ (x : BotUpdate). since (suc x.id) (a ∷ all) ≡ us) same (rw past rest)
  | inr high ↦
      let here = subst (λ b. (if b then a ∷ since n all else since n all) ≡ u ∷ us) high h in
      let low = since-first n all u us here in
      let past : leb (suc u.id) a.id ≡ false = ground (arith, low) in
      rw past (since-next n all u us r.1 here)
]

pub since-zero : (us : List BotUpdate) → since 0 us ≡ us
unfolding since
since-zero [] = refl
since-zero (u ∷ us) =
    let low : leb 0 u.id ≡ true = ground arith in rw low (ap (λ l. u ∷ l) (since-zero us))
