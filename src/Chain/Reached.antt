-- ===== src/Chain/Reached.antt =====
-- internal/adapter/netpath/netpath.go: that the paths which are remembered are usable, and that a
-- request gets through if one path lets it.
use sauce_dust.Prelude.{
  not_both, ℕ, suc, ◌≡◌, ◌≢◌, refl, sym, ap, subst, ◌⊎◌, inl, inr, ◌||◌, Bool, true, false, some,
  List, [], ◌∷◌, ◌++◌, if◌then◌else◌, arith, Bool-cases, Option-cases, ◌∙◌,
}
use text.Mathlib.TextEquality.{eq_iff}
use sauce_dust.Domain.Texts.{Text, ◌=t=◌}
use sauce_dust.Chain.{
  NetMode, same_mode, is_in, Chain, chosen_for, first_of, or_else, mode_for, remember, others,
  candidates, Turn, not_copied, answered, failed, DoResult, response, do_from, do_request,
}

abbrev pub AllIn : List NetMode → List NetMode → Type 0
AllIn [] ks = Unit {0}
AllIn (m ∷ ms) ks = (is_in m ks ≡ true) × AllIn ms ks

abbrev pub ChosenIn : List (Text × NetMode) → List NetMode → Type 0
ChosenIn [] ks = Unit {0}
ChosenIn (e ∷ es) ks = (is_in (e.1) ks ≡ true) × ChosenIn es ks

-- There is a path, and every path that is listed or remembered has a client.
pub record IsUsable (c : Chain) : Type 0 where
  pub some_path : c.order ≢ []
  pub ordered : AllIn c.order c.clients
  pub remembered : ChosenIn c.chosen c.clients

same_mode→eq : (a b : NetMode) → same_mode a b ≡ true → a ≡ b
same_mode→eq a b h = ground arith

pub same_mode_refl : (a : NetMode) → same_mode a a ≡ true
same_mode_refl a = ground arith

some_inj : {a b : NetMode} → some a ≡ some b → a ≡ b
some_inj {a} h = ap (λ o. or_else o a) h

chosen_for-in :
    (host : Text) (es : List (Text × NetMode)) (ks : List NetMode) (m : NetMode)
    → ChosenIn es ks
    → chosen_for host es ≡ some m
    → is_in m ks ≡ true
unfolding chosen_for
chosen_for-in host [] ks m h e = cc
chosen_for-in host (x ∷ es) ks m h e = elim (Bool-cases (x.0 =t= host)) [
  | inl hit ↦
      let same = subst (λ b. (if b then some (x.1) else chosen_for host es) ≡ some m) hit e in
      subst (λ k. is_in k ks ≡ true) (some_inj same) (h.0)
  | inr miss ↦
      chosen_for-in host es ks m h.1
        (subst (λ b. (if b then some (x.1) else chosen_for host es) ≡ some m) miss e)
]

first-in : (ms ks : List NetMode) → ms ≢ [] → AllIn ms ks → is_in (first_of ms) ks ≡ true
first-in [] ks some' h = absurd (some' refl)
first-in (m ∷ ms) ks some' h = h.0

text_refl : (t : Text) → (t =t= t) ≡ true
text_refl t = (eq_iff t t).1 refl

module _ (host : Text) (c : Chain) (v : IsUsable c) where
  mode_for-in : is_in (mode_for host c) c.clients ≡ true
  unfolding mode_for
  mode_for-in = elim (Option-cases (chosen_for host c.chosen)) [
    | inl none' ↦ rw none' (first-in c.order c.clients v.some_path v.ordered)
    | inr (m, found) ↦ rw found (chosen_for-in host c.chosen c.clients m v.remembered found)
  ]

  pub remember-IsUsable : (m : NetMode) → is_in m c.clients ≡ true → IsUsable (remember host m c)
  unfolding remember
  remember-IsUsable m here = record {
    some_path = v.some_path;
    ordered = v.ordered;
    remembered = (here, v.remembered);
  }

  mode_for-remember : (m : NetMode) → mode_for host (remember host m c) ≡ m
  unfolding mode_for chosen_for remember
  mode_for-remember m = rw (text_refl host) refl

Turn-cases {ℓ} :
    {R : Type ℓ} (t : Turn R)
    → (t ≡ not_copied) ⊎ (((r : R) × (t ≡ answered r)) ⊎ ((over : Bool) × (t ≡ failed over)))
Turn-cases not_copied = inl refl
Turn-cases (answered r) = inr (inl (r, refl))
Turn-cases (failed over) = inr (inr (over, refl))

not_answered {ℓ} : {R : Type ℓ} {t : Turn R} → t ≡ failed false → (r : R) → t ≡ answered r → ⊥
not_answered e r h = cc

later :
    (k : NetMode) (ms : List NetMode) (m : NetMode)
    → is_in m (k ∷ ms) ≡ true
    → k ≢ m
    → is_in m ms ≡ true
unfolding is_in
later k ms m there other = elim (Bool-cases (same_mode k m)) [
  | inl same ↦ absurd (other (same_mode→eq k m same))
  | inr differ ↦ subst (λ b. (b || is_in m ms) ≡ true) differ there
]

-- All turns are recorded as failures.
abbrev pub AllFailed : List (NetMode × Bool) → Type 0
AllFailed [] = Unit {0}
AllFailed (t ∷ ts) = (t.1 ≡ false) × AllFailed ts

module _ {ℓ} {R : Type ℓ} (ask : ℕ → NetMode → Turn R) (host : Text) where
  do_from-IsUsable :
      (i : ℕ) (ms : List NetMode) (c : Chain)
      → IsUsable c
      → IsUsable ((do_from ask host i ms c).1.1)
  unfolding do_from
  do_from-IsUsable i [] c v = v
  do_from-IsUsable i (m ∷ ms) c v = elim (Bool-cases (is_in m c.clients)) [
    | inr none' ↦ rw none' (do_from-IsUsable (suc i) ms c v)
    | inl here ↦ elim (Turn-cases (ask i m)) [
      | inl e ↦ rw (here, e) v
      | inr (inl (r, e)) ↦ rw (here, e) (remember-IsUsable host c v m here)
      | inr (inr (true, e)) ↦ rw (here, e) v
      | inr (inr (false, e)) ↦ rw (here, e) (do_from-IsUsable (suc i) ms c v)
    ]
  ]

  -- No copy fails, and the context is never over.
  abbrev pub IsQuiet : Type ℓ
  IsQuiet = (i : ℕ) (m : NetMode) → ((r : R) × (ask i m ≡ answered r)) ⊎ (ask i m ≡ failed false)

  -- The request ended with the answer of a path that has a client, at one turn; the turns before it
  -- failed, and that path is remembered.
  pub record IsReached (c : Chain) (out : List (NetMode × Bool) × (DoResult R × Chain))
      : Type ℓ where
    pub path : NetMode
    pub turn : ℕ
    pub reply : R
    pub before : List (NetMode × Bool)
    pub usable : is_in path c.clients ≡ true
    pub gave : ask turn path ≡ answered reply
    pub ended : out ≡ (before ++ ((path, true) ∷ []), (response reply, remember host path c))
    pub lost : AllFailed before

  -- After one more turn, in which the path `k` failed.
  IsReached-later :
      (c : Chain) (k : NetMode) (out : List (NetMode × Bool) × (DoResult R × Chain))
      → IsReached c out
      → IsReached c ((k, false) ∷ out.0, out.1)
  IsReached-later c k out v = record {
    path = v.path;
    turn = v.turn;
    reply = v.reply;
    before = (k, false) ∷ v.before;
    usable = v.usable;
    gave = v.gave;
    ended = ap (λ o. ((k, false) ∷ o.0, o.1)) v.ended;
    lost = (refl, v.lost);
  }

  do_from-IsReached :
      (i : ℕ) (ms : List NetMode) (c : Chain) (m : NetMode)
      → IsQuiet
      → ((j : ℕ) → (r : R) × (ask j m ≡ answered r))
      → is_in m c.clients ≡ true
      → is_in m ms ≡ true
      → IsReached c (do_from ask host i ms c)
  unfolding do_from is_in
  do_from-IsReached i [] c m quiet good client there = absurd (cc there)
  do_from-IsReached i (k ∷ ms) c m quiet good client there = elim (Bool-cases (is_in k c.clients)) [
    | inr none' ↦ rw none' (
        do_from-IsReached (suc i) ms c m quiet good client (
          later k ms m there
            (λ same. not_both (sym none' ∙ (ap (λ x. is_in x c.clients) same ∙ client)))))
    | inl here ↦ elim (quiet i k) [
      | inl (r, e) ↦
          rw (here, e)
            (record {
              path = k;
              turn = i;
              reply = r;
              before = [];
              usable = here;
              gave = e;
              ended = refl;
              lost = tt;
            })
      | inr e ↦
          rw (here, e)
            (IsReached-later c k _ (
              do_from-IsReached (suc i) ms c m quiet good client (
                later k ms m there
                  (λ same. not_answered (e) ((good i).0) (ap (ask i) same ∙ (good i).1)))))
    ]
  ]

others-keeps :
    (p m : NetMode) (ms : List NetMode)
    → same_mode p m ≡ false
    → is_in m ms ≡ true
    → is_in m (others p ms) ≡ true
unfolding others is_in
others-keeps p m [] apart there = absurd (not_both there)
others-keeps p m (k ∷ ms) apart there = elim (Bool-cases (same_mode k p)) [
  | inl same ↦
      let is : same_mode k m ≡ false = ap (λ x. same_mode x m) (same_mode→eq k p same) ∙ apart in
      rw same (others-keeps p m ms apart (subst (λ b. (b || is_in m ms) ≡ true) is there))
  | inr differ ↦ elim (Bool-cases (same_mode k m)) [
    | inl is ↦ rw (differ, is) refl
    | inr isnt ↦
        rw (differ, isnt)
          (others-keeps p m ms apart (subst (λ b. (b || is_in m ms) ≡ true) isnt there))
  ]
]

others-in :
    (p m : NetMode) (ms : List NetMode) → is_in m ms ≡ true → is_in m (p ∷ others p ms) ≡ true
unfolding is_in
others-in p m ms there = elim (Bool-cases (same_mode p m)) [
  | inl same ↦ rw same refl
  | inr differ ↦ rw differ (others-keeps p m ms differ there)
]

listed-in :
    (m : NetMode) (ms ks : List NetMode) → AllIn ms ks → is_in m ms ≡ true → is_in m ks ≡ true
unfolding is_in
listed-in m [] ks all there = absurd (not_both there)
listed-in m (k ∷ ms) ks all there = elim (Bool-cases (same_mode k m)) [
  | inl same ↦ subst (λ x. is_in x ks ≡ true) (same_mode→eq k m same) all.0
  | inr differ ↦ listed-in m ms ks all.1 (subst (λ b. (b || is_in m ms) ≡ true) differ there)
]

-- If there is a path that answers whenever it is tried, and nothing else than failures of the paths
-- happens, a request returns what one path answered at its turn; only failures are recorded before it,
-- that very path is recorded as working and remembered for the host, and is the one by which the next
-- request to the host goes first.
pub do_request-reaches {ℓ} :
    {R : Type ℓ} (ask : ℕ → NetMode → Turn R) (host : Text) (c : Chain) (m : NetMode)
    → IsUsable c
    → IsQuiet ask host
    → is_in m c.order ≡ true
    → ((j : ℕ) → (r : R) × (ask j m ≡ answered r))
    → (v : IsReached ask host c (do_request ask host c)) × IsUsable (remember host v.path c)
      × (candidates host (remember host v.path c) ≡ v.path ∷ others v.path c.order)
unfolding do_request candidates
do_request-reaches ask host c m v quiet listed good =
    let w =
      do_from-IsReached ask host 0 (candidates host c) c m quiet good
        (listed-in m c.order c.clients v.ordered listed)
        (others-in (mode_for host c) m c.order listed) in
    (
      w,
      remember-IsUsable host c v w.path w.usable,
      ap (λ x. x ∷ others x c.order) (mode_for-remember host c v w.path),
    )
