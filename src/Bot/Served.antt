-- ===== src/Bot/Served.antt =====
-- internal/app/bot.go: which messages the loop handles.
use sauce_dust.Prelude.{
  ℕ, zero, suc, ◌+◌, ◌≡◌, ◌≤◌, refl, sym, ap, ◌⊎◌, inl, inr, true, Option, none, some, List, [],
  ◌∷◌, ◌++◌, length, take, drop, arith, leb, ◌∙◌, append-none, append_assoc, take_all,
}
use sauce_dust.Domain.Bot.{BotMessage}
use sauce_dust.Bot.Since.{since, IsRising, since-first, since-next, since-zero, head_eq, tail_eq}
use sauce_dust.Bot.Loop.{BotUpdate, Served, message_of, take_update, take_updates, run}

abbrev pub messages : List BotUpdate → List BotMessage
messages [] = []
messages (u ∷ us) = message_of u.message ++ messages us

-- The gateway fails or brings the first of the updates from the offset on, as many as it likes.
abbrev pub IsGateway : List BotUpdate → (ℕ → ℕ → Option (List BotUpdate)) → Type 0
IsGateway all ask =
    (i offset : ℕ)
    → (ask i offset ≡ none) ⊎ ((k : ℕ) × (ask i offset ≡ some (take k (since offset all))))

-- What has been handled are the messages of the first `n` updates, and the others come from the offset on.
pub record IsServed (all : List BotUpdate) (n : ℕ) (s : Served) : Type 0 where
  pub done : s.handled ≡ messages (take n all)
  pub left : since s.offset all ≡ drop n all

drop-cons :
    (n : ℕ) (all us : List BotUpdate) (u : BotUpdate)
    → drop n all ≡ u ∷ us
    → (drop (suc n) all ≡ us)
      × (messages (take (suc n) all) ≡ messages (take n all) ++ message_of u.message)
drop-cons zero [] us u h = cc
drop-cons zero (a ∷ all) us u h = (
  tail_eq h,
  append-none (message_of a.message) ∙ ap (λ (x : BotUpdate). message_of x.message) (head_eq h),
)
drop-cons (suc n) [] us u h = cc
drop-cons (suc n) (a ∷ all) us u h =
    let (rest, same) = drop-cons n all us u h in
    (
      rest,
      ap (λ l. message_of a.message ++ l) same
          ∙ sym
              (append_assoc (message_of a.message) (messages (take n all)) (message_of u.message)),
    )

take_update-IsServed :
    (all : List BotUpdate) (n : ℕ) (u : BotUpdate) (us : List BotUpdate) (s : Served)
    → IsRising all
    → drop n all ≡ u ∷ us
    → IsServed all n s
    → IsServed all (suc n) (take_update u s)
unfolding take_update
take_update-IsServed all n u us s r h v =
    let (rest, more) = drop-cons n all us u h in
    let from : since s.offset all ≡ u ∷ us = v.left ∙ h in
    let low : leb s.offset u.id ≡ true = ground (arith, since-first s.offset all u us from) in
    record {
      done = ap (λ l. l ++ message_of u.message) v.done ∙ sym more;
      left = rw low (since-next s.offset all u us r from ∙ sym rest);
    }

take_updates-IsServed :
    (all : List BotUpdate) (k n : ℕ) (us : List BotUpdate) (s : Served)
    → IsRising all
    → drop n all ≡ us
    → IsServed all n s
    → (m : ℕ) × (n ≤ m) × IsServed all m (take_updates (take k us) s)
unfolding take_updates
take_updates-IsServed all zero n us s r h v = (n, omega arith, v)
take_updates-IsServed all (suc k) n [] s r h v = (n, omega arith, v)
take_updates-IsServed all (suc k) n (u ∷ us) s r h v =
    let (m, more, w) =
      take_updates-IsServed all k (suc n) us (take_update u s) r (drop-cons n all us u h).0
        (take_update-IsServed all n u us s r h v) in
    (m, omega arith, w)

run-from :
    (all : List BotUpdate) (ask : ℕ → ℕ → Option (List BotUpdate)) (i rounds n : ℕ) (s : Served)
    → IsRising all
    → IsGateway all ask
    → IsServed all n s
    → (m : ℕ) × (n ≤ m) × IsServed all m (run ask i rounds s)
unfolding run
run-from all ask i zero n s r g v = (n, omega arith, v)
run-from all ask i (suc rounds) n s r g v = elim (g i s.offset) [
  | inl e ↦ rw e (run-from all ask (suc i) rounds n s r g v)
  | inr (k, e) ↦
      let (m, more, w) = take_updates-IsServed all k n (since s.offset all) s r (sym v.left) v in
      let (m', more', w') =
        run-from all ask (suc i) rounds m (take_updates (take k (since s.offset all)) s) r g w in
      rw e (m', omega arith, w')
]

drop-none_left : (n : ℕ) (us : List BotUpdate) → drop n us ≡ [] → length us ≤ n
drop-none_left n [] h = omega arith
drop-none_left zero (u ∷ us) h = cc
drop-none_left (suc n) (u ∷ us) h = omega (arith, drop-none_left n us h)

abbrev pub start : Served
start = record { handled = []; offset = 0 }

start-IsServed : (all : List BotUpdate) → IsServed all 0 start
start-IsServed all = record { done = refl; left = since-zero all }

-- From a gateway that brings the updates in order and may fail in any round, the loop handles the
-- messages of the first updates, each once and in order, and asks next for the one behind them.
pub run-IsServed :
    (all : List BotUpdate) (ask : ℕ → ℕ → Option (List BotUpdate)) (rounds : ℕ)
    → IsRising all
    → IsGateway all ask
    → (n : ℕ) × IsServed all n (run ask 0 rounds start)
run-IsServed all ask rounds r g =
    let (n, more, v) = run-from all ask 0 rounds 0 start r g (start-IsServed all) in (n, v)

-- The gateway brings at least one update while any is left.
abbrev pub IsServing : List BotUpdate → (ℕ → ℕ → Option (List BotUpdate)) → Type 0
IsServing all ask =
    (i offset : ℕ) → (k : ℕ) × (ask i offset ≡ some (take (suc k) (since offset all)))

take_updates-grows :
    (all : List BotUpdate) (k n : ℕ) (us : List BotUpdate) (s : Served)
    → IsRising all
    → drop n all ≡ us
    → IsServed all n s
    → (m : ℕ) × ((suc n ≤ m) ⊎ (length all ≤ m)) × IsServed all m (take_updates (take (suc k) us) s)
unfolding take_updates
take_updates-grows all k n [] s r h v = (n, inr (drop-none_left n all h), v)
take_updates-grows all k n (u ∷ us) s r h v =
    let (m, more, w) =
      take_updates-IsServed all k (suc n) us (take_update u s) r (drop-cons n all us u h).0
        (take_update-IsServed all n u us s r h v) in
    (m, inl more, w)

run-grows :
    (all : List BotUpdate) (ask : ℕ → ℕ → Option (List BotUpdate)) (i rounds n : ℕ) (s : Served)
    → IsRising all
    → IsServing all ask
    → length all ≤ rounds + n
    → IsServed all n s
    → (m : ℕ) × (length all ≤ m) × IsServed all m (run ask i rounds s)
unfolding run
run-grows all ask i zero n s r g enough v = (n, omega (arith, enough), v)
run-grows all ask i (suc rounds) n s r g enough v =
    let (k, e) = g i s.offset in
    let (m, more, w) = take_updates-grows all k n (since s.offset all) s r (sym v.left) v in
    let next : length all ≤ rounds + m = elim more [
      | inl one ↦ omega (arith, one, enough)
      | inr all' ↦ omega (arith, all')
    ] in
    rw e (
      run-grows all ask (suc i) rounds m (take_updates (take (suc k) (since s.offset all)) s) r g
        next w)

-- From a gateway that brings the updates in order, and at least one in each round while any is left, all
-- messages are handled after as many rounds as there are updates.
pub run-serves_all :
    (all : List BotUpdate) (ask : ℕ → ℕ → Option (List BotUpdate)) (rounds : ℕ)
    → IsRising all
    → IsServing all ask
    → length all ≤ rounds
    → (run ask 0 rounds start).handled ≡ messages all
run-serves_all all ask rounds r g enough =
    let (m, whole, v) =
      run-grows all ask 0 rounds 0 start r g (omega (arith, enough)) (start-IsServed all) in
    v.done ∙ ap messages (take_all m all whole)
