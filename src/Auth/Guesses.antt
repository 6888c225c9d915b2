-- ===== src/Auth/Guesses.antt =====
-- internal/adapter/httpapi/auth.go: when an address may try a password. The handlers of logins run at
-- the same time, and each takes the mutex for one part after another.
use sauce_dust.Prelude.{
  ℕ, suc, ◌+◌, ◌≡◌, ◌≢◌, ◌↔◌, refl, sym, ap, subst, ◌∙◌, Bool, true, false, ltb, leb, ◌&&◌, ◌||◌,
  not, Option, none, some, List, [], ◌∷◌, length, if◌then◌else◌, arith, Bool-cases, inl, inr,
  not_both,
}
use text.Mathlib.TextEquality.{eq_iff}
use sauce_dust.Domain.Texts.{Text, ◌=t=◌, is_empty_text, trim_space}
use sauce_dust.Auth.{
  Server, FailState, max_login_fails, lock_time, find_fail, delete_fail, locked_out, failed_again,
  note_login_fail, clear_login_fail, start_session, user_matches, password_matches,
}
use sauce_dust.Auth.Requests.{handle_login, answer_session}

-- A part of a login that holds the mutex, with the address, and the time that is read in it.
pub data Part : Type 0 where
  tests : ℕ → Text → Part
  compares : Text × Text → Part
  notes : ℕ → Text → Part
  clears : Text → Part
  starts : ℕ → Option Text → Part

unfoldable pub after_part : Part → Server → Server
after_part (tests now ip) s = s
after_part (compares c) s = s
after_part (notes now ip) s = note_login_fail now ip s
after_part (clears ip) s = clear_login_fail ip s
after_part (starts now random) s = (start_session now random s).0

unfoldable pub after_parts : List Part → Server → Server
unfolding after_part
after_parts [] s = s
after_parts (p ∷ ps) s = after_parts ps (after_part p s)

-- The times of the failures of an address since its last success, the newest first, after one part.
abbrev pub failures_after : Text → Part → List ℕ → List ℕ
failures_after ip (tests now k) times = times
failures_after ip (compares c) times = times
failures_after ip (notes now k) times = if k =t= ip then now ∷ times else times
failures_after ip (clears k) times = if k =t= ip then [] else times
failures_after ip (starts now random) times = times

abbrev pub failures : Text → List Part → List ℕ → List ℕ
failures ip [] times = times
failures ip (p ∷ ps) times = failures ip ps (failures_after ip p times)

-- Eight failures or more, and the last of them less than a minute ago.
abbrev pub is_shut : ℕ → List ℕ → Bool
is_shut now [] = false
is_shut now (t ∷ ts) = leb max_login_fails (length (t ∷ ts)) && ltb now (t + lock_time)

-- What is kept of an address fits its failures.
abbrev Fits : FailState → List ℕ → Type 0
Fits f [] = f.n ≡ 0
Fits f (t ∷ ts) =
    (f.n ≡ suc (length ts)) × (leb max_login_fails f.n ≡ true → f.until ≡ t + lock_time)

Fits-shut :
    (now : ℕ) (f : FailState) (times : List ℕ)
    → Fits f times
    → (leb max_login_fails f.n && ltb now f.until) ≡ is_shut now times
Fits-shut now f [] h = rw h refl
Fits-shut now f (t ∷ ts) h = elim (Bool-cases (leb max_login_fails f.n)) [
  | inl many ↦ rw (h.1 many) (rw⁻¹ h.0 refl)
  | inr few ↦ rw⁻¹ h.0 (rw few refl)
]

failed_again-Fits :
    (now : ℕ) (f : FailState) (times : List ℕ)
    → Fits f times
    → Fits (failed_again now f) (now ∷ times)
unfolding failed_again
failed_again-Fits now f [] h = (ap suc h, λ many. rw many refl)
failed_again-Fits now f (t ∷ ts) h = (ap suc h.0, λ many. rw many refl)

find-delete :
    (k ip : Text) (fs : List (Text × FailState))
    → (k =t= ip) ≡ false
    → find_fail ip (delete_fail k fs) ≡ find_fail ip fs
unfolding find_fail delete_fail
find-delete k ip [] h = refl
find-delete k ip ((j, f) ∷ fs) h = elim (Bool-cases (j =t= k)) [
  | inl same ↦
      let other : (j =t= ip) ≡ false = ap (λ x. x =t= ip) ((eq_iff j k).0 same) ∙ h in
      rw (same, other) (find-delete k ip fs h)
  | inr apart ↦ elim (Bool-cases (j =t= ip)) [
    | inl here ↦ rw (apart, here) refl
    | inr there ↦ rw (apart, there) (find-delete k ip fs h)
  ]
]

find-deleted : (ip : Text) (fs : List (Text × FailState)) → (find_fail ip (delete_fail ip fs)).n ≡ 0
unfolding find_fail delete_fail
find-deleted ip [] = refl
find-deleted ip ((j, f) ∷ fs) = elim (Bool-cases (j =t= ip)) [
  | inl same ↦ rw same (find-deleted ip fs)
  | inr other ↦ rw (other, other) (find-deleted ip fs)
]

start_session-fails :
    (now : ℕ) (random : Option Text) (s : Server) → (start_session now random s).0.fails ≡ s.fails
unfolding start_session
start_session-fails now none s = refl
start_session-fails now (some id) s = refl

after_part-Fits :
    (ip : Text) (p : Part) (s : Server) (times : List ℕ)
    → Fits (find_fail ip s.fails) times
    → Fits (find_fail ip (after_part p s).fails) (failures_after ip p times)
unfolding after_part note_login_fail clear_login_fail find_fail
after_part-Fits ip (tests now k) s times h = h
after_part-Fits ip (compares c) s times h = h
after_part-Fits ip (starts now random) s times h = rw (start_session-fails now random s) h
after_part-Fits ip (notes now k) s times h = elim (Bool-cases (k =t= ip)) [
  | inl same ↦ rw same (
      subst (λ x. Fits (failed_again now (find_fail x s.fails)) (now ∷ times))
        (sym ((eq_iff k ip).0 same)) (failed_again-Fits now (find_fail ip s.fails) times h))
  | inr other ↦ rw (other, find-delete k ip s.fails other) h
]
after_part-Fits ip (clears k) s times h = elim (Bool-cases (k =t= ip)) [
  | inl same ↦ rw same (
      subst (λ x. (find_fail ip (delete_fail x s.fails)).n ≡ 0) (sym ((eq_iff k ip).0 same))
        (find-deleted ip s.fails))
  | inr other ↦ rw (other, find-delete k ip s.fails other) h
]

after_parts-Fits :
    (ip : Text) (ps : List Part) (s : Server) (times : List ℕ)
    → Fits (find_fail ip s.fails) times
    → Fits (find_fail ip (after_parts ps s).fails) (failures ip ps times)
unfolding after_parts
after_parts-Fits ip [] s times h = h
after_parts-Fits ip (p ∷ ps) s times h =
    after_parts-Fits ip ps (after_part p s) (failures_after ip p times)
      (after_part-Fits ip p s times h)

-- The parts of one login that no other login comes in between of.
unfoldable pub login_parts : ℕ → Text → Option (Text × Text) → Option Text → Server → List Part
login_parts now ip none random s = tests now ip ∷ []
login_parts now ip (some c) random s =
    tests now ip
    ∷ (if locked_out now ip s || is_empty_text (trim_space s.admin_password)
        then []
        else compares c
          ∷ (if not (user_matches c.0 s) || not (password_matches c.1 s)
              then notes now ip ∷ []
              else clears ip ∷ starts now random ∷ []))

answer_session-server : (o : Server × Bool) → (answer_session o).0 ≡ o.0
unfolding answer_session
answer_session-server (s, true) = refl
answer_session-server (s, false) = refl

answer_session-code : (o : Server × Bool) → (answer_session o).1 ≢ 429
unfolding answer_session
answer_session-code (s, true) h = omega arith
answer_session-code (s, false) h = omega arith

handle_login-after_parts :
    (now : ℕ) (ip : Text) (body : Option (Text × Text)) (random : Option Text) (s : Server)
    → (handle_login now ip body random s).0 ≡ after_parts (login_parts now ip body random s) s
unfolding handle_login login_parts after_parts after_part
handle_login-after_parts now ip none random s = elim (Bool-cases (locked_out now ip s)) [
  | inl e ↦ rw e refl
  | inr e ↦ rw e refl
]
handle_login-after_parts now ip (some c) random s = elim (Bool-cases (locked_out now ip s)) [
  | inl e ↦ rw e refl
  | inr e ↦ elim (Bool-cases (is_empty_text (trim_space s.admin_password))) [
    | inl f ↦ rw (e, f) refl
    | inr f ↦ elim (Bool-cases (not (user_matches c.0 s) || not (password_matches c.1 s))) [
      | inl wrong ↦ rw (e, f, wrong) refl
      | inr right ↦ rw (e, f, right) (answer_session-server _)
    ]
  ]
]

handle_login-refuses :
    (now : ℕ) (ip : Text) (body : Option (Text × Text)) (random : Option Text) (s : Server)
    → ((handle_login now ip body random s).1 ≡ 429) ↔ (locked_out now ip s ≡ true)
unfolding handle_login
handle_login-refuses now ip none random s = elim (Bool-cases (locked_out now ip s)) [
  | inl e ↦ rw e (λ h. refl, λ h. refl)
  | inr e ↦ rw e (λ h. absurd (omega (arith, h)), λ h. absurd (not_both h))
]
handle_login-refuses now ip (some c) random s = elim (Bool-cases (locked_out now ip s)) [
  | inl e ↦ rw e (λ h. refl, λ h. refl)
  | inr e ↦ elim (Bool-cases (is_empty_text (trim_space s.admin_password))) [
    | inl f ↦ rw (e, f) (λ h. absurd (omega (arith, h)), λ h. absurd (not_both h))
    | inr f ↦ elim (Bool-cases (not (user_matches c.0 s) || not (password_matches c.1 s))) [
      | inl wrong ↦ rw (e, f, wrong) (λ h. absurd (omega (arith, h)), λ h. absurd (not_both h))
      | inr right ↦
          rw (e, f, right) (λ h. absurd (answer_session-code _ h), λ h. absurd (not_both h))
    ]
  ]
]

-- From a server without failures, whatever the locked parts of concurrent logins are and in whatever
-- order they run, the next login of an address is refused with 429 exactly if the address has failed at
-- least eight times since its last success and the last failure is less than a minute old, and leaves
-- what its own parts leave.
pub handle_login-is_shut :
    (now : ℕ) (ip : Text) (body : Option (Text × Text)) (random : Option Text) (ps : List Part)
    (s : Server)
    → s.fails ≡ []
    → (((handle_login now ip body random (after_parts ps s)).1 ≡ 429)
        ↔ (is_shut now (failures ip ps []) ≡ true))
      × ((handle_login now ip body random (after_parts ps s)).0
          ≡ after_parts (login_parts now ip body random (after_parts ps s)) (after_parts ps s))
unfolding locked_out find_fail
handle_login-is_shut now ip body random ps s none' =
    let fits : Fits (find_fail ip s.fails) [] = rw none' refl in
    let same =
      Fits-shut now (find_fail ip (after_parts ps s).fails) (failures ip ps [])
        (after_parts-Fits ip ps s [] fits) in
    let refuses = handle_login-refuses now ip body random (after_parts ps s) in
    (
      (λ h. sym same ∙ refuses.0 h, λ h. refuses.1 (same ∙ h)),
      handle_login-after_parts now ip body random (after_parts ps s),
    )
