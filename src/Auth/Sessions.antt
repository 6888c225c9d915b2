-- ===== src/Auth/Sessions.antt =====
-- internal/adapter/httpapi/auth.go: what a change of the password leaves valid.
use Prim.Native.String.{String, count}
use Prim.Native.String.count as count_laws
use sauce_dust.Prelude.{
  ℕ, ◌+◌, ◌≡◌, refl, sym, ap, ◌∙◌, subst, Bool, true, false, not, ltb, leb, ◌&&◌, some, [], ◌∷◌,
  arith, Bool-cases, inl, inr,
}
use text.Mathlib.TextPositions.{eq_refl}
use sauce_dust.Domain.Texts.{Text, ◌=t=◌, is_empty_text, trim_space}
use sauce_dust.Auth.{
  Server, session_ttl, find_session, delete_session, valid_session, start_session, password_matches,
}
use sauce_dust.Auth.Requests.{handle_password, answer_session, write_admin_file}

not_empty : (t : Text) → ltb (count t) 8 ≡ false → is_empty_text t ≡ false
unfolding is_empty_text
not_empty String.[] e =
    let none' : count String.[] ≡ 0 = count_laws.nil in absurd (ground (arith, none'))
not_empty (String.◌∷◌ c t) e = refl

-- The server after a change of the password to `next` with a session `id`.
abbrev changed : ℕ → Text → Text → Server → Server
changed now id next s = record s {
  disk = some (s.admin_user, next);
  admin_file = true;
  admin_password = next;
  sessions = (id, now + session_ttl) ∷ [];
}

only_session :
    (now later : ℕ) (id next other : Text) (s : Server)
    → (valid_session later (some other) (changed now id next s)).1
      ≡ (not (is_empty_text other) && (id =t= other && leb later (now + session_ttl)))
unfolding valid_session find_session
only_session now later id next other s = elim (Bool-cases (is_empty_text other)) [
  | inl e ↦ rw (e, valid_session) refl
  | inr e ↦ elim (Bool-cases (id =t= other)) [
    | inr f ↦ rw (e, f, valid_session) refl
    | inl f ↦ elim (Bool-cases (ltb (now + session_ttl) later)) [
      | inl g ↦
          let late : leb later (now + session_ttl) ≡ false = ground arith in
          rw (e, f, g, late, valid_session) refl
      | inr g ↦
          let early : leb later (now + session_ttl) ≡ true = ground arith in
          rw (e, f, g, early, valid_session) refl
    ]
  ]
]

-- An answer 200 means that every test passed.
changed_server :
    (now : ℕ) (written : Bool) (id current next : Text) (s s' : Server)
    → handle_password now written (some id) (some (current, next)) s ≡ (s', 200)
    → (ltb (count (trim_space next)) 8 ≡ false) × (s' ≡ changed now id (trim_space next) s)
unfolding handle_password start_session answer_session write_admin_file delete_session
changed_server now written id current next s s' h =
    elim (Bool-cases (not s.admin_file && is_empty_text (trim_space s.data_dir))) [
      | inl a ↦
          let bad : Path ℕ 409 200 = sym (rw (a, handle_password) refl) ∙ ap (λ k. k.1) h in
          absurd (ground arith)
      | inr a ↦ elim (Bool-cases (ltb (count (trim_space next)) 8)) [
        | inl b ↦
            let bad : Path ℕ 400 200 = sym (rw (a, b, handle_password) refl) ∙ ap (λ k. k.1) h in
            absurd (ground arith)
        | inr b ↦ elim (Bool-cases (password_matches current s)) [
          | inr c ↦
              let bad : Path ℕ 401 200 =
                sym (rw (a, b, c, handle_password) refl) ∙ ap (λ k. k.1) h in
              absurd (ground arith)
          | inl c ↦ elim (Bool-cases written) [
            | inr d ↦
                let bad : Path ℕ 500 200 =
                  sym (rw (a, b, c, d, handle_password) refl) ∙ ap (λ k. k.1) h in
                absurd (ground arith)
            | inl d ↦ (b, ap (λ k. k.0) (sym h) ∙ rw (a, b, c, d, handle_password) refl)
          ]
        ]
      ]
    ]

-- After a change of the password that is answered with 200, memory and file hold the new password, and
-- of all sessions the new one alone is valid, until its end.
pub password_change :
    (now : ℕ) (written : Bool) (id current next : Text) (s s' : Server) (later : ℕ) (other : Text)
    → handle_password now written (some id) (some (current, next)) s ≡ (s', 200)
    → (password_matches (trim_space next) s' ≡ true)
      × (s'.disk ≡ some (s.admin_user, trim_space next))
      × ((valid_session later (some other) s').1
          ≡ (not (is_empty_text other) && (id =t= other && leb later (now + session_ttl))))
unfolding password_matches
password_change now written id current next s s' later other h =
    let (long, is) = changed_server now written id current next s s' h in
    let full = not_empty (trim_space next) long in
    (
      subst (λ k. password_matches (trim_space next) k ≡ true) (sym is)
          (rw (full, eq_refl (trim_space next)) refl),
      ap (λ k. k.disk) is,
      subst
          (λ k.
            (valid_session later (some other) k).1
            ≡ (not (is_empty_text other) && (id =t= other && leb later (now + session_ttl))))
          (sym is) (only_session now later id (trim_space next) other s),
    )
