-- ===== src/Auth/Requests.antt =====
-- internal/adapter/httpapi/auth.go: the handlers of the account. A body that cannot be read is `none`; the
-- result is the status of the answer.
use Prim.Native.String.{String, count}
use Prim.Native.Char.{code}
use sauce_dust.Prelude.{
  ℕ, ltb, ◌==◌, ◌&&◌, ◌||◌, not, if◌then◌else◌, Bool, true, false, Option, none, some, [],
}
use sauce_dust.Domain.Texts.{Text, ◌=t=◌, is_empty_text, trim_space}
use sauce_dust.Auth.{
  Server, valid_session, start_session, delete_session, password_matches, user_matches, locked_out,
  note_login_fail, clear_login_fail,
}

-- `writeJSON` with 200, or 500 where the session could not begin.
unfoldable pub answer_session : Server × Bool → Server × ℕ
answer_session (s, true) = (s, 200)
answer_session (s, false) = (s, 500)

-- `handleLogin`.
unfoldable pub handle_login : ℕ → Text → Option (Text × Text) → Option Text → Server → Server × ℕ
unfolding locked_out user_matches password_matches note_login_fail clear_login_fail start_session
    answer_session
handle_login now ip none random s = if locked_out now ip s then (s, 429) else (s, 400)
handle_login now ip (some (user, password)) random s =
    if locked_out now ip s
    then (s, 429)
    else if is_empty_text (trim_space s.admin_password)
    then (s, 503)
    else if not (user_matches user s) || not (password_matches password s)
    then (note_login_fail now ip s, 401)
    else answer_session (start_session now random (clear_login_fail ip s))

unfoldable pub handle_logout : Option Text → Server → Server × ℕ
unfolding delete_session
handle_logout none s = (s, 200)
handle_logout (some id) s = (record s { sessions = delete_session id s.sessions }, 200)

pub data SessionAnswer : Type 0 where
  authenticated setup is_open unauthorized : SessionAnswer

unfoldable pub handle_session : ℕ → Option Text → Server → Server × SessionAnswer
unfolding valid_session
handle_session now cookie s =
    let valid = valid_session now cookie s in
    if valid.1
    then (valid.0, authenticated)
    else if is_empty_text (trim_space s.admin_password)
    then (valid.0, setup)
    else if is_empty_text s.token
    then (valid.0, is_open)
    else (valid.0, unauthorized)

unfoldable pub has_line_break : Text → Bool
has_line_break String.[] = false
has_line_break (String.◌∷◌ c t) = code c == 13 || (code c == 10 || has_line_break t)

-- The tests of `handleSetup` on what was sent, which need no lock; the status of the first that fails.
unfoldable pub setup_input : Text → Text → Text → Text → Option ℕ
unfolding has_line_break
setup_input data_dir user password confirm =
    if is_empty_text user || (has_line_break user || ltb 64 (count user))
    then some 400
    else if ltb (count password) 8
    then some 400
    else if not (password =t= confirm)
    then some 400
    else if is_empty_text (trim_space data_dir)
    then some 500
    else none

-- `writeAdminFile`.
unfoldable pub write_admin_file : Bool → Text → Text → Server → Server
write_admin_file written user password s =
    if written then record s { disk = some (user, password) } else s

unfoldable pub has_account : Server → Bool
has_account s = not (is_empty_text (trim_space s.admin_password))

-- The second locked part of `handleSetup` and what follows.
unfoldable pub setup_commit : ℕ → Option Text → Text → Text → Server → Server × ℕ
unfolding has_account start_session answer_session
setup_commit now random user password s =
    if has_account s
    then (s, 409)
    else answer_session (
        start_session now random
          (record s { admin_user = user; admin_password = password; admin_file = true }))

-- From the first locked part on, when nothing comes between the parts.
unfoldable pub setup_rest : ℕ → Bool → Option Text → Text → Text → Server → Server × ℕ
unfolding write_admin_file setup_commit
setup_rest now written random user password s =
    if has_account s
    then (s, 409)
    else if written
    then setup_commit now random user password (write_admin_file written user password s)
    else (s, 500)

unfoldable pub handle_setup :
    ℕ → Bool → Option Text → Option (Text × Text × Text) → Server → Server × ℕ
unfolding setup_input setup_rest
handle_setup now written random none s = (s, 400)
handle_setup now written random (some (user, password, confirm)) s =
    elim (setup_input s.data_dir (trim_space user) password confirm) [
      | some status ↦ (s, status)
      | none ↦ setup_rest now written random (trim_space user) password s
    ]

-- `handlePassword`.
unfoldable pub handle_password : ℕ → Bool → Option Text → Option (Text × Text) → Server → Server × ℕ
unfolding password_matches write_admin_file start_session answer_session
handle_password now written random none s =
    if not s.admin_file && is_empty_text (trim_space s.data_dir) then (s, 409) else (s, 400)
handle_password now written random (some (current, next)) s =
    if not s.admin_file && is_empty_text (trim_space s.data_dir)
    then (s, 409)
    else if ltb (count (trim_space next)) 8
    then (s, 400)
    else if not (password_matches current s)
    then (s, 401)
    else if not written
    then (s, 500)
    else answer_session (
        start_session now random
          (record (write_admin_file written s.admin_user (trim_space next) s) {
            admin_file = true;
            admin_password = trim_space next;
            sessions = [];
          }))

-- `readAdminFile` on the content of the file, if there is one.
unfoldable pub read_admin_file : Option (Text × Text) → Option (Text × Text)
read_admin_file none = none
read_admin_file (some (user, password)) =
    if is_empty_text (trim_space password)
    then none
    else some (if is_empty_text (trim_space user) then "admin" else trim_space user, password)

-- `EnsureAdmin`: user, password, and whether they come from the file; `none` without a folder.
unfoldable pub ensure_admin :
    Text → Text → Text → Option (Text × Text) → Option (Text × Text × Bool)
unfolding read_admin_file
ensure_admin dir env_user env_pass disk =
    if is_empty_text (trim_space dir) then none else elim (read_admin_file disk) [
      | some (user, password) ↦ some (user, password, true)
      | none ↦ some (
        if is_empty_text (trim_space env_user) then "admin" else trim_space env_user,
        trim_space env_pass,
        false,
      )
    ]
