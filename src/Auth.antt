-- ===== src/Auth.antt =====
-- internal/adapter/httpapi/auth.go: the operator's account, its sessions, and the count of failed logins.
-- Times are nanoseconds; the random name of a session, and whether the file can be written, are given.
pub mod Requests
pub mod Sessions
pub mod Guesses
mod Examples
use Prim.Native.String.{String, count, ◌++◌ as ◌+++◌}
use Prim.Native.Char.{Char, code}
use sauce_dust.Prelude.{
  ℕ, suc, ◌+◌, ltb, leb, ◌==◌, ◌&&◌, ◌||◌, not, if◌then◌else◌, Bool, true, false, Option, none,
  some, List, [], ◌∷◌,
}
use sauce_dust.Domain.Texts.{Text, ◌=t=◌, is_empty_text, trim_space}

abbrev pub session_ttl : ℕ
session_ttl = 1209600000000000

abbrev pub max_login_fails : ℕ
max_login_fails = 8

abbrev pub lock_time : ℕ
lock_time = 60000000000

pub record FailState : Type 0 where
  pub n : ℕ
  pub until : ℕ

-- The server's part that the account needs; `disk` is the content of `web-admin.json`.
pub record Server : Type 0 where
  pub token : Text
  pub admin_user : Text
  pub admin_password : Text
  pub admin_file : Bool
  pub data_dir : Text
  pub sessions : List (Text × ℕ)
  pub fails : List (Text × FailState)
  pub disk : Option (Text × Text)

unfoldable pub find_session : Text → List (Text × ℕ) → Option ℕ
find_session id [] = none
find_session id ((k, exp) ∷ ss) =
    let rest = find_session id ss in if k =t= id then some exp else rest

unfoldable pub delete_session : Text → List (Text × ℕ) → List (Text × ℕ)
delete_session id [] = []
delete_session id ((k, exp) ∷ ss) =
    let rest = delete_session id ss in if k =t= id then rest else (k, exp) ∷ rest

-- A session whose end lies before the time; `none` is a request without the cookie.
unfoldable pub valid_session : ℕ → Option Text → Server → Server × Bool
unfolding find_session delete_session
valid_session now none s = (s, false)
valid_session now (some id) s =
    if is_empty_text id then (s, false) else elim (find_session id s.sessions) [
      | none ↦ (s, false)
      | some exp ↦
          if ltb exp now
          then (record s { sessions = delete_session id s.sessions }, false)
          else (s, true)
    ]

-- `none` where the random source fails.
unfoldable pub start_session : ℕ → Option Text → Server → Server × Bool
unfolding delete_session
start_session now none s = (s, false)
start_session now (some id) s =
    (record s { sessions = (id, now + session_ttl) ∷ delete_session id s.sessions }, true)

unfoldable pub allowed : ℕ → Text → Option Text → Server → Server × Bool
unfolding valid_session
allowed now authorization cookie s =
    if is_empty_text s.token || authorization =t= ("Bearer " +++ s.token)
    then (s, true)
    else valid_session now cookie s

unfoldable pub password_matches : Text → Server → Bool
password_matches pass s = not (is_empty_text s.admin_password) && pass =t= s.admin_password

unfoldable pub user_matches : Text → Server → Bool
user_matches user s = not (is_empty_text s.admin_user) && user =t= s.admin_user

unfoldable pub find_fail : Text → List (Text × FailState) → FailState
find_fail ip [] = record { n = 0; until = 0 }
find_fail ip ((k, f) ∷ fs) = let rest = find_fail ip fs in if k =t= ip then f else rest

unfoldable pub delete_fail : Text → List (Text × FailState) → List (Text × FailState)
delete_fail ip [] = []
delete_fail ip ((k, f) ∷ fs) =
    let rest = delete_fail ip fs in if k =t= ip then rest else (k, f) ∷ rest

unfoldable pub locked_out : ℕ → Text → Server → Bool
unfolding find_fail
locked_out now ip s =
    let state = find_fail ip s.fails in leb max_login_fails state.n && ltb now state.until

unfoldable pub failed_again : ℕ → FailState → FailState
failed_again now f = record {
  n = suc f.n;
  until = if leb max_login_fails (suc f.n) then now + lock_time else f.until;
}

unfoldable pub note_login_fail : ℕ → Text → Server → Server
unfolding find_fail delete_fail failed_again
note_login_fail now ip s = record s {
  fails = (ip, failed_again now (find_fail ip s.fails)) ∷ delete_fail ip s.fails;
}

unfoldable pub clear_login_fail : Text → Server → Server
unfolding delete_fail
clear_login_fail ip s = record s { fails = delete_fail ip s.fails }
