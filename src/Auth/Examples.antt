-- ===== src/Auth/Examples.antt =====
-- internal/adapter/httpapi/auth.go: an account "ann", and a server without one.
use sauce_dust.Prelude.{◌+◌, ◌≡◌, refl, true, false, not, leb, ◌&&◌, none, some, List, [], ◌∷◌, ◌↔◌}
use sauce_dust.Domain.Texts.{◌=t=◌, is_empty_text, trim_space}
use sauce_dust.Auth.{
  Server, session_ttl, valid_session, start_session, password_matches, delete_session,
}
use sauce_dust.Auth.Requests.{
  handle_login, handle_setup, handle_password, setup_input, has_line_break, has_account,
  write_admin_file, setup_commit, setup_rest, answer_session,
}
use sauce_dust.Auth.Guesses.{
  Part, tests, compares, notes, after_parts, failures, is_shut, login_parts, handle_login-is_shut,
}
use sauce_dust.Auth.Sessions.{password_change}

abbrev ann_server : Server
ann_server = record {
  token = "t";
  admin_user = "ann";
  admin_password = "12345678";
  admin_file = true;
  data_dir = "/data";
  sessions = ("old", 99) ∷ [];
  fails = [];
  disk = some ("ann", "12345678");
}

ann_changed : Server
ann_changed = record ann_server {
  admin_password = "abcdefgh";
  disk = some ("ann", "abcdefgh");
  sessions = ("new", 5 + session_ttl) ∷ [];
}

changed_200 :
    handle_password 5 true (some "new") (some ("12345678", " abcdefgh")) ann_server
    ≡ (ann_changed, 200)
unfolding handle_password start_session answer_session write_admin_file delete_session
    password_matches is_empty_text trim_space ann_changed
changed_200 = refl

password_change_example :
    (password_matches (trim_space " abcdefgh") ann_changed ≡ true)
    × (ann_changed.disk ≡ some (ann_server.admin_user, trim_space " abcdefgh"))
    × ((valid_session 6 (some "old") ann_changed).1
        ≡ (not (is_empty_text "old") && ("new" =t= "old" && leb 6 (5 + session_ttl))))
password_change_example =
    password_change 5 true "new" "12345678" " abcdefgh" ann_server ann_changed 6 "old" changed_200

-- Two logins that are tested at the same time fail, and so do six others of the address, one after another.
abbrev eight_failures : List Part
eight_failures =
    tests 1 "ip"
    ∷ tests 1 "ip"
    ∷ compares ("ann", "x")
    ∷ compares ("ann", "y")
    ∷ notes 2 "ip"
    ∷ notes 2 "ip"
    ∷ notes 3 "ip"
    ∷ notes 4 "ip"
    ∷ notes 5 "ip"
    ∷ notes 5 "elsewhere"
    ∷ notes 6 "ip"
    ∷ notes 7 "ip"
    ∷ notes 8 "ip"
    ∷ []

handle_login-is_shut_example :
    (((handle_login 9 "ip" (some ("ann", "x")) none (after_parts eight_failures ann_server)).1
        ≡ 429)
      ↔ (is_shut 9 (failures "ip" eight_failures []) ≡ true))
    × ((handle_login 9 "ip" (some ("ann", "x")) none (after_parts eight_failures ann_server)).0
        ≡ after_parts
            (login_parts 9 "ip" (some ("ann", "x")) none (after_parts eight_failures ann_server))
            (after_parts eight_failures ann_server))
handle_login-is_shut_example =
    handle_login-is_shut 9 "ip" (some ("ann", "x")) none eight_failures ann_server refl

shut_test : is_shut 9 (failures "ip" eight_failures []) ≡ true
shut_test = refl

open_test : is_shut 60_000_000_008 (failures "ip" eight_failures []) ≡ false
open_test = refl

abbrev new_server : Server
new_server = record ann_server {
  admin_user = "";
  admin_password = "";
  admin_file = false;
  disk = none;
  sessions = [];
}

-- A password of eight spaces is accepted, and the account can be set up again by anyone.
blank_password_test :
    ((handle_setup 5 true (some "a") (some ("ann", "        ", "        ")) new_server).1 ≡ 200)
    × ((handle_setup 6 true
          (some "b")
          (some ("eve", "12345678", "12345678"))
          (handle_setup 5 true (some "a") (some ("ann", "        ", "        ")) new_server).0).1
        ≡ 200)
unfolding handle_setup setup_input setup_rest setup_commit write_admin_file has_account
    has_line_break start_session delete_session answer_session is_empty_text trim_space
blank_password_test = (refl, refl)

-- Two requests pass the first test and write the file before one of them is taken: the file and the
-- memory hold different accounts.
two_setups_test :
    ((setup_commit 7 (some "a") "ann" "12345678" (
        write_admin_file true "eve" "87654321"
          (write_admin_file true "ann" "12345678" new_server))).0.disk
      ≡ some ("eve", "87654321"))
    × ((setup_commit 7 (some "a") "ann" "12345678" (
          write_admin_file true "eve" "87654321"
            (write_admin_file true "ann" "12345678" new_server))).0.admin_user
        ≡ "ann")
unfolding setup_commit write_admin_file has_account start_session delete_session answer_session
    is_empty_text trim_space
two_setups_test = (refl, refl)
