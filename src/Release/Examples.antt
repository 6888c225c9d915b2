-- ===== src/Release/Examples.antt =====
-- internal/release/release.go: versions, and a program that is installed.
use sauce_dust.Prelude.{
  ℕ, ◌≡◌, refl, ◌↔◌, true, false, none, some, List, [], ◌∷◌, Option, if◌then◌else◌,
}
use sauce_dust.Domain.Texts.{split_on, Text, ◌=t=◌, trim_space, is_empty_text}
use sauce_dust.Files.{creates, writes, renames, IsAtomic, IsSettled}
use sauce_dust.Release.{newer, newer_from, parse_version, numbers}
use sauce_dust.Release.Newer.{AboveFrom, newer-AboveFrom}
use sauce_dust.Release.Install.{
  Download, install, save_download, keep_download, looks_executable, is_release_url,
}
use sauce_dust.Release.Installed.{IsProgram, install-IsAtomic}

abbrev small_numbers : Text → Option ℕ
small_numbers t =
    if t =t= "0" then some 0 else if t =t= "2" then some 2 else if t =t= "10" then some 10 else none

newer_test : newer small_numbers "0.2.0" " v0.10" ≡ true
unfolding newer newer_from parse_version split_on numbers trim_space is_empty_text
newer_test = refl

older_test : newer small_numbers "v0.2" "0.2.0" ≡ false
unfolding newer newer_from parse_version split_on numbers trim_space is_empty_text
older_test = refl

newer-AboveFrom_example :
    (newer small_numbers "0.2.0" "v0.10" ≡ true) ↔ AboveFrom 0 (0 ∷ 10 ∷ []) (0 ∷ 2 ∷ 0 ∷ [])
unfolding parse_version split_on numbers trim_space is_empty_text
newer-AboveFrom_example =
    newer-AboveFrom small_numbers "0.2.0" "v0.10" (0 ∷ 2 ∷ 0 ∷ []) (0 ∷ 10 ∷ []) refl refl

abbrev program : List ℕ
program = 127 ∷ 69 ∷ 76 ∷ 70 ∷ 1 ∷ []

abbrev address : Text
address = "https://github.com/yldst-dev/sauceDUST/releases/saucedust-linux-amd64"

abbrev well : Download
well = record {
  answer = some 200;
  body = program;
  opened = true;
  cut = none;
  closed = true;
  reopened = true;
  chmod_ok = true;
  renamed = true;
  removed = true;
}

install_test : install address well ≡ (creates ∷ writes program ∷ renames ∷ [], true)
unfolding install save_download keep_download looks_executable
install_test = refl

install-IsAtomic_example :
    IsAtomic program (install address well).0
    × IsSettled program (install address well).0 (install address well).1
    × ((install address well).1 ≡ true → IsProgram program × (is_release_url address ≡ true))
install-IsAtomic_example = install-IsAtomic address well
