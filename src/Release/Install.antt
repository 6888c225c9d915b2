-- ===== src/Release/Install.antt =====
-- internal/release/release.go: `Install` and `saveDownload`.
use text.Mathlib.Text.{starts_with}
use sauce_dust.Prelude.{
  ℕ, suc, ◌*◌, ◌^◌, ltb, ◌==◌, ◌&&◌, ◌||◌, not, if◌then◌else◌, Bool, true, false, Option, none,
  some, List, [], ◌∷◌, length, take, get_or,
}
use sauce_dust.Domain.Texts.{Text}
use sauce_dust.Files.{Step, creates, writes, removes, renames}

abbrev pub max_binary : ℕ
max_binary = 64 * 2 ^ 20

abbrev pub byte_at : List ℕ → ℕ → ℕ
byte_at b i = get_or b i 0

unfoldable pub looks_executable : List ℕ → Bool
looks_executable b =
    if ltb (length b) 4
    then false
    else (byte_at b 0 == 127 && (byte_at b 1 == 69 && (byte_at b 2 == 76 && byte_at b 3 == 70)))
      || ((byte_at b 0 == 207 && (byte_at b 1 == 250 && (byte_at b 2 == 237 && byte_at b 3 == 254)))
          || ((byte_at b 0 == 254
                && (byte_at b 1 == 237
                    && (byte_at b 2 == 250 && (byte_at b 3 == 206 || byte_at b 3 == 207))))
              || (byte_at b 0 == 77 && byte_at b 1 == 90)))

-- What comes of the calls: the answer's code and body, `cut` the number of bytes after which the copy
-- breaks off, if it does so before its limit.
pub record Download : Type 0 where
  pub answer : Option ℕ
  pub body : List ℕ
  pub opened : Bool
  pub cut : Option ℕ
  pub closed : Bool
  pub reopened : Bool
  pub chmod_ok : Bool
  pub renamed : Bool
  pub removed : Bool

abbrev pub give_up : Download → List Step
give_up d = if d.removed then removes ∷ [] else []

-- The file beside, and the tests of what was received: `whole` is false if the copy or the closing failed.
unfoldable pub keep_download : Download → List ℕ → Bool → List Step × Bool
unfolding looks_executable
keep_download d bytes whole =
    let fits = not (ltb (length bytes) 4) && not (ltb max_binary (length bytes)) in
    if whole
      && (fits && (d.reopened && (looks_executable (take 4 bytes) && (d.chmod_ok && d.renamed))))
    then (creates ∷ writes bytes ∷ renames ∷ [], true)
    else (creates ∷ writes bytes ∷ give_up d, false)

abbrev pub received : Option ℕ → List ℕ → List ℕ
received none body = take (suc max_binary) body
received (some n) body = take n body

abbrev pub is_uncut : Option ℕ → Bool
is_uncut none = true
is_uncut (some n) = false

abbrev pub is_ok : Option ℕ → Bool
is_ok none = false
is_ok (some code) = code == 200

unfoldable pub save_download : Download → List Step × Bool
unfolding keep_download
save_download d =
    if is_ok d.answer && d.opened
    then keep_download d (received d.cut d.body) (is_uncut d.cut && d.closed)
    else ([], false)

abbrev pub is_release_url : Text → Bool
is_release_url url =
    starts_with url "https://github.com/"
    || (starts_with url "https://release-assets.github.com/"
        || starts_with url "https://objects.githubusercontent.com/")

unfoldable pub install : Text → Download → List Step × Bool
unfolding save_download
install url d = if is_release_url url then save_download d else ([], false)
