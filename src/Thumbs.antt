-- ===== src/Thumbs.antt =====
-- internal/adapter/filestore/filestore.go: where a thumbnail is kept, and how it is written. The
-- functions of path/filepath that clean a path are arguments; a name of a file is a list of segments.
pub mod Write
pub mod Safe
pub mod Replaced
mod Examples
use Prim.Native.String.{String, char_at, ◌++◌ as ◌+++◌}
use Prim.Native.Char.{Char, code}
use sauce_dust.Prelude.{
  ℕ, ◌+◌, ◌/◌, ◌%◌, ◌-◌, leb, ◌==◌, ◌&&◌, ◌||◌, if◌then◌else◌, Bool, true, false, List, [], ◌∷◌,
}
use sauce_dust.Domain.Texts.{Text, lower_char}

abbrev pub dash : Char
dash = char_at "-" 0

abbrev pub is_kept : ℕ → Bool
is_kept c = (leb 97 c && leb c 122) || ((leb 48 c && leb c 57) || (c == 45 || c == 95))

abbrev pub is_upper : ℕ → Bool
is_upper c = leb 65 c && leb c 90

-- What a character of the name of a site becomes.
unfoldable pub safe_char : Char → Char
unfolding lower_char
safe_char c = if is_kept (code c) then c else if is_upper (code c) then lower_char c else dash

unfoldable pub safe_chars : Text → Text
unfolding safe_char
safe_chars String.[] = String.[]
safe_chars (String.◌∷◌ c s) = String.◌∷◌ (safe_char c) (safe_chars s)

-- `strings.Trim` with `-`: at the front, then at the end.
unfoldable pub trim_front : Text → Text
trim_front String.[] = String.[]
trim_front (String.◌∷◌ c s) =
    let rest = trim_front s in if code c == 45 then rest else String.◌∷◌ c s

abbrev pub unless_dash : Char → Text → Text
unless_dash c String.[] = if code c == 45 then String.[] else String.◌∷◌ c String.[]
unless_dash c (String.◌∷◌ d s) = String.◌∷◌ c (String.◌∷◌ d s)

unfoldable pub trim_end : Text → Text
trim_end String.[] = String.[]
trim_end (String.◌∷◌ c s) = unless_dash c (trim_end s)

abbrev pub or_unknown : Text → Text
or_unknown String.[] = "unknown"
or_unknown (String.◌∷◌ c s) = String.◌∷◌ c s

unfoldable pub safe_segment : Text → Text
unfolding safe_chars trim_front trim_end
safe_segment raw = or_unknown (trim_end (trim_front (safe_chars raw)))

abbrev pub hex_digit : ℕ → Text
hex_digit d = String.◌∷◌ (char_at "0123456789abcdef" d) String.[]

-- `%02x` of a byte.
unfoldable pub hex_pair : ℕ → Text
hex_pair n = hex_digit (n / 16) +++ hex_digit (n % 16)

-- The segments of `RelPath`; `show` prints a number in decimal digits.
unfoldable pub rel_path : (ℕ → Text) → Text → ℕ → List Text
unfolding safe_segment hex_pair
rel_path show site post_id =
    safe_segment site
    ∷ hex_pair (post_id % 256)
    ∷ hex_pair (post_id / 256 % 256)
    ∷ (show post_id +++ ".jpg")
    ∷ []
