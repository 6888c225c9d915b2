-- ===== src/Thumbs/Safe.antt =====
-- internal/adapter/filestore/filestore.go: what the name of a folder consists of.
use Prim.Native.String.{String, char_at}
use Prim.Native.Char.{Char, code}
use sauce_dust.Prelude.{ℕ, zero, suc, ◌≡◌, ◌≢◌, ◌&&◌, ◌==◌, Bool, true, false}
use sauce_dust.Domain.Texts.{Text}
use sauce_dust.Thumbs.{is_kept, trim_end}

-- A test that holds below a bound, computed.
abbrev all_below : (ℕ → Bool) → ℕ → Bool
all_below test zero = true
all_below test (suc n) = test n && all_below test n

abbrev pub AllKept : Text → Type 0
AllKept String.[] = Unit {0}
AllKept (String.◌∷◌ c s) = (is_kept (code c) ≡ true) × AllKept s

-- The text does not begin with a dash.
abbrev pub Begins : Text → Type 0
Begins String.[] = Unit {0}
Begins (String.◌∷◌ c s) = (code c == 45) ≡ false

abbrev letter_is_kept : ℕ → Bool
letter_is_kept n = is_kept (code (char_at "abcdefghijklmnopqrstuvwxyz" n))

-- A name that is kept as it is.
abbrev pub IsSafe : Text → Type 0
IsSafe s = AllKept s × Begins s × (trim_end s ≡ s) × (s ≢ "")
