-- ===== src/Domain/Texts.antt =====
-- What the sources use of the packages strings and path, on texts that are lists of characters.
use Prim.Native.String.{String, char_at, ◌++◌ as ◌+++◌}
use Prim.Native.Char.{Char, code}
use sauce_dust.Prelude.{
  ℕ, ◌-◌, leb, ◌==◌, ◌&&◌, ◌||◌, if◌then◌else◌, Bool, true, false, List, [], ◌∷◌,
}
pub use text.Mathlib.Text.{◌==◌ as ◌=t=◌}

abbrev pub Text : Type 0
Text = String

-- `unicode.IsSpace`
unfoldable pub is_space : ℕ → Bool
is_space c =
    (leb 9 c && leb c 13)
    || (c == 32
        || (c == 133
            || (c == 160
                || (c == 5760
                    || ((leb 8192 c && leb c 8202)
                        || (c == 8232
                            || (c == 8233 || (c == 8239 || (c == 8287 || c == 12288)))))))))

-- A word that is being read, at its end.
unfoldable close_word : Text → List Text → List Text
close_word String.[] ws = ws
close_word (String.◌∷◌ c w) ws = String.◌∷◌ c w ∷ ws

-- `strings.Fields`, on the word that is being read and the rest of the text.
unfoldable fields_from : Text → Text → List Text
unfolding close_word is_space
fields_from word String.[] = close_word word []
fields_from word (String.◌∷◌ c s) =
    let apart = fields_from String.[] s in
    let within = fields_from (word +++ String.◌∷◌ c String.[]) s in
    if is_space (code c) then close_word word apart else within

unfoldable pub fields : Text → List Text
unfolding fields_from
fields s = fields_from String.[] s

unfoldable trim_left : Text → Text
unfolding is_space
trim_left String.[] = String.[]
trim_left (String.◌∷◌ c s) =
    let rest = trim_left s in if is_space (code c) then rest else String.◌∷◌ c s

unfoldable keep_unless_blank : Char → Text → Text
unfolding is_space
keep_unless_blank c String.[] = if is_space (code c) then String.[] else String.◌∷◌ c String.[]
keep_unless_blank c (String.◌∷◌ d s) = String.◌∷◌ c (String.◌∷◌ d s)

unfoldable trim_right : Text → Text
unfolding keep_unless_blank
trim_right String.[] = String.[]
trim_right (String.◌∷◌ c s) = keep_unless_blank c (trim_right s)

-- `strings.TrimSpace`
unfoldable pub trim_space : Text → Text
unfolding trim_left trim_right
trim_space s = trim_right (trim_left s)

unfoldable pub is_empty_text : Text → Bool
is_empty_text String.[] = true
is_empty_text (String.◌∷◌ c s) = false

-- `unicode.ToLower` where it gives an ASCII letter; other characters stay. A comparison of the result
-- with an ASCII text is therefore the source's.
unfoldable pub lower_char : Char → Char
lower_char c =
    if leb 65 (code c) && leb (code c) 90
    then char_at "abcdefghijklmnopqrstuvwxyz" (code c - 65)
    else if code c == 8490
    then char_at "k" 0
    else if code c == 304
    then char_at "i" 0
    else c

-- `strings.ToLower`
unfoldable pub lower : Text → Text
unfolding lower_char
lower String.[] = String.[]
lower (String.◌∷◌ c s) = String.◌∷◌ (lower_char c) (lower s)

-- The part of an address before `?` or `#`.
unfoldable pub strip_query : Text → Text
strip_query String.[] = String.[]
strip_query (String.◌∷◌ c s) =
    let rest = strip_query s in
    if code c == 63 || code c == 35 then String.[] else String.◌∷◌ c rest

-- `path.Ext` on the suffix found so far: it begins anew at each dot, and ends at a slash.
unfoldable ext_from : Text → Text → Text
unfolding is_empty_text
ext_from found String.[] = found
ext_from found (String.◌∷◌ c s) =
    let anew = ext_from (String.◌∷◌ c String.[]) s in
    let gone = ext_from String.[] s in
    let longer = ext_from (found +++ String.◌∷◌ c String.[]) s in
    if code c == 46 then anew else if code c == 47 || is_empty_text found then gone else longer

unfoldable pub ext : Text → Text
unfolding ext_from
ext s = ext_from String.[] s

-- `strings.Join`
unfoldable pub join : Text → List Text → Text
join sep [] = String.[]
join sep (t ∷ []) = t
join sep (t ∷ u ∷ ts) = t +++ (sep +++ join sep (u ∷ ts))

-- `strings.Split` at a character, with the part that is being read.
unfoldable pub split_on : ℕ → Text → Text → List Text
split_on sep part String.[] = part ∷ []
split_on sep part (String.◌∷◌ c s) =
    let next = split_on sep String.[] s in
    let on = split_on sep (part +++ String.◌∷◌ c String.[]) s in
    if code c == sep then part ∷ next else on
