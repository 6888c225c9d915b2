-- ===== src/Domain/Bot.antt =====
-- internal/domain/bot.go: the messages of the bot.
use Prim.Native.String.{String, len, slice, ◌++◌ as ◌+++◌}
use Prim.Native.Char.{len_utf8}
use text.Mathlib.Text.{starts_with}
use sauce_dust.Prelude.{ℕ, ◌+◌, ◌-◌, ltb, leb, Bool, ◌||◌, not, if◌then◌else◌, List, [], ◌∷◌}
use sauce_dust.Domain.Source.{ℤ}
use sauce_dust.Domain.Texts.{Text, ◌=t=◌, is_empty_text, lower, trim_space, join}

pub record BotMessage : Type 0 where
  pub chat_id : ℤ
  pub sender_id : ℕ
  pub sender : Text
  pub text : Text
  pub caption : Text
  pub file_id : Text

unfoldable pub has_image : BotMessage → Bool
has_image m = not (is_empty_text m.file_id)

unfoldable pub is_command : Text → BotMessage → Bool
is_command name m =
    let t = lower (trim_space m.text) in
    t =t= name || (starts_with t (name +++ " ") || starts_with t (name +++ "@"))

abbrev pub bot_text_limit : ℕ
bot_text_limit = 3900

abbrev pub ellipsis : Text
ellipsis = "…"

-- The loop over the runes: the byte at which the last rune begins that begins within the budget; `at`
-- is where the rest begins and `end` what was found so far.
unfoldable pub cut_end : ℕ → ℕ → ℕ → Text → ℕ
cut_end budget at' end' String.[] = end'
cut_end budget at' end' (String.◌∷◌ c s) =
    let rest = cut_end budget (at' + len_utf8 c) at' s in if ltb budget at' then end' else rest

-- The text of `Trimmed`; the other fields of the reply stay.
unfoldable pub trimmed : Text → Text
unfolding cut_end
trimmed t =
    if leb (len t) bot_text_limit
    then t
    else slice t 0 (cut_end (bot_text_limit - len ellipsis) 0 0 t) +++ ellipsis

unfoldable pub rating_label : Text → Text
rating_label rating =
    let r = lower (trim_space rating) in
    if r =t= "g" || r =t= "general"
    then "전체 이용가"
    else if r =t= "s" || r =t= "sensitive"
    then "다소 민감"
    else if r =t= "q" || r =t= "questionable"
    then "선정적"
    else if r =t= "e" || r =t= "explicit"
    then "노골적"
    else if is_empty_text r
    then "등급 없음"
    else rating

-- `PostLabel`; the decimal digits of the number are given by `show`.
unfoldable pub post_label : (ℕ → Text) → Text → ℕ → List Text → Text
post_label show site post_id [] = site +++ (" #" +++ show post_id)
post_label show site post_id (t ∷ ts) =
    (site +++ (" #" +++ show post_id)) +++ (" · " +++ join ", " (t ∷ ts))
