-- ===== src/Bot.antt =====
-- internal/app/bot.go: the bot that answers a picture with where it comes from. What the calls of the
-- gateway and of the search return is given, one answer for each place of a call.
pub mod Format
pub mod Loop
pub mod Guarded
pub mod Since
pub mod Served
mod Examples
use sauce_dust.Prelude.{
  ℕ, zero, suc, ◌*◌, ◌^◌, ◌==◌, ltb, leb, not, ◌&&◌, ◌||◌, if◌then◌else◌, Bool, true, false, Option,
  none, some, List, [], ◌∷◌, ◌++◌, length,
}
use sauce_dust.Domain.Texts.{Text}
use sauce_dust.Domain.Source.{ℤ}
use sauce_dust.Domain.Bot.{BotMessage, has_image, is_command, trimmed}

pub record BotButton : Type 0 where
  pub label : Text
  pub url : Text

pub record BotReply : Type 0 where
  pub chat_id : ℤ
  pub message_id : ℕ
  pub text : Text
  pub buttons : List BotButton
  pub disable_preview : Bool

pub record BotConfig : Type 0 where
  pub allowed_users : List ℕ
  pub max_image_bytes : ℕ

-- The defaults that `NewBot` sets; a negative limit is written 0.
unfoldable pub new_bot : BotConfig → BotConfig
new_bot cfg = record cfg {
  max_image_bytes = if cfg.max_image_bytes == 0 then 32 * 2 ^ 20 else cfg.max_image_bytes;
}

unfoldable pub is_listed : ℕ → List ℕ → Bool
is_listed n [] = false
is_listed n (m ∷ ms) = m == n || is_listed n ms

unfoldable pub permitted : BotConfig → BotMessage → Bool
unfolding is_listed
permitted cfg msg = length cfg.allowed_users == 0 || is_listed msg.sender_id cfg.allowed_users

pub data Call : Type 0 where
  sends : BotReply → Call
  edits : BotReply → Call
  fetches : Text → Call
  looks_up : List ℕ → Call

abbrev pub plain : ℤ → Text → BotReply
plain chat t = record {
  chat_id = chat;
  message_id = 0;
  text = t;
  buttons = [];
  disable_preview = false;
}

abbrev pub shortened : BotReply → BotReply
shortened r = record r { text = trimmed r.text }

abbrev pub or_zero : Option ℕ → ℕ
or_zero none = 0
or_zero (some n) = n

-- `over` is whether the context is over, `sent` the number of the message if it was sent.
unfoldable pub reply : Bool → Option ℕ → BotReply → List Call × ℕ
reply over sent msg = if over then ([], 0) else (sends (shortened msg) ∷ [], or_zero sent)

-- What comes of the calls of `handle`, and whether the context is over at the places that look.
pub record Answers : Type 0 where
  pub fetched : Option (List ℕ)
  pub over_fetched : Bool
  pub over_first : Bool
  pub sent : Option ℕ
  pub over_found : Bool
  pub edited : Bool
  pub over_last : Bool

unfoldable pub replace : Answers → ℕ → BotReply → List Call
unfolding reply
replace a zero msg = (reply a.over_last none msg).0
replace a (suc id) msg =
    edits (shortened (record msg { message_id = suc id }))
    ∷ (if a.edited then [] else (reply a.over_last none (record msg { message_id = suc id })).0)

abbrev pub help_text : Text
help_text =
    "Send a picture to find where it came from.\n\nA photo or an image file both work.\nCropped or recompressed copies can still match."

-- The end of `handle`, with the result of the search: `none` is an error.
unfoldable pub show_result : Answers → ℤ → ℕ → Option BotReply → List Call
unfolding replace
show_result a chat id (some found) = replace a id found
show_result a chat id none =
    if a.over_found
    then []
    else replace a id (plain chat "Search failed. Please try again in a moment.")

-- From the picture on; `search` is the search with the formatting of its result.
unfoldable pub search_image :
    (List ℕ → Option BotReply) → BotConfig → Answers → BotMessage → List ℕ → List Call
unfolding reply show_result
search_image search cfg a msg image =
    let first = reply a.over_first a.sent (plain msg.chat_id "Searching...") in
    if ltb cfg.max_image_bytes (length image)
    then (reply a.over_first none (plain msg.chat_id "The image is too large.")).0
    else first.0 ++ (looks_up image ∷ show_result a msg.chat_id (first.1) (search image))

unfoldable pub fetch_image :
    (List ℕ → Option BotReply) → BotConfig → Answers → BotMessage → Option (List ℕ) → List Call
unfolding search_image reply
fetch_image search cfg a msg (some image) = search_image search cfg a msg image
fetch_image search cfg a msg none =
    if a.over_fetched
    then []
    else (reply a.over_first none
        (plain msg.chat_id "Could not download the image. Please send it again.")).0

unfoldable pub handle : (List ℕ → Option BotReply) → BotConfig → Answers → BotMessage → List Call
unfolding fetch_image reply permitted
handle search cfg a msg =
    if not (permitted cfg msg)
    then (reply a.over_first none
        (plain msg.chat_id "This bot is only available to approved users.")).0
    else if is_command "/start" msg || is_command "/help" msg
    then (reply a.over_first none (plain msg.chat_id help_text)).0
    else if not (has_image msg)
    then (reply a.over_first none
        (plain msg.chat_id "Send the picture you want to find as a photo or an image file.")).0
    else fetches msg.file_id ∷ fetch_image search cfg a msg a.fetched
