-- ===== src/Bot/Guarded.antt =====
-- internal/app/bot.go: for whom the bot works, and what it sends.
use Prim.Native.String.{len}
use sauce_dust.Prelude.{
  ℕ, zero, suc, ◌≡◌, ◌≤◌, refl, sym, subst, inl, inr, ◌||◌, Bool, true, false, Option, none, some,
  List, [], ◌∷◌, ◌++◌, length, arith, Bool-cases, ltb,
}
use sauce_dust.Domain.Source.{ℤ}
use sauce_dust.Domain.Texts.{Text}
use sauce_dust.Domain.Bot.{BotMessage, has_image, is_command, trimmed, bot_text_limit}
use sauce_dust.Domain.Trimmed.{trimmed_limit}
use sauce_dust.Bot.{
  BotButton, BotReply, BotConfig, permitted, Call, sends, edits, fetches, looks_up, Answers, plain,
  shortened, reply, replace, show_result, search_image, fetch_image, handle, help_text,
}
use sauce_dust.Bot.Format.{
  ShownHit, is_link, linked, reply_buttons, format_search_reply, formatted, candidate_buttons,
}

abbrev pub AllLinks : List BotButton → Type 0
AllLinks [] = Unit {0}
AllLinks (b ∷ bs) = (is_link b.url ≡ true) × AllLinks bs

-- A message to the chat, as long as the messenger takes, with addresses on its buttons.
pub record IsSendable (chat : ℤ) (r : BotReply) : Type 0 where
  pub same_chat : r.chat_id ≡ chat
  pub fits : len r.text ≤ bot_text_limit
  pub links : AllLinks r.buttons

-- What a call may do: to fetch and search for who is permitted only, and only a picture that fits.
abbrev pub IsAllowed : BotConfig → Answers → BotMessage → Call → Type 0
IsAllowed cfg a msg (sends r) = IsSendable msg.chat_id r
IsAllowed cfg a msg (edits r) = IsSendable msg.chat_id r
IsAllowed cfg a msg (fetches file) = (permitted cfg msg ≡ true) × (file ≡ msg.file_id)
IsAllowed cfg a msg (looks_up image) =
    (permitted cfg msg ≡ true) × (a.fetched ≡ some image) × (length image ≤ cfg.max_image_bytes)

abbrev pub AllAllowed : BotConfig → Answers → BotMessage → List Call → Type 0
AllAllowed cfg a msg [] = Unit {0}
AllAllowed cfg a msg (c ∷ cs) = IsAllowed cfg a msg c × AllAllowed cfg a msg cs

linked-AllLinks : (bs : List BotButton) → AllLinks (linked bs)
unfolding linked
linked-AllLinks [] = tt
linked-AllLinks (b ∷ bs) = elim (Bool-cases (is_link b.url)) [
  | inl link ↦ rw link (link, linked-AllLinks bs)
  | inr other ↦ rw other (linked-AllLinks bs)
]

-- A reply before it is cut.
abbrev pub IsReply : ℤ → BotReply → Type 0
IsReply chat r = (r.chat_id ≡ chat) × AllLinks r.buttons

format-IsReply :
    (show percent : ℕ → Text) (chat : ℤ) (hits : List ShownHit)
    → IsReply chat (format_search_reply show percent chat hits)
unfolding format_search_reply reply_buttons
format-IsReply show percent chat [] = (refl, tt)
format-IsReply show percent chat (h ∷ hits) = (refl, linked-AllLinks (candidate_buttons h.image))

trimmed_fits : (t : Text) → len (trimmed t) ≤ bot_text_limit
trimmed_fits t = elim (trimmed_limit t) [
  | inl (fits, same) ↦ subst (λ u. len u ≤ bot_text_limit) (sym same) fits
  | inr (before, after, parts, is, low, high) ↦ high
]

shortened-IsSendable : (chat : ℤ) (r : BotReply) → IsReply chat r → IsSendable chat (shortened r)
shortened-IsSendable chat r v = record { same_chat = v.0; fits = trimmed_fits r.text; links = v.1 }

module _ (cfg : BotConfig) (a : Answers) (msg : BotMessage) where
  AllAllowed-append :
      (cs ds : List Call)
      → AllAllowed cfg a msg cs
      → AllAllowed cfg a msg ds
      → AllAllowed cfg a msg (cs ++ ds)
  AllAllowed-append [] ds v w = w
  AllAllowed-append (c ∷ cs) ds v w = (v.0, AllAllowed-append cs ds v.1 w)

  reply-AllAllowed :
      (over : Bool) (sent : Option ℕ) (r : BotReply)
      → IsReply msg.chat_id r
      → AllAllowed cfg a msg (reply over sent r).0
  unfolding reply
  reply-AllAllowed true sent r v = tt
  reply-AllAllowed false sent r v = (shortened-IsSendable msg.chat_id r v, tt)

  say-AllAllowed :
      (over : Bool) (sent : Option ℕ) (t : Text)
      → AllAllowed cfg a msg (reply over sent (plain msg.chat_id t)).0
  say-AllAllowed over sent t = reply-AllAllowed over sent (plain msg.chat_id t) (refl, tt)

  replace-AllAllowed :
      (id : ℕ) (r : BotReply) → IsReply msg.chat_id r → AllAllowed cfg a msg (replace a id r)
  unfolding replace
  replace-AllAllowed zero r v = reply-AllAllowed a.over_last none r v
  replace-AllAllowed (suc id) r v =
      let here = shortened-IsSendable msg.chat_id (record r { message_id = suc id }) v in
      elim (Bool-cases a.edited) [
        | inl done ↦ rw done (here, tt)
        | inr failed ↦
            rw failed (here, reply-AllAllowed a.over_last none (record r { message_id = suc id }) v)
      ]

  module _ (show percent : ℕ → Text) (find : List ℕ → Option (List ShownHit)) where
    abbrev searched : List ℕ → Option BotReply
    searched image = formatted show percent msg.chat_id (find image)

    show_result-AllAllowed :
        (id : ℕ) (hits : Option (List ShownHit))
        → AllAllowed cfg a msg
            (show_result a msg.chat_id id (formatted show percent msg.chat_id hits))
    unfolding show_result
    show_result-AllAllowed id (some hits) =
        replace-AllAllowed id (format_search_reply show percent msg.chat_id hits)
          (format-IsReply show percent msg.chat_id hits)
    show_result-AllAllowed id none = elim (Bool-cases a.over_found) [
      | inl over ↦ rw over tt
      | inr on ↦ rw on (
          replace-AllAllowed id (plain msg.chat_id "Search failed. Please try again in a moment.")
            (refl, tt))
    ]

    search_image-AllAllowed :
        (image : List ℕ)
        → permitted cfg msg ≡ true
        → a.fetched ≡ some image
        → AllAllowed cfg a msg (search_image searched cfg a msg image)
    unfolding search_image
    search_image-AllAllowed image may is =
        elim (Bool-cases (ltb cfg.max_image_bytes (length image))) [
          | inl large ↦ rw large (say-AllAllowed a.over_first none "The image is too large.")
          | inr fits ↦
              let first = reply a.over_first a.sent (plain msg.chat_id "Searching...") in
              let rest = show_result-AllAllowed (first.1) (find image) in
              rw fits (
                AllAllowed-append first.0 _ (say-AllAllowed a.over_first a.sent "Searching...")
                  ((may, is, ground arith), rest))
        ]

    fetch_image-AllAllowed :
        (fetched : Option (List ℕ))
        → permitted cfg msg ≡ true
        → a.fetched ≡ fetched
        → AllAllowed cfg a msg (fetch_image searched cfg a msg fetched)
    unfolding fetch_image
    fetch_image-AllAllowed (some image) may is = search_image-AllAllowed image may is
    fetch_image-AllAllowed none may is = elim (Bool-cases a.over_fetched) [
      | inl over ↦ rw over tt
      | inr on ↦
          rw on
            (say-AllAllowed a.over_first none "Could not download the image. Please send it again.")
    ]

-- Whatever the gateway and the search answer, a picture is fetched only if its sender is permitted,
-- searched for only if it also was fetched and is no larger than the limit, and everything that is sent
-- goes to the chat of the message, has at most 3900 bytes of text and only addresses on its buttons.
pub handle-IsGuarded :
    (show percent : ℕ → Text) (find : List ℕ → Option (List ShownHit)) (cfg : BotConfig)
    (a : Answers) (msg : BotMessage)
    → AllAllowed cfg a msg
        (handle (λ image. formatted show percent msg.chat_id (find image)) cfg a msg)
unfolding handle
handle-IsGuarded show percent find cfg a msg = elim (Bool-cases (permitted cfg msg)) [
  | inr banned ↦
      rw banned
        (say-AllAllowed cfg a msg a.over_first none "This bot is only available to approved users.")
  | inl may ↦ elim (Bool-cases (is_command "/start" msg || is_command "/help" msg)) [
    | inl help ↦ rw (may, help) (say-AllAllowed cfg a msg a.over_first none help_text)
    | inr other ↦ elim (Bool-cases (has_image msg)) [
      | inr bare ↦
          rw (may, other, bare)
            (say-AllAllowed cfg a msg a.over_first none
              "Send the picture you want to find as a photo or an image file.")
      | inl picture ↦
          rw (may, other, picture)
            ((may, refl), fetch_image-AllAllowed cfg a msg show percent find a.fetched may refl)
    ]
  ]
]
