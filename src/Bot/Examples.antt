-- ===== src/Bot/Examples.antt =====
-- internal/app/bot.go: a bot for two users, and a gateway with three updates.
use sauce_dust.Domain.Source.{negsuc}
use sauce_dust.Prelude.{
  zero, ℕ, suc, ◌≡◌, refl, true, false, none, some, Option, List, [], ◌∷◌, take, arith, inl, inr,
  map,
}
use sauce_dust.Domain.Texts.{Text, lower, trim_space, is_empty_text}
use sauce_dust.Domain.Bot.{BotMessage, has_image, is_command}
use sauce_dust.Bot.{
  BotConfig, Answers, Call, sends, edits, fetches, looks_up, handle, fetch_image, search_image,
  show_result, replace, reply, permitted, is_listed,
}
use sauce_dust.Bot.Format.{ShownHit, formatted}
use sauce_dust.Bot.Guarded.{AllAllowed, handle-IsGuarded}
use sauce_dust.Bot.Loop.{BotUpdate, run, take_updates, take_update}
use sauce_dust.Bot.Since.{since, IsRising}
use sauce_dust.Bot.Served.{IsServed, start, IsGateway, run-IsServed}

abbrev two_users : BotConfig
two_users = record { allowed_users = 7 ∷ 9 ∷ []; max_image_bytes = 3 }

abbrev all_well : Answers
all_well = record {
  fetched = some (1 ∷ 2 ∷ []);
  over_fetched = false;
  over_first = false;
  sent = some 40;
  over_found = false;
  edited = true;
  over_last = false;
}

abbrev photo : ℕ → BotMessage
photo user = record {
  chat_id = negsuc 4;
  sender_id = user;
  sender = "ann";
  text = "";
  caption = "";
  file_id = "f1";
}

abbrev digits_of : ℕ → Text
digits_of n = "1"

abbrev nothing_found : List ℕ → Option (List ShownHit)
nothing_found image = some []

abbrev kind : Call → ℕ
kind (sends r) = 1
kind (edits r) = 2
kind (fetches f) = 3
kind (looks_up i) = 4

abbrev kinds : BotConfig → Answers → BotMessage → List ℕ
unfolding handle
kinds cfg a msg =
    map kind
      (handle (λ image. formatted digits_of digits_of msg.chat_id (nothing_found image)) cfg a msg)

-- Fetched, answered with a note, searched for, and the note replaced; a stranger gets one answer.
handle_test : kinds two_users all_well (photo 9) ≡ 3 ∷ 1 ∷ 4 ∷ 2 ∷ []
unfolding kinds fetch_image search_image show_result replace reply permitted is_listed is_command
    has_image lower trim_space is_empty_text
handle_test = refl

stranger_test : kinds two_users all_well (photo 8) ≡ 1 ∷ []
unfolding kinds reply permitted is_listed
stranger_test = refl

handle-IsGuarded_example : AllAllowed two_users all_well (photo 9) (
    handle
      (λ image. formatted digits_of digits_of (negsuc 4) (nothing_found image))
      two_users
      all_well
      (photo 9))
handle-IsGuarded_example =
    handle-IsGuarded digits_of digits_of nothing_found two_users all_well (photo 9)

abbrev three_updates : List BotUpdate
three_updates =
    record { id = 11; message = some (photo 7) }
    ∷ record { id = 12; message = none }
    ∷ record { id = 20; message = some (photo 9) }
    ∷ []

three_updates-IsRising : IsRising three_updates
three_updates-IsRising = omega arith

-- The first round fails, each later one brings two updates.
abbrev asked : ℕ → ℕ → Option (List BotUpdate)
unfolding since
asked zero offset = none
asked (suc i) offset = some (take 2 (since offset three_updates))

asked-IsGateway : IsGateway three_updates asked
unfolding asked
asked-IsGateway zero offset = inl refl
asked-IsGateway (suc i) offset = inr (2, refl)

offset_test : (run asked 0 3 start).offset ≡ 21
unfolding run asked take_updates take_update since
offset_test = refl

run-IsServed_example : (n : ℕ) × IsServed three_updates n (run asked 0 3 start)
run-IsServed_example = run-IsServed three_updates asked 3 three_updates-IsRising asked-IsGateway

abbrev served : ℕ → ℕ → Option (List BotUpdate)
unfolding since
served i offset = some (take 2 (since offset three_updates))
