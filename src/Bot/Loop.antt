-- ===== src/Bot/Loop.antt =====
-- internal/app/bot.go: the loop of `Run`. `ask i offset` is what the gateway answers in the i-th round;
-- the loop is cut after a number of rounds, as it is when the context is over.
use sauce_dust.Prelude.{ℕ, zero, suc, leb, if◌then◌else◌, Option, none, some, List, [], ◌∷◌, ◌++◌}
use sauce_dust.Domain.Bot.{BotMessage}

pub record BotUpdate : Type 0 where
  pub id : ℕ
  pub message : Option BotMessage

-- The messages that are handled, in order, and the offset.
pub record Served : Type 0 where
  pub handled : List BotMessage
  pub offset : ℕ

abbrev pub message_of : Option BotMessage → List BotMessage
message_of none = []
message_of (some m) = m ∷ []

unfoldable pub take_update : BotUpdate → Served → Served
take_update u s = record {
  handled = s.handled ++ message_of u.message;
  offset = if leb s.offset u.id then suc u.id else s.offset;
}

unfoldable pub take_updates : List BotUpdate → Served → Served
unfolding take_update
take_updates [] s = s
take_updates (u ∷ us) s = take_updates us (take_update u s)

-- An error is waited for and asked again.
abbrev pub take_answer : Option (List BotUpdate) → Served → Served
take_answer none s = s
take_answer (some us) s = take_updates us s

unfoldable pub run : (ℕ → ℕ → Option (List BotUpdate)) → ℕ → ℕ → Served → Served
run ask i zero s = s
run ask i (suc rounds) s = run ask (suc i) rounds (take_answer (ask i s.offset) s)
