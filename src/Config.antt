-- ===== src/Config.antt =====
-- internal/config/config.go: the settings of a node and what is required of them.
pub mod Lists
pub mod WebFile
pub mod Exposed
pub mod Valid
pub mod Applied
mod Examples
use sauce_dust.Prelude.{
  ℕ, suc, ◌+◌, ◌-◌, ◌*◌, ◌%◌, ◌^◌, ◌≤◌, ltb, leb, ◌==◌, ◌&&◌, ◌||◌, not, if◌then◌else◌, Bool, true,
  false, Option, List,
}
use sauce_dust.Domain.Texts.{Text, is_empty_text}
use sauce_dust.Domain.Source.{ℤ, pos, negsuc}
use sauce_dust.Chain.{NetMode}

abbrev pub pos_part : ℤ → ℕ
pos_part (pos n) = n
pos_part (negsuc n) = 0

abbrev pub neg_part : ℤ → ℕ
neg_part (pos n) = 0
neg_part (negsuc n) = suc n

abbrev pub lt_int : ℤ → ℤ → Bool
lt_int a b = ltb (pos_part a + neg_part b) (pos_part b + neg_part a)

infix 50 ◌≤ℤ◌
abbrev pub ◌≤ℤ◌ : ℤ → ℤ → Type 0
a ≤ℤ b = pos_part a + neg_part b ≤ pos_part b + neg_part a

pub data Role : Type 0 where
  control worker : Role

-- The fields that the functions below read or set. Durations are nanoseconds, the rate is the 64 bits of its floating point number.
pub record Config : Type 0 where
  pub node_id : Text
  pub role : Role
  pub data_dir : Text
  pub thumb_dir : Text
  pub control_url : Text
  pub control_token : Text
  pub control_bind : Text
  pub embed_batch_size : ℤ
  pub embed_batch_window : ℤ
  pub index_tags : Text
  pub poll_every : ℤ
  pub user_agent : Text
  pub danbooru_login : Text
  pub danbooru_api_key : Text
  pub backfill_workers : ℤ
  pub backfill_range_size : ℤ
  pub backfill_floor : ℤ
  pub max_indexed : ℤ
  pub concurrency : ℤ
  pub min_concurrency : ℤ
  pub max_concurrency : ℤ
  pub adaptive : Bool
  pub rate_per_second : ℕ
  pub rate_burst : ℤ
  pub thumb_size : ℤ
  pub thumb_quality : ℤ
  pub net_order : List NetMode
  pub fragment_parts : ℤ
  pub fragment_delay : ℤ
  pub proxy_url : Text
  pub allow_private : Bool
  pub direct_on_fail : Bool
  pub heartbeat_every : ℤ
  pub node_timeout : ℤ
  pub max_connections : ℤ
  pub telegram_allowed : List ℤ

unfoldable pub clamp : ℤ → ℤ → ℤ → ℤ
clamp v lo hi = if lt_int v lo then lo else if lt_int hi v then hi else v

-- A floating point number below zero, by its bits.
abbrev pub is_negative : ℕ → Bool
is_negative bits = ltb (2 ^ 63) bits && leb bits (2 ^ 64 - 2 ^ 52)

-- What is wrong with the settings.
pub data Refusal : Type 0 where
  min_concurrency max_concurrency rate range_size floor max_indexed thumb_size thumb_quality :
      Refusal
  heartbeat node_timeout control_url : Refusal
  poll workers fragment_parts fragment_delay embed_batch embed_wait beat_secs bind_address : Refusal
  thumb_dir bad_id bad_path exposed : Refusal

pub data Checked {ℓ} (A : Type ℓ) : Type ℓ where
  ok : A → Checked A
  refused : Refusal → Checked A

-- The errors after one another: the first test that holds.
infixr 4 ◌or◌
abbrev pub ◌or◌ : Bool × Refusal → Checked Config → Checked Config
(test, why) or rest = if test then refused why else rest

abbrev pub is_worker : Role → Bool
is_worker control = false
is_worker worker = true

-- The two values that are corrected.
abbrev pub corrected : Config → Config
corrected c = record c {
  concurrency = clamp c.concurrency c.min_concurrency c.max_concurrency;
  rate_burst = if lt_int c.rate_burst (pos 1) then pos 1 else c.rate_burst;
}

unfoldable pub validate : Config → Checked Config
validate c =
    (lt_int c.min_concurrency (pos 1), min_concurrency)
    or (lt_int c.max_concurrency c.min_concurrency, max_concurrency)
    or (is_negative c.rate_per_second, rate)
    or (lt_int c.backfill_range_size (pos 1), range_size)
    or (lt_int c.backfill_floor (pos 0), floor)
    or (lt_int c.max_indexed (pos 0), max_indexed)
    or (lt_int c.thumb_size (pos 64), thumb_size)
    or (lt_int c.thumb_quality (pos 1) || lt_int (pos 100) c.thumb_quality, thumb_quality)
    or (lt_int c.heartbeat_every (pos 1), heartbeat)
    or (not (lt_int c.heartbeat_every c.node_timeout), node_timeout)
    or (is_worker c.role && is_empty_text c.control_url, control_url)
    or ok (corrected c)

abbrev pub max_pool : ℤ
max_pool = pos 500

-- An integer by the sum of its positive and of its negative parts.
abbrev pub int_of : ℕ → ℕ → ℤ
int_of p n = if leb n p then pos (p - n) else negsuc (n - p - 1)

-- The integer of 64 bits with these bits.
abbrev pub signed : ℕ → ℤ
signed m = if ltb m (2 ^ 63) then pos m else negsuc (2 ^ 64 - m - 1)

unfoldable pub pool_size : Config → ℤ
unfolding clamp
pool_size c =
    if lt_int (pos 0) c.max_connections
    then clamp c.max_connections (pos 1) max_pool
    else clamp
        (signed (
          (pos_part c.concurrency * 2 + 8 + (2 ^ 64 - neg_part c.concurrency * 2 % 2 ^ 64))
          % 2 ^ 64))
        (pos 8) (pos 95)
