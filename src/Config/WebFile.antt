-- ===== src/Config/WebFile.antt =====
-- internal/config/webfile.go: the settings that the web page shows and sets. `show` and `read` are the
-- printing and the reading of a number, `host` is the host that `net.SplitHostPort` finds in an
-- address, `loopback` whether it is the number of a loopback address, and `is_abs` is `filepath.IsAbs`.
use Prim.Native.String.{len}
use sauce_dust.Prelude.{
  ℕ, suc, ◌-◌, ◌*◌, ◌/◌, ◌%◌, ◌^◌, ltb, not, ◌&&◌, ◌||◌, if◌then◌else◌, Bool, true, false, Option,
  none, some, List, [], ◌∷◌, map,
}
use sauce_dust.Domain.Texts.{Text, is_empty_text, join}
use sauce_dust.Domain.Source.{ℤ, pos, negsuc}
use sauce_dust.Chain.{NetMode, direct, ech, frag, vpn, unknown}
use sauce_dust.Config.{
  Config, Role, control, worker, Checked, ok, refused, Refusal, lt_int, int_of, signed, validate,
  poll, workers, fragment_parts, fragment_delay, embed_batch, embed_wait, beat_secs, bind_address,
  thumb_dir, exposed, ◌or◌,
}
use sauce_dust.Config.Lists.{parse_ids, parse_net_order}

pub record WebFile : Type 0 where
  pub backfill_floor : ℤ
  pub max_indexed : ℤ
  pub backfill_workers : ℤ
  pub backfill_range_size : ℤ
  pub concurrency : ℤ
  pub min_concurrency : ℤ
  pub max_concurrency : ℤ
  pub adaptive : Bool
  pub rate_per_second : ℕ
  pub rate_burst : ℤ
  pub poll_secs : ℤ
  pub thumb_size : ℤ
  pub thumb_quality : ℤ
  pub thumb_dir : Text
  pub index_tags : Text
  pub user_agent : Text
  pub danbooru_login : Text
  pub danbooru_api_key : Option Text
  pub telegram_allowed : Text
  pub net_order : Text
  pub fragment_parts : ℤ
  pub fragment_delay_ms : ℤ
  pub proxy_url : Option Text
  pub allow_private : Bool
  pub direct_fallback : Bool
  pub embed_batch_size : ℤ
  pub embed_batch_timeout_ms : ℤ
  pub heartbeat_secs : ℤ
  pub node_timeout_secs : ℤ
  pub control_bind : Text
  pub control_token : Option Text

abbrev pub second : ℕ
second = 1_000_000_000

abbrev pub millisecond : ℕ
millisecond = 1_000_000

-- A number of units as a duration: the product wraps around.
unfoldable pub duration : ℤ → ℕ → ℤ
duration (pos n) unit = signed (n * unit % 2 ^ 64)
duration (negsuc n) unit = signed ((2 ^ 64 - suc n * unit % 2 ^ 64) % 2 ^ 64)

-- The quotient of a duration, cut toward zero.
unfoldable pub units : ℤ → ℕ → ℤ
units (pos n) unit = pos (n / unit)
units (negsuc n) unit = int_of 0 (suc n / unit)

abbrev pub mode_text : NetMode → Text
mode_text direct = "direct"
mode_text ech = "ech"
mode_text frag = "frag"
mode_text vpn = "vpn"
mode_text unknown = "unknown"

unfoldable pub web_file_from : (ℤ → Text) → Config → WebFile
unfolding units join
web_file_from show cfg = record {
  backfill_floor = cfg.backfill_floor;
  max_indexed = cfg.max_indexed;
  backfill_workers = cfg.backfill_workers;
  backfill_range_size = cfg.backfill_range_size;
  concurrency = cfg.concurrency;
  min_concurrency = cfg.min_concurrency;
  max_concurrency = cfg.max_concurrency;
  adaptive = cfg.adaptive;
  rate_per_second = cfg.rate_per_second;
  rate_burst = cfg.rate_burst;
  poll_secs = units cfg.poll_every second;
  thumb_size = cfg.thumb_size;
  thumb_quality = cfg.thumb_quality;
  thumb_dir = cfg.thumb_dir;
  index_tags = cfg.index_tags;
  user_agent = cfg.user_agent;
  danbooru_login = cfg.danbooru_login;
  danbooru_api_key = some cfg.danbooru_api_key;
  telegram_allowed = join "," (map show cfg.telegram_allowed);
  net_order = join "," (map mode_text cfg.net_order);
  fragment_parts = cfg.fragment_parts;
  fragment_delay_ms = units cfg.fragment_delay millisecond;
  proxy_url = some cfg.proxy_url;
  allow_private = cfg.allow_private;
  direct_fallback = cfg.direct_on_fail;
  embed_batch_size = cfg.embed_batch_size;
  embed_batch_timeout_ms = units cfg.embed_batch_window millisecond;
  heartbeat_secs = units cfg.heartbeat_every second;
  node_timeout_secs = units cfg.node_timeout second;
  control_bind = cfg.control_bind;
  control_token = some cfg.control_token;
}

abbrev pub or_kept : Option Text → Text → Text
or_kept none t = t
or_kept (some u) t = u

-- The settings with those of the file, after the tests.
unfoldable pub merged : WebFile → List ℤ → List NetMode → Config → Config
unfolding duration
merged f allowed order cfg = record cfg {
  backfill_floor = f.backfill_floor;
  max_indexed = f.max_indexed;
  backfill_workers = f.backfill_workers;
  backfill_range_size = f.backfill_range_size;
  concurrency = f.concurrency;
  min_concurrency = f.min_concurrency;
  max_concurrency = f.max_concurrency;
  adaptive = f.adaptive;
  rate_per_second = f.rate_per_second;
  rate_burst = f.rate_burst;
  poll_every = duration f.poll_secs second;
  thumb_size = f.thumb_size;
  thumb_quality = f.thumb_quality;
  thumb_dir = if is_empty_text f.thumb_dir then cfg.thumb_dir else f.thumb_dir;
  index_tags = f.index_tags;
  user_agent = f.user_agent;
  danbooru_login = f.danbooru_login;
  danbooru_api_key = or_kept f.danbooru_api_key cfg.danbooru_api_key;
  telegram_allowed = allowed;
  net_order = order;
  fragment_parts = f.fragment_parts;
  fragment_delay = duration f.fragment_delay_ms millisecond;
  proxy_url = or_kept f.proxy_url cfg.proxy_url;
  allow_private = f.allow_private;
  direct_on_fail = f.direct_fallback;
  embed_batch_size = f.embed_batch_size;
  embed_batch_window = duration f.embed_batch_timeout_ms millisecond;
  heartbeat_every = duration f.heartbeat_secs second;
  node_timeout = duration f.node_timeout_secs second;
  control_bind = f.control_bind;
  control_token = or_kept f.control_token cfg.control_token;
}

abbrev pub is_control : Role → Bool
is_control control = true
is_control worker = false

abbrev pub is_none : Option Text → Bool
is_none none = true
is_none (some t) = false

module _ (host : Text → Option Text) (loopback : Text → Bool) where
  -- `exposureOK`: an address that others reach needs a token of sixteen bytes.
  unfoldable pub exposure_ok : Text → Text → Bool
  exposure_ok bind token = elim (host bind) [
    | none ↦ false
    | some h ↦ loopback h || not (ltb (len token) 16)
  ]

  unfoldable pub finish : Config → Checked Config
  unfolding exposure_ok validate
  finish cfg =
      if is_control cfg.role && not (exposure_ok cfg.control_bind cfg.control_token)
      then refused exposed
      else validate cfg

  unfoldable pub with_lists :
      WebFile → Config → Checked (List ℤ) → Checked (List NetMode) → Checked Config
  unfolding merged finish
  with_lists f cfg (refused why) order = refused why
  with_lists f cfg (ok allowed) (refused why) = refused why
  with_lists f cfg (ok allowed) (ok order) = finish (merged f allowed order cfg)

-- The tests of `Apply`, in order.
abbrev pub file_tests : (Text → Option Text) → (Text → Bool) → WebFile → List (Bool × Refusal)
file_tests host is_abs f =
    (lt_int f.poll_secs (pos 1), poll)
    ∷ (lt_int f.backfill_workers (pos 1), workers)
    ∷ (lt_int f.fragment_parts (pos 1), fragment_parts)
    ∷ (lt_int f.fragment_delay_ms (pos 0), fragment_delay)
    ∷ (lt_int f.embed_batch_size (pos 1), embed_batch)
    ∷ (lt_int f.embed_batch_timeout_ms (pos 1), embed_wait)
    ∷ (lt_int f.heartbeat_secs (pos 1), beat_secs)
    ∷ (is_none (host f.control_bind), bind_address)
    ∷ (not (is_empty_text f.thumb_dir) && not (is_abs f.thumb_dir), thumb_dir)
    ∷ []

unfoldable pub tested : List (Bool × Refusal) → Checked Config → Checked Config
tested [] rest = rest
tested ((test, why) ∷ ts) rest = (test, why) or tested ts rest

unfoldable pub apply :
    (Text → Option Text)
    → (Text → Bool)
    → (Text → Bool)
    → (Text → Option ℤ)
    → WebFile
    → Config
    → Checked Config
unfolding tested with_lists parse_ids parse_net_order
apply host loopback is_abs read f cfg = tested (file_tests host is_abs f) (
    with_lists host loopback f cfg (parse_ids read f.telegram_allowed)
      (parse_net_order f.net_order))
