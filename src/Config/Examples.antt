-- ===== src/Config/Examples.antt =====
-- internal/config/config.go and webfile.go: settings that are taken over from the web page.
use sauce_dust.Prelude.{◌≡◌, refl, true, false, none, some, Option, [], ◌∷◌, Bool}
use sauce_dust.Domain.Texts.{Text, is_empty_text, trim_space, lower, split_on, join}
use sauce_dust.Domain.Source.{ℤ, pos, negsuc}
use sauce_dust.Chain.{direct, ech, frag, vpn, is_in}
use sauce_dust.Config.{Config, control, ok, refused, exposed, validate, clamp, pool_size}
use sauce_dust.Config.Lists.{parse_net_order, read_order, mode_named, add_mode, parse_ids, read_ids}
use sauce_dust.Config.WebFile.{
  WebFile, web_file_from, units, duration, merged, apply, tested, with_lists, finish, exposure_ok,
}
use sauce_dust.Config.Applied.{IsAccepted, apply-IsAccepted}

order_test : parse_net_order " VPN,sni,,ech,direct" ≡ ok (vpn ∷ ech ∷ frag ∷ direct ∷ [])
unfolding parse_net_order read_order mode_named add_mode is_in split_on trim_space lower
    is_empty_text
order_test = refl

abbrev settings : Config
settings = record {
  node_id = "n1";
  role = control;
  data_dir = "/data";
  thumb_dir = "/data/thumbs";
  control_url = "";
  control_token = "0123456789abcdef";
  control_bind = "192.168.0.4:8000";
  embed_batch_size = pos 16;
  embed_batch_window = pos 50_000_000;
  index_tags = "";
  poll_every = pos 15_000_000_000;
  user_agent = "saucedust/0.2";
  danbooru_login = "";
  danbooru_api_key = "";
  backfill_workers = pos 2;
  backfill_range_size = pos 10_000;
  backfill_floor = pos 0;
  max_indexed = pos 0;
  concurrency = pos 4;
  min_concurrency = pos 1;
  max_concurrency = pos 16;
  adaptive = true;
  rate_per_second = 4617315517961601024;
  rate_burst = pos 8;
  thumb_size = pos 384;
  thumb_quality = pos 85;
  net_order = direct ∷ vpn ∷ [];
  fragment_parts = pos 3;
  fragment_delay = pos 0;
  proxy_url = "";
  allow_private = false;
  direct_on_fail = true;
  heartbeat_every = pos 30_000_000_000;
  node_timeout = pos 90_000_000_000;
  max_connections = pos 0;
  telegram_allowed = [];
}

abbrev whole_address : Text → Option Text
whole_address t = some t

abbrev any_path : Text → Bool
any_path t = true

abbrev no_local : Text → Bool
no_local t = false

abbrev no_number : Text → Option ℤ
no_number t = none

abbrev no_digits : ℤ → Text
no_digits n = ""

abbrev shown : WebFile
unfolding web_file_from
shown = web_file_from no_digits settings

-- What is shown can be applied, and changes nothing.
apply_test : apply whole_address no_local any_path no_number shown settings ≡ ok settings
unfolding shown units duration merged apply tested with_lists finish exposure_ok validate clamp
    parse_net_order read_order mode_named add_mode is_in split_on trim_space lower is_empty_text
    join parse_ids read_ids
apply_test = refl

apply-IsAccepted_example :
    IsAccepted whole_address no_local settings × (settings.role ≡ settings.role)
apply-IsAccepted_example =
    apply-IsAccepted whole_address no_local any_path no_number shown settings settings refl
      apply_test

-- A short token does not go with an address that others reach.
short_test :
    apply whole_address no_local any_path no_number
      (record shown { control_token = some "short" })
      settings
    ≡ refused exposed
unfolding shown units duration merged apply tested with_lists finish exposure_ok validate clamp
    parse_net_order read_order mode_named add_mode is_in split_on trim_space lower is_empty_text
    join parse_ids read_ids
short_test = refl

-- So many seconds are more nanoseconds than a duration holds.
wrap_test : duration (pos 9_223_372_037) 1_000_000_000 ≡ negsuc 9_223_372_036_709_551_615
unfolding duration
wrap_test = refl

pool_test : pool_size (record settings { max_connections = pos 9000 }) ≡ pos 500
unfolding pool_size clamp
pool_test = refl

default_pool_test : pool_size settings ≡ pos 16
unfolding pool_size clamp
default_pool_test = refl

-- The doubled number wraps around.
wrapped_pool_test :
    pool_size (record settings { concurrency = pos 9_223_372_036_854_775_807 }) ≡ pos 8
unfolding pool_size clamp
wrapped_pool_test = refl
