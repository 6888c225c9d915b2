-- ===== src/Thumbs/Examples.antt =====
-- internal/adapter/filestore/filestore.go: folders of sites, and a picture that is put in place.
use Prim.Native.String.{◌++◌ as ◌+++◌}
use sauce_dust.Prelude.{◌≡◌, refl, true, false, none, [], ◌∷◌}
use sauce_dust.Domain.Texts.{join, lower_char, is_empty_text}
use sauce_dust.Files.{creates, writes, removes, IsAtomic, IsSettled}
use sauce_dust.Thumbs.{
  safe_segment, safe_chars, safe_char, trim_front, trim_end, rel_path, hex_pair,
}
use sauce_dust.Thumbs.Write.{
  Paths, ThumbStore, Faults, put, resolve, write_thumb, write_beside, ensure_dir, is_known,
}
use sauce_dust.Thumbs.Replaced.{put-IsAtomic, is_some}

safe_segment_test : safe_segment "../Dan Booru_2/" ≡ "dan-booru_2"
unfolding safe_segment safe_chars safe_char trim_front trim_end lower_char
safe_segment_test = refl

unknown_test : safe_segment "./." ≡ "unknown"
unfolding safe_segment safe_chars safe_char trim_front trim_end
unknown_test = refl

abbrev plain_paths : Paths
plain_paths = record {
  clean = λ t. t;
  join = λ a b. a +++ b;
  dir = λ t. "/data";
  path_of = join "/";
  show = λ n. "1000";
}

rel_path_test : join "/" (rel_path plain_paths.show "danbooru" 1000) ≡ "danbooru/e8/03/1000.jpg"
unfolding rel_path safe_segment safe_chars safe_char trim_front trim_end hex_pair join
rel_path_test = refl

abbrev thumbs : ThumbStore
thumbs = record { root = "/data"; known = [] }

-- The renaming fails.
abbrev not_renamed : Faults
not_renamed = record {
  over = false;
  made = true;
  opened = true;
  written = none;
  closed = true;
  renamed = false;
  removed = true;
}

put_test :
    (put plain_paths not_renamed "danbooru" 1000 (7 ∷ 8 ∷ []) thumbs).0
    ≡ creates ∷ writes (7 ∷ 8 ∷ []) ∷ removes ∷ []
unfolding put rel_path safe_segment safe_chars safe_char trim_front trim_end hex_pair join resolve
    write_thumb write_beside ensure_dir is_known is_empty_text
put_test = refl

put-IsAtomic_example :
    IsAtomic (7 ∷ 8 ∷ []) (put plain_paths not_renamed "danbooru" 1000 (7 ∷ 8 ∷ []) thumbs).0
    × IsSettled
        (7 ∷ 8 ∷ [])
        (put plain_paths not_renamed "danbooru" 1000 (7 ∷ 8 ∷ []) thumbs).0
        (is_some ((put plain_paths not_renamed "danbooru" 1000 (7 ∷ 8 ∷ []) thumbs).1.0))
put-IsAtomic_example = put-IsAtomic plain_paths not_renamed "danbooru" 1000 (7 ∷ 8 ∷ []) thumbs
