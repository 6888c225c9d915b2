-- ===== src/Crawler/Capacity.antt =====
-- internal/app/crawler_capacity.go and ingest_capacity.go: the two tests of the cap on the index, one
-- before posts are fetched and one where the results come in. The answer of the counting query is an
-- argument, `none` where it fails; a clock that has not moved since 1970 does not occur.
use sauce_dust.Prelude.{
  ℕ, ◌+◌, ◌-◌, Bool, true, false, ◌&&◌, ltb, leb, ◌==◌, if◌then◌else◌, Option, none, some,
}
use sauce_dust.Crawler.{Crawler}

abbrev pub count_every : ℕ
count_every = 30_000_000_000

abbrev pub ingest_count_every : ℕ
ingest_count_every = 5_000_000_000

abbrev pub is_fresh : ℕ → ℕ → ℕ → Bool
is_fresh every now at = ltb 0 at && ltb (now - at) every

abbrev pub remember : ℕ → Crawler → Option ℕ → Crawler × Option ℕ
remember now c none = (c, none)
remember now c (some n) = (record c { last_count = n; counted_at = now }, some n)

unfoldable pub indexed_count : ℕ → Option ℕ → Crawler → Crawler × Option ℕ
indexed_count now answer c =
    if is_fresh count_every now c.counted_at then (c, some c.last_count) else remember now c answer

unfoldable pub submit_headroom : ℕ → ℕ
submit_headroom submit_batch = if ltb 0 submit_batch then submit_batch else 1

-- The end of `atCapacity`, where the cap is set.
unfoldable pub judge : ℕ → Crawler × Option ℕ → Crawler × Bool
unfolding submit_headroom
judge submit_batch (c, none) = (c, false)
judge submit_batch (c, some n) =
    if leb (n + submit_headroom submit_batch) c.cfg.max_indexed
    then (record c { warned_full = false }, false)
    else (record c { warned_full = true }, true)

unfoldable pub at_capacity : ℕ → ℕ → Option ℕ → Crawler → Crawler × Bool
unfolding judge indexed_count
at_capacity submit_batch now answer c =
    if c.cfg.max_indexed == 0 then (c, false) else judge submit_batch (indexed_count now answer c)

unfoldable pub forget_count : Crawler → Crawler
forget_count c = record c { counted_at = 0 }

pub record Ingest : Type 0 where
  pub max_indexed : ℕ
  pub warned_full : Bool
  pub last_count : ℕ
  pub counted_at : ℕ

abbrev pub remember_room : ℕ → Ingest → Option ℕ → Ingest × Option ℕ
remember_room now i none = (i, none)
remember_room now i (some n) = (record i { last_count = n; counted_at = now }, some n)

unfoldable pub room_count : ℕ → Option ℕ → Ingest → Ingest × Option ℕ
room_count now answer i =
    if is_fresh ingest_count_every now i.counted_at
    then (i, some i.last_count)
    else remember_room now i answer

-- The end of `checkRoom`; the flag says that the batch is accepted.
unfoldable pub admit : ℕ → Ingest × Option ℕ → Ingest × Bool
admit incoming (i, none) = (i, true)
admit incoming (i, some n) =
    if leb (n + incoming) i.max_indexed
    then (record i { warned_full = false }, true)
    else (record i { warned_full = true }, false)

unfoldable pub check_room : ℕ → ℕ → Option ℕ → Ingest → Ingest × Bool
unfolding admit room_count
check_room incoming now answer i =
    if i.max_indexed == 0 then (i, true) else admit incoming (room_count now answer i)
