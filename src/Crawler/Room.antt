-- ===== src/Crawler/Room.antt =====
-- internal/app/crawler_capacity.go and ingest_capacity.go: the two tests beside each other.
use sauce_dust.Prelude.{
  ℕ, ◌+◌, ◌≤◌, ◌≡◌, refl, sym, ap, ◌∙◌, true, false, ◌==◌, if◌then◌else◌, Option, none, some, arith,
  Bool-cases, inl, inr,
}
use sauce_dust.Crawler.{Crawler}
use sauce_dust.Crawler.Capacity.{
  at_capacity, judge, indexed_count, submit_headroom, is_fresh, count_every, Ingest, check_room,
  admit, room_count, ingest_count_every,
}

-- What the count is taken to be: the remembered one while it is fresh, else the answer.
abbrev pub known : ℕ → ℕ → ℕ → ℕ → Option ℕ → Option ℕ
known every now at last answer = if is_fresh every now at then some last else answer

indexed_known :
    (now : ℕ) (answer : Option ℕ) (c : Crawler)
    → ((indexed_count now answer c).1 ≡ known count_every now c.counted_at c.last_count answer)
      × ((indexed_count now answer c).0.cfg ≡ c.cfg)
unfolding indexed_count
indexed_known now none c = elim (Bool-cases (is_fresh count_every now c.counted_at)) [
  | inl fresh ↦ rw fresh (refl, refl)
  | inr stale ↦ rw stale (refl, refl)
]
indexed_known now (some n) c = elim (Bool-cases (is_fresh count_every now c.counted_at)) [
  | inl fresh ↦ rw fresh (refl, refl)
  | inr stale ↦ rw stale (refl, refl)
]

judge_open :
    (submit_batch : ℕ) (p : Crawler × Option ℕ) (n : ℕ)
    → p.1 ≡ some n
    → (judge submit_batch p).1 ≡ false
    → n + submit_headroom submit_batch ≤ p.0.cfg.max_indexed
unfolding judge
judge_open submit_batch (c, none) n e h = absurd (ground arith)
judge_open submit_batch (c, some m) n e h = ground arith

admit_open :
    (incoming : ℕ) (p : Ingest × Option ℕ) (n : ℕ)
    → p.1 ≡ some n
    → n + incoming ≤ p.0.max_indexed
    → (admit incoming p).1 ≡ true
unfolding admit
admit_open incoming (i, none) n e h = refl
admit_open incoming (i, some m) n e h = ground arith

room_known :
    (now : ℕ) (answer : Option ℕ) (i : Ingest)
    → ((room_count now answer i).1 ≡ known ingest_count_every now i.counted_at i.last_count answer)
      × ((room_count now answer i).0.max_indexed ≡ i.max_indexed)
unfolding room_count
room_known now none i = elim (Bool-cases (is_fresh ingest_count_every now i.counted_at)) [
  | inl fresh ↦ rw fresh (refl, refl)
  | inr stale ↦ rw stale (refl, refl)
]
room_known now (some n) i = elim (Bool-cases (is_fresh ingest_count_every now i.counted_at)) [
  | inl fresh ↦ rw fresh (refl, refl)
  | inr stale ↦ rw stale (refl, refl)
]

at_capacity_judges :
    (submit_batch now : ℕ) (answer : Option ℕ) (c : Crawler)
    → (c.cfg.max_indexed == 0) ≡ false
    → (at_capacity submit_batch now answer c).1 ≡ false
    → (judge submit_batch (indexed_count now answer c)).1 ≡ false
unfolding at_capacity
at_capacity_judges submit_batch now answer c bounded h = sym (rw (bounded, at_capacity) refl) ∙ h

check_room_admits :
    (incoming now : ℕ) (answer : Option ℕ) (i : Ingest)
    → (admit incoming (room_count now answer i)).1 ≡ true
    → (check_room incoming now answer i).1 ≡ true
unfolding check_room
check_room_admits incoming now answer i h = elim (Bool-cases (i.max_indexed == 0)) [
  | inl unbounded ↦ rw (unbounded, check_room) refl
  | inr bounded ↦ rw (bounded, check_room) h
]

-- When crawler and ingest have the same cap, the crawler goes ahead by a count, and the ingest knows
-- a count that is no higher, then the ingest accepts every batch of up to the size that the crawler
-- submits, so that posts are not fetched to be thrown away.
pub open-check_room :
    (submit_batch incoming now now' n m : ℕ) (answer answer' : Option ℕ) (c : Crawler) (i : Ingest)
    → i.max_indexed ≡ c.cfg.max_indexed
    → known count_every now c.counted_at c.last_count answer ≡ some n
    → known ingest_count_every now' i.counted_at i.last_count answer' ≡ some m
    → m ≤ n
    → incoming ≤ submit_headroom submit_batch
    → (at_capacity submit_batch now answer c).1 ≡ false
    → (check_room incoming now' answer' i).1 ≡ true
unfolding at_capacity check_room
open-check_room submit_batch incoming now now' n m answer answer' c i cap kn km le fits h =
    elim (Bool-cases (c.cfg.max_indexed == 0)) [
      | inl unbounded ↦ rw cap (rw unbounded refl)
      | inr bounded ↦
          let counted = indexed_known now answer c in
          let room = room_known now' answer' i in
          let judged =
            judge_open submit_batch (indexed_count now answer c) n (counted.0 ∙ kn)
              (at_capacity_judges submit_batch now answer c bounded h) in
          let same : (indexed_count now answer c).0.cfg.max_indexed ≡ c.cfg.max_indexed =
            ap (λ g. g.max_indexed) counted.1 in
          check_room_admits incoming now' answer' i (
            admit_open incoming (room_count now' answer' i) m (room.0 ∙ km)
              (omega (arith, judged, same, room.1)))
    ]
