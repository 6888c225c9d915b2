-- ===== src/Danbooru/Requests.antt =====
-- internal/adapter/danbooru/danbooru.go: one request with its tries, and the reading of an image. What
-- the network, the clock and the context do is given for each try; durations are nanoseconds.
use sauce_dust.Prelude.{
  ℕ, zero, suc, ◌+◌, ◌*◌, ◌%◌, ◌^◌, ltb, leb, ◌==◌, ◌||◌, if◌then◌else◌, Bool, Option, none, some,
  List, [], ◌∷◌, ◌++◌, length,
}
use sauce_dust.Danbooru.{with_id}

-- A 64-bit count of nanoseconds; where its sign is negative the source uses it like 0.
unfoldable pub duration : ℕ → ℕ
duration n = let w = n % 2 ^ 64 in if ltb w (2 ^ 63) then w else 0

unfoldable pub backoff : ℕ → ℕ
unfolding duration
backoff attempt =
    let d = duration (2 ^ attempt * 1000000000) in if ltb 30000000000 d then 30000000000 else d

-- What the network gives for a request: nothing, or a status, the number in `retry-after` if there is
-- one (a negative number is written 0), and the body if it could be read to its end.
pub data Answer : Type 0 where
  no_answer : Answer
  answer : ℕ → Option ℕ → Option (List ℕ) → Answer

pub data Failure : Type 0 where
  unreachable unreadable : Failure
  status : ℕ → Failure

pub data Got : Type 0 where
  body : List ℕ → Got
  refused : ℕ → Got
  exhausted : Option Failure → Got
  cancelled malformed : Got

-- What a try does to the outside, in this order.
pub data Event : Type 0 where
  sleeps : ℕ → Event
  asks : Event
  penalizes : ℕ → Event

-- The surroundings of one try: whether the context outlives the sleep and the wait for the limiter, and
-- whether the request can be built.
pub record Attempt : Type 0 where
  pub outlives_sleep : Bool
  pub outlives_wait : Bool
  pub well_formed : Bool
  pub reply : Answer

unfoldable pub retryable : ℕ → Bool
retryable code = code == 429 || leb 500 code

unfoldable pub throttled : ℕ → Bool
throttled code = code == 429 || code == 503

abbrev pub default_throttle_pause : ℕ
default_throttle_pause = 10000000000

unfoldable pub pause_of : Option ℕ → ℕ
unfolding duration
pause_of none = default_throttle_pause
pause_of (some secs) = if secs == 0 then default_throttle_pause else duration (secs * 1000000000)

unfoldable pub observe : ℕ → Option ℕ → List Event
unfolding throttled pause_of
observe code retry_after = if throttled code then penalizes (pause_of retry_after) ∷ [] else []

-- How a try ends: the whole request ends, or the next try follows with this last failure.
pub data TryEnd : Type 0 where
  ends : Got → TryEnd
  again : Failure → TryEnd

unfoldable pub judge_answer : Answer → TryEnd × List Event
unfolding observe retryable
judge_answer no_answer = (again unreachable, [])
judge_answer (answer code retry_after read) = (
  if code == 200
      then elim read [ none ↦ again unreadable | some bytes ↦ ends (body bytes) ]
      else if retryable code
      then again (status code)
      else ends (refused code),
  observe code retry_after,
)

unfoldable pub attempt_at : ℕ → Attempt → TryEnd × List Event
unfolding judge_answer backoff
attempt_at n a =
    let before : List Event = if n == 0 then [] else sleeps (backoff n) ∷ [] in
    if n == 0 || a.outlives_sleep
    then if a.outlives_wait
      then if a.well_formed
        then ((judge_answer a.reply).0, before ++ (asks ∷ (judge_answer a.reply).1))
        else (ends malformed, before)
      else (ends cancelled, before)
    else (ends cancelled, before)

-- What follows on a try: nothing more, or the tries after it.
unfoldable pub next_try : TryEnd → List Event → (Failure → Got × List Event) → Got × List Event
next_try (ends got) events rest = (got, events)
next_try (again failure) events rest = ((rest failure).0, events ++ (rest failure).1)

-- The loop of `get`: the tries that are left, the number of the next one, and the last failure.
unfoldable pub get_from : ℕ → ℕ → (ℕ → Attempt) → Option Failure → Got × List Event
unfolding attempt_at next_try
get_from zero n world last = (exhausted last, [])
get_from (suc left) n world last =
    next_try (attempt_at n (world n)).0 (attempt_at n (world n)).1
      (λ failure. get_from left (n + 1) world (some failure))

unfoldable pub get : ℕ → (ℕ → Attempt) → Got × List Event
unfolding get_from
get retries world = get_from retries 0 world none

-- `fetch`: the numbers of the posts in the body, `none` for an error.
unfoldable pub fetch : (List ℕ → Option (List ℕ)) → ℕ → (ℕ → Attempt) → Option (List ℕ)
unfolding get with_id
fetch parse retries world = elim (get retries world).0 [
  | body bytes ↦ elim (parse bytes) [ none ↦ none | some ids ↦ some (with_id ids) ]
  | refused code ↦ none
  | exhausted last ↦ none
  | cancelled ↦ none
  | malformed ↦ none
]

unfoldable pub latest_post_id : (List ℕ → Option (List ℕ)) → ℕ → (ℕ → Attempt) → Option ℕ
unfolding fetch
latest_post_id parse retries world = elim (fetch parse retries world) [
  | none ↦ none
  | some [] ↦ none
  | some (p ∷ ps) ↦ some p
]

-- The limit that `PostsAfter` asks for; a negative one is written 0.
unfoldable pub posts_after_limit : ℕ → ℕ
posts_after_limit limit = if limit == 0 || ltb 200 limit then 200 else limit

pub data Downloaded : Type 0 where
  image : List ℕ → Downloaded
  failed : Got → Downloaded
  too_big unread : Downloaded

-- The most bytes that an image may have, 32 MiB where none is set (a negative one is written 0).
unfoldable pub max_bytes_of : ℕ → ℕ
max_bytes_of max_bytes = if max_bytes == 0 then 33554432 else max_bytes

-- `io.LimitReader(resp.Body, maxBytes+1)`, whose limit wraps to a negative number at the largest one.
unfoldable pub read_limit : ℕ → ℕ
read_limit max_bytes = if ltb (max_bytes + 1) (2 ^ 63) then max_bytes + 1 else 0

unfoldable pub check_length : ℕ → List ℕ → Downloaded
check_length max_bytes data' = if ltb max_bytes (length data') then too_big else image data'

-- `Download`; `declared` is the length in the header, and `read n` what reading the body up to `n` bytes
-- gives: the bytes, and whether there was no error.
unfoldable pub download : ℕ → Attempt → ℕ → (ℕ → List ℕ × Bool) → Downloaded × List Event
unfolding max_bytes_of read_limit check_length observe
download max_bytes a declared read =
    let most = max_bytes_of max_bytes in
    if a.outlives_wait
    then if a.well_formed
      then elim a.reply [
        | no_answer ↦ (failed (exhausted (some unreachable)), asks ∷ [])
        | answer code retry_after bytes ↦
            if code == 200
            then if ltb most declared then (too_big, asks ∷ []) else (
              if (read (read_limit most)).1
                  then check_length most (read (read_limit most)).0
                  else unread,
              asks ∷ [],
            )
            else (failed (refused code), asks ∷ observe code retry_after)
      ]
      else (failed malformed, [])
    else (failed cancelled, [])
