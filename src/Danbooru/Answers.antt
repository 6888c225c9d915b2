-- ===== src/Danbooru/Answers.antt =====
-- internal/adapter/danbooru/danbooru.go: what a request comes to over its tries.
use sauce_dust.Prelude.{
  ℕ, zero, suc, ◌+◌, ◌^◌, ◌≤◌, ◌<◌, ◌≡◌, ◌≢◌, refl, sym, ap, subst, true, false, ◌||◌, ltb, leb,
  ◌==◌, if◌then◌else◌, Option, none, some, List, [], ◌∷◌, ◌++◌, length, take, min, Bool, arith,
  Bool-cases, ◌⊎◌, inl, inr, take_all, length-take,
}
use sauce_dust.Danbooru.Requests.{
  Attempt, Answer, no_answer, answer, Failure, Got, body, refused, exhausted, Event, sleeps, asks,
  penalizes, TryEnd, ends, again, judge_answer, attempt_at, get_from, get, next_try, observe,
  throttled, retryable, download, image, max_bytes_of, read_limit, check_length, too_big, unread,
  Downloaded,
}

-- The answers after which another try is made.
pub data IsTransient : Answer → Type 0 where
  silent : IsTransient no_answer
  cut_short : {r : Option ℕ} → IsTransient (answer 200 r none)
  busy :
      {code : ℕ} {r : Option ℕ} {b : Option (List ℕ)}
      → (code ≡ 429) ⊎ (500 ≤ code)
      → IsTransient (answer code r b)

-- The answers that end a request, and what it returns.
pub data IsFinal : Answer → Got → Type 0 where
  whole : {r : Option ℕ} {bytes : List ℕ} → IsFinal (answer 200 r (some bytes)) (body bytes)
  rejected :
      {code : ℕ} {r : Option ℕ} {b : Option (List ℕ)}
      → code ≢ 200
      → code ≢ 429
      → code < 500
      → IsFinal (answer code r b) (refused code)

-- What `judge_answer` finds, by these two descriptions.
pub data Judged (a : Answer) : TryEnd → Type 0 where
  retried : {f : Failure} → IsTransient a → Judged a (again f)
  ended : {got : Got} → IsFinal a got → Judged a (ends got)

judge_ok :
    (r : Option ℕ) (b : Option (List ℕ)) → Judged (answer 200 r b) (judge_answer (answer 200 r b)).0
unfolding judge_answer
judge_ok r none = retried cut_short
judge_ok r (some bytes) = ended whole

judge_bad :
    (code : ℕ) (r : Option ℕ) (b : Option (List ℕ))
    → (code == 200) ≡ false
    → Judged (answer code r b) (judge_answer (answer code r b)).0
unfolding judge_answer retryable
judge_bad code r b bad = elim (Bool-cases (code == 429 || leb 500 code)) [
  | inl retry ↦
      let either : (code ≡ 429) ⊎ (500 ≤ code) = elim (Bool-cases (code == 429)) [
        | inl is ↦ inl (ground arith)
        | inr isnt ↦ inr (ground arith)
      ] in
      rw (bad, retry) (retried (busy either))
  | inr final ↦ rw (bad, final) (ended (rejected (ground arith) (ground arith) (ground arith)))
]

judge_none : Judged no_answer (judge_answer no_answer).0
unfolding judge_answer
judge_none = retried silent

judge_answer-Judged : (a : Answer) → Judged a (judge_answer a).0
judge_answer-Judged no_answer = judge_none
judge_answer-Judged (answer code r b) = elim (Bool-cases (code == 200)) [
  | inl ok ↦
      let is : code ≡ 200 = ground arith in
      subst (λ k. Judged (answer k r b) (judge_answer (answer k r b)).0) (sym is) (judge_ok r b)
  | inr bad ↦ judge_bad code r b bad
]

-- The requests that are sent.
unfoldable pub asked : List Event → ℕ
asked [] = 0
asked (sleeps d ∷ es) = asked es
asked (asks ∷ es) = suc (asked es)
asked (penalizes d ∷ es) = asked es

asked-append : (xs ys : List Event) → asked (xs ++ ys) ≡ asked xs + asked ys
unfolding asked
asked-append [] ys = omega arith
asked-append (sleeps d ∷ xs) ys = asked-append xs ys
asked-append (asks ∷ xs) ys = omega (arith, asked-append xs ys)
asked-append (penalizes d ∷ xs) ys = asked-append xs ys

-- The context lives on and the address can be asked.
pub record IsCalm (a : Attempt) : Type 0 where
  pub sleeping : a.outlives_sleep ≡ true
  pub waiting : a.outlives_wait ≡ true
  pub built : a.well_formed ≡ true

asked-judge_answer : (a : Answer) → asked (judge_answer a).1 ≡ 0
unfolding asked judge_answer observe
asked-judge_answer no_answer = refl
asked-judge_answer (answer code r b) = elim (Bool-cases (throttled code)) [
  | inl t ↦ rw t refl
  | inr f ↦ rw f refl
]

attempt-end : (n : ℕ) (a : Attempt) → IsCalm a → (attempt_at n a).0 ≡ (judge_answer a.reply).0
unfolding attempt_at
attempt-end n a c = elim (Bool-cases (n == 0)) [
  | inl e ↦ rw (e, c.waiting, c.built) refl
  | inr e ↦ rw (e, c.sleeping, c.waiting, c.built) refl
]

attempt-asked : (n : ℕ) (a : Attempt) → IsCalm a → asked (attempt_at n a).1 ≡ 1
unfolding attempt_at asked
attempt-asked n a c =
    let none' = asked-judge_answer a.reply in
    elim (Bool-cases (n == 0)) [
      | inl e ↦ rw (e, c.waiting, c.built) (ap suc none')
      | inr e ↦ rw (e, c.sleeping, c.waiting, c.built) (ap suc none')
    ]

-- The first answers of these many tries all ask for another try.
abbrev pub AllTransient : (ℕ → Attempt) → ℕ → ℕ → Type 0
AllTransient world first zero = Unit {0}
AllTransient world first (suc k) =
    IsTransient (world first).reply × AllTransient world (first + 1) k

-- How the tries from `first` on end, after how many requests: with the first answer that is final, or
-- used up.
pub data Course (world : ℕ → Attempt) (first left : ℕ) : Got → ℕ → Type 0 where
  settles :
      (k : ℕ) {got : Got}
      → k < left
      → AllTransient world first k
      → IsFinal (world (first + k)).reply got
      → Course world first left got (suc k)
  wears_out :
      {last : Option Failure}
      → AllTransient world first left
      → Course world first left (exhausted last) left

index_zero : (first : ℕ) → first ≡ first + 0
index_zero first = omega arith

the_index : (first k : ℕ) → first + 1 + k ≡ first + suc k
the_index first k = omega arith

Course-later :
    (world : ℕ → Attempt) (first left : ℕ) (got : Got) (n : ℕ)
    → IsTransient (world first).reply
    → Course world (first + 1) left got n
    → Course world first (suc left) got (suc n)
Course-later world first left got n t (settles j less before final) =
    settles (suc j) (omega arith) (t, before)
      (subst (λ i. IsFinal (world i).reply got) (the_index first j) final)
Course-later world first left got n t (wears_out before) = wears_out (t, before)

next_try-Course :
    (world : ℕ → Attempt) (first left : ℕ) (e : TryEnd) (events : List Event)
    (rest : Failure → Got × List Event)
    → Judged (world first).reply e
    → asked events ≡ 1
    → ((f : Failure) → Course world (first + 1) left (rest f).0 (asked (rest f).1))
    → Course world first (suc left) (next_try e events rest).0 (asked (next_try e events rest).1)
unfolding next_try
next_try-Course world first left (again f) events rest (retried t) one later =
    let n = asked (rest f).1 in
    let count : suc n ≡ asked (events ++ (rest f).1) =
      omega (arith, asked-append events (rest f).1) in
    subst (λ k. Course world first (suc left) (rest f).0 k) count
      (Course-later world first left (rest f).0 n t (later f))
next_try-Course world first left (ends got) events rest (ended final) one later =
    subst (λ k. Course world first (suc left) got k) (sym one)
      (settles 0 (omega arith) tt
        (subst (λ i. IsFinal (world i).reply got) (index_zero first) final))

get_from-Course :
    (left n : ℕ) (world : ℕ → Attempt) (last : Option Failure)
    → ((i : ℕ) → IsCalm (world i))
    → Course world n left (get_from left n world last).0 (asked (get_from left n world last).1)
unfolding get_from asked
get_from-Course zero n world last calm = wears_out tt
get_from-Course (suc left) n world last calm =
    next_try-Course world n left (attempt_at n (world n)).0 (attempt_at n (world n)).1
      (λ failure. get_from left (n + 1) world (some failure))
      (subst (λ e. Judged (world n).reply e) (sym (attempt-end n (world n) (calm n)))
        (judge_answer-Judged (world n).reply))
      (attempt-asked n (world n) (calm n))
      (λ failure. get_from-Course left (n + 1) world (some failure) calm)

-- As long as the context lives and the address can be asked, `get` sends one request after another as
-- the answers ask for another try (no answer, a body that breaks off, 429, or 500 and above), and ends
-- with the first other answer: with its body for 200, refused with its status otherwise; without one
-- it sends as many requests as it may and reports them used up.
pub get-Course :
    (retries : ℕ) (world : ℕ → Attempt)
    → ((i : ℕ) → IsCalm (world i))
    → Course world 0 retries (get retries world).0 (asked (get retries world).1)
unfolding get
get-Course retries world calm = get_from-Course retries 0 world none calm

-- Reading one byte more than allowed tells a body that is too long from one that is not.
check_length_whole :
    (most : ℕ) (bytes : List ℕ)
    → check_length most (take (most + 1) bytes)
      ≡ (if ltb most (length bytes) then too_big else image bytes)
unfolding check_length
check_length_whole most bytes =
    let long = length-take (most + 1) bytes in
    elim (Bool-cases (ltb most (length bytes))) [
      | inl big ↦
          let more : ltb most (length (take (most + 1) bytes)) ≡ true = ground arith in
          rw (big, more) refl
      | inr fits ↦
          let less : ltb most (length (take (most + 1) bytes)) ≡ false = ground arith in
          rw (fits, less) (ap image (take_all (most + 1) bytes (ground arith)))
    ]

-- Reading up to `n` bytes of a body, which ends, or breaks off with an error after `k` bytes. The error
-- is not seen where the `n` bytes are there before it.
abbrev pub reader_of : List ℕ → Option ℕ → ℕ → List ℕ × Bool
reader_of bytes none n = (take n bytes, true)
reader_of bytes (some k) n = (take (min n k) bytes, leb n k)

-- What a download gives of a body: the limit, the declared length, and the body as above.
abbrev pub expected : ℕ → ℕ → List ℕ → Option ℕ → Downloaded
expected most declared bytes breaks = if ltb most declared then too_big else elim breaks [
  | none ↦ if ltb most (length bytes) then too_big else image bytes
  | some k ↦ if ltb most k then too_big else unread
]

min_left : (a b : ℕ) → leb a b ≡ true → min a b ≡ a
min_left a b h = ground arith

broken_read :
    (most k : ℕ) (bytes : List ℕ)
    → k ≤ length bytes
    → (if leb (most + 1) k then check_length most (take (min (most + 1) k) bytes) else unread)
      ≡ (if ltb most k then too_big else unread)
broken_read most k bytes h = elim (Bool-cases (leb (most + 1) k)) [
  | inl far ↦
      let big : ltb most k ≡ true = ground arith in
      let long : ltb most (length bytes) ≡ true = ground arith in
      rw (far, min_left (most + 1) k far, check_length_whole most bytes, big, long) refl
  | inr near ↦ let small : ltb most k ≡ false = ground arith in rw (near, small) refl
]

-- The place where a body breaks off is in it.
abbrev pub IsInside : List ℕ → Option ℕ → Type 0
IsInside bytes none = Unit {0}
IsInside bytes (some k) = k ≤ length bytes

read_whole :
    (most : ℕ) (bytes : List ℕ) (breaks : Option ℕ)
    → IsInside bytes breaks
    → (if (reader_of bytes breaks (most + 1)).1
        then check_length most (reader_of bytes breaks (most + 1)).0
        else unread)
      ≡ (elim breaks [
        | none ↦ if ltb most (length bytes) then too_big else image bytes
        | some k ↦ if ltb most k then too_big else unread
      ])
read_whole most bytes none h = check_length_whole most bytes
read_whole most bytes (some k) h = broken_read most k bytes h

-- For an answer with status 200 and any body, also one that breaks off, a download under a limit below
-- 2^63 - 1 returns the body itself if it ends and neither the declared nor the real length is above the
-- limit. If the declared length is above it, or more bytes than the limit come, it fails as too big, and
-- if the body breaks off within the limit, it fails as not read.
pub download_whole :
    (max_bytes : ℕ) (a : Attempt) (declared : ℕ) (r : Option ℕ) (b : Option (List ℕ))
    (bytes : List ℕ) (breaks : Option ℕ)
    → IsCalm a
    → a.reply ≡ answer 200 r b
    → max_bytes_of max_bytes + 1 < 2 ^ 63
    → IsInside bytes breaks
    → (download max_bytes a declared (reader_of bytes breaks)).0
      ≡ expected (max_bytes_of max_bytes) declared bytes breaks
unfolding download read_limit
download_whole max_bytes a declared r b bytes breaks calm e small inside =
    let limit : ltb (max_bytes_of max_bytes + 1) (2 ^ 63) ≡ true = ground arith in
    elim (Bool-cases (ltb (max_bytes_of max_bytes) declared)) [
      | inl big ↦ rw (calm.waiting, calm.built, e, big) refl
      | inr fits ↦
          rw (calm.waiting, calm.built, e, fits, limit)
            (read_whole (max_bytes_of max_bytes) bytes breaks inside)
    ]
