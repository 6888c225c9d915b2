-- ===== src/ClientHello.antt =====
-- internal/adapter/netpath/clienthello.go: the first write of a TLS connection is split within the
-- server's name. Bytes are numbers below 256; the reader's error stays once it is set.
pub mod Pieces
pub mod Points
pub mod Within
mod Examples
use sauce_dust.Prelude.{
  ℕ, zero, suc, ◌+◌, ◌-◌, ◌*◌, ◌/◌, Bool, true, false, not, ◌&&◌, ◌||◌, ltb, leb, ◌==◌,
  if◌then◌else◌, List, [], ◌∷◌, ◌++◌, length, take, drop, get_or,
}

pub record Reader : Type 0 where
  pub pos : ℕ
  pub err : Bool

abbrev fails : List ℕ → ℕ → Reader → Bool
fails buf n r = r.err || ltb (length buf) (r.pos + n)

unfoldable pub u8 : List ℕ → Reader → ℕ × Reader
u8 buf r =
    if fails buf 1 r
    then (0, record r { err = true })
    else (get_or buf r.pos 0, record r { pos = r.pos + 1 })

unfoldable pub u16 : List ℕ → Reader → ℕ × Reader
u16 buf r =
    if fails buf 2 r
    then (0, record r { err = true })
    else (get_or buf r.pos 0 * 256 + get_or buf (r.pos + 1) 0, record r { pos = r.pos + 2 })

unfoldable pub skip : List ℕ → ℕ → Reader → Reader
skip buf n r = if fails buf n r then record r { err = true } else record r { pos = r.pos + n }

pub data Range : Type 0 where
  found : ℕ → ℕ → Range
  no_sni : Range
  out_of_fuel : Range

-- The name in the extension that `r` has come to.
unfoldable pub read_name : List ℕ → Reader → Range
unfolding skip u8 u16
read_name buf r =
    let (kind, r') = u8 buf (skip buf 2 r) in
    let (name_len, r'') = u16 buf r' in
    if not (kind == 0) || (r''.err || (name_len == 0 || ltb (length buf) (r''.pos + name_len)))
    then no_sni
    else found r''.pos (r''.pos + name_len)

-- The loop over the extensions.
unfoldable pub extensions : ℕ → List ℕ → ℕ → Reader → Range
unfolding read_name
extensions zero buf limit r = out_of_fuel
extensions (suc fuel) buf limit r = elim (ltb r.pos limit && not r.err) [
  | false ↦ no_sni
  | true ↦
      let (ext_type, r') = u16 buf r in
      let (ext_len, r'') = u16 buf r' in
      elim (ext_type == 0) [
        | true ↦ read_name buf r''
        | false ↦ extensions fuel buf limit (skip buf ext_len r'')
      ]
]

-- From the session identifier on.
unfoldable pub after_random : List ℕ → Reader → Range
unfolding extensions
after_random buf r =
    let (n, r1) = u8 buf r in
    let (m, r2) = u16 buf (skip buf n r1) in
    let (k, r3) = u8 buf (skip buf m r2) in
    let (total, r4) = u16 buf (skip buf k r3) in
    if r4.err then no_sni else extensions (2 + length buf) buf (r4.pos + total) r4

unfoldable pub sni_range : List ℕ → Range
unfolding after_random
sni_range buf =
    let (record_type, r1) = u8 buf (record { pos = 0; err = false }) in
    let (message_type, r2) = u8 buf (skip buf 2 (skip buf 2 r1)) in
    if not (record_type == 0x16) || not (message_type == 0x01)
    then no_sni
    else after_random buf (skip buf 32 (skip buf 2 (skip buf 3 r2)))

abbrev pub tls_record_header : ℕ
tls_record_header = 5

unfoldable pub seen : ℕ → List ℕ → Bool
seen at [] = false
seen at (p ∷ ps) = p == at || seen at ps

-- `add` of `splitPoints`, for a buffer of `n` bytes.
unfoldable pub add : ℕ → ℕ → List ℕ → List ℕ
unfolding seen
add n at points =
    if ltb 0 at && (ltb at n && not (seen at points)) then points ++ at ∷ [] else points

-- The loop with `i` from its value on; `pieces` rounds are left.
unfoldable pub add_pieces : ℕ → ℕ → ℕ → ℕ → ℕ → ℕ → List ℕ → List ℕ
unfolding add
add_pieces zero n i start end width points = points
add_pieces (suc pieces) n i start end width points = elim (ltb (start + i * width) end) [
  | false ↦ points
  | true ↦ add_pieces pieces n (suc i) start end width (add n (start + i * width) points)
]

unfoldable pub add_name : ℕ → ℕ → Range → List ℕ → List ℕ
unfolding add_pieces
add_name n parts (found start end) points =
    if leb 2 (end - start)
    then (let pieces = if ltb (end - start) (parts - 1) then end - start else parts - 1 in
        let width = (end - start) / (pieces + 1) in
        add_pieces pieces n 1 start end (if ltb width 1 then 1 else width) points)
    else points
add_name n parts no_sni points = points
add_name n parts out_of_fuel points = points

-- `sort.Ints` is a parameter.
unfoldable pub split_points : (List ℕ → List ℕ) → List ℕ → ℕ → List ℕ
unfolding add sni_range add_name
split_points sort b raw_parts =
    if ltb (length b) (tls_record_header * 2)
    then []
    else (let parts = if ltb raw_parts 2 then 2 else raw_parts in
        sort (add_name (length b) parts (sni_range b) (add (length b) tls_record_header [])))

-- The writes from `prev` on, when none fails.
unfoldable pub pieces_from : List ℕ → ℕ → List ℕ → List (List ℕ)
pieces_from b prev [] = []
pieces_from b prev (at ∷ points) =
    if leb at prev
    then pieces_from b prev points
    else take (at - prev) (drop prev b) ∷ pieces_from b at points

-- `Write`: what it hands to the connection, and whether the next write is split.
unfoldable pub write : (List ℕ → List ℕ) → Bool → ℕ → List ℕ → List (List ℕ) × Bool
unfolding split_points pieces_from
write sort split parts b =
    if split
    then (b ∷ [], true)
    else if length (split_points sort b parts) == 0
    then (b ∷ [], true)
    else (pieces_from b 0 (split_points sort b parts ++ length b ∷ []), true)
