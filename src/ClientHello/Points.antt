-- ===== src/ClientHello/Points.antt =====
-- internal/adapter/netpath/clienthello.go: the search for the server's name.
use sauce_dust.Prelude.{
  ℕ, zero, suc, ◌+◌, ◌≤◌, ◌<◌, ◌≡◌, true, false, not, ◌&&◌, ◌||◌, List, length, ltb, ◌==◌, arith,
  Bool-cases, inl, inr, ◌⊎◌,
}
use sauce_dust.ClientHello.{
  Reader, u8, u16, skip, Range, found, no_sni, out_of_fuel, read_name, extensions, after_random,
  sni_range,
}

-- A name that is not empty and lies within the first `n` bytes, or no name; the fuel was enough.
abbrev pub IsFound : ℕ → Range → Type 0
IsFound n (found start end) = (start < end) × (end ≤ n)
IsFound n no_sni = Unit {0}
IsFound n out_of_fuel = zero ≡ 1

read_name-IsFound : (buf : List ℕ) (r : Reader) → IsFound (length buf) (read_name buf r)
unfolding read_name
read_name-IsFound buf r =
    let q = u16 buf (u8 buf (skip buf 2 r)).1 in
    let kind = (u8 buf (skip buf 2 r)).0 in
    elim (Bool-cases
      (not (kind == 0) || (q.1.err || (q.0 == 0 || ltb (length buf) (q.1.pos + q.0))))) [
        | inl bad ↦ rw bad tt
        | inr good ↦ rw good (ground arith)
      ]

skip-pos :
    (buf : List ℕ) (n : ℕ) (r : Reader)
    → r.pos ≤ length buf
    → ((skip buf n r).err ≡ true) × ((skip buf n r).pos ≤ length buf)
      ⊎ ((skip buf n r).pos ≡ r.pos + n) × ((skip buf n r).pos ≤ length buf)
unfolding skip
skip-pos buf n r h = ground arith

u16-pos :
    (buf : List ℕ) (r : Reader)
    → r.pos ≤ length buf
    → ((u16 buf r).1.err ≡ true) × ((u16 buf r).1.pos ≤ length buf)
      ⊎ ((u16 buf r).1.pos ≡ r.pos + 2) × ((u16 buf r).1.pos ≤ length buf)
unfolding u16
u16-pos buf r h = ground arith

u8-pos : (buf : List ℕ) (r : Reader) → r.pos ≤ length buf → (u8 buf r).1.pos ≤ length buf
unfolding u8
u8-pos buf r h = ground arith

skip-err : (buf : List ℕ) (n : ℕ) (r : Reader) → r.err ≡ true → (skip buf n r).err ≡ true
unfolding skip
skip-err buf n r h = ground arith

u16-err : (buf : List ℕ) (r : Reader) → r.err ≡ true → (u16 buf r).1.err ≡ true
unfolding u16
u16-err buf r h = ground arith

extensions-IsFound :
    (fuel : ℕ) (buf : List ℕ) (limit : ℕ) (r : Reader)
    → r.pos ≤ length buf
    → 1 ≤ fuel
    → (r.err ≡ true) ⊎ (length buf + 2 ≤ fuel + r.pos)
    → IsFound (length buf) (extensions fuel buf limit r)
unfolding extensions
extensions-IsFound zero buf limit r within one enough = absurd (omega arith)
extensions-IsFound (suc fuel) buf limit r within one enough =
    elim (Bool-cases (ltb r.pos limit && not r.err)) [
      | inr over ↦ rw (over, extensions) tt
      | inl more ↦
          let r' = (u16 buf r).1 in
          let r'' = (u16 buf r').1 in
          let ext_len = (u16 buf r').0 in
          elim (Bool-cases ((u16 buf r).0 == 0)) [
            | inl name ↦ rw (more, extensions) (rw (name, extensions) (read_name-IsFound buf r''))
            | inr other ↦
                let p1 = u16-pos buf r within in
                let p2 = u16-pos buf r' (ground arith) in
                let p3 = skip-pos buf ext_len r'' (ground arith) in
                rw (more, extensions)
                  (rw (other, extensions)
                    (extensions-IsFound fuel buf limit (skip buf ext_len r'') (ground arith)
                      (ground arith) (ground (arith, skip-err buf ext_len r'', u16-err buf r'))))
          ]
    ]

skip-within :
    (buf : List ℕ) (n : ℕ) (r : Reader) → r.pos ≤ length buf → (skip buf n r).pos ≤ length buf
skip-within buf n r h = ground (arith, skip-pos buf n r h)

u16-within : (buf : List ℕ) (r : Reader) → r.pos ≤ length buf → (u16 buf r).1.pos ≤ length buf
u16-within buf r h = ground (arith, u16-pos buf r h)

after_random-IsFound :
    (buf : List ℕ) (r : Reader) → r.pos ≤ length buf → IsFound (length buf) (after_random buf r)
unfolding after_random
after_random-IsFound buf r h =
    let r1 = (u8 buf r).1 in
    let s1 = skip buf (u8 buf r).0 r1 in
    let r2 = (u16 buf s1).1 in
    let s2 = skip buf (u16 buf s1).0 r2 in
    let r3 = (u8 buf s2).1 in
    let s3 = skip buf (u8 buf s2).0 r3 in
    let q = u16 buf s3 in
    let h2 =
      skip-within buf (u16 buf s1).0 r2
        (u16-within buf s1 (skip-within buf (u8 buf r).0 r1 (u8-pos buf r h))) in
    let h4 = u16-within buf s3 (skip-within buf (u8 buf s2).0 r3 (u8-pos buf s2 h2)) in
    elim (Bool-cases q.1.err) [
      | inl bad ↦ rw bad tt
      | inr good ↦ rw good (
          extensions-IsFound (2 + length buf) buf (q.1.pos + q.0) q.1 h4 (omega arith)
            (inr (omega arith)))
    ]

-- For every buffer the search for the server's name ends within its fuel, and a name that it finds is
-- not empty and lies within the buffer.
pub sni_range-IsFound : (buf : List ℕ) → IsFound (length buf) (sni_range buf)
unfolding sni_range
sni_range-IsFound buf =
    let r1 = (u8 buf (record { pos = 0; err = false })).1 in
    let s1 = skip buf 2 (skip buf 2 r1) in
    let r2 = (u8 buf s1).1 in
    let w1 =
      skip-within buf 2 (skip buf 2 r1)
        (skip-within buf 2 r1 (u8-pos buf (record { pos = 0; err = false }) (omega arith))) in
    let w2 =
      skip-within buf 32 (skip buf 2 (skip buf 3 r2))
        (skip-within buf 2 (skip buf 3 r2) (skip-within buf 3 r2 (u8-pos buf s1 w1))) in
    elim (Bool-cases
      (not ((u8 buf (record { pos = 0; err = false })).0 == 0x16) || not ((u8 buf s1).0 == 0x01))) [
        | inl other ↦ rw other tt
        | inr hello ↦
            rw hello (after_random-IsFound buf (skip buf 32 (skip buf 2 (skip buf 3 r2))) w2)
      ]
