-- ===== src/FlatIndex/Appended.antt =====
-- internal/adapter/flatindex/collection.go: `append`, ended anywhere, and the collection opened again.
use Prim.Native.Nat.{bit_or}
use sauce_dust.Prelude.{
  ℕ, suc, ◌+◌, ◌*◌, ◌/◌, ◌%◌, ◌^◌, ◌≤◌, ◌≡◌, refl, subst, ◌∙◌, Bool, true, false, List, [], ◌∷◌,
  length, set, get_or, replicate, length-set, length-replicate, length-append, arith, ◌==◌,
  Bool-cases, inl, inr,
}
use sauce_dust.FlatIndex.Codes.{encode, encode_from}
use sauce_dust.FlatIndex.Files.{
  Collection, VectorPoint, Result, ok, error, ℤ, pos, negsuc, Stop, buffers, add_point, append,
  append_buffers, write_points, open_files, id_bytes,
}
use sauce_dust.FlatIndex.Crash.{IsEven, reopen, with_slots}

length-encode_from :
    (i : ℕ) (v : List Bool) (code : List ℕ) → length (encode_from i v code) ≡ length code
unfolding encode_from
length-encode_from i [] code = refl
length-encode_from i (true ∷ v) code =
    let bit = bit_or (get_or code (i / 8) 0) (2 ^ (i % 8)) in
    omega (arith, length-encode_from (i + 1) v (set code (i / 8) bit), length-set code (i / 8) bit)
length-encode_from i (false ∷ v) code = length-encode_from (i + 1) v code

length-encode : (v : List Bool) (n : ℕ) → length (encode v n) ≡ n
unfolding encode
length-encode v n = length-encode_from 0 v (replicate n 0) ∙ length-replicate n 0

-- One code and one identifier for each of `n` points.
abbrev IsFor : ℕ → ℕ → Result (List ℕ × List ℕ) → Type 0
IsFor code_bytes n (error e) = Unit {0}
IsFor code_bytes n (ok bufs) = (length bufs.0 ≡ n * code_bytes) × (length bufs.1 ≡ n * 8)

add_point-IsFor :
    (code_bytes n : ℕ) (code : List ℕ) (id : ℤ) (r : Result (List ℕ × List ℕ))
    → length code ≡ code_bytes
    → IsFor code_bytes n r
    → IsFor code_bytes (suc n) (add_point code id r)
unfolding add_point id_bytes
add_point-IsFor code_bytes n code (negsuc k) r e h = tt
add_point-IsFor code_bytes n code (pos k) (error x) e h = tt
add_point-IsFor code_bytes n code (pos k) (ok rest) e h =
    (omega (arith, length-append code rest.0), omega (arith, length-append (id_bytes k) rest.1))

buffers-IsFor :
    (size code_bytes : ℕ) (ps : List VectorPoint)
    → IsFor code_bytes (length ps) (buffers size code_bytes ps)
unfolding buffers
buffers-IsFor size code_bytes [] = (omega arith, omega arith)
buffers-IsFor size code_bytes (p ∷ ps) = elim (Bool-cases (length p.vector == size)) [
  | inl right ↦ rw right (
      add_point-IsFor code_bytes (length ps) (encode p.vector code_bytes) p.image_id
        (buffers size code_bytes ps) (length-encode p.vector code_bytes)
        (buffers-IsFor size code_bytes ps))
  | inr wrong ↦ rw wrong tt
]

append_ok :
    (stop : Stop) (c : Collection) (n : ℕ) (bufs : List ℕ × List ℕ) {r : Result (List ℕ × List ℕ)}
    → r ≡ ok bufs
    → append_buffers stop c n r ≡ write_points stop c n bufs.0 bufs.1
unfolding append_buffers
append_ok stop c n bufs e = rw e refl

-- When both files hold exactly `count` slots, of at least one byte, and the points are accepted,
-- then wherever the writes of `append` end, opening the collection again finds the slots of before
-- and the first `k` of the new ones in both files, each code with its own identifier.
pub append-Reopened :
    (stop : Stop) (c : Collection) (points : List VectorPoint) (bufs : List ℕ × List ℕ)
    → IsEven c
    → 1 ≤ c.code_bytes
    → buffers c.vector_size c.code_bytes points ≡ ok bufs
    → (k : ℕ) × (k ≤ length points)
      × (open_files false c.code_bytes (append stop c points).0.disk
          ≡ (with_slots c k bufs.0 bufs.1, c.count + k))
unfolding append
append-Reopened stop c points bufs even some_bytes e =
    let sizes : IsFor c.code_bytes (length points) (ok bufs) =
      subst (IsFor c.code_bytes (length points)) e
        (buffers-IsFor c.vector_size c.code_bytes points) in
    rw (append_ok stop c (length points) bufs e)
      (reopen c (length points) bufs.0 bufs.1 even some_bytes sizes.0 sizes.1 stop)
