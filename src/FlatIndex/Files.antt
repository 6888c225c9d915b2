-- ===== src/FlatIndex/Files.antt =====
-- internal/adapter/flatindex/collection.go: the two files of a collection, as lists of bytes. A
-- write that stops, by an error or by a crash, has written a prefix of its bytes.
use sauce_dust.Prelude.{
  ℕ, ◌+◌, ◌*◌, ◌/◌, ◌%◌, ◌^◌, Bool, not, ◌||◌, ltb, ◌==◌, if◌then◌else◌, Option, none, some, List,
  [], ◌∷◌, ◌++◌, length, take, drop,
}
use sauce_dust.FlatIndex.Codes.{encode, le64}
use sauce_dust.FlatIndex.Scan.{slice}

pub data ℤ : Type 0 where
  pos : ℕ → ℤ
  negsuc : ℕ → ℤ

-- A vector is known by which of its components are positive.
pub record VectorPoint : Type 0 where
  pub image_id : ℤ
  pub vector : List Bool

pub data Error : Type 0 where
  model_mismatch negative_id io : Error

pub data Result (A : Type 0) : Type 0 where
  ok : A → Result A
  error : Error → Result A

pub record Disk : Type 0 where
  pub codes : List ℕ
  pub ids : List ℕ

pub record Collection : Type 0 where
  pub vector_size : ℕ
  pub code_bytes : ℕ
  pub disk : Disk
  pub count : ℕ

-- `binary.LittleEndian.AppendUint64`.
unfoldable pub id_bytes : ℕ → List ℕ
id_bytes n =
    n % 256
    ∷ n / 2 ^ 8 % 256
    ∷ n / 2 ^ 16 % 256
    ∷ n / 2 ^ 24 % 256
    ∷ n / 2 ^ 32 % 256
    ∷ n / 2 ^ 40 % 256
    ∷ n / 2 ^ 48 % 256
    ∷ n / 2 ^ 56 % 256
    ∷ []

-- A point that has the right length, in front of the rest.
unfoldable pub add_point : List ℕ → ℤ → Result (List ℕ × List ℕ) → Result (List ℕ × List ℕ)
unfolding id_bytes
add_point code (negsuc n) rest = error negative_id
add_point code (pos n) (error e) = error e
add_point code (pos n) (ok rest) = ok (code ++ rest.0, id_bytes n ++ rest.1)

-- The loop of `append`: the bytes for both files, or the first point that is refused.
unfoldable pub buffers : ℕ → ℕ → List VectorPoint → Result (List ℕ × List ℕ)
unfolding encode add_point
buffers vector_size code_bytes [] = ok ([], [])
buffers vector_size code_bytes (p ∷ ps) =
    if not (length p.vector == vector_size)
    then error model_mismatch
    else add_point (encode p.vector code_bytes) p.image_id (buffers vector_size code_bytes ps)

-- `WriteAt` within the file or at its end.
unfoldable pub write_at : List ℕ → ℕ → List ℕ → List ℕ
write_at file off buf = take off file ++ buf ++ drop (off + length buf) file

-- Where the writes of `append` end: with so many bytes of one of the files, or not before the end.
pub data Stop : Type 0 where
  in_codes : ℕ → Stop
  in_ids : ℕ → Stop
  finished : Stop

-- The part of `append` under its lock, and what it returns.
unfoldable pub write_points : Stop → Collection → ℕ → List ℕ → List ℕ → Collection × Option Error
unfolding write_at
write_points (in_codes p) c n code_buf id_buf = (
  record c {
    disk = record c.disk {
      codes = write_at c.disk.codes (c.count * c.code_bytes) (take p code_buf);
    };
  },
  some io,
)
write_points (in_ids q) c n code_buf id_buf = (
  record c {
    disk = record {
      codes = write_at c.disk.codes (c.count * c.code_bytes) code_buf;
      ids = write_at c.disk.ids (c.count * 8) (take q id_buf);
    };
  },
  some io,
)
write_points finished c n code_buf id_buf = (
  record c {
    disk = record {
      codes = write_at c.disk.codes (c.count * c.code_bytes) code_buf;
      ids = write_at c.disk.ids (c.count * 8) id_buf;
    };
    count = c.count + n;
  },
  none,
)

unfoldable pub append_buffers :
    Stop → Collection → ℕ → Result (List ℕ × List ℕ) → Collection × Option Error
unfolding write_points
append_buffers stop c n (error e) = (c, some e)
append_buffers stop c n (ok bufs) = write_points stop c n bufs.0 bufs.1

unfoldable pub append : Stop → Collection → List VectorPoint → Collection × Option Error
unfolding buffers append_buffers
append stop c points =
    append_buffers stop c (length points) (buffers c.vector_size c.code_bytes points)

unfoldable pub usable_slots : ℕ → Disk → ℕ
usable_slots code_bytes d =
    if ltb (length d.ids / 8) (length d.codes / code_bytes)
    then length d.ids / 8
    else length d.codes / code_bytes

-- The files cut to so many slots, unless they have that length or are only read.
unfoldable pub truncated : Bool → ℕ → ℕ → Disk → Disk
truncated read_only slots code_bytes d =
    if not (length d.codes == slots * code_bytes) || not (length d.ids == slots * 8)
    then (if read_only
        then d
        else record { codes = take (slots * code_bytes) d.codes; ids = take (slots * 8) d.ids })
    else d

unfoldable pub open_files : Bool → ℕ → Disk → Disk × ℕ
unfolding usable_slots truncated
open_files read_only code_bytes d =
    let slots = usable_slots code_bytes d in (truncated read_only slots code_bytes d, slots)

-- The code and the identifier of a slot.
unfoldable pub slot_pair : ℕ → Disk → ℕ → List ℕ × ℕ
unfolding le64
slot_pair code_bytes d slot =
    (slice d.codes (slot * code_bytes) code_bytes, le64 (slice d.ids (slot * 8) 8))
