-- ===== src/Ingest/Rebuilt.antt =====
-- internal/app/ingest.go: what `RebuildIndex` leaves to do.
use sauce_dust.Prelude.{
  ℕ, zero, suc, ◌+◌, ◌≤◌, ◌<◌, ◌≡◌, refl, sym, ap, ◌∙◌, subst, Bool, true, false, ◌==◌, ◌&&◌,
  if◌then◌else◌, some, List, [], ◌∷◌, ◌++◌, length, take, arith, Bool-cases, inl, inr,
}
use text.Mathlib.TextPositions.{eq_refl}
use text.Mathlib.TextEquality.{eq_iff}
use sauce_dust.Domain.Texts.{Text, ◌=t=◌}
use sauce_dust.Domain.Vectors.{EmbeddingModel}
use sauce_dust.Ingest.{StoredVector, IndexPoint, Payload}
use sauce_dust.Ingest.Table.{
  VectorRow, has_image_id, has_model, mark_indexed_batch, is_pending, all_pending, pending_vectors,
}
use sauce_dust.Ingest.Rebuild.{
  Calls, Rebuilding, rebuilt, Rebuild, ids_of_pending, points_of_pending, rebuild_round, next_round,
  next_model, rebuild_model, batch_size_of, rebuild_models, rebuild_index,
}

unfoldable pub pending_count : Text → List VectorRow → ℕ
pending_count t rs = length (all_pending t rs)

-- The rows that count, one by one.
pending_count-cons :
    (t : Text) (r : VectorRow) (rs : List VectorRow)
    → pending_count t (r ∷ rs)
      ≡ (if is_pending t r then suc (pending_count t rs) else pending_count t rs)
unfolding pending_count all_pending
pending_count-cons t r rs = elim (Bool-cases (is_pending t r)) [
  | inl e ↦ rw e refl
  | inr e ↦ rw e refl
]

-- A row after the mark is the row, or no longer pending.
marked_row : List ℕ → List Text → VectorRow → VectorRow
marked_row ids ms r =
    if has_image_id r.row_image ids && has_model r.row_model ms
    then record r { is_indexed = true }
    else r

mark-cons :
    (ids : List ℕ) (ms : List Text) (r : VectorRow) (rs : List VectorRow)
    → mark_indexed_batch ids ms (r ∷ rs) ≡ marked_row ids ms r ∷ mark_indexed_batch ids ms rs
unfolding mark_indexed_batch marked_row
mark-cons ids ms r rs =
    elim (Bool-cases (has_image_id r.row_image ids && has_model r.row_model ms)) [
      | inl e ↦ rw e refl
      | inr e ↦ rw e refl
    ]

and_false : (b : Bool) → (b && false) ≡ false
and_false true = refl
and_false false = refl

marked_row-pending :
    (t : Text) (ids : List ℕ) (ms : List Text) (r : VectorRow)
    → is_pending t r ≡ false
    → is_pending t (marked_row ids ms r) ≡ false
unfolding is_pending marked_row
marked_row-pending t ids ms r e =
    elim (Bool-cases (has_image_id r.row_image ids && has_model r.row_model ms)) [
      | inl hit ↦ rw hit (and_false (r.row_model =t= t))
      | inr miss ↦ rw miss e
    ]

if_le : (b : Bool) (n : ℕ) → (if b then suc n else n) ≤ suc n
if_le true n = omega arith
if_le false n = omega arith

mark_step :
    (t : Text) (ids : List ℕ) (ms : List Text) (r : VectorRow) (rs : List VectorRow)
    → pending_count t (mark_indexed_batch ids ms rs) ≤ pending_count t rs
    → pending_count t (mark_indexed_batch ids ms (r ∷ rs)) ≤ pending_count t (r ∷ rs)
mark_step t ids ms r rs h =
    let rest = mark_indexed_batch ids ms rs in
    let whole =
      ap (pending_count t) (mark-cons ids ms r rs)
      ∙ pending_count-cons t (marked_row ids ms r) rest in
    elim (Bool-cases (is_pending t r)) [
      | inr e ↦
          let left : pending_count t (mark_indexed_batch ids ms (r ∷ rs)) ≡ pending_count t rest =
            whole
            ∙ ap (λ b. if b then suc (pending_count t rest) else pending_count t rest)
                (marked_row-pending t ids ms r e) in
          let right : pending_count t (r ∷ rs) ≡ pending_count t rs =
            pending_count-cons t r rs ∙ rw e refl in
          omega (arith, left, right, h)
      | inl e ↦
          let right : pending_count t (r ∷ rs) ≡ suc (pending_count t rs) =
            pending_count-cons t r rs ∙ rw e refl in
          let left : pending_count t (mark_indexed_batch ids ms (r ∷ rs))
              ≤ suc (pending_count t rest) =
            subst (λ n. n ≤ suc (pending_count t rest)) (sym whole)
              (if_le (is_pending t (marked_row ids ms r)) (pending_count t rest)) in
          omega (arith, left, right, h)
    ]

mark-pending_count :
    (t : Text) (ids : List ℕ) (ms : List Text) (rs : List VectorRow)
    → pending_count t (mark_indexed_batch ids ms rs) ≤ pending_count t rs
unfolding pending_count all_pending mark_indexed_batch
mark-pending_count t ids ms [] = omega arith
mark-pending_count t ids ms (r ∷ rs) = mark_step t ids ms r rs (mark-pending_count t ids ms rs)

none_pending :
    (t : Text) (v : StoredVector) (vs : List StoredVector) → ¬ (all_pending t [] ≡ v ∷ vs)
unfolding all_pending
none_pending t v vs e = ground arith

abbrev head_id : List StoredVector → ℕ
head_id [] = 0
head_id (v ∷ vs) = v.image_id

all_pending-cons :
    (t : Text) (r : VectorRow) (rs : List VectorRow)
    → is_pending t r ≡ true
    → all_pending t (r ∷ rs)
      ≡ record { image_id = r.row_image; model_id = t; values = r.row_values } ∷ all_pending t rs
unfolding all_pending
all_pending-cons t r rs e = rw e refl

all_pending-skip :
    (t : Text) (r : VectorRow) (rs : List VectorRow)
    → is_pending t r ≡ false
    → all_pending t (r ∷ rs) ≡ all_pending t rs
unfolding all_pending
all_pending-skip t r rs e = rw e refl

pending_model : (t : Text) (r : VectorRow) → is_pending t r ≡ true → r.row_model ≡ t
unfolding is_pending
pending_model t r e = elim (Bool-cases (r.row_model =t= t)) [
  | inl same ↦ (eq_iff r.row_model t).0 same
  | inr other ↦ let never : Path Bool false true = sym (rw other refl) ∙ e in absurd (ground arith)
]

marked_row-hit :
    (t : Text) (ids : List ℕ) (ms : List Text) (r : VectorRow)
    → has_image_id r.row_image ids ≡ true
    → has_model r.row_model ms ≡ true
    → is_pending t (marked_row ids ms r) ≡ false
unfolding is_pending marked_row
marked_row-hit t ids ms r i m = rw (i, m) (and_false (r.row_model =t= t))

-- A mark that covers the first pending row leaves less.
mark-first :
    (t : Text) (ids : List ℕ) (ms : List Text) (rs : List VectorRow) (v : StoredVector)
    (vs : List StoredVector)
    → all_pending t rs ≡ v ∷ vs
    → has_image_id v.image_id ids ≡ true
    → has_model t ms ≡ true
    → pending_count t (mark_indexed_batch ids ms rs) < pending_count t rs
mark-first t ids ms [] v vs e i m = absurd (none_pending t v vs e)
mark-first t ids ms (r ∷ rs) v vs e i m =
    let rest = mark_indexed_batch ids ms rs in
    let whole =
      ap (pending_count t) (mark-cons ids ms r rs)
      ∙ pending_count-cons t (marked_row ids ms r) rest in
    elim (Bool-cases (is_pending t r)) [
      | inl p ↦
          let first : r.row_image ≡ v.image_id = ap head_id (sym (all_pending-cons t r rs p) ∙ e) in
          let hit =
            marked_row-hit t ids ms r (subst (λ n. has_image_id n ids ≡ true) (sym first) i)
              (subst (λ u. has_model u ms ≡ true) (sym (pending_model t r p)) m) in
          let left =
            whole ∙ ap (λ b. if b then suc (pending_count t rest) else pending_count t rest) hit in
          let right : pending_count t (r ∷ rs) ≡ suc (pending_count t rs) =
            pending_count-cons t r rs ∙ rw p refl in
          omega (arith, left, right, mark-pending_count t ids ms rs)
      | inr p ↦
          let left =
            whole
            ∙ ap (λ b. if b then suc (pending_count t rest) else pending_count t rest)
                (marked_row-pending t ids ms r p) in
          let right : pending_count t (r ∷ rs) ≡ pending_count t rs =
            pending_count-cons t r rs ∙ rw p refl in
          let less = mark-first t ids ms rs v vs (sym (all_pending-skip t r rs p) ∙ e) i m in
          omega (arith, left, right, less)
    ]

-- None of the calls fails.
pub record IsSmooth (c : Calls) : Type 0 where
  pub goes_on : (vs : List StoredVector) → c.is_cancelled vs ≡ false
  pub finds : (ids : List ℕ) → (payload : ℕ → Payload) × (c.payloads ids ≡ some payload)
  pub sends : (k : Text) (ps : List IndexPoint) → c.takes k ps ≡ true
  pub marking : (ids : List ℕ) → c.marks ids ≡ true

-- For no model there is more to do than before.
abbrev IsLess : Rebuild → Rebuild → Type 0
IsLess r' r = (t : Text) → pending_count t r'.rows ≤ pending_count t r.rows

round_done :
    (c : Calls) (m : EmbeddingModel) (pending : List StoredVector) (r : Rebuild)
    → IsSmooth c
    → (r' : Rebuild) × (s : Rebuild) × (rebuild_round c m pending r ≡ (some r', s))
      × (r'.rows ≡ mark_indexed_batch (ids_of_pending pending) (m.id ∷ []) r.rows)
unfolding rebuild_round
round_done c m pending r smooth =
    let (payload, e) = smooth.finds (ids_of_pending pending) in
    let sends = smooth.sends m.collection (points_of_pending payload pending) in
    let marks = smooth.marking (ids_of_pending pending) in
    (
      record {
        rows = mark_indexed_batch (ids_of_pending pending) (m.id ∷ []) r.rows;
        sent = r.sent ++ ((m.collection, points_of_pending payload pending) ∷ []);
        total = r.total + length pending;
      },
      record r { sent = r.sent ++ ((m.collection, points_of_pending payload pending) ∷ []) },
      rw (e, sends, marks, rebuild_round) refl,
      refl,
    )

has_model_self : (t : Text) → has_model t (t ∷ []) ≡ true
unfolding has_model
has_model_self t = rw (eq_refl t) refl

has_image_id-first : (n : ℕ) (ns : List ℕ) → has_image_id n (n ∷ ns) ≡ true
unfolding has_image_id
has_image_id-first n ns = let same : (n == n) ≡ true = ground arith in rw same refl

count_of :
    (t : Text) (rs : List VectorRow) (all : List StoredVector)
    → all_pending t rs ≡ all
    → pending_count t rs ≡ length all
unfolding pending_count
count_of t rs all e = ap length e

IsLess-after : (r r' r'' : Rebuild) → IsLess r' r → IsLess r'' r' → IsLess r'' r
IsLess-after r r' r'' h k t = let one = h t in let two = k t in omega arith

-- A round that read something leaves less to do for its model, and no more for the others.
round-IsLess :
    (m : EmbeddingModel) (j : ℕ) (r r' : Rebuild) (v : StoredVector) (vs : List StoredVector)
    → all_pending m.id r.rows ≡ v ∷ vs
    → r'.rows ≡ mark_indexed_batch (ids_of_pending (v ∷ take j vs)) (m.id ∷ []) r.rows
    → (pending_count m.id r'.rows < pending_count m.id r.rows) × IsLess r' r
unfolding ids_of_pending
round-IsLess m j r r' v vs e rows =
    let ids : List ℕ = v.image_id ∷ ids_of_pending (take j vs) in
    (
      subst (λ k. pending_count m.id k < pending_count m.id r.rows) (sym rows)
          (mark-first m.id ids (m.id ∷ []) r.rows v vs e
            (has_image_id-first v.image_id (ids_of_pending (take j vs))) (has_model_self m.id)),
      λ t.
          subst (λ k. pending_count t k ≤ pending_count t r.rows) (sym rows)
            (mark-pending_count t ids (m.id ∷ []) r.rows),
    )

abbrev IsDone : EmbeddingModel → Rebuild → Rebuild × Rebuilding → Type 0
IsDone m r out =
    (r' : Rebuild) × (out ≡ (r', rebuilt)) × (pending_count m.id r'.rows ≡ 0) × IsLess r' r

model_round :
    (fuel j : ℕ) (c : Calls) (m : EmbeddingModel) (r : Rebuild) (all : List StoredVector)
    → IsSmooth c
    → all_pending m.id r.rows ≡ all
    → ((r' : Rebuild)
        → pending_count m.id r'.rows < pending_count m.id r.rows
        → IsDone m r' (rebuild_model fuel c m (suc j) r'))
    → IsDone m r (rebuild_model (suc fuel) c m (suc j) r)
unfolding rebuild_model pending_vectors next_round
model_round fuel j c m r [] smooth e next =
    let nothing : pending_vectors m.id (suc j) r.rows ≡ [] = ap (take (suc j)) e in
    let left : pending_count m.id r.rows ≡ 0 = count_of m.id r.rows [] e in
    (r, rw (nothing, smooth.goes_on [], rebuild_model) refl, left, λ t. omega arith)
model_round fuel j c m r (v ∷ vs) smooth e next =
    let some' : pending_vectors m.id (suc j) r.rows ≡ v ∷ take j vs = ap (take (suc j)) e in
    let busy : (suc (length (take j vs)) == 0) ≡ false = ground arith in
    let (r', s, is, rows) = round_done c m (v ∷ take j vs) r smooth in
    let (less, others) = round-IsLess m j r r' v vs e rows in
    let (end', ends', zero', fewer) = next r' less in
    (
      end',
      rw (some', smooth.goes_on (v ∷ take j vs), busy, rebuild_model)
          (ap (λ k. next_round k (λ q. rebuild_model fuel c m (suc j) q)) is ∙ ends'),
      zero',
      IsLess-after r r' end' others fewer,
    )

rebuild_model-IsDone :
    (fuel j : ℕ) (c : Calls) (m : EmbeddingModel) (r : Rebuild)
    → IsSmooth c
    → pending_count m.id r.rows < fuel
    → IsDone m r (rebuild_model fuel c m (suc j) r)
rebuild_model-IsDone zero j c m r smooth h = absurd (omega arith)
rebuild_model-IsDone (suc fuel) j c m r smooth h =
    model_round fuel j c m r (all_pending m.id r.rows) smooth refl
      (λ r' less. rebuild_model-IsDone fuel j c m r' smooth (omega arith))

-- Nothing is left for any of the models.
abbrev pub AllRebuilt : List EmbeddingModel → Rebuild → Type 0
AllRebuilt [] r = Unit {0}
AllRebuilt (m ∷ ms) r = (pending_count m.id r.rows ≡ 0) × AllRebuilt ms r

AllRebuilt-less :
    (ms : List EmbeddingModel) (r r' : Rebuild) → IsLess r' r → AllRebuilt ms r → AllRebuilt ms r'
AllRebuilt-less [] r r' h a = tt
AllRebuilt-less (m ∷ ms) r r' h a =
    let fewer = h m.id in let zero' = a.0 in (omega arith, AllRebuilt-less ms r r' h a.1)

rebuild_models-all :
    (fuel j : ℕ) (c : Calls) (ensures : EmbeddingModel → Bool) (ms : List EmbeddingModel)
    (r : Rebuild)
    → IsSmooth c
    → ((m : EmbeddingModel) → ensures m ≡ true)
    → ((t : Text) → pending_count t r.rows < fuel)
    → (r' : Rebuild) × (rebuild_models fuel c ensures (suc j) ms r ≡ (r', rebuilt))
      × AllRebuilt ms r'
      × IsLess r' r
unfolding rebuild_models next_model
rebuild_models-all fuel j c ensures [] r smooth made h = (r, refl, tt, λ t. omega arith)
rebuild_models-all fuel j c ensures (m ∷ ms) r smooth made h =
    let (r', is, zero', less) = rebuild_model-IsDone fuel j c m r smooth (h m.id) in
    let (r'', is', all, less') =
      rebuild_models-all fuel j c ensures ms r' smooth made
        (λ t. let a = h t in let b = less t in omega arith) in
    (
      r'',
      rw (made m, rebuild_models)
          (ap (λ k. next_model k (λ q. rebuild_models fuel c ensures (suc j) ms q)) is ∙ is'),
      (let b = less' m.id in omega (arith, zero'), all),
      IsLess-after r r' r'' less less',
    )

size_suc : (n : ℕ) → (j : ℕ) × (batch_size_of n ≡ suc j)
unfolding batch_size_of
size_suc zero = (511, refl)
size_suc (suc n) = (n, ground arith)

all_pending-length : (t : Text) (rs : List VectorRow) → pending_count t rs ≤ length rs
unfolding pending_count all_pending
all_pending-length t [] = omega arith
all_pending-length t (r ∷ rs) = ground (arith, all_pending-length t rs)

-- When no call fails, `RebuildIndex` ends, whatever the batch size, and leaves no vector of a registered
-- model that is not marked as indexed.
pub rebuild_index_done :
    (c : Calls) (ensures : EmbeddingModel → Bool) (batch_size : ℕ) (models : List EmbeddingModel)
    (rows : List VectorRow)
    → IsSmooth c
    → ((m : EmbeddingModel) → ensures m ≡ true)
    → (r : Rebuild) × (rebuild_index c ensures batch_size models rows ≡ (r, rebuilt))
      × AllRebuilt models r
unfolding rebuild_index
rebuild_index_done c ensures batch_size models rows smooth made =
    let (j, e) = size_suc batch_size in
    let start : Rebuild = record { rows = rows; sent = []; total = 0 } in
    let (r, is, all, less) =
      rebuild_models-all (suc (length rows)) j c ensures models start smooth made
        (λ t. let few = all_pending-length t rows in omega arith) in
    (r, ap (λ k. rebuild_models (suc (length rows)) c ensures k models start) e ∙ is, all)
