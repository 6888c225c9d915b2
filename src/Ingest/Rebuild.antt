-- ===== src/Ingest/Rebuild.antt =====
-- internal/app/ingest.go: `RebuildIndex`. The table is as the postgres package keeps it; what the other
-- calls return is given, and the index is the list of the points that it took.
use sauce_dust.Prelude.{
  ℕ, zero, suc, ◌+◌, ◌==◌, if◌then◌else◌, Bool, Option, none, some, List, [], ◌∷◌, ◌++◌, length,
}
use sauce_dust.Domain.Texts.{Text}
use sauce_dust.Domain.Vectors.{EmbeddingModel}
use sauce_dust.Ingest.{StoredVector, IndexPoint, Payload}
use sauce_dust.Ingest.Table.{VectorRow, mark_indexed_batch, pending_vectors}

-- The calls of one round that may fail, by the rows that it read.
pub record Calls : Type 0 where
  pub is_cancelled : List StoredVector → Bool
  pub payloads : List ℕ → Option (ℕ → Payload)
  pub takes : Text → List IndexPoint → Bool
  pub marks : List ℕ → Bool

pub data Rebuilding : Type 0 where
  rebuilt stopped out_of_fuel : Rebuilding

pub record Rebuild : Type 0 where
  pub rows : List VectorRow
  pub sent : List (Text × List IndexPoint)
  pub total : ℕ

unfoldable pub ids_of_pending : List StoredVector → List ℕ
ids_of_pending [] = []
ids_of_pending (v ∷ vs) = v.image_id ∷ ids_of_pending vs

unfoldable pub points_of_pending : (ℕ → Payload) → List StoredVector → List IndexPoint
points_of_pending payload [] = []
points_of_pending payload (v ∷ vs) =
    record { point_id = v.image_id; vector = v.values; payload = payload v.image_id }
    ∷ points_of_pending payload vs

-- A round with the rows that it read; `none` where a call fails.
unfoldable pub rebuild_round :
    Calls → EmbeddingModel → List StoredVector → Rebuild → Option Rebuild × Rebuild
unfolding ids_of_pending points_of_pending
rebuild_round c m pending r = elim (c.payloads (ids_of_pending pending)) [
  | none ↦ (none, r)
  | some payload ↦
      let points = points_of_pending payload pending in
      let sent' : Rebuild = record r { sent = r.sent ++ ((m.collection, points) ∷ []) } in
      if c.takes m.collection points
      then if c.marks (ids_of_pending pending)
        then (
          some (record {
            rows = mark_indexed_batch (ids_of_pending pending) (m.id ∷ []) r.rows;
            sent = r.sent ++ ((m.collection, points) ∷ []);
            total = r.total + length pending;
          }),
          sent',
        )
        else (none, sent')
      else (none, r)
]

unfoldable pub next_round :
    Option Rebuild × Rebuild → (Rebuild → Rebuild × Rebuilding) → Rebuild × Rebuilding
next_round (none, r) next = (r, stopped)
next_round (some r', r) next = next r'

-- The inner loop, for one model.
unfoldable pub rebuild_model : ℕ → Calls → EmbeddingModel → ℕ → Rebuild → Rebuild × Rebuilding
unfolding rebuild_round next_round
rebuild_model zero c m batch_size r = (r, out_of_fuel)
rebuild_model (suc fuel) c m batch_size r =
    let pending = pending_vectors m.id batch_size r.rows in
    if c.is_cancelled pending
    then (r, stopped)
    else if length pending == 0
    then (r, rebuilt)
    else next_round (rebuild_round c m pending r) (λ r'. rebuild_model fuel c m batch_size r')

unfoldable pub batch_size_of : ℕ → ℕ
batch_size_of n = if n == 0 then 512 else n

unfoldable pub next_model :
    Rebuild × Rebuilding → (Rebuild → Rebuild × Rebuilding) → Rebuild × Rebuilding
next_model (r, rebuilt) next = next r
next_model (r, stopped) next = (r, stopped)
next_model (r, out_of_fuel) next = (r, out_of_fuel)

-- The loop over the models; whether the collection can be made is given.
unfoldable pub rebuild_models :
    ℕ → Calls → (EmbeddingModel → Bool) → ℕ → List EmbeddingModel → Rebuild → Rebuild × Rebuilding
unfolding rebuild_model next_model
rebuild_models fuel c ensures batch_size [] r = (r, rebuilt)
rebuild_models fuel c ensures batch_size (m ∷ ms) r =
    if ensures m
    then next_model (rebuild_model fuel c m batch_size r)
        (λ r'. rebuild_models fuel c ensures batch_size ms r')
    else (r, stopped)

unfoldable pub rebuild_index :
    Calls
    → (EmbeddingModel → Bool)
    → ℕ
    → List EmbeddingModel
    → List VectorRow
    → Rebuild × Rebuilding
unfolding rebuild_models batch_size_of
rebuild_index c ensures batch_size models rows =
    rebuild_models (suc (length rows)) c ensures (batch_size_of batch_size) models
      (record { rows = rows; sent = []; total = 0 })
