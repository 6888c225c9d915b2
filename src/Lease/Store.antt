-- ===== src/Lease/Store.antt =====
-- internal/domain/domain.go and the schema: a crawl range, its lease, and the tables that
-- internal/adapter/postgres/lease.go works on. Rows are newest first.
use Prim.Native.String.{String}
use text.Mathlib.Text.{◌==◌ as str_eq}
use sauce_dust.Prelude.{
  ℕ, suc, ◌+◌, ◌*◌, Bool, true, false, ◌&&◌, Option, none, some, List, [], ◌∷◌, ltb, ◌==◌,
  if◌then◌else◌,
}

pub data RangeStatus : Type 0 where
  running completed failed empty : RangeStatus

-- One row of `crawl_ranges`.
pub record Row : Type 0 where
  pub id : ℕ
  pub lower : ℕ
  pub upper : ℕ
  pub status : RangeStatus
  pub attempts : ℕ
  pub node : Option String
  pub leased_at : Option ℕ
  pub ready_at : ℕ
  pub finished_at : Option ℕ
  pub saved_count : ℕ
  pub last_error : Option (List ℕ)

-- One row of `crawl_states`.
pub record CrawlState : Type 0 where
  pub high_watermark : Option ℕ
  pub backfill_before : Option ℕ

pub record Store : Type 0 where
  pub rows : List Row
  pub next_id : ℕ
  pub state : Option CrawlState

-- What a node holds: the range, and the attempts as its fencing token.
pub record CrawlRange : Type 0 where
  pub id : ℕ
  pub lower : ℕ
  pub upper : ℕ
  pub attempts : ℕ
  pub node : String

pub data Error : Type 0 where
  bad_request no_work lease_conflict not_found unique_violation : Error

pub data Reply (A : Type 0) : Type 0 where
  ok : A → Reply A
  err : Error → Reply A

abbrev pub minute : ℕ
minute = 60_000_000_000

abbrev pub stale_lease : ℕ
stale_lease = 30 * minute

abbrev pub max_attempts : ℕ
max_attempts = 5

abbrev pub is_running : RangeStatus → Bool
is_running running = true
is_running _ = false

abbrev pub is_failed : RangeStatus → Bool
is_failed failed = true
is_failed _ = false

abbrev pub is_node : Option String → String → Bool
is_node none n = false
is_node (some m) n = str_eq m n

-- `leased_at < now() - interval`
abbrev pub is_stale : Option ℕ → ℕ → Bool
is_stale none now = false
is_stale (some at) now = ltb (at + stale_lease) now

-- `UPDATE … WHERE` a test of the row.
unfoldable pub update : (Row → Bool) → (Row → Row) → List Row → List Row
update test f [] = []
update test f (r ∷ rs) = (if test r then f r else r) ∷ update test f rs

-- `RowsAffected`
unfoldable pub affected : (Row → Bool) → List Row → ℕ
affected test [] = 0
affected test (r ∷ rs) = (if test r then suc (affected test rs) else affected test rs)

-- The columns of the UNIQUE constraint.
abbrev pub has_bounds : ℕ → ℕ → Row → Bool
has_bounds lower upper r = r.lower == lower && r.upper == upper

-- The condition by which a report reaches the row that was leased, and no other.
abbrev pub holds_lease : CrawlRange → Row → Bool
holds_lease c r =
    r.id == c.id && (r.attempts == c.attempts && (is_node r.node c.node && is_running r.status))
