-- ===== src/Chain.antt =====
-- internal/adapter/netpath/netpath.go: the choice of the path by which a request goes out. What a
-- path answers is given; `ask i m` is what comes of the i-th turn, by the path m.
pub mod Probe
pub mod Reached
pub mod Fastest
pub mod Made
mod Examples
use sauce_dust.Prelude.{
  ℕ, suc, ◌==◌, not, ◌&&◌, ◌||◌, if◌then◌else◌, Bool, true, false, Option, none, some, List, [],
  ◌∷◌,
}
use sauce_dust.Domain.Texts.{Text, ◌=t=◌}

pub data NetMode : Type 0 where
  direct ech frag vpn unknown : NetMode

abbrev pub mode_rank : NetMode → ℕ
mode_rank direct = 0
mode_rank ech = 1
mode_rank frag = 2
mode_rank vpn = 3
mode_rank unknown = 4

abbrev pub same_mode : NetMode → NetMode → Bool
same_mode a b = mode_rank a == mode_rank b

unfoldable pub is_in : NetMode → List NetMode → Bool
is_in m [] = false
is_in m (k ∷ ks) = same_mode k m || is_in m ks

-- `clients` are the keys of the map, `chosen` its entries with the newest first.
pub record Chain : Type 0 where
  pub order : List NetMode
  pub clients : List NetMode
  pub chosen : List (Text × NetMode)
  pub last_mode : NetMode

-- Whether `buildTransport` makes a transport, by whether the address of the proxy is set and is read.
unfoldable pub can_build : Bool → Bool → NetMode → Bool
can_build proxy_set proxy_read direct = true
can_build proxy_set proxy_read frag = true
can_build proxy_set proxy_read ech = true
can_build proxy_set proxy_read vpn = proxy_set && proxy_read
can_build proxy_set proxy_read unknown = false

-- The loop of `New`, which passes over what cannot be built.
unfoldable pub usable : (NetMode → Bool) → List NetMode → List NetMode
usable build [] = []
usable build (m ∷ ms) = let rest = usable build ms in if build m then m ∷ rest else rest

unfoldable pub start_with : List NetMode → Option Chain
start_with [] = none
start_with (m ∷ ms) = some (record { order = m ∷ ms; clients = m ∷ ms; chosen = []; last_mode = m })

unfoldable pub new_chain : Bool → Bool → List NetMode → Option Chain
unfolding start_with
new_chain proxy_set proxy_read order = start_with (usable (can_build proxy_set proxy_read) order)

unfoldable pub chosen_for : Text → List (Text × NetMode) → Option NetMode
chosen_for host [] = none
chosen_for host (e ∷ es) =
    let rest = chosen_for host es in if e.0 =t= host then some (e.1) else rest

abbrev pub first_of : List NetMode → NetMode
first_of [] = unknown
first_of (m ∷ ms) = m

abbrev pub or_else : Option NetMode → NetMode → NetMode
or_else none d = d
or_else (some m) d = m

unfoldable pub mode_for : Text → Chain → NetMode
unfolding chosen_for
mode_for host c = or_else (chosen_for host c.chosen) (first_of c.order)

unfoldable pub remember : Text → NetMode → Chain → Chain
remember host m c = record c { chosen = (host, m) ∷ c.chosen; last_mode = m }

-- `Prime`, on the entries of the map in any order.
unfoldable pub prime : List (Text × NetMode) → Chain → Chain × ℕ
prime [] c = (c, 0)
prime (e ∷ es) c =
    let rest = prime es c in
    if is_in (e.1) c.clients
    then (record rest.0 { chosen = e ∷ (rest.0).chosen }, suc (rest.1))
    else rest

unfoldable pub others : NetMode → List NetMode → List NetMode
others preferred [] = []
others preferred (m ∷ ms) =
    let rest = others preferred ms in if same_mode m preferred then rest else m ∷ rest

unfoldable pub candidates : Text → Chain → List NetMode
unfolding mode_for others
candidates host c = mode_for host c ∷ others (mode_for host c) c.order

module _ {ℓ} (R : Type ℓ) where
  -- What comes of one turn; `failed true` is a failure with the context over.
  pub data Turn : Type ℓ where
    not_copied : Turn
    answered : R → Turn
    failed : Bool → Turn

  pub data DoResult : Type ℓ where
    response : R → DoResult
    copy_error cancelled all_failed : DoResult

module _ {ℓ} {R : Type ℓ} (ask : ℕ → NetMode → Turn R) (host : Text) where
  -- The loop of `Do`: what is recorded of the turns, the outcome, and the chain.
  unfoldable pub do_from : ℕ → List NetMode → Chain → List (NetMode × Bool) × (DoResult R × Chain)
  unfolding remember
  do_from i [] c = ([], (all_failed, c))
  do_from i (m ∷ ms) c =
      let rest = do_from (suc i) ms c in
      if is_in m c.clients
      then elim (ask i m) [
        | not_copied ↦ ([], (copy_error, c))
        | answered r ↦ ((m, true) ∷ [], (response r, remember host m c))
        | failed over ↦ if over then ([], (cancelled, c)) else ((m, false) ∷ rest.0, rest.1)
      ]
      else rest

  unfoldable pub do_request : Chain → List (NetMode × Bool) × (DoResult R × Chain)
  unfolding do_from
  do_request c = do_from 0 (candidates host c) c
