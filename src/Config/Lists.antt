-- ===== src/Config/Lists.antt =====
-- internal/config/config.go: the lists that are written in one text. `read` is `strconv.ParseInt`.
use Prim.Native.String.{String}
use sauce_dust.Prelude.{if◌then◌else◌, Option, none, some, List, [], ◌∷◌, ◌++◌}
use sauce_dust.Domain.Texts.{Text, ◌=t=◌, is_empty_text, trim_space, lower, split_on}
use sauce_dust.Domain.Source.{ℤ}
use sauce_dust.Chain.{NetMode, direct, ech, frag, vpn, is_in}
use sauce_dust.Config.{Checked, ok, refused, bad_id, bad_path}

abbrev pub cons_id : Option ℤ → Checked (List ℤ) → Checked (List ℤ)
cons_id none rest = refused bad_id
cons_id (some n) (refused why) = refused why
cons_id (some n) (ok ns) = ok (n ∷ ns)

unfoldable pub read_ids : (Text → Option ℤ) → List Text → Checked (List ℤ)
read_ids read [] = ok []
read_ids read (t ∷ ts) =
    let rest = read_ids read ts in
    if is_empty_text (trim_space t) then rest else cons_id (read (trim_space t)) rest

unfoldable pub parse_ids : (Text → Option ℤ) → Text → Checked (List ℤ)
unfolding read_ids split_on
parse_ids read raw =
    if is_empty_text (trim_space raw) then ok [] else read_ids read (split_on 44 String.[] raw)

-- A path by its name, if it is `Valid`.
unfoldable pub mode_named : Text → Option NetMode
mode_named t =
    if t =t= "direct"
    then some direct
    else if t =t= "ech"
    then some ech
    else if t =t= "frag"
    then some frag
    else if t =t= "vpn"
    then some vpn
    else none

-- `add`; the modes that were seen are those of the list.
unfoldable pub add_mode : NetMode → List NetMode → List NetMode
unfolding is_in
add_mode m out = if is_in m out then out else out ++ (m ∷ [])

unfoldable pub read_order : List Text → List NetMode → Checked (List NetMode)
unfolding mode_named add_mode
read_order [] out = ok out
read_order (p ∷ ps) out =
    let t = lower (trim_space p) in
    let same = read_order ps out in
    let both = read_order ps (add_mode frag (add_mode ech out)) in
    if is_empty_text t
    then same
    else if t =t= "sni"
    then both
    else elim (mode_named t) [ none ↦ refused bad_path | some m ↦ read_order ps (add_mode m out) ]

abbrev pub unless_none : Checked (List NetMode) → Checked (List NetMode)
unless_none (refused why) = refused why
unless_none (ok []) = refused bad_path
unless_none (ok (m ∷ ms)) = ok (m ∷ ms)

unfoldable pub parse_net_order : Text → Checked (List NetMode)
unfolding read_order split_on
parse_net_order raw = unless_none (read_order (split_on 44 String.[] raw) [])
