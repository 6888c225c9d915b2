-- ===== src/Release.antt =====
-- internal/release/release.go: whether a newer release is there, and how it is installed. `atoi` gives
-- the number that `strconv.Atoi` reads, where it reads one that is not negative.
pub mod Install
pub mod Newer
pub mod Installed
mod Examples
use Prim.Native.String.{String, char_at, ◌++◌ as ◌+++◌}
use Prim.Native.Char.{Char, code}
use sauce_dust.Prelude.{
  ℕ, zero, suc, ltb, ◌==◌, ◌&&◌, ◌||◌, if◌then◌else◌, Bool, true, false, Option, none, some, List,
  [], ◌∷◌, length, get_or, max,
}
use sauce_dust.Domain.Texts.{Text, ◌=t=◌, is_empty_text, trim_space, split_on}

unfoldable pub asset_name : Text → Text → Text
asset_name os arch =
    ("saucedust-" +++ (os +++ ("-" +++ arch))) +++ (if os =t= "windows" then ".exe" else "")

-- `strings.TrimPrefix` with `v`.
abbrev pub trim_v : Text → Text
trim_v String.[] = String.[]
trim_v (String.◌∷◌ c s) = if code c == 118 then s else String.◌∷◌ c s

abbrev pub cons_if : Option ℕ → Option (List ℕ) → Option (List ℕ)
cons_if (some n) (some ns) = some (n ∷ ns)
cons_if (some n) none = none
cons_if none ns = none

unfoldable pub numbers : (Text → Option ℕ) → List Text → Option (List ℕ)
numbers atoi [] = some []
numbers atoi (t ∷ ts) = cons_if (atoi t) (numbers atoi ts)

unfoldable pub parse_version : (Text → Option ℕ) → Text → Option (List ℕ)
unfolding split_on numbers
parse_version atoi v =
    let t = trim_v (trim_space v) in
    if is_empty_text t then none else numbers atoi (split_on 46 String.[] t)

-- The loop of `Newer` from the i-th part on; a part that is missing counts as 0.
unfoldable pub newer_from : ℕ → ℕ → List ℕ → List ℕ → Bool
newer_from zero i lv cv = false
newer_from (suc n) i lv cv =
    let rest = newer_from n (suc i) lv cv in
    if get_or lv i 0 == get_or cv i 0 then rest else ltb (get_or cv i 0) (get_or lv i 0)

abbrev pub compare_versions : Option (List ℕ) → Option (List ℕ) → Bool
compare_versions none cv = false
compare_versions (some lv) none = true
compare_versions (some lv) (some cv) = newer_from (max (length lv) (length cv)) 0 lv cv

unfoldable pub newer : (Text → Option ℕ) → Text → Text → Bool
unfolding newer_from parse_version
newer atoi current latest =
    let l = trim_space latest in
    let c = trim_space current in
    if is_empty_text l || l =t= c
    then false
    else compare_versions (parse_version atoi l) (parse_version atoi c)

pub record Asset : Type 0 where
  pub name : Text
  pub url : Text

pub record Release : Type 0 where
  pub tag_name : Text
  pub body : Text
  pub assets : List Asset

pub record Status : Type 0 where
  pub current : Text
  pub latest : Text
  pub available : Bool
  pub asset_url : Text
  pub missing : Bool

unfoldable pub find_asset : Text → List Asset → Text
find_asset want [] = ""
find_asset want (a ∷ rest') =
    let rest = find_asset want rest' in if a.name =t= want then a.url else rest

pub data Checked : Type 0 where
  status : Status → Checked
  unreachable unread no_release unparsed : Checked
  refused : ℕ → Checked

-- The end of `Check`; the notes are left out.
unfoldable pub status_of : (Text → Option ℕ) → Text → Text → Text → Release → Status
unfolding newer find_asset asset_name
status_of atoi current os arch rel =
    let url = find_asset (asset_name os arch) rel.assets in
    let is_newer = newer atoi current rel.tag_name in
    let gone = is_newer && is_empty_text url in
    record {
      current = current;
      latest = rel.tag_name;
      available = if gone then false else is_newer;
      asset_url = url;
      missing = gone;
    }

-- The answer: its code, and its body with what the decoder makes of it.
unfoldable pub check :
    (Text → Option ℕ) → Text → Text → Text → Option (ℕ × Option (Option Release)) → Checked
unfolding status_of
check atoi current os arch none = unreachable
check atoi current os arch (some (code', none)) = unread
check atoi current os arch (some (code', some parsed)) =
    if code' == 404
    then no_release
    else if code' == 200
    then elim parsed [ none ↦ unparsed | some rel ↦ status (status_of atoi current os arch rel) ]
    else refused code'
