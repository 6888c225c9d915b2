-- ===== src/Thumbs/Write.antt =====
-- internal/adapter/filestore/filestore.go: `resolve`, `ensureDir`, `Put`, `Get` and `Has`. `clean` and
-- `join` are the functions of path/filepath, `path_of` puts the segments of a relative path together.
use Prim.Native.String.{◌++◌ as ◌+++◌}
use text.Mathlib.Text.{starts_with}
use sauce_dust.Prelude.{
  ℕ, ◌==◌, ltb, ◌||◌, ◌&&◌, not, if◌then◌else◌, Bool, true, false, Option, none, some, List, [],
  ◌∷◌, length, take,
}
use sauce_dust.Domain.Texts.{Text, ◌=t=◌, is_empty_text}
use sauce_dust.Thumbs.{rel_path}
use sauce_dust.Files.{Step, creates, writes, removes, renames}

-- What is given of path/filepath and fmt.
pub record Paths : Type 0 where
  pub clean : Text → Text
  pub join : Text → Text → Text
  pub dir : Text → Text
  pub path_of : List Text → Text
  pub show : ℕ → Text

pub record ThumbStore : Type 0 where
  pub root : Text
  pub known : List Text

unfoldable pub resolve : Paths → Text → Text → Option Text
resolve p root rel =
    let full = p.join root (p.clean ("/" +++ rel)) in
    if is_empty_text rel
    then none
    else if starts_with full (p.clean root +++ "/")
    then some full
    else none

unfoldable pub is_known : Text → List Text → Bool
is_known d [] = false
is_known d (k ∷ ks) = k =t= d || is_known d ks

-- `made` is whether the folder could be made, if it is tried.
unfoldable pub ensure_dir : Bool → Text → ThumbStore → Bool × ThumbStore
unfolding is_known
ensure_dir made d s =
    if is_known d s.known
    then (true, s)
    else if made
    then (true, record s { known = d ∷ s.known })
    else (false, s)

-- What comes of the calls: `written` is the number of bytes after which the write fails, if it does.
pub record Faults : Type 0 where
  pub over : Bool
  pub made : Bool
  pub opened : Bool
  pub written : Option ℕ
  pub closed : Bool
  pub renamed : Bool
  pub removed : Bool

-- The removal after a failure, which may fail itself.
abbrev pub give_up : Faults → List Step
give_up x = if x.removed then removes ∷ [] else []

unfoldable pub write_beside : Faults → List ℕ → List Step × Bool
write_beside x jpeg = elim (x.written) [
  | some n ↦ (creates ∷ writes (take n jpeg) ∷ give_up x, false)
  | none ↦
      if x.closed && x.renamed
      then (creates ∷ writes jpeg ∷ renames ∷ [], true)
      else (creates ∷ writes jpeg ∷ give_up x, false)
]

unfoldable pub write_thumb :
    Paths → Faults → Text → Text → List ℕ → ThumbStore → List Step × (Option Text × ThumbStore)
unfolding ensure_dir write_beside
write_thumb p x rel full jpeg s =
    let there = ensure_dir x.made (p.dir full) s in
    let out = write_beside x jpeg in
    if not (there.0 && x.opened)
    then ([], (none, there.1))
    else (out.0, (if out.1 then some rel else none, there.1))

-- The steps on the thumbnail's file, and the path that is returned.
unfoldable pub put :
    Paths → Faults → Text → ℕ → List ℕ → ThumbStore → List Step × (Option Text × ThumbStore)
unfolding rel_path resolve write_thumb
put p x site post_id jpeg s =
    let rel = p.path_of (rel_path p.show site post_id) in
    if length jpeg == 0 || x.over then ([], (none, s)) else elim (resolve p s.root rel) [
      | none ↦ ([], (none, s))
      | some full ↦ write_thumb p x rel full jpeg s
    ]

-- `read` is what the operating system returns of a file.
unfoldable pub get : Paths → Bool → (Text → Option (List ℕ)) → Text → ThumbStore → Option (List ℕ)
unfolding resolve
get p over read rel s =
    if over then none else elim (resolve p s.root rel) [ none ↦ none | some full ↦ read full ]

unfoldable pub has : Paths → (Text → Option ℕ) → Text → ThumbStore → Bool
unfolding resolve
has p size rel s = elim (resolve p s.root rel) [
  | none ↦ false
  | some full ↦ elim (size full) [ none ↦ false | some n ↦ ltb 0 n ]
]
