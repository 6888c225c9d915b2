-- ===== src/Thumbs/Replaced.antt =====
-- internal/adapter/filestore/filestore.go: a thumbnail is whole at every moment.
use sauce_dust.Prelude.{
  ℕ, ◌≡◌, refl, sym, subst, inl, inr, ◌||◌, ◌&&◌, Bool, true, false, Option, none, some, List, ◌∷◌,
  Bool-cases, Option-cases, take, length, ◌==◌, if◌then◌else◌,
}
use sauce_dust.Domain.Texts.{Text}
use sauce_dust.Thumbs.{rel_path}
use sauce_dust.Thumbs.Write.{
  Paths, ThumbStore, resolve, ensure_dir, Faults, give_up, write_beside, write_thumb, put,
}
use sauce_dust.Files.{
  creates, writes, IsAtomic, IsSettled, Replacing, idle, given_up, left_over, done,
  Replacing-IsAtomic, Replacing-IsSettled,
}

give_up-Replacing :
    (x : Faults) (new bytes : List ℕ) → Replacing new (creates ∷ writes bytes ∷ give_up x) false
give_up-Replacing x new bytes = elim (Bool-cases x.removed) [
  | inl gone ↦ rw gone given_up
  | inr stays ↦ rw stays left_over
]

write_beside-Replacing :
    (x : Faults) (jpeg : List ℕ) → Replacing jpeg (write_beside x jpeg).0 (write_beside x jpeg).1
unfolding write_beside
write_beside-Replacing x jpeg = elim (Option-cases (x.written)) [
  | inr (n, e) ↦ rw e (give_up-Replacing x jpeg (take n jpeg))
  | inl e ↦ elim (Bool-cases (x.closed && x.renamed)) [
    | inl well ↦ rw (e, well) done
    | inr fails ↦ rw (e, fails) (give_up-Replacing x jpeg jpeg)
  ]
]

abbrev pub is_some : Option Text → Bool
is_some none = false
is_some (some t) = true

some_if : (b : Bool) (t : Text) → is_some (if b then some t else none) ≡ b
some_if true t = refl
some_if false t = refl

module _ (p : Paths) (x : Faults) where
  write_thumb-Replacing :
      (rel full : Text) (jpeg : List ℕ) (s : ThumbStore)
      → Replacing jpeg
          (write_thumb p x rel full jpeg s).0
          (is_some ((write_thumb p x rel full jpeg s).1.0))
  unfolding write_thumb
  write_thumb-Replacing rel full jpeg s =
      elim (Bool-cases ((ensure_dir x.made (p.dir full) s).0 && x.opened)) [
        | inr shut ↦ rw shut idle
        | inl there ↦ rw there (
            subst (Replacing jpeg (write_beside x jpeg).0)
              (sym (some_if (write_beside x jpeg).1 rel)) (write_beside-Replacing x jpeg))
      ]

  put-Replacing :
      (site : Text) (post_id : ℕ) (jpeg : List ℕ) (s : ThumbStore)
      → Replacing jpeg (put p x site post_id jpeg s).0 (is_some ((put p x site post_id jpeg s).1.0))
  unfolding put
  put-Replacing site post_id jpeg s =
      let rel = p.path_of (rel_path p.show site post_id) in
      elim (Bool-cases (length jpeg == 0 || x.over)) [
        | inl early ↦ rw early idle
        | inr on ↦ elim (Option-cases (resolve p s.root rel)) [
          | inl outside ↦ rw (on, outside) idle
          | inr (full, inside) ↦ rw (on, inside) (write_thumb-Replacing rel full jpeg s)
        ]
      ]

-- Whatever fails, and wherever the process is cut off, the file of a thumbnail holds what it held or all
-- of the new picture; in the end it holds the new one exactly if `Put` returns a path.
pub put-IsAtomic :
    (p : Paths) (x : Faults) (site : Text) (post_id : ℕ) (jpeg : List ℕ) (s : ThumbStore)
    → IsAtomic jpeg (put p x site post_id jpeg s).0
      × IsSettled jpeg (put p x site post_id jpeg s).0 (is_some ((put p x site post_id jpeg s).1.0))
put-IsAtomic p x site post_id jpeg s =
    let steps = put-Replacing p x site post_id jpeg s in
    (Replacing-IsAtomic steps, Replacing-IsSettled steps)
