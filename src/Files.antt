-- ===== src/Files.antt =====
-- The two files of a replacement as internal/adapter/filestore/filestore.go, internal/release/release.go
-- and internal/config/webfile.go make it: the new content goes to a file beside the target, which is then
-- renamed. A step is a call of the operating system that took effect.
use sauce_dust.Prelude.{
  ℕ, zero, suc, ◌≡◌, refl, ◌⊎◌, inl, inr, Option, none, some, Bool, true, false, if◌then◌else◌,
  List, [], ◌∷◌, take,
}

pub record Files : Type 0 where
  pub target : Option (List ℕ)
  pub beside : Option (List ℕ)

pub data Step : Type 0 where
  creates removes renames : Step
  writes : List ℕ → Step

unfoldable pub after : Step → Files → Files
after creates f = record f { beside = some [] }
after (writes bytes) f = record f { beside = some bytes }
after removes f = record f { beside = none }
after renames f = record { target = f.beside; beside = none }

unfoldable pub after_all : List Step → Files → Files
unfolding after
after_all [] f = f
after_all (s ∷ ss) f = after_all ss (after s f)

-- The content is the one that was there, or the new one.
abbrev pub IsWhole : Option (List ℕ) → List ℕ → Option (List ℕ) → Type 0
IsWhole old new t = (t ≡ old) ⊎ (t ≡ some new)

-- Wherever the steps are cut off, the target is whole.
abbrev pub IsAtomic : List ℕ → List Step → Type 0
IsAtomic new steps =
    (f : Files) (n : ℕ) → IsWhole f.target new ((after_all (take n steps) f).target)

-- The steps of a replacement up to its end, or up to where it was given up, and whether it was made.
pub data Replacing (new : List ℕ) : List Step → Bool → Type 0 where
  idle : Replacing new [] false
  given_up : {bytes : List ℕ} → Replacing new (creates ∷ writes bytes ∷ removes ∷ []) false
  left_over : {bytes : List ℕ} → Replacing new (creates ∷ writes bytes ∷ []) false
  done : Replacing new (creates ∷ writes new ∷ renames ∷ []) true

pub Replacing-IsAtomic :
    {new : List ℕ} {steps : List Step} {made : Bool} → Replacing new steps made → IsAtomic new steps
unfolding after_all after
Replacing-IsAtomic idle f zero = inl refl
Replacing-IsAtomic idle f (suc n) = inl refl
Replacing-IsAtomic given_up f zero = inl refl
Replacing-IsAtomic given_up f (suc zero) = inl refl
Replacing-IsAtomic given_up f (suc (suc zero)) = inl refl
Replacing-IsAtomic given_up f (suc (suc (suc zero))) = inl refl
Replacing-IsAtomic given_up f (suc (suc (suc (suc n)))) = inl refl
Replacing-IsAtomic left_over f zero = inl refl
Replacing-IsAtomic left_over f (suc zero) = inl refl
Replacing-IsAtomic left_over f (suc (suc zero)) = inl refl
Replacing-IsAtomic left_over f (suc (suc (suc n))) = inl refl
Replacing-IsAtomic done f zero = inl refl
Replacing-IsAtomic done f (suc zero) = inl refl
Replacing-IsAtomic done f (suc (suc zero)) = inl refl
Replacing-IsAtomic done f (suc (suc (suc zero))) = inr refl
Replacing-IsAtomic done f (suc (suc (suc (suc n)))) = inr refl

-- What the target is in the end.
abbrev pub IsSettled : List ℕ → List Step → Bool → Type 0
IsSettled new steps made =
    (f : Files) → (after_all steps f).target ≡ (if made then some new else f.target)

pub Replacing-IsSettled :
    {new : List ℕ} {steps : List Step} {made : Bool}
    → Replacing new steps made
    → IsSettled new steps made
unfolding after_all after
Replacing-IsSettled idle f = refl
Replacing-IsSettled given_up f = refl
Replacing-IsSettled left_over f = refl
Replacing-IsSettled done f = refl
