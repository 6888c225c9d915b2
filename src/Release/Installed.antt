-- ===== src/Release/Installed.antt =====
-- internal/release/release.go: what the program file holds after an installation.
use sauce_dust.Prelude.{
  not_both, and_true, ℕ, suc, ◌≡◌, ◌≤◌, refl, sym, subst, inl, inr, ◌&&◌, Bool, true, false, not,
  Option, none, some, List, [], ◌∷◌, Bool-cases, take, length, ltb, arith, take_all, length-take,
}
use sauce_dust.Domain.Texts.{Text}
use sauce_dust.Release.Install.{
  max_binary, looks_executable, Download, give_up, keep_download, received, is_uncut, is_ok,
  save_download, is_release_url, install,
}
use sauce_dust.Files.{
  Step, creates, writes, renames, IsAtomic, IsSettled, Replacing, idle, given_up, left_over, done,
  Replacing-IsAtomic, Replacing-IsSettled,
}

-- A program that may be installed.
pub record IsProgram (bytes : List ℕ) : Type 0 where
  pub long : 4 ≤ length bytes
  pub short : length bytes ≤ max_binary
  pub head : looks_executable (take 4 bytes) ≡ true

give_up-Replacing :
    (d : Download) (new bytes : List ℕ) → Replacing new (creates ∷ writes bytes ∷ give_up d) false
give_up-Replacing d new bytes = elim (Bool-cases d.removed) [
  | inl gone ↦ rw gone given_up
  | inr stays ↦ rw stays left_over
]

-- What is known of the steps and their end.
abbrev IsSaved : List ℕ → List Step × Bool → Type 0
IsSaved body out = Replacing body out.0 out.1 × (out.1 ≡ true → IsProgram body)

within : (n : ℕ) → (not (ltb n 4) && not (ltb max_binary n)) ≡ true → (4 ≤ n) × (n ≤ max_binary)
within n h = ground arith

passes : Download → List ℕ → Bool → Bool
passes d bytes whole =
    whole
    && ((not (ltb (length bytes) 4) && not (ltb max_binary (length bytes)))
        && (d.reopened && (looks_executable (take 4 bytes) && (d.chmod_ok && d.renamed))))

passed-IsProgram :
    (d : Download) (bytes : List ℕ) (whole : Bool)
    → passes d bytes whole ≡ true
    → (whole ≡ true) × IsProgram bytes
unfolding passes
passed-IsProgram d bytes whole h =
    let (all, rest) = and_true whole _ h in
    let (fits, more) =
      and_true (not (ltb (length bytes) 4) && not (ltb max_binary (length bytes))) _ rest in
    let (low, high) = within (length bytes) fits in
    let runs = (and_true (looks_executable (take 4 bytes)) _ (and_true d.reopened _ more).1).0 in
    (all, record { long = low; short = high; head = runs })

keep_download-IsSaved :
    (d : Download) (body bytes : List ℕ) (whole : Bool)
    → (whole ≡ true → length bytes ≤ max_binary → bytes ≡ body)
    → IsSaved body (keep_download d bytes whole)
unfolding keep_download passes
keep_download-IsSaved d body bytes whole same = elim (Bool-cases (passes d bytes whole)) [
  | inl well ↦
      let (all, program) = passed-IsProgram d bytes whole well in
      let is = same all program.short in
      rw well (
        subst (λ b. Replacing body (creates ∷ writes b ∷ renames ∷ []) true) (sym is) done,
        λ made. subst IsProgram is program,
      )
  | inr fails ↦ rw fails (give_up-Replacing d body bytes, λ made. absurd (not_both made))
]

received_whole :
    (cut : Option ℕ) (body : List ℕ) (closed : Bool)
    → (is_uncut cut && closed) ≡ true
    → length (received cut body) ≤ max_binary
    → received cut body ≡ body
received_whole none body closed all fits =
    take_all (suc max_binary) body (omega (arith, length-take (suc max_binary) body, fits))
received_whole (some n) body closed all fits = absurd (not_both all)

save_download-IsSaved : (d : Download) → IsSaved d.body (save_download d)
unfolding save_download
save_download-IsSaved d = elim (Bool-cases (is_ok d.answer && d.opened)) [
  | inl open' ↦ rw open' (
      keep_download-IsSaved d d.body (received d.cut d.body) (is_uncut d.cut && d.closed)
        (received_whole d.cut d.body d.closed))
  | inr shut ↦ rw shut (idle, λ made. absurd (not_both made))
]

install-IsSaved :
    (url : Text) (d : Download)
    → Replacing d.body (install url d).0 (install url d).1
      × ((install url d).1 ≡ true → IsProgram d.body)
      × ((install url d).1 ≡ true → is_release_url url ≡ true)
unfolding install
install-IsSaved url d = elim (Bool-cases (is_release_url url)) [
  | inl ours ↦
      let (steps, program) = save_download-IsSaved d in rw ours (steps, program, λ made. refl)
  | inr other ↦ rw other (idle, (λ made. absurd (not_both made)), λ made. absurd (not_both made))
]

-- However the download ends, and wherever the process is cut off, the program file holds what it held or
-- the whole of the body; in the end it holds the body exactly if `Install` reports no error, and then the
-- body has 4 to 64 Mi bytes, begins like a program, and came from one of the three addresses.
pub install-IsAtomic :
    (url : Text) (d : Download)
    → IsAtomic d.body (install url d).0
      × IsSettled d.body (install url d).0 (install url d).1
      × ((install url d).1 ≡ true → IsProgram d.body × (is_release_url url ≡ true))
install-IsAtomic url d =
    let (steps, program, from) = install-IsSaved url d in
    (Replacing-IsAtomic steps, Replacing-IsSettled steps, λ made. (program made, from made))
