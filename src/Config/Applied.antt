-- ===== src/Config/Applied.antt =====
-- internal/config/webfile.go and config.go: what holds of settings after those of the web page were
-- applied.
use Prim.Native.String.{String}
use sauce_dust.Prelude.{
  ◌≡◌, ◌≢◌, refl, sym, ap, subst, inl, inr, ◌∙◌, Bool, true, false, not, ◌&&◌, ◌||◌, Option, List,
  [], ◌∷◌, ◌++◌, arith, Bool-cases, Option-cases, not_both,
}
use sauce_dust.Domain.Texts.{Text, ◌=t=◌, is_empty_text, trim_space, lower, split_on}
use sauce_dust.Domain.Source.{ℤ}
use sauce_dust.Chain.{NetMode, ech, frag, is_in, same_mode}
use sauce_dust.Config.{Config, Refusal, Checked, ok, refused, validate, bad_path, exposed}
use sauce_dust.Config.Lists.{
  mode_named, add_mode, read_order, unless_none, parse_net_order, parse_ids,
}
use sauce_dust.Config.WebFile.{
  WebFile, merged, is_control, exposure_ok, finish, with_lists, apply, tested, file_tests,
}
use sauce_dust.Config.Valid.{IsValid, validate-IsValid, or_ok, negated}
use sauce_dust.Config.Exposed.{check_exposure, exposure_ok-check_exposure}

-- Every path stands once in the list.
abbrev pub NoRepeats : List NetMode → Type 0
NoRepeats [] = Unit {0}
NoRepeats (m ∷ ms) = (is_in m ms ≡ false) × NoRepeats ms

is_in-last :
    (m k : NetMode) (ms : List NetMode)
    → is_in m ms ≡ false
    → same_mode k m ≡ false
    → is_in m (ms ++ (k ∷ [])) ≡ false
unfolding is_in
is_in-last m k [] h e = rw e refl
is_in-last m k (x ∷ ms) h e = elim (Bool-cases (same_mode x m)) [
  | inl same ↦ absurd (not_both (sym (subst (λ b. (b || is_in m ms) ≡ false) same h)))
  | inr other ↦ rw other (is_in-last m k ms (subst (λ b. (b || is_in m ms) ≡ false) other h) e)
]

same_sym : (a b : NetMode) → same_mode a b ≡ false → same_mode b a ≡ false
same_sym a b h = ground arith

ok_list : {a b : List NetMode} → ok a ≡ ok b → a ≡ b
ok_list {a} h = ap (λ o. elim o [ ok x ↦ x | refused why ↦ a ]) h

NoRepeats-last :
    (k : NetMode) (ms : List NetMode)
    → NoRepeats ms
    → is_in k ms ≡ false
    → NoRepeats (ms ++ (k ∷ []))
unfolding is_in
NoRepeats-last k [] v h = (refl, tt)
NoRepeats-last k (m ∷ ms) v h = elim (Bool-cases (same_mode m k)) [
  | inl same ↦ absurd (not_both (sym (subst (λ b. (b || is_in k ms) ≡ false) same h)))
  | inr other ↦ (
    is_in-last m k ms v.0 (same_sym m k other),
    NoRepeats-last k ms v.1 (subst (λ b. (b || is_in k ms) ≡ false) other h),
  )
]

add_mode-NoRepeats : (m : NetMode) (out : List NetMode) → NoRepeats out → NoRepeats (add_mode m out)
unfolding add_mode
add_mode-NoRepeats m out v = elim (Bool-cases (is_in m out)) [
  | inl there ↦ rw there v
  | inr new ↦ rw new (NoRepeats-last m out v new)
]

not_ok {ℓ} : {A : Type ℓ} {why : Refusal} {a : A} → refused why ≡ ok a → ⊥
not_ok h = cc

read_order-NoRepeats :
    (ps : List Text) (out order : List NetMode)
    → NoRepeats out
    → read_order ps out ≡ ok order
    → NoRepeats order
unfolding read_order
read_order-NoRepeats [] out order v h = subst NoRepeats (ok_list h) v
read_order-NoRepeats (p ∷ ps) out order v h =
    elim (Bool-cases (is_empty_text (lower (trim_space p)))) [
      | inl blank ↦ read_order-NoRepeats ps out order v (sym (rw blank refl) ∙ h)
      | inr token ↦ elim (Bool-cases (lower (trim_space p) =t= "sni")) [
        | inl sni ↦
            read_order-NoRepeats ps (add_mode frag (add_mode ech out)) order
              (add_mode-NoRepeats frag (add_mode ech out) (add_mode-NoRepeats ech out v))
              (sym (rw (token, sni) refl) ∙ h)
        | inr one ↦ elim (Option-cases (mode_named (lower (trim_space p)))) [
          | inl unknown' ↦
              absurd (not_ok {why = bad_path} (sym (rw (token, one, unknown') refl) ∙ h))
          | inr (m, is) ↦
              read_order-NoRepeats ps (add_mode m out) order (add_mode-NoRepeats m out v)
                (sym (rw (token, one, is) refl) ∙ h)
        ]
      ]
    ]

some_mode : {m : NetMode} {ms : List NetMode} → m ∷ ms ≡ [] → ⊥
some_mode h = cc

unless_none_ok :
    (out : Checked (List NetMode)) (order : List NetMode)
    → unless_none out ≡ ok order
    → (out ≡ ok order) × (order ≢ [])
unless_none_ok (refused why) order h = absurd (not_ok {why = why} h)
unless_none_ok (ok []) order h = absurd (not_ok {why = bad_path} h)
unless_none_ok (ok (m ∷ ms)) order h = (h, λ e. some_mode (ok_list h ∙ e))

parse_net_order-NoRepeats :
    (raw : Text) (order : List NetMode)
    → parse_net_order raw ≡ ok order
    → NoRepeats order × (order ≢ [])
unfolding parse_net_order
parse_net_order-NoRepeats raw order h =
    let (read, some') = unless_none_ok (read_order (split_on 44 String.[] raw) []) order h in
    (read_order-NoRepeats (split_on 44 String.[] raw) [] order tt read, some')

tested_ok :
    (ts : List (Bool × Refusal)) (rest : Checked Config) (d : Config)
    → tested ts rest ≡ ok d
    → rest ≡ ok d
unfolding tested
tested_ok [] rest d h = h
tested_ok ((test, why) ∷ ts) rest d h = tested_ok ts rest d (or_ok test why (tested ts rest) d h).1

-- The settings of a node that can start with them.
pub record IsAccepted (host : Text → Option Text) (loopback : Text → Bool) (c : Config)
    : Type 0 where
  pub valid : IsValid c
  pub paths_once : NoRepeats c.net_order
  pub some_path : c.net_order ≢ []
  pub starts :
      is_control c.role ≡ true → check_exposure host loopback c.control_bind c.control_token ≡ true

module _ (host : Text → Option Text) (loopback : Text → Bool) where
  abbrev exposed_of : Config → Bool
  exposed_of c = is_control c.role && not (exposure_ok host loopback c.control_bind c.control_token)

  finish_ok :
      (c d : Config) → finish host loopback c ≡ ok d → (exposed_of c ≡ false) × (validate c ≡ ok d)
  unfolding finish
  finish_ok c d h = elim (Bool-cases (exposed_of c)) [
    | inl open' ↦ absurd (not_ok {why = exposed} (sym (rw open' refl) ∙ h))
    | inr shut' ↦ (shut', sym (rw shut' refl) ∙ h)
  ]

  control_starts :
      (c : Config)
      → loopback "" ≡ false
      → exposed_of c ≡ false
      → is_control c.role ≡ true
      → check_exposure host loopback c.control_bind c.control_token ≡ true
  control_starts c none' shut' control' =
      exposure_ok-check_exposure host loopback c.control_bind c.control_token none' (
        negated _ (
          subst (λ b. (b && not (exposure_ok host loopback c.control_bind c.control_token)) ≡ false)
            control' shut'))

  with_lists_ok :
      (f : WebFile) (cfg d : Config) (ids : Checked (List ℤ)) (order : Checked (List NetMode))
      → with_lists host loopback f cfg ids order ≡ ok d
      → (allowed : List ℤ) × (modes : List NetMode) × (order ≡ ok modes)
        × (finish host loopback (merged f allowed modes cfg) ≡ ok d)
  unfolding with_lists
  with_lists_ok f cfg d (refused why) order h = absurd (not_ok {why = why} h)
  with_lists_ok f cfg d (ok allowed) (refused why) h = absurd (not_ok {why = why} h)
  with_lists_ok f cfg d (ok allowed) (ok modes) h = (allowed, modes, refl, h)

-- Settings that the web page was allowed to apply are valid, name at least one path and each path once,
-- and the server of a control node starts with their address and token, where an empty host is no
-- loopback address. The role stays.
pub apply-IsAccepted :
    (host : Text → Option Text) (loopback is_abs : Text → Bool) (read : Text → Option ℤ)
    (f : WebFile) (cfg d : Config)
    → loopback "" ≡ false
    → apply host loopback is_abs read f cfg ≡ ok d
    → IsAccepted host loopback d × (d.role ≡ cfg.role)
unfolding apply
apply-IsAccepted host loopback is_abs read f cfg d none' h =
    let (allowed, modes, parsed, ended) =
      with_lists_ok host loopback f cfg d (parse_ids read f.telegram_allowed)
        (parse_net_order f.net_order) (tested_ok (file_tests host is_abs f) _ d h) in
    let m = merged f allowed modes cfg in
    let (shut', checked) = finish_ok host loopback m d ended in
    let (valid, same) = validate-IsValid m d checked in
    let (once, some') = parse_net_order-NoRepeats f.net_order modes parsed in
    let order : d.net_order ≡ modes = ap (λ (c : Config). c.net_order) same in
    (
      record {
        valid = valid;
        paths_once = subst NoRepeats (sym order) once;
        some_path = subst (λ l. l ≢ []) (sym order) some';
        starts =
            subst
              (λ (c : Config).
                is_control c.role ≡ true
                → check_exposure host loopback c.control_bind c.control_token ≡ true)
              (sym same) (control_starts host loopback m none' shut');
      },
      ap (λ (c : Config). c.role) same,
    )
