-- ===== src/Config/Exposed.antt =====
-- internal/adapter/httpapi/server.go: the test of the address before the server starts.
use Prim.Native.String.{String, len}
use Prim.Native.String.len as len_laws
use sauce_dust.Prelude.{
  ◌≡◌, refl, sym, subst, ltb, not, ◌||◌, if◌then◌else◌, Bool, true, false, Option, none, some,
  Bool-cases, Option-cases, inl, inr, not_both, ◌∙◌,
}
use sauce_dust.Domain.Texts.{Text, ◌=t=◌, is_empty_text}
use sauce_dust.Config.WebFile.{exposure_ok}

module _ (host : Text → Option Text) (loopback : Text → Bool) where
  abbrev pub local_host : Text → Bool
  local_host h = if is_empty_text h then false else if h =t= "localhost" then true else loopback h

  unfoldable pub bind_is_loopback : Text → Bool
  bind_is_loopback bind = elim (host bind) [ none ↦ false | some h ↦ local_host h ]

  unfoldable pub check_exposure : Text → Text → Bool
  unfolding bind_is_loopback
  check_exposure bind token =
      if bind_is_loopback bind
      then true
      else if is_empty_text token
      then false
      else not (ltb (len token) 16)

  long_some : (token : Text) → not (ltb (len token) 16) ≡ true → is_empty_text token ≡ false
  unfolding is_empty_text
  long_some String.[] h = absurd (not_both (subst (λ n. not (ltb n 16) ≡ true) len_laws.nil h))
  long_some (String.◌∷◌ c s) h = refl

  long_passes :
      (here : Bool) (token : Text)
      → not (ltb (len token) 16) ≡ true
      → (if here then true else if is_empty_text token then false else not (ltb (len token) 16))
        ≡ true
  long_passes true token h = refl
  long_passes false token h = rw (long_some token h) h

  loopback_local : (h : Text) → loopback "" ≡ false → loopback h ≡ true → local_host h ≡ true
  unfolding is_empty_text
  loopback_local String.[] none' here = absurd (not_both (sym none' ∙ here))
  loopback_local (String.◌∷◌ c s) none' here = elim (Bool-cases (String.◌∷◌ c s =t= "localhost")) [
    | inl named ↦ rw named refl
    | inr other ↦ rw other here
  ]

  host_passes :
      (h token : Text)
      → loopback "" ≡ false
      → (loopback h || not (ltb (len token) 16)) ≡ true
      → (if local_host h
          then true
          else if is_empty_text token
          then false
          else not (ltb (len token) 16))
        ≡ true
  host_passes h token none' ok' = elim (Bool-cases (loopback h)) [
    | inl here ↦ rw (loopback_local h none' here) refl
    | inr far ↦
        long_passes (local_host h) token
          (subst (λ b. (b || not (ltb (len token) 16)) ≡ true) far ok')
  ]

  -- Where an empty host is no loopback address, the server starts with every address and token that the
  -- settings may have.
  pub exposure_ok-check_exposure :
      (bind token : Text)
      → loopback "" ≡ false
      → exposure_ok host loopback bind token ≡ true
      → check_exposure bind token ≡ true
  unfolding exposure_ok check_exposure bind_is_loopback
  exposure_ok-check_exposure bind token none' h = elim (Option-cases (host bind)) [
    | inl missing ↦ absurd (
        not_both (
          subst
            (λ o. elim o [ none ↦ false | some x ↦ loopback x || not (ltb (len token) 16) ] ≡ true)
            missing h))
    | inr (x, is) ↦
        subst
          (λ o.
            (if elim o [ none ↦ false | some y ↦ local_host y ]
              then true
              else if is_empty_text token
              then false
              else not (ltb (len token) 16))
            ≡ true)
          (sym is)
          (host_passes x token none' (
            subst
              (λ o.
                elim o [ none ↦ false | some y ↦ loopback y || not (ltb (len token) 16) ] ≡ true)
              is h))
  ]
