-- ===== src/Retry/Rows.antt =====
-- internal/adapter/postgres/lease.go: the rows of one id in the table of retries, and the statements
-- that pass them by.
use sauce_dust.Prelude.{
  ℕ, zero, suc, ◌+◌, ◌≡◌, refl, Bool, true, false, List, [], ◌∷◌, ◌++◌, map, arith, ◌==◌,
  if◌then◌else◌, take, Bool-cases, inl, inr, subst, ap,
}
use sauce_dust.Retry.{
  RetryRow, PostRetry, update_retries, select, insert_ready, order_ready, is_among, leased_item,
}

abbrev pub has_id : ℕ → RetryRow → Bool
has_id id r = r.id == id

-- How often a row was handed out.
unfoldable pub leases_of : ℕ → List PostRetry → ℕ
leases_of id [] = 0
leases_of id (i ∷ is) = (if i.id == id then suc (leases_of id is) else leases_of id is)

pub leases_of-append :
    (id : ℕ) (is js : List PostRetry) → leases_of id (is ++ js) ≡ leases_of id is + leases_of id js
unfolding leases_of
leases_of-append id [] js = omega arith
leases_of-append id (i ∷ is) js = ground (arith, leases_of-append id is js)

-- No row of a list passes the test.
abbrev pub AllOff : (RetryRow → Bool) → List RetryRow → Type 0
AllOff test [] = Unit {0}
AllOff test (r ∷ rs) = (test r ≡ false) × AllOff test rs

module _ (id : ℕ) where
  off_mine :
      (test : RetryRow → Bool) (r : RetryRow) (rs : List RetryRow)
      → has_id id r ≡ true
      → AllOff test (select (has_id id) (r ∷ rs))
      → AllOff test (r ∷ select (has_id id) rs)
  unfolding select
  off_mine test r rs mine off =
      subst (λ b. AllOff test (if b then r ∷ select (has_id id) rs else select (has_id id) rs)) mine
        off

  off_other :
      (test : RetryRow → Bool) (r : RetryRow) (rs : List RetryRow)
      → has_id id r ≡ false
      → AllOff test (select (has_id id) (r ∷ rs))
      → AllOff test (select (has_id id) rs)
  unfolding select
  off_other test r rs other off =
      subst (λ b. AllOff test (if b then r ∷ select (has_id id) rs else select (has_id id) rs))
        other off

  -- An UPDATE that keeps the ids and passes by the rows of an id leaves them.
  pub update-keeps :
      (test : RetryRow → Bool) (f : RetryRow → RetryRow) (rs : List RetryRow)
      → ((r : RetryRow) → has_id id (f r) ≡ has_id id r)
      → AllOff test (select (has_id id) rs)
      → select (has_id id) (update_retries test f rs) ≡ select (has_id id) rs
  unfolding select update_retries
  update-keeps test f [] same off = refl
  update-keeps test f (r ∷ rs) same off = elim (Bool-cases (has_id id r)) [
    | inl mine ↦
        let off' = off_mine test r rs mine off in
        rw (off'.0, mine) (ap (λ xs. r ∷ xs) (update-keeps test f rs same off'.1))
    | inr other ↦
        let off' = off_other test r rs other off in
        let later = update-keeps test f rs same off' in
        elim (Bool-cases (test r)) [
          | inl hit ↦ rw (hit, same r, other) later
          | inr miss ↦ rw (miss, other) later
        ]
  ]

  insert-among :
      (r : RetryRow) (rs : List RetryRow)
      → has_id id r ≡ false
      → is_among rs id ≡ false
      → is_among (insert_ready r rs) id ≡ false
  unfolding insert_ready is_among
  insert-among r [] other none = rw other refl
  insert-among r (x ∷ xs) other none = elim (Bool-cases (has_id id x)) [
    | inl mine ↦ absurd (cc (mine, none))
    | inr far ↦ let left = insert-among r xs other in ground (arith, left)
  ]

  pub order-among :
      (rs : List RetryRow) → is_among rs id ≡ false → is_among (order_ready rs) id ≡ false
  unfolding order_ready is_among
  order-among [] none = refl
  order-among (r ∷ rs) none = elim (Bool-cases (has_id id r)) [
    | inl mine ↦ ground (arith)
    | inr other ↦ insert-among r (order_ready rs) other (order-among rs (ground arith))
  ]

  pub take-among :
      (n : ℕ) (rs : List RetryRow) → is_among rs id ≡ false → is_among (take n rs) id ≡ false
  unfolding is_among
  take-among zero rs none = refl
  take-among (suc n) [] none = refl
  take-among (suc n) (r ∷ rs) none = elim (Bool-cases (has_id id r)) [
    | inl mine ↦ ground arith
    | inr other ↦ rw other (take-among n rs (ground arith))
  ]

  pub filter-among :
      (test : RetryRow → Bool) (rs : List RetryRow)
      → AllOff test (select (has_id id) rs)
      → is_among (select test rs) id ≡ false
  unfolding select is_among
  filter-among test [] off = refl
  filter-among test (r ∷ rs) off = elim (Bool-cases (has_id id r)) [
    | inl mine ↦ let off' = off_mine test r rs mine off in rw off'.0 (filter-among test rs off'.1)
    | inr other ↦
        let off' = off_other test r rs other off in
        let later = filter-among test rs off' in
        elim (Bool-cases (test r)) [ inl hit ↦ rw (hit, other) later | inr miss ↦ rw miss later ]
  ]

  pub leases_of-among :
      (rs : List RetryRow) → is_among rs id ≡ false → leases_of id (map leased_item rs) ≡ 0
  unfolding leases_of is_among
  leases_of-among [] none = refl
  leases_of-among (r ∷ rs) none = elim (Bool-cases (has_id id r)) [
    | inl mine ↦ ground arith
    | inr other ↦ rw other (leases_of-among rs (ground arith))
  ]
