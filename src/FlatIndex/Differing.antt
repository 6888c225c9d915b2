-- ===== src/FlatIndex/Differing.antt =====
-- internal/adapter/flatindex/scan.go: the digits of an exclusive or, and of numbers put together
-- from bytes.
use Prim.Native.Nat.{bit_xor, bit_xor-bitwise, digits, differ}
use sauce_dust.Prelude.{ℕ, zero, suc, ◌+◌, ◌*◌, ◌/◌, ◌%◌, ◌≤◌, ◌<◌, ◌≡◌, refl, List, [], ◌∷◌, arith}
use sauce_dust.FlatIndex.Codes.{ones_count}

-- The digits that differ among the lowest `w`, by definition.
unfoldable pub differing : ℕ → ℕ → ℕ → ℕ
differing zero a b = 0
differing (suc w) a b = differ (a % 2) (b % 2) + differing w (a / 2) (b / 2)

unfoldable pub bits_apart : List ℕ → List ℕ → ℕ
bits_apart [] b = 0
bits_apart (x ∷ a) [] = 0
bits_apart (x ∷ a) (y ∷ b) = differing 8 x y + bits_apart a b

abbrev xor_digits : ℕ → ℕ → ℕ → ℕ
xor_digits n a b = digits (λ b. b) differ n a b

xor_digits_fuel : (n m a b : ℕ) → a ≤ n → a ≤ m → xor_digits n a b ≡ xor_digits m a b
xor_digits_fuel zero zero a b p q = refl
xor_digits_fuel zero (suc m) zero b p q = refl
xor_digits_fuel zero (suc m) (suc a) b p q = absurd (omega arith)
xor_digits_fuel (suc n) zero zero b p q = refl
xor_digits_fuel (suc n) zero (suc a) b p q = absurd (omega arith)
xor_digits_fuel (suc n) (suc m) zero b p q = refl
xor_digits_fuel (suc n) (suc m) (suc a) b p q =
    omega (arith, xor_digits_fuel n m (suc a / 2) (b / 2) (omega arith) (omega arith))

zero-bit_xor : (b : ℕ) → bit_xor 0 b ≡ b
zero-bit_xor b = bit_xor-bitwise 0 b

bit_xor_step : (a b : ℕ) → bit_xor a b ≡ bit_xor (a / 2) (b / 2) * 2 + differ (a % 2) (b % 2)
bit_xor_step zero b = omega (arith, zero-bit_xor b, zero-bit_xor (b / 2))
bit_xor_step (suc a) b = omega (
  arith,
  bit_xor-bitwise (suc a) b,
  bit_xor-bitwise (suc a / 2) (b / 2),
  xor_digits_fuel a (suc a / 2) (suc a / 2) (b / 2) (omega arith) (omega arith),
)

pub differ_bit : (x y : ℕ) → x < 2 → y < 2 → differ x y < 2
differ_bit zero y hx hy = omega arith
differ_bit (suc zero) zero hx hy = omega arith
differ_bit (suc zero) (suc y) hx hy = omega arith
differ_bit (suc (suc x)) y hx hy = absurd (omega arith)

pub ones_count-bit_xor : (w a b : ℕ) → ones_count w (bit_xor a b) ≡ differing w a b
unfolding ones_count differing
ones_count-bit_xor zero a b = refl
ones_count-bit_xor (suc w) a b =
    let bit = differ_bit (a % 2) (b % 2) (omega arith) (omega arith) in
    let low : bit_xor a b % 2 ≡ differ (a % 2) (b % 2) = omega (arith, bit, bit_xor_step a b) in
    let high : bit_xor a b / 2 ≡ bit_xor (a / 2) (b / 2) = omega (arith, bit, bit_xor_step a b) in
    rw (low) (rw high (rw (ones_count-bit_xor w (a / 2) (b / 2)) refl))

-- `n` doublings.
unfoldable pub shift : ℕ → ℕ → ℕ
shift zero a = a
shift (suc n) a = shift n a * 2

pub differing_split :
    (n k w a b x y : ℕ)
    → k ≡ n + w
    → a < shift n 1
    → b < shift n 1
    → differing k (a + shift n x) (b + shift n y) ≡ differing n a b + differing w x y
unfolding shift differing
differing_split zero k w a b x y e ha hb = ground arith
differing_split (suc n) zero w a b x y e ha hb = absurd (omega arith)
differing_split (suc n) (suc k) w a b x y e ha hb =
    let a' : (a + shift n x * 2) / 2 ≡ a / 2 + shift n x = omega arith in
    let b' : (b + shift n y * 2) / 2 ≡ b / 2 + shift n y = omega arith in
    let a'' : (a + shift n x * 2) % 2 ≡ a % 2 = omega arith in
    let b'' : (b + shift n y * 2) % 2 ≡ b % 2 = omega arith in
    rw a' (
      rw b' (
        rw a'' (
          rw b'' (
            omega (
              arith,
              differing_split n k w (a / 2) (b / 2) x y (omega arith) (omega arith) (omega arith),
            )))))
