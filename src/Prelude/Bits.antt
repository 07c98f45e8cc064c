-- ===== src/Prelude/Bits.antt =====
-- `|` of disjoint bit fields as a sum, at every width.
use Prim.Native.Nat.{
  ℕ, zero, suc, ◌+◌, ◌*◌, ◌/◌, ◌%◌, ◌^◌, ◌≤◌, ◌<◌, max, bit_or, digits, bit_or-bitwise,
}
use mathlib.Core.Path.{◌≡◌, refl, ap}
use native.Mathlib.Omega.{arith}
use native.Mathlib.Nat.{pow-suc}

abbrev or_digits : ℕ → ℕ → ℕ → ℕ
or_digits n a b = digits (λ b. b) max n a b

-- More fuel than the left operand needs changes nothing.
or_digits_fuel : (n m a b : ℕ) → a ≤ n → a ≤ m → or_digits n a b ≡ or_digits m a b
or_digits_fuel zero zero a b p q = refl
or_digits_fuel zero (suc m) zero b p q = refl
or_digits_fuel zero (suc m) (suc a) b p q = absurd (omega arith)
or_digits_fuel (suc n) zero zero b p q = refl
or_digits_fuel (suc n) zero (suc a) b p q = absurd (omega arith)
or_digits_fuel (suc n) (suc m) zero b p q = refl
or_digits_fuel (suc n) (suc m) (suc a) b p q =
    omega (arith, or_digits_fuel n m (suc a / 2) (b / 2) (omega arith) (omega arith))

zero-bit_or : (b : ℕ) → bit_or 0 b ≡ b
zero-bit_or b = bit_or-bitwise 0 b

-- The lowest binary digit of a disjunction.
bit_or_digit : (a b : ℕ) → bit_or a b ≡ bit_or (a / 2) (b / 2) * 2 + max (a % 2) (b % 2)
bit_or_digit zero b = omega (arith, zero-bit_or b, zero-bit_or (b / 2))
bit_or_digit (suc a) b = omega (
  arith,
  bit_or-bitwise (suc a) b,
  bit_or-bitwise (suc a / 2) (b / 2),
  or_digits_fuel a (suc a / 2) (suc a / 2) (b / 2) (omega arith) (omega arith),
)

bit_or-zero_below : (n a : ℕ) → a ≤ n → bit_or a 0 ≡ a
bit_or-zero_below zero zero h = refl
bit_or-zero_below zero (suc a) h = absurd (omega arith)
bit_or-zero_below (suc n) zero h = refl
bit_or-zero_below (suc n) (suc a) h =
    omega (arith, bit_or_digit (suc a) 0, bit_or-zero_below n (suc a / 2) (omega arith))

scale_suc : (q k : ℕ) → q * 2 ^ suc k ≡ 2 * (q * 2 ^ k)
scale_suc q k = omega (arith, ap (λ (t : ℕ). q * t) (pow-suc 2 k))

-- A number shifted by `k` places shares no bit with one below `2 ^ k`.
pub bit_or-shifted : (k q r : ℕ) → r < 2 ^ k → bit_or (q * 2 ^ k) r ≡ q * 2 ^ k + r
bit_or-shifted zero q r h =
    let none_left : r ≡ 0 = omega arith in
    omega (
      arith,
      ap (λ (t : ℕ). bit_or (q * 1) t) none_left,
      bit_or-zero_below (q * 1) (q * 1) (omega arith),
    )
bit_or-shifted (suc k) q r h = omega (
  arith,
  bit_or_digit (q * 2 ^ suc k) r,
  scale_suc q k,
  bit_or-shifted k q (r / 2) (omega (arith, pow-suc 2 k)),
  ap (λ (t : ℕ). bit_or t (r / 2)) (halved q k),
)
  where
    halved : (q k : ℕ) → q * 2 ^ suc k / 2 ≡ q * 2 ^ k
    halved q k = omega (arith, scale_suc q k)
