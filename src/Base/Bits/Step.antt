-- ===== src/Base/Bits/Step.antt =====
-- The native operations recur on binary digits with fuel. Here the fuel is dropped: one equation
-- for each operation, between a word and its half.
use Prim.Native.Nat.{
  ℕ, zero, suc, ◌+◌, ◌*◌, ◌/◌, ◌%◌, ◌≤◌, ◌<◌, min, max, digits, bitwise, differ, bit_and, bit_or,
  bit_xor, bit_and-bitwise, bit_or-bitwise, bit_xor-bitwise,
}
use mathlib.Core.Path.{◌≡◌, refl}
use native.Mathlib.Nat.{le_refl}
use native.Mathlib.Omega.{arith}

module _ (rest : ℕ → ℕ) (join : ℕ → ℕ → ℕ) where
  -- Any two amounts of fuel that cover the first operand give one result.
  digits_any_fuel : (a b n m : ℕ) → a ≤ n → a ≤ m → digits rest join n a b ≡ digits rest join m a b
  digits_any_fuel a b zero zero p q = refl
  digits_any_fuel zero b zero (suc m) p q = refl
  digits_any_fuel zero b (suc n) zero p q = refl
  digits_any_fuel zero b (suc n) (suc m) p q = refl
  digits_any_fuel (suc a) b zero (suc m) p q = absurd (omega arith)
  digits_any_fuel (suc a) b (suc n) zero p q = absurd (omega arith)
  digits_any_fuel (suc a) b (suc n) (suc m) p q =
      rw (digits_any_fuel (suc a / 2) (b / 2) n m (omega arith) (omega arith))

  bitwise_halves :
      (a b : ℕ)
      → bitwise rest join (suc a) b
        ≡ bitwise rest join (suc a / 2) (b / 2) * 2 + join (suc a % 2) (b % 2)
  bitwise_halves a b =
      rw (digits_any_fuel (suc a / 2) (b / 2) a (suc a / 2) (omega arith) (le_refl _))

pub and_step : (a b : ℕ) → bit_and a b ≡ bit_and (a / 2) (b / 2) * 2 + min (a % 2) (b % 2)
and_step zero b = simp bit_and-bitwise (omega arith)
and_step (suc a) b = simp bit_and-bitwise (bitwise_halves (λ y. 0) min a b)

pub or_step : (a b : ℕ) → bit_or a b ≡ bit_or (a / 2) (b / 2) * 2 + max (a % 2) (b % 2)
or_step zero b = simp bit_or-bitwise (omega arith)
or_step (suc a) b = simp bit_or-bitwise (bitwise_halves (λ y. y) max a b)

differ-zero : (x : ℕ) → differ x 0 ≡ x
differ-zero zero = refl
differ-zero (suc x) = refl

differ_digits : (x y : ℕ) → x < 2 → y < 2 → differ x y ≡ (x + y) % 2
differ_digits zero y p q = omega arith
differ_digits (suc x) zero p q = omega arith
differ_digits (suc zero) (suc zero) p q = refl
differ_digits (suc zero) (suc (suc y)) p q = absurd (omega arith)
differ_digits (suc (suc x)) (suc y) p q = absurd (omega arith)

pub xor_step : (a b : ℕ) → bit_xor a b ≡ bit_xor (a / 2) (b / 2) * 2 + (a + b) % 2
xor_step zero b = simp bit_xor-bitwise (omega arith)
xor_step (suc a) b = omega (
  arith,
  bit_xor-bitwise (suc a) b,
  bit_xor-bitwise (suc a / 2) (b / 2),
  bitwise_halves (λ y. y) differ a b,
  differ_digits (suc a % 2) (b % 2) (omega arith) (omega arith),
)
