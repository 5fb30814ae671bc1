-- ===== src/Base/Bits/Digit.antt =====
-- One binary digit of a number, and what the bit operations do to it.
use dbgscope.Base.Bits.Step.{or_step}
use Prim.Native.Nat.{ℕ, zero, suc, ◌+◌, ◌*◌, ◌/◌, ◌%◌, ◌^◌, ◌<◌, max, bit_or}
use mathlib.Core.Path.{◌≡◌, refl, ap, ◌∙◌, sym}
use mathlib.Core.Logic.{◌≢◌}
use native.Mathlib.Nat.{pow-suc, mul_comm, div-div-eq-div-mul}
use native.Mathlib.Numerals.{towards_suc}
use native.Mathlib.Omega.{arith}

-- Digit `k` of `a`, from the lowest.
abbrev pub digit : ℕ → ℕ → ℕ
digit a k = a / 2 ^ k % 2

pub digit-suc : (a k : ℕ) → digit a (suc k) ≡ digit (a / 2) k
digit-suc a k =
    ap (λ (t : ℕ). a / t % 2) (pow-suc 2 k ∙ mul_comm (2 ^ k) 2)
    ∙ ap (λ (t : ℕ). t % 2) (sym (div-div-eq-div-mul a 2 (2 ^ k)))

pub digit-or : (a b k : ℕ) → digit (bit_or a b) k ≡ max (digit a k) (digit b k)
digit-or a b zero = omega (arith, or_step a b)
digit-or a b (suc k) =
    let half : bit_or a b / 2 ≡ bit_or (a / 2) (b / 2) = omega (arith, or_step a b) in
    digit-suc (bit_or a b) k
    ∙ ap (λ t. digit t k) half
    ∙ omega (arith, digit-or (a / 2) (b / 2) k, digit-suc a k, digit-suc b k)

pub digit-pow_self : (k : ℕ) → digit (2 ^ k) k ≡ 1
digit-pow_self zero = refl
digit-pow_self (suc k) =
    let half : 2 ^ suc k / 2 ≡ 2 ^ k = omega (arith, pow-suc 2 k) in
    digit-suc (2 ^ suc k) k ∙ ap (λ t. digit t k) half ∙ digit-pow_self k

digit-zero : (k : ℕ) → digit 0 k ≡ 0
digit-zero zero = refl
digit-zero (suc k) = digit-suc 0 k ∙ digit-zero k

pub digit-pow_ne : (j k : ℕ) → j ≢ k → digit (2 ^ j) k ≡ 0
digit-pow_ne zero zero h = absurd (h refl)
digit-pow_ne zero (suc k) h = digit-suc 1 k ∙ digit-zero k
digit-pow_ne (suc j) zero h = omega (arith, pow-suc 2 j)
digit-pow_ne (suc j) (suc k) h =
    let half : 2 ^ suc j / 2 ≡ 2 ^ j = omega (arith, pow-suc 2 j) in
    digit-suc (2 ^ suc j) k ∙ ap (λ t. digit t k) half ∙ digit-pow_ne j k (λ e. h (ap suc e))

-- Digits past a byte are those of what is above it.
pub digit-byte_low : (b r k : ℕ) → k < 8 → digit (b + 256 * r) k ≡ digit b k
digit-byte_low b r zero h = omega arith
digit-byte_low b r (suc zero) h = omega arith
digit-byte_low b r (suc (suc zero)) h = omega arith
digit-byte_low b r (suc (suc (suc zero))) h = omega arith
digit-byte_low b r (suc (suc (suc (suc zero)))) h = omega arith
digit-byte_low b r (suc (suc (suc (suc (suc zero))))) h = omega arith
digit-byte_low b r (suc (suc (suc (suc (suc (suc zero)))))) h = omega arith
digit-byte_low b r (suc (suc (suc (suc (suc (suc (suc zero))))))) h = omega arith
digit-byte_low b r (suc (suc (suc (suc (suc (suc (suc (suc k)))))))) h = absurd (omega arith)

pub digit-byte_high : (b r k : ℕ) → b < 256 → digit (b + 256 * r) (k + 8) ≡ digit r k
digit-byte_high b r k h =
    let wide : 2 ^ (k + 8) ≡ 256 * 2 ^ k = simp towards_suc (omega arith) in
    let above : (b + 256 * r) / 256 ≡ r = omega arith in
    ap (λ (t : ℕ). (b + 256 * r) / t % 2) wide
    ∙ ap (λ (t : ℕ). t % 2) (sym (div-div-eq-div-mul (b + 256 * r) 256 (2 ^ k)))
    ∙ ap (λ t. digit t k) above
