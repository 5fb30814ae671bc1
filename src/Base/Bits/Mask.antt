-- ===== src/Base/Bits/Mask.antt =====
-- Masks: `&` with a run of low ones is a remainder, and `&` may be taken in any order.
use dbgscope.Base.Bits.Step.{and_step, or_step}
use Prim.Native.Nat.{
  ℕ, zero, suc, ◌+◌, ◌-◌, ◌*◌, ◌/◌, ◌%◌, ◌^◌, ◌≤◌, ◌<◌, min, bit_and, bit_or, bit_and-bitwise,
  bit_or-bitwise,
}
use mathlib.Core.Path.{◌≡◌, sym, ap, ◌∙◌}
use native.Mathlib.Nat.{
  pow-suc, one-le-pow, div-add-mod, mod-lt, mod-eq_of_lt, mul-add-mod_self_left, mul-one, div-one,
  mul_comm, div-div-eq-div-mul,
}
use native.Mathlib.Omega.{arith}

and_comm_below : (n a b : ℕ) → a + b ≤ n → bit_and a b ≡ bit_and b a
and_comm_below zero a b h =
    let ha : a ≡ 0 = omega arith in let hb : b ≡ 0 = omega arith in rw (ha, hb)
and_comm_below (suc n) a b h =
    omega (arith, and_step a b, and_step b a, and_comm_below n (a / 2) (b / 2) (omega arith))

pub and_comm : (a b : ℕ) → bit_and a b ≡ bit_and b a
and_comm a b = and_comm_below (a + b) a b (omega arith)

half-and : (a b : ℕ) → bit_and a b / 2 ≡ bit_and (a / 2) (b / 2)
half-and a b = omega (arith, and_step a b)

and_left_step :
    (a b c : ℕ)
    → bit_and (bit_and a b) c
      ≡ bit_and (bit_and (a / 2) (b / 2)) (c / 2) * 2 + min (min (a % 2) (b % 2)) (c % 2)
and_left_step a b c = omega (
  arith,
  and_step (bit_and a b) c,
  ap (λ (t : ℕ). bit_and t (c / 2)) (half-and a b),
  and_step a b,
)

and_assoc_below : (n a b c : ℕ) → a + b + c ≤ n → bit_and (bit_and a b) c ≡ bit_and a (bit_and b c)
and_assoc_below zero a b c h =
    let ha : a ≡ 0 = omega arith in
    let hb : b ≡ 0 = omega arith in let hc : c ≡ 0 = omega arith in rw (ha, hb, hc)
and_assoc_below (suc n) a b c h = omega (
  arith,
  and_left_step a b c,
  and_left_step b c a,
  and_comm (bit_and b c) a,
  and_comm (bit_and (b / 2) (c / 2)) (a / 2),
  and_assoc_below n (a / 2) (b / 2) (c / 2) (omega arith),
)

pub and_assoc : (a b c : ℕ) → bit_and (bit_and a b) c ≡ bit_and a (bit_and b c)
and_assoc a b c = and_assoc_below (a + b + c) a b c (omega arith)

-- A word read under two masks, in either order.
pub and_swap : (w m k : ℕ) → bit_and (bit_and w m) k ≡ bit_and (bit_and w k) m
and_swap w m k = and_assoc w m k ∙ ap (bit_and w) (and_comm m k) ∙ sym (and_assoc w k m)

zero-and : (a : ℕ) → bit_and 0 a ≡ 0
zero-and a = bit_and-bitwise 0 a

pub and-zero : (a : ℕ) → bit_and a 0 ≡ 0
and-zero a = and_comm a 0 ∙ zero-and a

mod_double : (m w : ℕ) → 0 < m → w % (2 * m) ≡ w / 2 % m * 2 + w % 2
mod_double m w h =
    let low = w / 2 % m * 2 + w % 2 in
    let split : w ≡ 2 * m * (w / 2 / m) + low = omega (arith, div-add-mod (w / 2) m) in
    let fits : low < 2 * m = omega (arith, mod-lt (w / 2) h) in
    ap (λ (t : ℕ). t % (2 * m)) split
    ∙ mul-add-mod_self_left (2 * m) (w / 2 / m) low
    ∙ mod-eq_of_lt fits

-- `w & (2^k - 1)` is `w % 2^k`.
pub and_low_mask : (k w : ℕ) → bit_and w (2 ^ k - 1) ≡ w % 2 ^ k
and_low_mask zero w = and-zero w ∙ omega arith
and_low_mask (suc k) w =
    let half : (2 ^ suc k - 1) / 2 ≡ 2 ^ k - 1 = omega (arith, pow-suc 2 k) in
    omega (
      arith,
      pow-suc 2 k,
      one-le-pow k 2,
      and_step w (2 ^ suc k - 1),
      ap (bit_and (w / 2)) half,
      ap (λ (t : ℕ). w % t) (pow-suc 2 k ∙ mul_comm (2 ^ k) 2),
      mod_double (2 ^ k) w (one-le-pow k 2 (omega arith)),
      and_low_mask k (w / 2),
    )

-- `w & (m << k)` is `(w >> k & m) << k`.
pub and_shifted : (k w m : ℕ) → bit_and w (m * 2 ^ k) ≡ bit_and (w / 2 ^ k) m * 2 ^ k
and_shifted zero w m = simp (mul-one, div-one)
and_shifted (suc k) w m =
    let twice : 2 ^ suc k ≡ 2 * 2 ^ k = pow-suc 2 k ∙ mul_comm (2 ^ k) 2 in
    let double : m * 2 ^ suc k ≡ 2 * (m * 2 ^ k) = omega (arith, ap (λ (t : ℕ). m * t) twice) in
    let half : m * 2 ^ suc k / 2 ≡ m * 2 ^ k = omega arith in
    let quotient : w / 2 ^ suc k ≡ w / 2 / 2 ^ k =
      ap (λ (t : ℕ). w / t) twice ∙ sym (div-div-eq-div-mul w 2 (2 ^ k)) in
    let field = bit_and (w / 2 / 2 ^ k) m in
    rw quotient (
      omega (
        arith,
        and_step w (m * 2 ^ suc k),
        ap (bit_and (w / 2)) half,
        ap (λ (t : ℕ). field * t) twice,
        and_shifted k (w / 2) m,
      ))

-- A field of `n` bits from bit `k`, masked in place.
pub and_field : (n k w : ℕ) → bit_and w ((2 ^ n - 1) * 2 ^ k) ≡ w / 2 ^ k % 2 ^ n * 2 ^ k
and_field n k w =
    and_shifted k w (2 ^ n - 1) ∙ ap (λ (t : ℕ). t * 2 ^ k) (and_low_mask n (w / 2 ^ k))

pub and-le : (a b : ℕ) → bit_and a b ≤ a
and-le a b = and_le_below a a b (omega arith)
  where
    and_le_below : (n a b : ℕ) → a ≤ n → bit_and a b ≤ a
    and_le_below zero a b h = let ha : a ≡ 0 = omega arith in rw ha (omega (arith, zero-and b))
    and_le_below (suc n) a b h =
        omega (arith, and_step a b, and_le_below n (a / 2) (b / 2) (omega arith))

pub zero-or : (a : ℕ) → bit_or 0 a ≡ a
zero-or a = bit_or-bitwise 0 a

pub or-zero : (a : ℕ) → bit_or a 0 ≡ a
or-zero a = or_zero_below a a (omega arith)
  where
    or_zero_below : (n a : ℕ) → a ≤ n → bit_or a 0 ≡ a
    or_zero_below zero a h = let ha : a ≡ 0 = omega arith in rw ha
    or_zero_below (suc n) a h = omega (arith, or_step a 0, or_zero_below n (a / 2) (omega arith))

-- `low | high << k` is a sum where `low` fits `k` bits.
pub or_shifted : (k low high : ℕ) → low < 2 ^ k → bit_or low (high * 2 ^ k) ≡ low + high * 2 ^ k
or_shifted zero low high h =
    let hl : low ≡ 0 = omega arith in rw hl (zero-or (high * 2 ^ 0) ∙ omega arith)
or_shifted (suc k) low high h =
    let twice : 2 ^ suc k ≡ 2 * 2 ^ k = pow-suc 2 k ∙ mul_comm (2 ^ k) 2 in
    let double : high * 2 ^ suc k ≡ 2 * (high * 2 ^ k) =
      omega (arith, ap (λ (t : ℕ). high * t) twice) in
    let half : high * 2 ^ suc k / 2 ≡ high * 2 ^ k = omega arith in
    omega (
      arith,
      or_step low (high * 2 ^ suc k),
      ap (bit_or (low / 2)) half,
      or_shifted k (low / 2) high (omega arith),
    )
