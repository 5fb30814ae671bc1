-- ===== src/Base/Bits/Xor.antt =====
-- Exclusive or: commutative, its own inverse, and closed over a width.
use dbgscope.Base.Bits.Step.{xor_step}
use Prim.Native.Nat.{ℕ, zero, suc, ◌+◌, ◌*◌, ◌/◌, ◌%◌, ◌^◌, ◌≤◌, ◌<◌, bit_xor, bit_xor-bitwise}
use mathlib.Core.Path.{◌≡◌, refl, ap, ◌∙◌}
use native.Mathlib.Nat.{pow-suc}
use native.Mathlib.Omega.{arith}

xor_comm_below : (n a b : ℕ) → a + b ≤ n → bit_xor a b ≡ bit_xor b a
xor_comm_below zero zero zero h = refl
xor_comm_below zero zero (suc b) h = absurd (omega arith)
xor_comm_below zero (suc a) b h = absurd (omega arith)
xor_comm_below (suc n) zero zero h = refl
xor_comm_below (suc n) a b h =
    omega (arith, xor_step a b, xor_step b a, xor_comm_below n (a / 2) (b / 2) (omega arith))

pub xor_comm : (a b : ℕ) → bit_xor a b ≡ bit_xor b a
xor_comm a b = xor_comm_below (a + b) a b (omega arith)

pub half-xor : (a b : ℕ) → bit_xor a b / 2 ≡ bit_xor (a / 2) (b / 2)
half-xor a b = omega (arith, xor_step a b)

pub parity-xor : (a b : ℕ) → bit_xor a b % 2 ≡ (a + b) % 2
parity-xor a b = omega (arith, xor_step a b)

xor_left_step :
    (a b c : ℕ)
    → bit_xor (bit_xor a b) c ≡ bit_xor (bit_xor (a / 2) (b / 2)) (c / 2) * 2 + (a + b + c) % 2
xor_left_step a b c = omega (
  arith,
  xor_step (bit_xor a b) c,
  ap (λ (t : ℕ). bit_xor t (c / 2)) (half-xor a b),
  parity-xor a b,
)

xor_assoc_below : (n a b c : ℕ) → a + b + c ≤ n → bit_xor (bit_xor a b) c ≡ bit_xor a (bit_xor b c)
xor_assoc_below zero a b c h =
    let ha : a ≡ 0 = omega arith in
    let hb : b ≡ 0 = omega arith in let hc : c ≡ 0 = omega arith in rw (ha, hb, hc)
xor_assoc_below (suc n) a b c h = omega (
  arith,
  xor_left_step a b c,
  xor_left_step b c a,
  xor_comm (bit_xor b c) a,
  xor_comm (bit_xor (b / 2) (c / 2)) (a / 2),
  xor_assoc_below n (a / 2) (b / 2) (c / 2) (omega arith),
)

pub xor_assoc : (a b c : ℕ) → bit_xor (bit_xor a b) c ≡ bit_xor a (bit_xor b c)
xor_assoc a b c = xor_assoc_below (a + b + c) a b c (omega arith)

xor_self_below : (n a : ℕ) → a ≤ n → bit_xor a a ≡ 0
xor_self_below zero zero h = refl
xor_self_below zero (suc a) h = absurd (omega arith)
xor_self_below (suc n) a h = omega (arith, xor_step a a, xor_self_below n (a / 2) (omega arith))

pub xor_self : (a : ℕ) → bit_xor a a ≡ 0
xor_self a = xor_self_below a a (omega arith)

pub zero-xor : (a : ℕ) → bit_xor 0 a ≡ a
zero-xor a = bit_xor-bitwise 0 a

pub xor-zero : (a : ℕ) → bit_xor a 0 ≡ a
xor-zero a = xor_comm a 0 ∙ zero-xor a

-- A second mix with the same key undoes the first.
pub xor_cancel : (a b : ℕ) → bit_xor (bit_xor a b) b ≡ a
xor_cancel a b = xor_assoc a b b ∙ ap (bit_xor a) (xor_self b) ∙ xor-zero a

pub xor_cancel_left : (a b : ℕ) → bit_xor a (bit_xor a b) ≡ b
xor_cancel_left a b =
    xor_comm a (bit_xor a b) ∙ ap (λ t. bit_xor t a) (xor_comm a b) ∙ xor_cancel b a

-- Words of `k` bits are closed under exclusive or.
pub xor-lt : (k a b : ℕ) → a < 2 ^ k → b < 2 ^ k → bit_xor a b < 2 ^ k
xor-lt zero a b p q =
    let ha : a ≡ 0 = omega arith in let hb : b ≡ 0 = omega arith in rw (ha, hb) (omega arith)
xor-lt (suc k) a b p q = omega (
  arith,
  xor_step a b,
  pow-suc 2 k,
  xor-lt k (a / 2) (b / 2) (omega (arith, pow-suc 2 k)) (omega (arith, pow-suc 2 k)),
)
