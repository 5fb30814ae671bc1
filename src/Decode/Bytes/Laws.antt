-- ===== src/Decode/Bytes/Laws.antt =====
-- What a read answers: the written word, wherever it lies in the slice, and nothing past the end.
use dbgscope.Base.{
  ◌*◌, sym, ◌∙◌, get_elem?, some_inj, ℕ, zero, suc, ◌+◌, ◌-◌, ◌/◌, ◌%◌, ◌^◌, ◌≤◌, ◌<◌, ◌≡◌, refl,
  ap, arith, List, [], ◌∷◌, ◌++◌, length, take, drop, length-append, length-take, length-drop, All,
  some,
}
use dbgscope.Base.Words.{IsByte}
use dbgscope.Decode.Bytes.{range, from_le_bytes}
use dbgscope.Base.Bits.Digit.{digit, digit-byte_low, digit-byte_high}
use native.Mathlib.Decide.{dec_lt}
use native.Mathlib.Nat.{pow-suc}

-- `to_le_bytes`, for a word of `n` bytes.
unfoldable pub to_le_bytes : ℕ → ℕ → List ℕ
to_le_bytes zero w = []
to_le_bytes (suc n) w = (w % 256) ∷ to_le_bytes n (w / 256)

pub length-to_le_bytes : (n w : ℕ) → length (to_le_bytes n w) ≡ n
unfolding to_le_bytes
length-to_le_bytes zero w = refl
length-to_le_bytes (suc n) w = ap suc (length-to_le_bytes n (w / 256))

pub from_le_bytes-to_le_bytes : (n w : ℕ) → w < 256 ^ n → from_le_bytes (to_le_bytes n w) ≡ w
unfolding from_le_bytes to_le_bytes
from_le_bytes-to_le_bytes zero w h = omega arith
from_le_bytes-to_le_bytes (suc n) w h =
    omega (arith, from_le_bytes-to_le_bytes n (w / 256) (omega (arith, pow-suc 256 n)))

take_front {ℓ} : {A : Type ℓ} (xs ys : List A) → take (length xs) (xs ++ ys) ≡ xs
take_front [] ys = refl
take_front (x ∷ xs) ys = ap (◌∷◌ x) (take_front xs ys)

drop_front {ℓ} : {A : Type ℓ} (xs ys : List A) → drop (length xs) (xs ++ ys) ≡ ys
drop_front [] ys = refl
drop_front (x ∷ xs) ys = drop_front xs ys

-- A slice at an offset inside the bytes.
pub range_middle :
    (front middle back : List ℕ)
    → length front + length middle < 2 ^ 64
    → range (front ++ (middle ++ back)) (length front) (length middle) ≡ some middle
unfolding range
range_middle front middle back h =
    let inside : (length front + length middle) - length front ≡ length middle = omega arith in
    ground (
      arith,
      length-append front (middle ++ back),
      length-append middle back,
      ap (λ n. take n (drop (length front) (front ++ (middle ++ back)))) inside,
      ap (take (length middle)) (drop_front front (middle ++ back)),
      take_front middle back,
    )

pub length-range :
    (bytes : List ℕ) (offset size : ℕ) {out : List ℕ}
    → range bytes offset size ≡ some out
    → (length out ≡ size) × (offset + size ≤ length bytes)
unfolding range
length-range bytes offset size h =
    ground
      (arith, length-take ((offset + size) - offset) (drop offset bytes), length-drop offset bytes)

pub from_le_bytes-lt : (bs : List ℕ) → All IsByte bs → from_le_bytes bs < 256 ^ length bs
unfolding from_le_bytes
from_le_bytes-lt [] h = omega arith
from_le_bytes-lt (b ∷ bs) h = omega (arith, pow-suc 256 (length bs), from_le_bytes-lt bs h.1)

-- A range that lies inside the bytes is read, and byte `i` of it is byte `offset + i`.
pub range_inside :
    (bytes : List ℕ) (offset size : ℕ)
    → offset + size ≤ length bytes
    → offset + size < 2 ^ 64
    → range bytes offset size ≡ some (take size (drop offset bytes))
unfolding range
range_inside bytes offset size h f =
    let inside : offset + size - offset ≡ size = omega arith in
    ground (arith, ap (λ n. take n (drop offset bytes)) inside)

-- Digit `k` of a little-endian word is digit `k % 8` of its byte `k / 8`.
pub digit-from_le_bytes :
    (bs : List ℕ) (k : ℕ) {b : ℕ}
    → All IsByte bs
    → get_elem? bs (k / 8) ≡ some b
    → digit (from_le_bytes bs) k ≡ digit b (k % 8)
unfolding from_le_bytes
digit-from_le_bytes [] k h e = absurd (cc)
digit-from_le_bytes (c ∷ bs) k {b} h e = elim (dec_lt k 8) [
  | yes low ↦
      let first : k / 8 ≡ 0 = omega arith in
      let same : c ≡ b = some_inj (rw first at e) in
      let whole : k % 8 ≡ k = omega arith in
      digit-byte_low c (from_le_bytes bs) k low
      ∙ ap (λ t. digit t k) same
      ∙ ap (digit b) (sym whole)
  | no high ↦
      let next : k / 8 ≡ suc ((k - 8) / 8) = omega arith in
      let above : k ≡ k - 8 + 8 = omega arith in
      let rest : (k - 8) % 8 ≡ k % 8 = omega arith in
      ap (digit (c + 256 * from_le_bytes bs)) above
      ∙ digit-byte_high c (from_le_bytes bs) (k - 8) h.0
      ∙ digit-from_le_bytes bs (k - 8) h.1 (rw next at e)
      ∙ ap (digit b) rest
]
