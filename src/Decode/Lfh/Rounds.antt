-- ===== src/Decode/Lfh/Rounds.antt =====
-- The rounds of `LfhBitmap::normalise`: each moves the bit of one slot.
use dbgscope.Base.{
  ℕ, zero, suc, ◌+◌, ◌*◌, ◌/◌, ◌%◌, ◌^◌, ◌≤◌, ◌<◌, ◌≡◌, ◌≢◌, refl, ap, sym, ◌∙◌, arith, Bool, true,
  false, not, ◌==◌, if◌then◌else◌, Option, some, ◌>>=◌, List, length, get_elem?, get_elem?-set,
  get_elem?-some, length-set, bit_or, >>=-eq-some, Bool-cases, some_inj, map-eq-some, ==_iff, inl,
  inr,
}
use dbgscope.Base.Bits.Mask.{and_low_mask}
use dbgscope.Base.Bits.Digit.{digit, digit-or, digit-pow_self, digit-pow_ne}
use dbgscope.Decode.Lfh.{LfhBitmap, busy_bit, bit_set, mark, normalise_loop}
use mathlib.Core.Option
use native.Mathlib.Decide.{dec_lt}

pub bit_set-digit : (byte k : ℕ) → bit_set byte k ≡ not (digit byte k == 0)
bit_set-digit byte k = ap (λ t. not (t == 0)) (and_low_mask 1 (byte / 2 ^ k))

pub bit_set-or_self : (byte k : ℕ) → bit_set (bit_or byte (2 ^ k)) k ≡ true
bit_set-or_self byte k =
    ground (arith, bit_set-digit (bit_or byte (2 ^ k)) k, digit-or byte (2 ^ k) k, digit-pow_self k)

bit_set-or_ne : (byte j k : ℕ) → j ≢ k → bit_set (bit_or byte (2 ^ j)) k ≡ bit_set byte k
bit_set-or_ne byte j k h = ground (
  arith,
  bit_set-digit (bit_or byte (2 ^ j)) k,
  bit_set-digit byte k,
  digit-or byte (2 ^ j) k,
  digit-pow_ne j k h,
)

-- The bit of a slot in a list of bytes, counted from bit 0 of the first byte.
abbrev pub bit_at : List ℕ → ℕ → Option Bool
bit_at bytes bit = Option.map (λ byte. bit_set byte (bit % 8)) (get_elem? bytes (bit / 8))

bit_at-mark :
    (busy : List ℕ) (slot t : ℕ)
    → slot / 8 < length busy
    → bit_at (mark busy slot) t ≡ (if t == slot then some true else bit_at busy t)
bit_at-mark busy slot t h =
    let (byte, e) = get_elem?-some busy (slot / 8) h in
    ground (
      arith,
      get_elem?-set busy (slot / 8) (t / 8) (bit_or byte (2 ^ (slot % 8))) h,
      bit_set-or_self byte (slot % 8),
      bit_set-or_ne byte (slot % 8) (t % 8),
      e,
    )

-- What the loop has to find for a slot: the bit where the arrangement puts it.
abbrev pub raw_bit : LfhBitmap → List ℕ → ℕ → Option Bool
raw_bit arrangement bitmap slot = busy_bit arrangement slot >>= bit_at bitmap

-- One round of the loop sets the bit of its slot, in a list where that bit is still 0.
abbrev round : ℕ → ℕ → ℕ → List ℕ → List ℕ
round byte bit slot busy = if bit_set byte (bit % 8) then mark busy slot else busy

module _ (byte bit slot : ℕ) (busy : List ℕ) where
  bit_at-round :
      (t : ℕ)
      → slot / 8 < length busy
      → bit_at busy slot ≡ some false
      → bit_at (round byte bit slot busy) t
        ≡ (if t == slot then some (bit_set byte (bit % 8)) else bit_at busy t)
  bit_at-round t h z = elim (Bool-cases (bit_set byte (bit % 8))) [
    | inl e ↦ rw e (bit_at-mark busy slot t h)
    | inr e ↦ rw e (elim (Bool-cases (t == slot)) [
      | inl p ↦ rw p (ap (bit_at busy) ((==_iff t slot).0 p) ∙ z)
      | inr p ↦ rw p
    ])
  ]

  bit_at-round_ne :
      (t : ℕ)
      → slot / 8 < length busy
      → bit_at busy slot ≡ some false
      → t ≢ slot
      → bit_at (round byte bit slot busy) t ≡ bit_at busy t
  bit_at-round_ne t h z ne = bit_at-round t h z ∙ ground arith

  bit_at-round_self :
      slot / 8 < length busy
      → bit_at busy slot ≡ some false
      → bit_at (round byte bit slot busy) slot ≡ some (bit_set byte (bit % 8))
  bit_at-round_self h z = bit_at-round slot h z ∙ ground arith

  length-round : length (round byte bit slot busy) ≡ length busy
  length-round = elim (Bool-cases (bit_set byte (bit % 8))) [
    | inl e ↦ rw e (length-set busy (slot / 8) _)
    | inr e ↦ rw e
  ]

module _ (arrangement : LfhBitmap) (bitmap : List ℕ) where
  -- The loop leaves the slots before `slot` alone, and gives each of the `left` that follow the
  -- bit that the bitmap has for it.
  pub normalise_loop_bits :
      (left slot : ℕ) (busy : List ℕ) {out : List ℕ}
      → slot + left ≤ 8 * length busy
      → ((t : ℕ) → slot ≤ t → t < 8 * length busy → bit_at busy t ≡ some false)
      → normalise_loop arrangement bitmap left slot busy ≡ some out
      → (t : ℕ)
      → (t < slot → bit_at out t ≡ bit_at busy t)
        × (slot ≤ t → t < slot + left → bit_at out t ≡ raw_bit arrangement bitmap t)
  unfolding normalise_loop
  normalise_loop_bits zero slot busy h z e t =
      (λ p. ap (λ bytes. bit_at bytes t) (sym (some_inj e)), λ p q. absurd (omega arith))
  normalise_loop_bits (suc left) slot busy {out} h z e t =
      let (bit, eb, rest) = >>=-eq-some (busy_bit arrangement slot) _ e in
      let (byte, eg, more) = >>=-eq-some (get_elem? bitmap (bit / 8)) _ rest in
      let inside : slot / 8 < length busy = omega arith in
      let clear : bit_at busy slot ≡ some false = z slot (omega arith) (omega arith) in
      let size : length (round byte bit slot busy) ≡ length busy =
        length-round byte bit slot busy in
      let later =
        normalise_loop_bits left (slot + 1) (round byte bit slot busy) (omega arith)
          (λ u p q.
            bit_at-round_ne byte bit slot busy u inside clear (omega arith)
            ∙ z u (omega arith) (omega arith))
          more t in
      let found : raw_bit arrangement bitmap slot ≡ some (bit_set byte (bit % 8)) = rw (eb, eg) in
      (
        λ p.
            later.0 (omega arith) ∙ bit_at-round_ne byte bit slot busy t inside clear (omega arith),
        λ p q. elim (dec_lt slot t) [
          | yes after ↦ later.1 (omega arith) (omega arith)
          | no here ↦
              let same : t ≡ slot = omega arith in
              later.0 (omega arith)
              ∙ ap (bit_at (round byte bit slot busy)) same
              ∙ bit_at-round_self byte bit slot busy inside clear
              ∙ sym found
              ∙ ap (raw_bit arrangement bitmap) (sym same)
        ],
      )

  -- The loop does not fail where every slot has a bit to find.
  pub normalise_loop_total :
      (left slot : ℕ) (busy : List ℕ)
      → ((t : ℕ)
          → slot ≤ t
          → t < slot + left
          → (b : Bool) × (raw_bit arrangement bitmap t ≡ some b))
      → (out : List ℕ) × (normalise_loop arrangement bitmap left slot busy ≡ some out)
  unfolding normalise_loop
  normalise_loop_total zero slot busy h = (busy, refl)
  normalise_loop_total (suc left) slot busy h =
      let (b, found) = h slot (omega arith) (omega arith) in
      let (bit, eb, rest) = >>=-eq-some (busy_bit arrangement slot) (bit_at bitmap) found in
      let (byte, eg) =
        map-eq-some (λ byte. bit_set byte (bit % 8)) (get_elem? bitmap (bit / 8)) rest in
      rw (eb, eg)
        (normalise_loop_total left (slot + 1) (round byte bit slot busy)
          (λ t p q. h t (omega arith) (omega arith)))
