-- ===== src/Decode/Lfh/Bitmap.antt =====
-- `LfhBitmap::normalise` reduces either arrangement of the block bitmap to one bit for each slot.
use dbgscope.Base.{
  take, drop, get_elem?-take, get_elem?-drop, All-take, All-drop, ℕ, ◌+◌, ◌*◌, ◌/◌, ◌%◌, ◌^◌, ◌≤◌,
  ◌<◌, ◌≡◌, refl, ap, ◌∙◌, arith, Bool, false, not, ◌==◌, if◌then◌else◌, Option, some, List, length,
  get_elem?, replicate, All, get_elem?-replicate, get_elem?-some, length-replicate, bit_and,
}
use dbgscope.Base.Words.{IsByte}
use dbgscope.Base.Bits.Digit.{digit}
use dbgscope.Decode.Bytes.{read_u64, range, from_le_bytes}
use dbgscope.Decode.Bytes.Laws.{range_inside, digit-from_le_bytes}
use dbgscope.Decode.Lfh.{
  LfhBitmap, split_word, contiguous_bits, bytes_for, busy_bit, bit_set, normalise, lfh_bitmap_state,
}
use dbgscope.Pool.{allocated, reusable_free}
use mathlib.Core.Option
use native.Mathlib.Nat.{zero-div}
use dbgscope.Decode.Lfh.Rounds.{
  bit_set-digit, bit_at, raw_bit, normalise_loop_bits, normalise_loop_total,
}

-- Bit `k` of the little-endian 64-bit word `w` of the bitmap: how the allocator's own code reads it.
pub word_bit : List ℕ → ℕ → ℕ → Option Bool
word_bit bitmap w k = Option.map (λ word. digit word k == 1) (read_u64 bitmap (8 * w))

word_bit-bit_at :
    (bitmap : List ℕ) (w k : ℕ)
    → All IsByte bitmap
    → 8 * w + 8 ≤ length bitmap
    → length bitmap < 2 ^ 64
    → k < 64
    → (bit_at bitmap (64 * w + k) ≡ word_bit bitmap w k)
      × (b : Bool) × (word_bit bitmap w k ≡ some b)
unfolding word_bit read_u64
word_bit-bit_at bitmap w k h l f m =
    let out = take 8 (drop (8 * w) bitmap) in
    let read : range bitmap (8 * w) 8 ≡ some out = range_inside bitmap (8 * w) 8 l (omega arith) in
    let (byte, e) = get_elem?-some bitmap (8 * w + k / 8) (omega arith) in
    let inside : get_elem? out (k / 8) ≡ some byte =
      get_elem?-take 8 (k / 8) (drop (8 * w) bitmap) (omega arith)
      ∙ get_elem?-drop (8 * w) (k / 8) bitmap
      ∙ e in
    let bytes : All IsByte out = All-take IsByte 8 _ (All-drop IsByte (8 * w) bitmap h) in
    let same : digit (from_le_bytes out) k ≡ digit byte (k % 8) =
      digit-from_le_bytes out k bytes inside in
    let place : (64 * w + k) / 8 ≡ 8 * w + k / 8 = omega arith in
    let rest : (64 * w + k) % 8 ≡ k % 8 = omega arith in
    rw (place, rest, read, e, same, bit_set-digit byte (k % 8))
      (ground arith, digit byte (k % 8) == 1, refl)

-- Where each allocator keeps the busy bit of a slot: 32 slots to a word in the low half for
-- `ntdll`, 64 to a word for `nt`.
pub busy_in_words : LfhBitmap → List ℕ → ℕ → Option Bool
busy_in_words split_word bitmap slot = word_bit bitmap (slot / 32) (slot % 32)
busy_in_words contiguous_bits bitmap slot = word_bit bitmap (slot / 64) (slot % 64)

raw_bit-busy_in_words :
    (arrangement : LfhBitmap) (bitmap : List ℕ) (blocks slot : ℕ)
    → All IsByte bitmap
    → length bitmap < 2 ^ 64
    → blocks < 2 ^ 32
    → bytes_for arrangement blocks ≤ length bitmap
    → slot < blocks
    → (b : Bool) × (raw_bit arrangement bitmap slot ≡ some b)
      × (busy_in_words arrangement bitmap slot ≡ some b)
unfolding bytes_for busy_bit busy_in_words
raw_bit-busy_in_words split_word bitmap blocks slot h f n l s =
    let (same, b, e) =
      word_bit-bit_at bitmap (slot / 32) (slot % 32) h (omega arith) f (omega arith) in
    let bit : busy_bit split_word slot ≡ some (64 * (slot / 32) + slot % 32) = ground arith in
    (b, rw bit (same ∙ e), e)
raw_bit-busy_in_words contiguous_bits bitmap blocks slot h f n l s =
    let (same, b, e) =
      word_bit-bit_at bitmap (slot / 64) (slot % 64) h (omega arith) f (omega arith) in
    let bit : slot ≡ 64 * (slot / 64) + slot % 64 = omega arith in
    (b, ap (bit_at bitmap) bit ∙ same ∙ e, e)

state-bit_at :
    (busy : List ℕ) (slot : ℕ) {b : Bool}
    → bit_at busy slot ≡ some b
    → lfh_bitmap_state busy slot ≡ some (if b then allocated else reusable_free)
unfolding lfh_bitmap_state
state-bit_at busy slot e = ground arith

clear_byte : (k : ℕ) → bit_set 0 k ≡ false
clear_byte k = ap (λ t. not (bit_and t 1 == 0)) (zero-div (2 ^ k))

bit_at-replicate :
    (n t : ℕ) → t < 8 * length (replicate {A = ℕ} n 0) → bit_at (replicate n 0) t ≡ some false
bit_at-replicate n t h =
    let inside : t / 8 < n = omega (arith, length-replicate {A = ℕ} n 0) in
    ap (Option.map (λ byte. bit_set byte (t % 8))) (get_elem?-replicate n (t / 8) 0 inside)
    ∙ ap some (clear_byte (t % 8))

normalise_states :
    (arrangement : LfhBitmap) (bitmap : List ℕ) (blocks : ℕ)
    → All IsByte bitmap
    → length bitmap < 2 ^ 64
    → blocks < 2 ^ 32
    → bytes_for arrangement blocks ≤ length bitmap
    → (busy : List ℕ) × (normalise arrangement bitmap blocks ≡ some busy)
      × ((slot : ℕ)
          → slot < blocks
          → (b : Bool) × (busy_in_words arrangement bitmap slot ≡ some b)
            × (lfh_bitmap_state busy slot ≡ some (if b then allocated else reusable_free)))
unfolding normalise
normalise_states arrangement bitmap blocks h f n l =
    let bytes : ℕ = (blocks + 7) / 8 in
    let words = raw_bit-busy_in_words arrangement bitmap blocks in
    let (busy, done) =
      normalise_loop_total arrangement bitmap blocks 0 (replicate bytes 0)
        (λ t p q. let (b, e, _) = words t h f n l (omega arith) in (b, e)) in
    let bits =
      normalise_loop_bits arrangement bitmap blocks 0 (replicate bytes 0)
        (omega (arith, length-replicate {A = ℕ} bytes 0)) (λ t p q. bit_at-replicate bytes t q)
        done in
    (
      busy,
      done,
      λ slot s.
          let (b, e, w) = words slot h f n l s in
          (b, w, state-bit_at busy slot ((bits slot).1 (omega arith) (omega arith) ∙ e)),
    )

-- For fewer than 2 ^ 32 blocks, `normalise` on a bitmap of bytes that is at least as long as
-- `bytes_for` asks, and shorter than 2 ^ 64, gives a result; and for each slot of a block,
-- `lfh_bitmap_state` on that result answers what the allocator's own word and bit say.
pub lfh_bitmap_state-normalise :
    (arrangement : LfhBitmap) (bitmap : List ℕ) (blocks slot : ℕ)
    → All IsByte bitmap
    → length bitmap < 2 ^ 64
    → blocks < 2 ^ 32
    → bytes_for arrangement blocks ≤ length bitmap
    → slot < blocks
    → (busy : List ℕ) × (b : Bool) × (normalise arrangement bitmap blocks ≡ some busy)
      × (busy_in_words arrangement bitmap slot ≡ some b)
      × (lfh_bitmap_state busy slot ≡ some (if b then allocated else reusable_free))
lfh_bitmap_state-normalise arrangement bitmap blocks slot h f n l s =
    let (busy, done, states) = normalise_states arrangement bitmap blocks h f n l in
    let (b, words, state) = states slot s in (busy, b, done, words, state)
