-- ===== src/Decode/Lfh.antt =====
-- src/pool/decode.rs: `_HEAP_LFH_SUBSEGMENT`, its encoded offsets and its block bitmap.
pub mod Bounds
pub mod Offsets
pub mod Rounds
pub mod Bitmap
mod Tests
use dbgscope.Base.{
  ℕ, zero, suc, ◌+◌, ◌*◌, ◌-◌, ◌/◌, ◌%◌, ◌^◌, bit_xor, bit_and, bit_or, Bool, not, ◌&&◌, ltb, leb,
  ◌==◌, if◌then◌else◌, Result, ok, err, Option, none, some, ◌>>=◌, List, get_elem?, set, replicate,
}
use dbgscope.Base.Words.{u16, u32, checked_mul, checked_add, saturating_mul}
use dbgscope.Pool.{PoolState, allocated, reusable_free}
use mathlib.Core.Option
use Prim.Native.String.{String}

unfoldable pub decode_lfh_offsets : ℕ → ℕ → ℕ → ℕ × ℕ
decode_lfh_offsets encoded subsegment lfh_key =
    let decoded = bit_xor (bit_xor encoded lfh_key) (u32 (subsegment / 2 ^ 12)) in
    (u16 decoded, u16 (decoded / 2 ^ 16))

-- `LFH_MIN_BLOCK_SIZE`.
abbrev pub lfh_min_block_size : ℕ
lfh_min_block_size = 8

pub record LfhSubsegment : Type 0 where
  pub block_size : ℕ
  pub first : ℕ
  pub blocks : ℕ

pub record LfhRejection : Type 0 where
  pub reason : String
  pub block_size : ℕ
  pub blocks : ℕ
  pub first : ℕ
  pub region_size : ℕ
  pub encoded : ℕ

abbrev lfh_reject : String → ℕ → ℕ → ℕ → ℕ → ℕ → Result LfhSubsegment LfhRejection
lfh_reject reason block_size first encoded blocks region_size = err (record {
  reason = reason;
  block_size = block_size;
  blocks = blocks;
  first = first;
  region_size = region_size;
  encoded = encoded;
})

-- The checks of `decode_lfh_subsegment`, on the offsets that it decoded.
pub check_lfh_subsegment : ℕ → ℕ → ℕ → ℕ → ℕ → Result LfhSubsegment LfhRejection
check_lfh_subsegment block_size first encoded blocks region_size =
    if encoded == 0 && blocks == 0
    then lfh_reject "header is not initialised" block_size first encoded blocks region_size
    else if blocks == 0
    then lfh_reject "block count is zero" block_size first encoded blocks region_size
    else if ltb block_size lfh_min_block_size
    then lfh_reject "block size is below the eight byte minimum" block_size first encoded blocks
        region_size
    else if leb region_size first
    then lfh_reject "first block offset is past the end of the range" block_size first encoded
        blocks region_size
    else if ltb (region_size - first) (saturating_mul blocks block_size)
    then lfh_reject "the blocks overrun the range" block_size first encoded blocks region_size
    else ok (record { block_size = block_size; first = first; blocks = blocks })

unfoldable pub decode_lfh_subsegment : ℕ → ℕ → ℕ → ℕ → ℕ → Result LfhSubsegment LfhRejection
unfolding check_lfh_subsegment
decode_lfh_subsegment encoded subsegment lfh_key blocks region_size =
    let (block_size, first) = decode_lfh_offsets encoded subsegment lfh_key in
    check_lfh_subsegment block_size first encoded blocks region_size

pub data LfhBitmap : Type 0 where
  split_word contiguous_bits : LfhBitmap

-- `blocks.div_ceil(32).saturating_mul(8)`, and by 64.
unfoldable pub bytes_for : LfhBitmap → ℕ → ℕ
bytes_for split_word blocks = saturating_mul ((blocks + 31) / 32) 8
bytes_for contiguous_bits blocks = saturating_mul ((blocks + 63) / 64) 8

unfoldable pub busy_bit : LfhBitmap → ℕ → Option ℕ
busy_bit split_word slot = do word ← checked_mul (slot / 32) 64; checked_add word (slot % 32)
busy_bit contiguous_bits slot = some slot

-- `(byte >> k) & 1 != 0`.
abbrev pub bit_set : ℕ → ℕ → Bool
bit_set byte k = not (bit_and (byte / 2 ^ k) 1 == 0)

-- `busy[slot / 8] |= 1 << (slot % 8)`.
abbrev mark : List ℕ → ℕ → List ℕ
mark busy slot =
    set busy (slot / 8) (bit_or (Option.get_or (get_elem? busy (slot / 8)) 0) (2 ^ (slot % 8)))

-- The loop `for slot in 0..blocks`, with the rounds left and the slot that is next.
pub normalise_loop : LfhBitmap → List ℕ → ℕ → ℕ → List ℕ → Option (List ℕ)
normalise_loop arrangement bitmap zero slot busy = some busy
normalise_loop arrangement bitmap (suc left) slot busy = do
  bit ← busy_bit arrangement slot
  byte ← get_elem? bitmap (bit / 8)
  normalise_loop arrangement bitmap left (slot + 1)
      (if bit_set byte (bit % 8) then mark busy slot else busy)

unfoldable pub normalise : LfhBitmap → List ℕ → ℕ → Option (List ℕ)
unfolding normalise_loop
normalise arrangement bitmap blocks =
    normalise_loop arrangement bitmap blocks 0 (replicate ((blocks + 7) / 8) 0)

unfoldable pub lfh_bitmap_state : List ℕ → ℕ → Option PoolState
lfh_bitmap_state bitmap slot = do
  byte ← get_elem? bitmap (slot / 8)
  some (if bit_and (byte / 2 ^ (slot % 8)) 1 == 0 then reusable_free else allocated)
