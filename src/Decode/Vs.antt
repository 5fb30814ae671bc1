-- ===== src/Decode/Vs.antt =====
-- src/pool/decode.rs: `_HEAP_VS_CHUNK_HEADER`, whose `Sizes` word is mixed with the heap key and
-- the header's own address.
pub mod Bounds
pub mod Mix
pub mod Refusals
mod Tests
use dbgscope.Base.{
  ℕ, ◌+◌, ◌*◌, ◌/◌, ◌%◌, ◌^◌, bit_xor, Bool, not, ltb, ◌==◌, if◌then◌else◌, Result, ok, err,
}
use dbgscope.Base.Words.{u8, u16, saturating_add, saturating_mul}
use Prim.Native.String.{String}

-- `VS_UNIT`.
abbrev pub vs_unit : ℕ
vs_unit = 16

-- `VS_SIGNATURE`.
abbrev pub vs_signature : ℕ
vs_signature = 0x2bed

pub record VsSizes : Type 0 where
  pub size : ℕ  -- u16
  pub previous_size : ℕ  -- u16
  pub allocated : Bool

-- In bytes rather than in units.
pub record VsChunk : Type 0 where
  pub size : ℕ
  pub previous_size : ℕ
  pub allocated : Bool

pub record VsRejection : Type 0 where
  pub reason : String
  pub size : ℕ
  pub previous_size : ℕ
  pub encoded : ℕ

unfoldable pub decode_vs_sizes : ℕ → ℕ → ℕ → VsSizes
decode_vs_sizes encoded header heap_key =
    let decoded = bit_xor (bit_xor encoded heap_key) header in
    record {
      size = u16 (decoded / 2 ^ 16);
      previous_size = u16 (decoded / 2 ^ 32);
      allocated = not (u8 (decoded / 2 ^ 48) == 0);
    }

abbrev vs_reject : String → ℕ → ℕ → ℕ → Result VsChunk VsRejection
vs_reject reason size previous_size encoded =
    err (record { reason = reason; size = size; previous_size = previous_size; encoded = encoded })

-- The checks of `decode_vs_chunk`, on the sizes that it decoded.
pub check_vs_chunk : VsSizes → ℕ → ℕ → ℕ → ℕ → Result VsChunk VsRejection
check_vs_chunk sizes encoded header_address header_bytes subsegment_end =
    let size = saturating_mul sizes.size vs_unit in
    let previous_size = saturating_mul sizes.previous_size vs_unit in
    if size == 0
    then vs_reject "the size word decodes to zero" size previous_size encoded
    else if ltb size header_bytes
    then vs_reject "the chunk is smaller than its own headers" size previous_size encoded
    else if ltb subsegment_end (saturating_add header_address size)
    then vs_reject "the chunk runs past the end of its subsegment" size previous_size encoded
    else ok (record { size = size; previous_size = previous_size; allocated = sizes.allocated })

unfoldable pub decode_vs_chunk : ℕ → ℕ → ℕ → ℕ → ℕ → Result VsChunk VsRejection
unfolding check_vs_chunk
decode_vs_chunk encoded header_address heap_key header_bytes subsegment_end =
    check_vs_chunk (decode_vs_sizes encoded header_address heap_key) encoded header_address
      header_bytes subsegment_end

unfoldable pub valid_vs_signature : ℕ → Bool
valid_vs_signature signature = signature == vs_signature
