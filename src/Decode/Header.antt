-- ===== src/Decode/Header.antt =====
-- src/pool/decode.rs: `_POOL_HEADER`, and the fields that Driver Verifier's special pool keeps in
-- its place.
pub mod Fields
mod Tests
use dbgscope.Base.{
  ℕ, ◌+◌, ◌*◌, ◌-◌, ◌/◌, ◌%◌, ◌^◌, bit_and, Bool, not, ◌||◌, ◌&&◌, ◌==◌, ltb, leb, if◌then◌else◌,
  Option, none, some, ◌>>=◌, then_some, List, get_elem?,
}
use dbgscope.Base.Words.{checked_add}
use dbgscope.Decode.Bytes.{range, read_u32}

-- `PAGE_SIZE`.
abbrev pub page_size : ℕ
page_size = 0x1000

pub record PoolHeader : Type 0 where
  pub previous_size : ℕ  -- u8
  pub block_size : ℕ  -- u8
  pub pool_type : ℕ  -- u8
  pub pool_index : ℕ  -- u8
  pub tag : ℕ  -- u32

pub record PoolHeaderLayout : Type 0 where
  pub size : ℕ
  pub previous_size : ℕ
  pub pool_index : ℕ
  pub block_size : ℕ
  pub pool_type : ℕ
  pub tag : ℕ

-- `*bytes.get(offset.checked_add(field)?.checked_add(lane)?)?`.
unfoldable pub byte_at : List ℕ → ℕ → ℕ → ℕ → Option ℕ
byte_at bytes offset field lane = do
  start ← checked_add offset field
  place ← checked_add start lane
  get_elem? bytes place

-- `usize::from(test)`.
abbrev lane_of : Bool → ℕ
lane_of test = if test then 1 else 0

unfoldable pub decode_pool_header : List ℕ → ℕ → PoolHeaderLayout → Option PoolHeader
decode_pool_header bytes offset layout = if layout.size == 0 then none else do
  _ ← range bytes offset layout.size
  let pool_index_lane = lane_of (layout.pool_index == layout.previous_size)
  let pool_type_lane = lane_of (layout.pool_type == layout.block_size)
  previous_size ← byte_at bytes offset layout.previous_size 0
  pool_index ← byte_at bytes offset layout.pool_index pool_index_lane
  block_size ← byte_at bytes offset layout.block_size 0
  pool_type ← byte_at bytes offset layout.pool_type pool_type_lane
  tag_at ← checked_add offset layout.tag
  tag ← read_u32 bytes tag_at
  then_some (not (block_size == 0) && leb pool_type 0x7f) (record {
    previous_size = previous_size;
    block_size = block_size;
    pool_type = pool_type;
    pool_index = pool_index;
    tag = tag;
  })

-- `SPECIAL_POOL_SIZE_MASK` and `SPECIAL_POOL_TRACKED`.
abbrev pub special_pool_size_mask : ℕ
special_pool_size_mask = 0x1fff

abbrev pub special_pool_tracked : ℕ
special_pool_tracked = 0x4000

pub record SpecialPoolHeader : Type 0 where
  pub tag : ℕ
  pub requested : ℕ
  pub header_size : ℕ
  pub fill : ℕ

-- `next_multiple_of(16)`.
abbrev pub aligned_16 : ℕ → ℕ
aligned_16 n = (n + 15) / 16 * 16

unfoldable pub decode_special_pool_header : List ℕ → ℕ → PoolHeaderLayout → Option SpecialPoolHeader
decode_special_pool_header bytes offset layout = do
  _ ← range bytes offset layout.size
  word_at ← checked_add offset layout.previous_size
  word ← read_u32 bytes word_at
  let requested = bit_and word special_pool_size_mask
  let header_size = layout.size + (if not (bit_and word special_pool_tracked == 0) then 8 else 0)
  if requested == 0 || ltb page_size (aligned_16 requested + header_size) then none else do
    tag_at ← checked_add offset layout.tag
    tag ← read_u32 bytes tag_at
    fill ← byte_at bytes offset layout.block_size 0
    some (record { tag = tag; requested = requested; header_size = header_size; fill = fill })
