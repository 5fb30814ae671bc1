-- ===== src/Decode/Descriptor.antt =====
-- src/pool/decode.rs: page range descriptors and segment signatures.
pub mod Word
mod Tests
use dbgscope.Base.{
  ℕ, zero, suc, ◌+◌, ◌*◌, ◌-◌, ◌/◌, ◌%◌, ◌^◌, bit_and, bit_or, bit_xor, Bool, not, ◌||◌, ◌==◌, min,
  if◌then◌else◌, Option, none, some, ◌>>=◌, then_some, List, [], ◌∷◌, get_elem?,
}
use dbgscope.Base.Words.{u8, u32, checked_sub}
use dbgscope.Decode.Bytes.{range}
use dbgscope.Pool.{PoolBackend, lfh, vs, segment}

-- `PAGE_SEGMENT_SIGNATURE` and `DESCRIPTOR_TREE_SIGNATURE`.
abbrev pub page_segment_signature : ℕ
page_segment_signature = 0xa2e6_4ead_a2e6_4ead

abbrev pub descriptor_tree_signature : ℕ
descriptor_tree_signature = 0xccdd_ccdd

-- `DESCRIPTOR_FLAG_ALLOCATED`, `_FIRST`, `_VS` and `_SUBSEGMENT`.
abbrev pub flag_allocated : ℕ
flag_allocated = 0x01

abbrev pub flag_first : ℕ
flag_first = 0x02

abbrev pub flag_vs : ℕ
flag_vs = 0x04

abbrev pub flag_subsegment : ℕ
flag_subsegment = 0x08

unfoldable pub descriptor_backend : ℕ → PoolBackend
descriptor_backend flags =
    if bit_and flags flag_subsegment == 0
    then segment
    else if not (bit_and flags flag_vs == 0)
    then vs
    else lfh

pub record Descriptor : Type 0 where
  pub unit_size : ℕ
  pub flags : ℕ  -- u8
  pub first : Bool

unfoldable pub is_allocated : Descriptor → Bool
is_allocated d = not (bit_and d.flags flag_allocated == 0)

unfoldable pub decode_descriptor : ℕ → Option Descriptor
decode_descriptor word =
    let unit_size = bit_and word 0x00ff_ffff in
    let flags = u8 (word / 2 ^ 24) in
    then_some (not (unit_size == 0))
      (record { unit_size = unit_size; flags = flags; first = not (bit_and flags flag_first == 0) })

-- `fold(0, |value, (shift, byte)| value | (byte << (shift * 8)))`, from a shift on.
fold_unit : ℕ → ℕ → List ℕ → ℕ
fold_unit value shift [] = value
fold_unit value shift (byte ∷ rest) =
    fold_unit (bit_or value (u32 (byte * 2 ^ (shift * 8)))) (shift + 1) rest

unfoldable pub decode_descriptor_at : List ℕ → ℕ → ℕ → ℕ → ℕ → Option Descriptor
unfolding fold_unit
decode_descriptor_at bytes offset descriptor_size unit_size_offset flags_offset = do
  descriptor ← range bytes offset descriptor_size
  left ← checked_sub descriptor_size unit_size_offset
  let unit_width = min left 3
  if unit_width == 0 then none else do
    unit_bytes ← range descriptor unit_size_offset unit_width
    let unit_size = fold_unit 0 0 unit_bytes
    flags ← get_elem? descriptor flags_offset
    decode_descriptor (bit_or unit_size (u32 (flags * 2 ^ 24)))

unfoldable pub valid_page_segment_signature : ℕ → ℕ → ℕ → ℕ → Bool
valid_page_segment_signature signature base context heap_key =
    let mixed = bit_xor (bit_xor base context) heap_key in
    signature == bit_xor mixed page_segment_signature || signature == mixed

unfoldable pub valid_descriptor_tree_signature : ℕ → Bool
valid_descriptor_tree_signature signature = signature == descriptor_tree_signature
