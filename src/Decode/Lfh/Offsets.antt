-- ===== src/Decode/Lfh/Offsets.antt =====
-- The mix of `BlockOffsets.EncodedData`, undone.
use dbgscope.Base.{ℕ, ◌+◌, ◌*◌, ◌/◌, ◌^◌, ◌≤◌, ◌<◌, ◌≡◌, ap, ◌∙◌, arith, bit_xor, ok}
use dbgscope.Base.Words.{u32}
use dbgscope.Base.Bits.Xor.{xor_cancel}
use dbgscope.Decode.Lfh.{decode_lfh_offsets, decode_lfh_subsegment}
use dbgscope.Decode.Lfh.Bounds.{check_lfh_subsegment_accepts}

-- The word as the allocator stores it for a subsegment of blocks of `block_size` bytes, the first
-- of them at `first`.
pub encode_lfh_offsets : ℕ → ℕ → ℕ → ℕ → ℕ
encode_lfh_offsets block_size first subsegment lfh_key =
    bit_xor (bit_xor (block_size + first * 2 ^ 16) (u32 (subsegment / 2 ^ 12))) lfh_key

pub decode_lfh_offsets-encode :
    (block_size first subsegment lfh_key : ℕ)
    → block_size < 2 ^ 16
    → first < 2 ^ 16
    → decode_lfh_offsets (encode_lfh_offsets block_size first subsegment lfh_key) subsegment lfh_key
      ≡ (block_size, first)
unfolding decode_lfh_offsets encode_lfh_offsets
decode_lfh_offsets-encode block_size first subsegment lfh_key p q =
    let page = u32 (subsegment / 2 ^ 12) in
    let plain = block_size + first * 2 ^ 16 in
    let unmixed : bit_xor (bit_xor (bit_xor (bit_xor plain page) lfh_key) lfh_key) page ≡ plain =
      ap (λ t. bit_xor t page) (xor_cancel (bit_xor plain page) lfh_key) ∙ xor_cancel plain page in
    rw unmixed (ground arith)

-- A subsegment of at least one block, of at least eight bytes each, whose block size and first
-- offset fit 16 bits and whose blocks end inside a page range that fits 64 bits, decodes from
-- the word that the allocator stores for it, whatever the keys are and wherever it lies.
pub decode_lfh_subsegment-encode :
    (block_size first subsegment lfh_key blocks region_size : ℕ)
    → block_size < 2 ^ 16
    → first < 2 ^ 16
    → region_size < 2 ^ 64
    → 0 < blocks
    → 8 ≤ block_size
    → first + blocks * block_size ≤ region_size
    → decode_lfh_subsegment
        (encode_lfh_offsets block_size first subsegment lfh_key)
        subsegment
        lfh_key
        blocks
        region_size
      ≡ ok (record { block_size = block_size; first = first; blocks = blocks })
unfolding decode_lfh_subsegment
decode_lfh_subsegment-encode block_size first subsegment lfh_key blocks region_size p q r b s f =
    rw (decode_lfh_offsets-encode block_size first subsegment lfh_key p q)
      (check_lfh_subsegment_accepts block_size first _ blocks region_size r b s f)
