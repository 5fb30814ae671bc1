-- ===== src/Decode/Vs/Mix.antt =====
-- The mix of the `Sizes` word, as the allocator applies it to a chunk.
use dbgscope.Base.{ℕ, ◌+◌, ◌*◌, ◌^◌, ◌≤◌, ◌<◌, ◌≡◌, ap, ◌∙◌, arith, bit_xor, ok, if◌then◌else◌}
use dbgscope.Base.Bits.Xor.{xor_cancel}
use dbgscope.Decode.Vs.{VsSizes, decode_vs_sizes, decode_vs_chunk}
use dbgscope.Decode.Vs.Bounds.{check_vs_chunk_accepts}

-- The word before it is mixed: `Sizes` of a chunk whose low sixteen bits, which carry no size,
-- are `low`.
abbrev plain_sizes : VsSizes → ℕ → ℕ
plain_sizes s low =
    low + s.size * 2 ^ 16 + s.previous_size * 2 ^ 32 + (if s.allocated then 1 else 0) * 2 ^ 48

-- The word as the allocator stores it in the header at `header`.
pub encode_vs_sizes : VsSizes → ℕ → ℕ → ℕ → ℕ
encode_vs_sizes s low header heap_key = bit_xor (bit_xor (plain_sizes s low) header) heap_key

unmix :
    (w header heap_key : ℕ)
    → bit_xor (bit_xor (bit_xor (bit_xor w header) heap_key) heap_key) header ≡ w
unmix w header heap_key =
    ap (λ t. bit_xor t header) (xor_cancel (bit_xor w header) heap_key) ∙ xor_cancel w header

pub decode_vs_sizes-encode_vs_sizes :
    (s : VsSizes) (low header heap_key : ℕ)
    → low < 2 ^ 16
    → s.size < 2 ^ 16
    → s.previous_size < 2 ^ 16
    → decode_vs_sizes (encode_vs_sizes s low header heap_key) header heap_key ≡ s
unfolding decode_vs_sizes encode_vs_sizes
decode_vs_sizes-encode_vs_sizes s low header heap_key l p q = rw unmix (ground arith)

-- A chunk whose two sizes fit 16 bits, that has at least one unit, holds its headers and ends
-- inside its subsegment decodes from the word that the allocator stores for it, whatever the
-- keys are and whatever 16 low bits the word has.
pub decode_vs_chunk-encode :
    (s : VsSizes) (low header heap_key header_bytes subsegment_end : ℕ)
    → low < 2 ^ 16
    → s.size < 2 ^ 16
    → s.previous_size < 2 ^ 16
    → 0 < s.size
    → header_bytes ≤ 16 * s.size
    → header + 16 * s.size ≤ subsegment_end
    → decode_vs_chunk
        (encode_vs_sizes s low header heap_key)
        header
        heap_key
        header_bytes
        subsegment_end
      ≡ ok (record {
        size = 16 * s.size;
        previous_size = 16 * s.previous_size;
        allocated = s.allocated;
      })
unfolding decode_vs_chunk
decode_vs_chunk-encode s low header heap_key header_bytes subsegment_end l p q z h e =
    rw (decode_vs_sizes-encode_vs_sizes s low header heap_key l p q)
      (check_vs_chunk_accepts s _ header header_bytes subsegment_end p q z h e)
