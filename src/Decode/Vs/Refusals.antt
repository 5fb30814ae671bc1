-- ===== src/Decode/Vs/Refusals.antt =====
-- What `decode_vs_chunk` answers to each header that the allocator can store.
use dbgscope.Base.{ℕ, ◌+◌, ◌*◌, ◌^◌, ◌≤◌, ◌<◌, ◌≡◌, arith, Result, ok, err, ◌⊎◌}
use dbgscope.Base.Words.{u64_max}
use dbgscope.Decode.Vs.{VsSizes, VsChunk, VsRejection, decode_vs_chunk, check_vs_chunk}
use dbgscope.Decode.Vs.Mix.{encode_vs_sizes, decode_vs_sizes-encode_vs_sizes}
use Prim.Native.String.{String}

-- A rejection of a chunk, in bytes of its sixteen-byte units, with the word as it was read.
abbrev pub refusal : String → VsSizes → ℕ → Result VsChunk VsRejection
refusal reason s encoded = err (record {
  reason = reason;
  size = 16 * s.size;
  previous_size = 16 * s.previous_size;
  encoded = encoded;
})

-- Which answer the chunk of a stored word has to get.
abbrev pub Answers : VsSizes → ℕ → ℕ → ℕ → ℕ → Result VsChunk VsRejection → Type 0
Answers s encoded header header_bytes subsegment_end answer =
    (s.size ≡ 0) × (answer ≡ refusal "the size word decodes to zero" s encoded)
    ⊎ (0 < s.size)
      × (16 * s.size < header_bytes)
      × (answer ≡ refusal "the chunk is smaller than its own headers" s encoded)
    ⊎ (0 < s.size)
      × (header_bytes ≤ 16 * s.size)
      × (subsegment_end < header + 16 * s.size)
      × (answer ≡ refusal "the chunk runs past the end of its subsegment" s encoded)
    ⊎ (0 < s.size)
      × (header_bytes ≤ 16 * s.size)
      × (header + 16 * s.size ≤ subsegment_end)
      × (answer
          ≡ ok (record {
            size = 16 * s.size;
            previous_size = 16 * s.previous_size;
            allocated = s.allocated;
          }))

check_vs_chunk-Answers :
    (s : VsSizes) (encoded header header_bytes subsegment_end : ℕ)
    → s.size < 2 ^ 16
    → s.previous_size < 2 ^ 16
    → subsegment_end < u64_max
    → Answers s encoded header header_bytes subsegment_end
        (check_vs_chunk s encoded header header_bytes subsegment_end)
unfolding check_vs_chunk
check_vs_chunk-Answers s encoded header header_bytes subsegment_end p q below = ground arith

-- Where the subsegment ends below the last address, the word that the allocator stores for a chunk,
-- whatever its keys and its 16 low bits, is answered by what the chunk is: one without a unit, one
-- smaller than its headers and one that ends behind its subsegment are refused, in this order and for
-- that reason, with both sizes in bytes and the word as it was read; every other chunk is accepted.
pub decode_vs_chunk_refuses :
    (s : VsSizes) (low header heap_key header_bytes subsegment_end : ℕ)
    → low < 2 ^ 16
    → s.size < 2 ^ 16
    → s.previous_size < 2 ^ 16
    → subsegment_end < u64_max
    → Answers s (encode_vs_sizes s low header heap_key) header header_bytes subsegment_end (
        decode_vs_chunk
          (encode_vs_sizes s low header heap_key)
          header
          heap_key
          header_bytes
          subsegment_end)
unfolding decode_vs_chunk
decode_vs_chunk_refuses s low header heap_key header_bytes subsegment_end l p q below =
    rw (decode_vs_sizes-encode_vs_sizes s low header heap_key l p q)
      (check_vs_chunk-Answers s _ header header_bytes subsegment_end p q below)
