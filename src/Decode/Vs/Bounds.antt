-- ===== src/Decode/Vs/Bounds.antt =====
-- What `decode_vs_chunk` answers, branch by branch.
use dbgscope.Base.{ℕ, ◌+◌, ◌*◌, ◌%◌, ◌^◌, ◌≤◌, ◌<◌, ◌≡◌, arith, ok}
use dbgscope.Base.Words.{u64_max}
use dbgscope.Decode.Vs.{VsSizes, VsChunk, decode_vs_sizes, decode_vs_chunk, check_vs_chunk, vs_unit}

-- The fields that `decode_vs_sizes` reads are sixteen bits wide.
decode_vs_sizes-lt :
    (encoded header heap_key : ℕ)
    → ((decode_vs_sizes encoded header heap_key).size < 2 ^ 16)
      × ((decode_vs_sizes encoded header heap_key).previous_size < 2 ^ 16)
unfolding decode_vs_sizes
decode_vs_sizes-lt encoded header heap_key = omega arith

-- Where the subsegment ends below the last address, an accepted chunk is a whole number of
-- units, and at least one, as is the size before it, holds its headers, and ends inside its
-- subsegment.
pub decode_vs_chunk_fits :
    (encoded header_address heap_key header_bytes subsegment_end : ℕ) {c : VsChunk}
    → subsegment_end < u64_max
    → decode_vs_chunk encoded header_address heap_key header_bytes subsegment_end ≡ ok c
    → (0 < c.size)
      × (c.size % vs_unit ≡ 0)
      × (c.previous_size % vs_unit ≡ 0)
      × (header_bytes ≤ c.size)
      × (header_address + c.size ≤ subsegment_end)
unfolding decode_vs_chunk
decode_vs_chunk_fits encoded header_address heap_key header_bytes subsegment_end h e =
    ground (arith, decode_vs_sizes-lt encoded header_address heap_key)

-- A chunk of `units` sixteen-byte units that holds its headers and ends inside the subsegment,
-- its last byte included, is accepted with exactly those sizes.
pub check_vs_chunk_accepts :
    (sizes : VsSizes) (encoded header_address header_bytes subsegment_end : ℕ)
    → sizes.size < 2 ^ 16
    → sizes.previous_size < 2 ^ 16
    → 0 < sizes.size
    → header_bytes ≤ 16 * sizes.size
    → header_address + 16 * sizes.size ≤ subsegment_end
    → check_vs_chunk sizes encoded header_address header_bytes subsegment_end
      ≡ ok (record {
        size = 16 * sizes.size;
        previous_size = 16 * sizes.previous_size;
        allocated = sizes.allocated;
      })
unfolding check_vs_chunk
check_vs_chunk_accepts sizes encoded header_address header_bytes subsegment_end p q z h e =
    ground arith
