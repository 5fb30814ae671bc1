-- ===== src/Decode/Vs/Tests.antt =====
-- Chunk headers in a small subsegment.
use dbgscope.Base.{◌+◌, ◌*◌, ◌%◌, ◌≤◌, ◌<◌, ◌≡◌, true, refl, arith, ok}
use dbgscope.Decode.Vs.{VsSizes, decode_vs_sizes, decode_vs_chunk, check_vs_chunk, vs_unit}
use dbgscope.Decode.Vs.Mix.{encode_vs_sizes, decode_vs_chunk-encode}
use dbgscope.Decode.Vs.Bounds.{decode_vs_chunk_fits}
use dbgscope.Decode.Vs.Refusals.{Answers, refusal, decode_vs_chunk_refuses}

abbrev four_units : VsSizes
four_units = record { size = 4; previous_size = 2; allocated = true }

decode_vs_chunk-encode_example :
    decode_vs_chunk (encode_vs_sizes four_units 7 0x1000 0xabcd_1234) 0x1000 0xabcd_1234 0x20 0x2000
    ≡ ok (record { size = 16 * 4; previous_size = 16 * 2; allocated = true })
decode_vs_chunk-encode_example =
    decode_vs_chunk-encode four_units 7 0x1000 0xabcd_1234 0x20 0x2000 (omega arith) (omega arith)
      (omega arith) (omega arith) (omega arith) (omega arith)

-- The word of a chunk of four units, stored with both keys null.
four_decodes :
    decode_vs_chunk 0x1_0002_0004_0000 0 0 0x20 0x2000
    ≡ ok (record { size = 64; previous_size = 32; allocated = true })
unfolding decode_vs_chunk check_vs_chunk decode_vs_sizes
four_decodes = refl

decode_vs_chunk_fits_example :
    (0 < 64) × (64 % vs_unit ≡ 0) × (32 % vs_unit ≡ 0) × (0x20 ≤ 64) × (0 + 64 ≤ 0x2000)
decode_vs_chunk_fits_example =
    decode_vs_chunk_fits 0x1_0002_0004_0000 0 0 0x20 0x2000 (omega arith) four_decodes

-- The same chunk before an end that it passes.
decode_vs_chunk_refuses_example :
    Answers four_units (encode_vs_sizes four_units 7 0x1000 0xabcd_1234) 0x1000 0x20 0x1030 (
      decode_vs_chunk
        (encode_vs_sizes four_units 7 0x1000 0xabcd_1234)
        0x1000
        0xabcd_1234
        0x20
        0x1030)
decode_vs_chunk_refuses_example =
    decode_vs_chunk_refuses four_units 7 0x1000 0xabcd_1234 0x20 0x1030 (omega arith) (omega arith)
      (omega arith) (omega arith)

four_refused :
    decode_vs_chunk 0x1_0002_0004_0000 0 0 0x20 0x30
    ≡ refusal "the chunk runs past the end of its subsegment" four_units 0x1_0002_0004_0000
unfolding decode_vs_chunk check_vs_chunk decode_vs_sizes
four_refused = refl
