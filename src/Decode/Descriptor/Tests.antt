-- ===== src/Decode/Descriptor/Tests.antt =====
-- A descriptor in a row of bytes.
use dbgscope.Base.{ℕ, ◌≡◌, refl, arith, List, [], ◌∷◌}
use dbgscope.Decode.Descriptor.{decode_descriptor_at}
use dbgscope.Decode.Descriptor.Word.{descriptor_in_memory, decode_descriptor_at_reads}

-- Flags of 0x0b at byte 2, and a unit count of 4 at byte 3.
abbrev row_of_bytes : List ℕ
row_of_bytes = 0 ∷ 0 ∷ 0x0b ∷ 4 ∷ 0 ∷ 0 ∷ 9 ∷ 9 ∷ []

decode_descriptor_at_reads_example :
    decode_descriptor_at row_of_bytes 0 6 3 2 ≡ descriptor_in_memory row_of_bytes 0 6 3 2 0x0b
decode_descriptor_at_reads_example =
    decode_descriptor_at_reads row_of_bytes 0 6 3 2 (omega arith) (omega arith) (omega arith)
      (omega arith) (omega arith) refl
