-- ===== src/Decode/Header/Tests.antt =====
-- Headers in sixteen bytes.
use dbgscope.Base.{ℕ, ◌+◌, ◌*◌, ◌/◌, ◌%◌, ◌^◌, ◌≤◌, ◌<◌, ◌≡◌, refl, List, [], ◌∷◌, some}
use dbgscope.Decode.Bytes.{read_u32, range, from_le_bytes}
use dbgscope.Decode.Header.{
  PoolHeader, PoolHeaderLayout, SpecialPoolHeader, decode_pool_header, decode_special_pool_header,
  byte_at, aligned_16, page_size,
}
use dbgscope.Decode.Header.Fields.{decode_special_pool_header_places}

abbrev kernel_layout : PoolHeaderLayout
kernel_layout = record {
  size = 16;
  previous_size = 0;
  pool_index = 0;
  block_size = 2;
  pool_type = 2;
  tag = 4;
}

-- Sizes of 3 and 4 units, index 1, type 2 and the tag `Tgsm`.
abbrev header_bytes : List ℕ
header_bytes = 3 ∷ 1 ∷ 4 ∷ 2 ∷ 0x54 ∷ 0x67 ∷ 0x73 ∷ 0x6d ∷ 0 ∷ 0 ∷ 0 ∷ 0 ∷ 0 ∷ 0 ∷ 0 ∷ 0 ∷ []

abbrev decoded_header : PoolHeader
decoded_header = record {
  previous_size = 3;
  block_size = 4;
  pool_type = 2;
  pool_index = 1;
  tag = 0x6d73_6754;
}

header_decodes : decode_pool_header header_bytes 0 kernel_layout ≡ some decoded_header
unfolding decode_pool_header byte_at range read_u32 from_le_bytes
header_decodes = refl

-- A special page with a request of 0x20 bytes.
abbrev special_bytes : List ℕ
special_bytes = 0x20 ∷ 0 ∷ 7 ∷ 0 ∷ 0x54 ∷ 0x67 ∷ 0x73 ∷ 0x6d ∷ 0 ∷ 0 ∷ 0 ∷ 0 ∷ 0 ∷ 0 ∷ 0 ∷ 0 ∷ []

abbrev special_header : SpecialPoolHeader
special_header = record { tag = 0x6d73_6754; requested = 0x20; header_size = 16; fill = 7 }

special_word : read_u32 special_bytes 0 ≡ some 0x7_0020
unfolding read_u32 range from_le_bytes
special_word = refl

special_decodes : decode_special_pool_header special_bytes 0 kernel_layout ≡ some special_header
unfolding decode_special_pool_header byte_at range read_u32 from_le_bytes
special_decodes = refl

decode_special_pool_header_places_example :
    (0x20 ≡ 0x7_0020 % 2 ^ 13)
    × (16 ≡ 16 + 0x7_0020 / 2 ^ 14 % 2 * 8)
    × (0 < 0x20)
    × (0x20 ≤ aligned_16 0x20)
    × (aligned_16 0x20 < 0x20 + 16)
    × (16 + aligned_16 0x20 ≤ page_size)
decode_special_pool_header_places_example =
    decode_special_pool_header_places special_bytes 0 kernel_layout special_word special_decodes
