-- ===== src/Decode/Descriptor/Word.antt =====
-- The descriptor word, and the same word read out of a descriptor in memory.
use dbgscope.Base.{
  ℕ, ◌+◌, ◌*◌, ◌-◌, ◌/◌, ◌%◌, ◌^◌, ◌≤◌, ◌<◌, ◌≡◌, refl, ap, ◌∙◌, arith, false, not, ◌==◌,
  if◌then◌else◌, Option, none, some, List, [], ◌∷◌, length, take, drop, get_elem?, All, min, bit_or,
  then_some, get_elem?-take, get_elem?-drop, All-take, All-drop, length-take, length-drop,
  get_elem?-All, ◌↔◌, le→leb,
}
use dbgscope.Base.Words.{IsByte, u32}
use dbgscope.Base.Bits.Mask.{and_low_mask, and_field, or_shifted, zero-or}
use dbgscope.Decode.Bytes.{range, from_le_bytes}
use dbgscope.Decode.Bytes.Laws.{range_inside}
use dbgscope.Decode.Descriptor.{
  Descriptor, descriptor_backend, decode_descriptor, decode_descriptor_at, fold_unit,
}
use dbgscope.Pool.{lfh, vs, segment}

-- The backend is read from bits 2 and 3 of the flags alone: bit 3 clear is a plain page range,
-- and where it is set bit 2 tells a VS subsegment from an LFH one.
pub descriptor_backend_bits :
    (flags : ℕ)
    → ((descriptor_backend flags ≡ segment) ↔ (flags / 8 % 2 ≡ 0))
      × ((descriptor_backend flags ≡ vs) ↔ ((flags / 8 % 2 ≡ 1) × (flags / 4 % 2 ≡ 1)))
      × ((descriptor_backend flags ≡ lfh) ↔ ((flags / 8 % 2 ≡ 1) × (flags / 4 % 2 ≡ 0)))
unfolding descriptor_backend
descriptor_backend_bits flags = ground (arith, and_field 1 3 flags, and_field 1 2 flags)

decode_descriptor-eq :
    (word : ℕ)
    → decode_descriptor word
      ≡ then_some (not (word % 2 ^ 24 == 0)) (record {
        unit_size = word % 2 ^ 24;
        flags = word / 2 ^ 24 % 256;
        first = word / 2 ^ 25 % 2 == 1;
      })
unfolding decode_descriptor
decode_descriptor-eq word =
    ground (arith, and_low_mask 24 word, and_field 1 1 (word / 2 ^ 24 % 256))

-- A word packed from a unit count and flags decodes to them, and the first bit is read from the
-- flags; a unit count of zero is no descriptor.
pub decode_descriptor-pack :
    (unit_size flags : ℕ)
    → unit_size < 2 ^ 24
    → flags < 256
    → decode_descriptor (unit_size + flags * 2 ^ 24) ≡ (
        if unit_size == 0
        then none
        else some (record { unit_size = unit_size; flags = flags; first = flags / 2 % 2 == 1 }))
decode_descriptor-pack unit_size flags h f =
    ground (arith, decode_descriptor-eq (unit_size + flags * 2 ^ 24))

or_byte_0 : (b : ℕ) → b < 256 → bit_or 0 (u32 (b * 2 ^ 0)) ≡ b
or_byte_0 b h = zero-or (u32 (b * 2 ^ 0)) ∙ omega arith

or_byte_8 : (a b : ℕ) → a < 2 ^ 8 → b < 256 → bit_or a (u32 (b * 2 ^ 8)) ≡ a + b * 2 ^ 8
or_byte_8 a b h k = ap (bit_or a) {y = b * 2 ^ 8} (omega arith) ∙ or_shifted 8 a b h

or_byte_16 : (a b : ℕ) → a < 2 ^ 16 → b < 256 → bit_or a (u32 (b * 2 ^ 16)) ≡ a + b * 2 ^ 16
or_byte_16 a b h k = ap (bit_or a) {y = b * 2 ^ 16} (omega arith) ∙ or_shifted 16 a b h

or_byte_24 : (a b : ℕ) → a < 2 ^ 24 → b < 256 → bit_or a (u32 (b * 2 ^ 24)) ≡ a + b * 2 ^ 24
or_byte_24 a b h k = ap (bit_or a) {y = b * 2 ^ 24} (omega arith) ∙ or_shifted 24 a b h

-- The fold over one to three bytes reads a little-endian number.
fold_unit-from_le_bytes :
    (bs : List ℕ) → All IsByte bs → length bs ≤ 3 → fold_unit 0 0 bs ≡ from_le_bytes bs
unfolding fold_unit from_le_bytes
fold_unit-from_le_bytes [] h l = refl
fold_unit-from_le_bytes (a ∷ []) h l = omega (arith, or_byte_0 a h.0)
fold_unit-from_le_bytes (a ∷ b ∷ []) h l =
    rw (or_byte_0 a h.0) (rw (or_byte_8 a b h.0 h.1.0) (omega arith))
fold_unit-from_le_bytes (a ∷ b ∷ c ∷ []) h l = rw (or_byte_0 a h.0) (
    rw (or_byte_8 a b h.0 h.1.0)
      (rw (or_byte_16 (a + b * 2 ^ 8) c (omega arith) h.1.1.0) (omega arith)))
fold_unit-from_le_bytes (a ∷ b ∷ c ∷ d ∷ rest) h l = absurd (omega arith)

three_bytes_lt : (bs : List ℕ) → All IsByte bs → length bs ≤ 3 → from_le_bytes bs < 2 ^ 24
unfolding from_le_bytes
three_bytes_lt [] h l = omega arith
three_bytes_lt (a ∷ []) h l = omega arith
three_bytes_lt (a ∷ b ∷ []) h l = omega arith
three_bytes_lt (a ∷ b ∷ c ∷ []) h l = omega arith
three_bytes_lt (a ∷ b ∷ c ∷ d ∷ rest) h l = absurd (omega arith)

-- What a descriptor in memory says: a unit count of up to three bytes, as many as the descriptor
-- has room for from the field on, and one byte of flags.
pub descriptor_in_memory : List ℕ → ℕ → ℕ → ℕ → ℕ → ℕ → Option Descriptor
descriptor_in_memory bytes offset descriptor_size unit_size_offset flags_offset flags =
    let unit_size = from_le_bytes (
      take (min (descriptor_size - unit_size_offset) 3)
        (drop unit_size_offset (take descriptor_size (drop offset bytes)))) in
    if unit_size == 0
    then none
    else some (record { unit_size = unit_size; flags = flags; first = flags / 2 % 2 == 1 })

-- A descriptor that lies inside a list of bytes shorter than 2 ^ 64, with its unit count and its
-- flags inside it, is read as the unit count that its at most three bytes make and its flags; it
-- is refused exactly where the count is zero.
pub decode_descriptor_at_reads :
    (bytes : List ℕ) (offset descriptor_size unit_size_offset flags_offset : ℕ) {flags : ℕ}
    → All IsByte bytes
    → offset + descriptor_size ≤ length bytes
    → length bytes < 2 ^ 64
    → unit_size_offset < descriptor_size
    → flags_offset < descriptor_size
    → get_elem? bytes (offset + flags_offset) ≡ some flags
    → decode_descriptor_at bytes offset descriptor_size unit_size_offset flags_offset
      ≡ descriptor_in_memory bytes offset descriptor_size unit_size_offset flags_offset flags
unfolding decode_descriptor_at descriptor_in_memory
decode_descriptor_at_reads bytes offset descriptor_size unit_size_offset flags_offset {flags} h l f
      u g e =
    let descriptor = take descriptor_size (drop offset bytes) in
    let width : ℕ = min (descriptor_size - unit_size_offset) 3 in
    let unit_bytes = take width (drop unit_size_offset descriptor) in
    let size : length descriptor ≡ descriptor_size =
      length-take descriptor_size (drop offset bytes) ∙ omega (arith, length-drop offset bytes) in
    let read : range bytes offset descriptor_size ≡ some descriptor =
      range_inside bytes offset descriptor_size l (omega arith) in
    let read_unit : range descriptor unit_size_offset width ≡ some unit_bytes =
      range_inside descriptor unit_size_offset width (omega arith) (omega arith) in
    let flag : get_elem? descriptor flags_offset ≡ some flags =
      get_elem?-take descriptor_size flags_offset (drop offset bytes) g
      ∙ get_elem?-drop offset flags_offset bytes
      ∙ e in
    let of_bytes : All IsByte unit_bytes = All-take IsByte width _ (
      All-drop IsByte unit_size_offset _
        (All-take IsByte descriptor_size _ (All-drop IsByte offset bytes h))) in
    let byte : IsByte flags = get_elem?-All IsByte bytes (offset + flags_offset) h e in
    let short : length unit_bytes ≤ 3 =
      omega (arith, length-take width (drop unit_size_offset descriptor)) in
    let some_width : (width == 0) ≡ false = ground arith in
    let folded : fold_unit 0 0 unit_bytes ≡ from_le_bytes unit_bytes =
      fold_unit-from_le_bytes unit_bytes of_bytes short in
    let fits : from_le_bytes unit_bytes < 2 ^ 24 = three_bytes_lt unit_bytes of_bytes short in
    rw (read, le→leb unit_size_offset descriptor_size (omega arith))
      (rw some_width (
        rw (read_unit, flag, folded, or_byte_24 (from_le_bytes unit_bytes) flags fits byte)
          (decode_descriptor-pack (from_le_bytes unit_bytes) flags fits byte)))
