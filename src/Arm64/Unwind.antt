-- ===== src/Arm64/Unwind.antt =====
-- The lengths that ARM64 unwind data gives.
use dbgscope.Base.{
  ℕ, ◌+◌, ◌*◌, ◌/◌, ◌^◌, ◌<◌, ◌≡◌, ◌∙◌, bit_and, arith, ◌==◌, if◌then◌else◌, none, some,
}
use dbgscope.Base.Bits.Mask.{and_low_mask}
use dbgscope.Arm64.{unwind_record, xdata_length, xdata_at, packed_length, reserved}

-- A record that is packed with a length in words, below 2048, beside a flag of 1 or 2 and anything
-- above, gives that length in bytes; an address of unwind data, a multiple of four, gives itself; and
-- a flag of 3 gives nothing.
pub unwind_record-pack :
    (flag words rest : ℕ)
    → flag < 4
    → words < 2 ^ 11
    → unwind_record (flag + 4 * words + 2 ^ 13 * rest) ≡ (
        if flag == 0
        then xdata_at (4 * words + 2 ^ 13 * rest)
        else if flag == 3
        then reserved
        else packed_length (4 * words))
unfolding unwind_record
unwind_record-pack flag words rest f w =
    let word = flag + 4 * words + 2 ^ 13 * rest in
    let kind : bit_and word 0x3 ≡ flag = and_low_mask 2 word ∙ omega arith in
    let length : bit_and (word / 2 ^ 2) 0x7ff ≡ words =
      and_low_mask 11 (word / 2 ^ 2) ∙ omega arith in
    rw (kind, length) (ground arith)

-- The length of a header of version 0 with a length in words, below 2 ^ 18, is that in bytes,
-- whatever the fields above; a header of another version has none.
pub xdata_length-pack :
    (words version rest : ℕ)
    → words < 2 ^ 18
    → version < 4
    → xdata_length (words + 2 ^ 18 * version + 2 ^ 20 * rest)
      ≡ (if version == 0 then some (4 * words) else none)
unfolding xdata_length
xdata_length-pack words version rest w v =
    let header = words + 2 ^ 18 * version + 2 ^ 20 * rest in
    let vers : bit_and (header / 2 ^ 18) 0x3 ≡ version =
      and_low_mask 2 (header / 2 ^ 18) ∙ omega arith in
    let length : bit_and header 0x0003_ffff ≡ words = and_low_mask 18 header ∙ omega arith in
    rw (vers, length) (ground arith)
