-- ===== src/Arm64/Branches.antt =====
-- The flow of the branches, from the fields that the architecture puts into a word.
use dbgscope.Base.{
  ℕ, ◌+◌, ◌*◌, ◌/◌, ◌^◌, ◌<◌, ◌≡◌, ◌∙◌, ap, bit_and, arith, false, ◌==◌, ltb, if◌then◌else◌, some,
}
use dbgscope.Base.Bits.Mask.{and_low_mask, and_field}
use dbgscope.Arm64.{flow, jmp, call, branch, trap}
use dbgscope.Arm64.Displacement.{displaced, relative_26, relative_19, relative_14}

-- `b` and `bl`: a word with the class 00101, with 26 bits of displacement, jumps or calls there, as
-- bit 31 says.
pub flow-unconditional :
    (address link immediate : ℕ)
    → link < 2
    → immediate < 2 ^ 26
    → flow (link * 2 ^ 31 + 0x1400_0000 + immediate) address ≡ (
        if link == 0
        then jmp (some (displaced address immediate 26))
        else call (some (displaced address immediate 26)))
unfolding flow
flow-unconditional address link immediate l i =
    let word = link * 2 ^ 31 + 0x1400_0000 + immediate in
    let class : bit_and word 0x7c00_0000 ≡ 0x1400_0000 = and_field 5 26 word ∙ omega arith in
    let low : bit_and word 0x03ff_ffff ≡ immediate = and_low_mask 26 word ∙ omega arith in
    let top : bit_and word 0x8000_0000 ≡ link * 2 ^ 31 = and_field 1 31 word ∙ omega arith in
    rw (class, low, top, relative_26 address immediate i) (ground arith)

-- `cbz` and `cbnz`: a word with the class 011010, with 19 bits of displacement over a register,
-- branches there.
pub flow-compare :
    (address wide nonzero immediate register : ℕ)
    → wide < 2
    → nonzero < 2
    → immediate < 2 ^ 19
    → register < 2 ^ 5
    → flow (wide * 2 ^ 31 + 0x3400_0000 + nonzero * 2 ^ 24 + immediate * 2 ^ 5 + register) address
      ≡ branch (some (displaced address immediate 19))
unfolding flow
flow-compare address wide nonzero immediate register w n i r =
    let word = wide * 2 ^ 31 + 0x3400_0000 + nonzero * 2 ^ 24 + immediate * 2 ^ 5 + register in
    let unconditional : (bit_and word 0x7c00_0000 == 0x1400_0000) ≡ false =
      ground (arith, and_field 5 26 word) in
    let conditional : (bit_and word 0xfe00_0000 == 0x5400_0000) ≡ false =
      ground (arith, and_field 7 25 word) in
    let class : bit_and word 0x7e00_0000 ≡ 0x3400_0000 = and_field 6 25 word ∙ omega arith in
    let field : bit_and (word / 2 ^ 5) 0x0007_ffff ≡ immediate =
      and_low_mask 19 (word / 2 ^ 5) ∙ omega arith in
    rw (unconditional, conditional, class, field)
      (ap (λ t. branch (some t)) (relative_19 address immediate i))

-- `tbz` and `tbnz`: a word with the class 011011, with 14 bits of displacement between a bit number
-- and a register, branches there.
pub flow-test :
    (address high nonzero bit immediate register : ℕ)
    → high < 2
    → nonzero < 2
    → bit < 2 ^ 5
    → immediate < 2 ^ 14
    → register < 2 ^ 5
    → flow
        (high * 2 ^ 31
          + 0x3600_0000
          + nonzero * 2 ^ 24
          + bit * 2 ^ 19
          + immediate * 2 ^ 5
          + register)
        address
      ≡ branch (some (displaced address immediate 14))
unfolding flow
flow-test address high nonzero bit immediate register h n b i r =
    let word =
      high * 2 ^ 31
      + 0x3600_0000
      + nonzero * 2 ^ 24
      + bit * 2 ^ 19
      + immediate * 2 ^ 5
      + register in
    let unconditional : (bit_and word 0x7c00_0000 == 0x1400_0000) ≡ false =
      ground (arith, and_field 5 26 word) in
    let conditional : (bit_and word 0xfe00_0000 == 0x5400_0000) ≡ false =
      ground (arith, and_field 7 25 word) in
    let class : bit_and word 0x7e00_0000 ≡ 0x3600_0000 = and_field 6 25 word ∙ omega arith in
    let field : bit_and (word / 2 ^ 5) 0x0000_3fff ≡ immediate =
      and_low_mask 14 (word / 2 ^ 5) ∙ omega arith in
    rw (unconditional, conditional, class, field)
      (ap (λ t. branch (some t)) (relative_14 address immediate i))

-- `b.cond` and `bc.cond`: a word with the class 0101010 whose bit 24 is clear branches to its 19 bits
-- of displacement, and jumps there where the condition is one of the two that always hold; with bit
-- 24 set the word is unallocated, and traps.
pub flow-conditional :
    (address unallocated immediate hint condition : ℕ)
    → unallocated < 2
    → immediate < 2 ^ 19
    → hint < 2
    → condition < 2 ^ 4
    → flow
        (0x5400_0000 + unallocated * 2 ^ 24 + immediate * 2 ^ 5 + hint * 2 ^ 4 + condition)
        address
      ≡ (if unallocated == 0
          then (if ltb condition 14
              then branch (some (displaced address immediate 19))
              else jmp (some (displaced address immediate 19)))
          else trap)
unfolding flow
flow-conditional address unallocated immediate hint condition u i h c =
    let word = 0x5400_0000 + unallocated * 2 ^ 24 + immediate * 2 ^ 5 + hint * 2 ^ 4 + condition in
    let unconditional : (bit_and word 0x7c00_0000 == 0x1400_0000) ≡ false =
      ground (arith, and_field 5 26 word) in
    let class : bit_and word 0xfe00_0000 ≡ 0x5400_0000 = and_field 7 25 word ∙ omega arith in
    let o1 : bit_and word 0x0100_0000 ≡ unallocated * 2 ^ 24 = and_field 1 24 word ∙ omega arith in
    let field : bit_and (word / 2 ^ 5) 0x0007_ffff ≡ immediate =
      and_low_mask 19 (word / 2 ^ 5) ∙ omega arith in
    let always : bit_and word 0xe ≡ condition / 2 * 2 = and_field 3 1 word ∙ omega arith in
    rw (unconditional, class, o1, field, always, relative_19 address immediate i) (ground arith)
