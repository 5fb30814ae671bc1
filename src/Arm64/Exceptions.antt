-- ===== src/Arm64/Exceptions.antt =====
-- The flow of the words that raise an exception or branch to a register.
use dbgscope.Base.{
  ℕ, ◌+◌, ◌*◌, ◌/◌, ◌^◌, ◌<◌, ◌≡◌, ◌∙◌, bit_and, arith, false, ◌==◌, if◌then◌else◌, not, ◌&&◌,
}
use dbgscope.Base.Bits.Mask.{and_low_mask, and_field}
use dbgscope.Arm64.{flow, fallthrough, trap}

-- Exception generation: of the words with the class 11010100, those of a system call, `svc`, `hvc`
-- and `smc`, continue at the next word, and all others trap.
pub flow-exception :
    (address opc immediate op2 level : ℕ)
    → opc < 2 ^ 3
    → immediate < 2 ^ 16
    → op2 < 2 ^ 3
    → level < 2 ^ 2
    → flow (0xd400_0000 + opc * 2 ^ 21 + immediate * 2 ^ 5 + op2 * 2 ^ 2 + level) address
      ≡ (if opc == 0 && op2 == 0 && not (level == 0) then fallthrough else trap)
unfolding flow
flow-exception address opc immediate op2 level o i p l =
    let word = 0xd400_0000 + opc * 2 ^ 21 + immediate * 2 ^ 5 + op2 * 2 ^ 2 + level in
    let unconditional : (bit_and word 0x7c00_0000 == 0x1400_0000) ≡ false =
      ground (arith, and_field 5 26 word) in
    let conditional : (bit_and word 0xfe00_0000 == 0x5400_0000) ≡ false =
      ground (arith, and_field 7 25 word) in
    let compare : (bit_and word 0x7e00_0000 == 0x3400_0000) ≡ false =
      ground (arith, and_field 6 25 word) in
    let test : (bit_and word 0x7e00_0000 == 0x3600_0000) ≡ false =
      ground (arith, and_field 6 25 word) in
    let register : (bit_and word 0xfe00_0000 == 0xd600_0000) ≡ false =
      ground (arith, and_field 7 25 word) in
    let class : bit_and word 0xff00_0000 ≡ 0xd400_0000 = and_field 8 24 word ∙ omega arith in
    let opc_field : bit_and (word / 2 ^ 21) 0x7 ≡ opc =
      and_low_mask 3 (word / 2 ^ 21) ∙ omega arith in
    let op2_field : bit_and (word / 2 ^ 2) 0x7 ≡ op2 =
      and_low_mask 3 (word / 2 ^ 2) ∙ omega arith in
    let level_field : bit_and word 0x3 ≡ level = and_low_mask 2 word ∙ omega arith in
    rw
      (
        unconditional, conditional, compare, test, register, class, opc_field, op2_field,
        level_field,
      )
      (ground arith)
