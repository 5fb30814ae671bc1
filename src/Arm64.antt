-- ===== src/Arm64.antt =====
-- src/arm64.rs: what an A64 word does to control flow, and the lengths in ARM64 unwind data. `Flow`
-- is that of src/dbgeng.rs.
pub mod Displacement
pub mod Branches
pub mod Exceptions
pub mod Unwind
mod Tests
use dbgscope.Base.{
  ℕ, ◌+◌, ◌*◌, ◌-◌, ◌/◌, ◌%◌, ◌^◌, bit_and, Bool, true, false, not, ◌||◌, ◌&&◌, ◌==◌, ltb,
  if◌then◌else◌, Option, none, some,
}
use dbgscope.Base.Words.{u32, u64}

pub data Flow : Type 0 where
  fallthrough : Flow
  call jmp branch : Option ℕ → Flow
  return trap unknown unreadable : Flow

unfoldable pub target : Flow → Option ℕ
target (call t) = t
target (jmp t) = t
target (branch t) = t
target _ = none

unfoldable pub falls_through : Flow → Bool
falls_through fallthrough = true
falls_through (call t) = true
falls_through (branch t) = true
falls_through unknown = true
falls_through _ = false

-- `INSTRUCTION_BYTES`.
abbrev pub instruction_bytes : ℕ
instruction_bytes = 4

-- `v >> shift` on an `i32`, whose bits are `v`: the sign fills from the left.
abbrev pub shift_right_i32 : ℕ → ℕ → ℕ
shift_right_i32 v shift =
    if ltb v (2 ^ 31) then v / 2 ^ shift else v / 2 ^ shift + (2 ^ 32 - 2 ^ (32 - shift))

-- `v as i64`, of the `i32` whose bits are `v`.
abbrev pub i32_as_i64 : ℕ → ℕ
i32_as_i64 v = if ltb v (2 ^ 31) then v else v + (2 ^ 64 - 2 ^ 32)

unfoldable pub relative : ℕ → ℕ → ℕ → ℕ
relative address immediate bits =
    let shift = 32 - bits in
    let displacement = i32_as_i64 (shift_right_i32 (u32 (immediate * 2 ^ shift)) shift) in
    u64 (address + u64 (displacement * instruction_bytes))

-- The class of `b` and `bl`.
abbrev pub unconditional_flow : ℕ → ℕ → Flow
unconditional_flow word address =
    let target = relative address (bit_and word 0x03ff_ffff) 26 in
    if bit_and word 0x8000_0000 == 0 then jmp (some target) else call (some target)

-- The class of `b.cond` and `bc.cond`.
abbrev pub conditional_flow : ℕ → ℕ → Flow
conditional_flow word address =
    let target = relative address (bit_and (word / 2 ^ 5) 0x0007_ffff) 19 in
    if not (bit_and word 0x0100_0000 == 0)
    then trap
    else if bit_and word 0xe == 0xe
    then jmp (some target)
    else branch (some target)

-- The class of `br`, `blr`, `ret`, `eret` and `drps`.
abbrev pub register_flow : ℕ → Flow
register_flow word =
    let op2 = bit_and (word / 2 ^ 16) 0x1f in
    let op3 = bit_and (word / 2 ^ 10) 0x3f in
    let opc = bit_and (word / 2 ^ 21) 0xf in
    if not (op2 == 0b11111) || not (op3 == 0b000000 || op3 == 0b000010 || op3 == 0b000011)
    then trap
    else if opc == 0b0000 || opc == 0b1000
    then jmp none
    else if opc == 0b0001 || opc == 0b1001
    then call none
    else if opc == 0b0010 || opc == 0b0100 || opc == 0b0101
    then return
    else trap

-- The class of `svc`, `hvc`, `smc`, `brk`, `hlt`, `tcancel` and `dcps`.
abbrev pub exception_flow : ℕ → Flow
exception_flow word =
    let opc = bit_and (word / 2 ^ 21) 0x7 in
    let op2 = bit_and (word / 2 ^ 2) 0x7 in
    let ll = bit_and word 0x3 in
    if opc == 0b000 && op2 == 0b000 && (ll == 0b01 || ll == 0b10 || ll == 0b11)
    then fallthrough
    else trap

unfoldable pub flow : ℕ → ℕ → Flow
flow word address =
    if bit_and word 0x7c00_0000 == 0x1400_0000
    then unconditional_flow word address
    else if bit_and word 0xfe00_0000 == 0x5400_0000
    then conditional_flow word address
    else if bit_and word 0x7e00_0000 == 0x3400_0000
    then branch (some (relative address (bit_and (word / 2 ^ 5) 0x0007_ffff) 19))
    else if bit_and word 0x7e00_0000 == 0x3600_0000
    then branch (some (relative address (bit_and (word / 2 ^ 5) 0x0000_3fff) 14))
    else if bit_and word 0xfe00_0000 == 0xd600_0000
    then register_flow word
    else if bit_and word 0xff00_0000 == 0xd400_0000
    then exception_flow word
    else if bit_and (word / 2 ^ 25) 0xf == 0
    then trap
    else fallthrough

pub data UnwindRecord : Type 0 where
  packed_length xdata_at : ℕ → UnwindRecord
  reserved : UnwindRecord

unfoldable pub unwind_record : ℕ → UnwindRecord
unwind_record second_word =
    let kind = bit_and second_word 0x3 in
    if kind == 0
    then xdata_at second_word
    else if kind == 3
    then reserved
    else packed_length (bit_and (second_word / 2 ^ 2) 0x7ff * 4)

unfoldable pub xdata_length : ℕ → Option ℕ
xdata_length header =
    if bit_and (header / 2 ^ 18) 0x3 == 0 then some (bit_and header 0x0003_ffff * 4) else none
