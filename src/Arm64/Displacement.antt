-- ===== src/Arm64/Displacement.antt =====
-- Where a relative branch goes: the immediate, read as a signed number of words, from the address
-- of the branch itself.
use dbgscope.Base.{ℕ, ◌+◌, ◌*◌, ◌-◌, ◌^◌, ◌<◌, ◌≡◌, arith, ltb, if◌then◌else◌}
use dbgscope.Base.Words.{u64}
use dbgscope.Arm64.{relative}

-- The address that lies a signed number of words of a given width away; the upper half of the
-- numbers of the width are the negative ones.
abbrev pub displaced : ℕ → ℕ → ℕ → ℕ
displaced address immediate bits =
    if ltb immediate (2 ^ (bits - 1))
    then u64 (address + 4 * immediate)
    else u64 (address + (2 ^ 64 - 4 * (2 ^ bits - immediate)))

pub relative_26 :
    (address immediate : ℕ)
    → immediate < 2 ^ 26
    → relative address immediate 26 ≡ displaced address immediate 26
unfolding relative
relative_26 address immediate h = ground arith

pub relative_19 :
    (address immediate : ℕ)
    → immediate < 2 ^ 19
    → relative address immediate 19 ≡ displaced address immediate 19
unfolding relative
relative_19 address immediate h = ground arith

pub relative_14 :
    (address immediate : ℕ)
    → immediate < 2 ^ 14
    → relative address immediate 14 ≡ displaced address immediate 14
unfolding relative
relative_14 address immediate h = ground arith
