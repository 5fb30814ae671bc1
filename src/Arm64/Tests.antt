-- ===== src/Arm64/Tests.antt =====
-- Words of each class.
use dbgscope.Base.{◌+◌, ◌*◌, ◌^◌, ◌≡◌, ◌==◌, ltb, arith, if◌then◌else◌, some}
use dbgscope.Arm64.{flow, jmp, branch, trap}
use dbgscope.Arm64.Displacement.{displaced}
use dbgscope.Arm64.Branches.{flow-conditional}

-- `b.al`.
flow-conditional_example : flow (0x5400_0000 + 0 * 2 ^ 24 + 8 * 2 ^ 5 + 0 * 2 ^ 4 + 14) 0x1000 ≡ (
    if 0 == 0
    then (if ltb 14 14
        then branch (some (displaced 0x1000 8 19))
        else jmp (some (displaced 0x1000 8 19)))
    else trap)
flow-conditional_example =
    flow-conditional 0x1000 0 8 0 14 (omega arith) (omega arith) (omega arith) (omega arith)
