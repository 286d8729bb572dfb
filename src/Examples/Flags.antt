-- ===== src/Examples/Flags.antt =====
-- The theorems on conditions, flags and branches at concrete states.
use projet_prog.Base.{
  ℕ, ◌/◌, ◌%◌, ◌^◌, ◌≡◌, refl, arith, some, as_int, minus_one, ◌==◌, if◌then◌else◌,
}
use projet_prog.Core.{Core}
use projet_prog.Core.Values.{visible, with_register}
use projet_prog.Conditions.{arm_check_cond}
use projet_prog.Conditions.Meaning.{hi, le, code, expected, flags, arm_check_cond-meaning}
use projet_prog.Branch.{arm_branch}
use projet_prog.Branch.Target.{branched, arm_branch-branched}
use projet_prog.DataProcessing.{opcode_switch}
use projet_prog.DataProcessing.Meaning.{sbc_op, opcode_of, value_of, carry_in, opcode_switch-value}
use projet_prog.DataProcessing.Compare.{above, condition, related, opcode_switch-arm_check_cond}
use projet_prog.Examples.{cpu, cpu-IsValid}

arm_check_cond-meaning_example : arm_check_cond 0xD0000000 cpu ≡ some (expected le (flags cpu), cpu)
arm_check_cond-meaning_example = arm_check_cond-meaning le 0xD0000000 cpu refl

opcode_switch-value_example :
    opcode_switch (opcode_of sbc_op) 0 4 3 9 0 cpu
    ≡ some (0, with_register cpu 3 (value_of sbc_op (visible cpu 4) 9 (carry_in cpu)))
opcode_switch-value_example = opcode_switch-value sbc_op cpu 4 3 9 0 (omega arith) (omega arith)

opcode_switch-arm_check_cond_example :
    (p' : Core) × (opcode_switch 0xA 1 7 0 5 0 cpu ≡ some (0, p'))
    × ((ins : ℕ)
        → ins / 2 ^ 28 % 16 ≡ code (condition above)
        → arm_check_cond ins p' ≡ some (as_int (related above (visible cpu 7) 5), p'))
opcode_switch-arm_check_cond_example =
    opcode_switch-arm_check_cond above cpu 1 7 0 5 0 cpu-IsValid (omega arith) (omega arith)

-- BLHI with the field 8
arm_branch-branched_example : arm_branch 0x8B000008 cpu ≡ (
    if expected hi (flags cpu) == 1
    then some (0, branched 0x8B000008 cpu)
    else some (minus_one, cpu))
arm_branch-branched_example = arm_branch-branched hi 0x8B000008 cpu refl
