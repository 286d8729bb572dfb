-- ===== src/Branch.antt =====
-- arm_branch_other.c.
pub mod Target
use projet_prog.Base.{ℕ, ◌>>>◌, bit_and, bit_xor, add32, sub32, minus_one, ◌==◌, if◌then◌else◌}
use projet_prog.Core.{M, pure, ◌>>=◌, ◌>>◌, arm_read_register, arm_write_register}
use projet_prog.Conditions.{arm_check_cond, undefined_instruction}
use projet_prog.Util.{get_bit}

-- b_offset, as the 32-bit pattern of the int32_t
unfoldable pub branch_offset : ℕ → ℕ
branch_offset ins =
    let mask : ℕ = 0xFFFFFF in
    let offset_masked = bit_and ins mask in sub32 (bit_xor offset_masked mask) mask

unfoldable pub arm_branch : ℕ → M ℕ
arm_branch ins = do
  let linked = bit_and (ins >>> 24) 1
  pc ← arm_read_register 15
  passed ← arm_check_cond ins
  if passed == 1
      then (do
        if linked == 0 then pure tt else arm_write_register 14 (add32 pc 4)
        arm_write_register 15 (add32 pc (branch_offset ins))
        pure 0)
      else pure minus_one

-- SOFTWARE_INTERRUPT is 8.
unfoldable pub arm_coprocessor_others_swi : ℕ → M ℕ
arm_coprocessor_others_swi ins = pure (if get_bit ins 24 == 0 then undefined_instruction else 8)

unfoldable pub arm_miscellaneous : ℕ → M ℕ
arm_miscellaneous ins = pure undefined_instruction
