-- ===== src/Conditions.antt =====
-- arm_conditions.c: the test of an instruction's condition field against the flags of the cpsr.
pub mod Meaning
use projet_prog.Base.{ℕ, ◌>>>◌, bit_and, ◌==◌, ◌&&◌, ◌||◌, not, if◌then◌else◌, as_int}
use projet_prog.Core.{M, pure, ◌>>=◌, arm_read_cpsr}

-- UNDEFINED_INSTRUCTION of arm_constants.h
abbrev pub undefined_instruction : ℕ
undefined_instruction = 7

-- The switch of arm_check_cond, on the condition field and the four flags.
unfoldable pub check_cond : (cond neg is_zero carry over : ℕ) → ℕ
check_cond cond neg is_zero carry over =
    if cond == 0x0
    then as_int (not (is_zero == 0))
    else if cond == 0x1
    then as_int (is_zero == 0)
    else if cond == 0x2
    then as_int (not (carry == 0))
    else if cond == 0x3
    then as_int (carry == 0)
    else if cond == 0x4
    then as_int (not (neg == 0))
    else if cond == 0x5
    then as_int (neg == 0)
    else if cond == 0x6
    then as_int (not (over == 0))
    else if cond == 0x7
    then as_int (over == 0)
    else if cond == 0x8
    then as_int (not (carry == 0) && (is_zero == 0))
    else if cond == 0x9
    then as_int ((carry == 0) || not (is_zero == 0))
    else if cond == 0xA
    then as_int (neg == over)
    else if cond == 0xB
    then as_int (not (neg == over))
    else if cond == 0xC
    then as_int ((is_zero == 0) && (neg == over))
    else if cond == 0xD
    then as_int (not (is_zero == 0) && not (neg == over))
    else if cond == 0xE
    then 1
    else if cond == 0xF
    then undefined_instruction
    else 0

unfoldable pub arm_check_cond : ℕ → M ℕ
arm_check_cond instruction = do
  cpsr ← arm_read_cpsr
  let cond = bit_and (instruction >>> 28) 0xF
  let nzcv = bit_and (cpsr >>> 28) 0xF
  let neg = bit_and (nzcv >>> 3) 1
  let is_zero = bit_and (nzcv >>> 2) 1
  let carry = bit_and (nzcv >>> 1) 1
  let over = bit_and nzcv 1
  pure (check_cond cond neg is_zero carry over)
