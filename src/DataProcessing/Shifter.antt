-- ===== src/DataProcessing/Shifter.antt =====
-- arm_data_processing.c: the shifter operand of a register and of an immediate. Each returns the
-- operand and the shifter's carry. The source reads the register rm once for the value and again
-- for each carry; the reads change nothing, so the model reads it once.
use projet_prog.Base.{
  ℕ, ◌-◌, ◌*◌, ◌>>>◌, ◌<<<◌, bit_and, bit_or, u8, sub32, shl, shr, ltb, ◌==◌, ◌&&◌, not, as_int,
  if◌then◌else◌, Machine,
}
use projet_prog.Core.{M, pure, ◌>>=◌, arm_read_register, arm_read_cpsr}
use projet_prog.Util.{get_bit, get_bit_at, asr, ror}

module _ ⦃m : Machine⦄ where
  -- shift by an immediate: LSL 0, LSR 1, ASR 2, ROR 3
  unfoldable pub shift_by_immediate : (mode imm value carry : ℕ) → ℕ × ℕ
  shift_by_immediate mode imm value carry =
      if (mode == 0) && (imm == 0)
      then (value, carry)
      else if mode == 0
      then (if imm == 0 then (0, carry) else (shl value imm, get_bit_at value (32 - imm)))
      else if mode == 1
      then (shr value imm, (if imm == 0 then get_bit value 31 else get_bit_at value (imm - 1)))
      else if mode == 2
      then (if imm == 0
          then (if get_bit value 31 == 0
              then (0, get_bit value 31)
              else (0xFFFFFFFF, get_bit value 31))
          else (asr value imm, get_bit_at value (imm - 1)))
      else if mode == 3
      then (if imm == 0
          then (bit_or (value >>> 1) (carry <<< 31), get_bit value 0)
          else (ror value imm, get_bit_at value (imm - 1)))
      else (0, 0)

  -- shift by a register; the count is the low byte of that register
  unfoldable pub shift_by_register : (mode count value carry : ℕ) → ℕ × ℕ
  shift_by_register mode count value carry =
      if mode == 0
      then (
        shl value count,
        (if count == 0
            then carry
            else if ltb count 32
            then get_bit_at value (32 - count)
            else if count == 32
            then get_bit value 0
            else 0),
      )
      else if mode == 1
      then (
        shr value count,
        (if count == 0
            then carry
            else if ltb count 32
            then get_bit_at value (count - 1)
            else if count == 32
            then get_bit value 31
            else 0),
      )
      else if mode == 2
      then (
        asr value count,
        (if count == 0 then carry else if ltb count 32 then get_bit_at value (count - 1) else 0),
      )
      else if mode == 3
      then (
        ror value count,
        (if count == 0
            then carry
            else if not (bit_and count (as_int (0x1F == 0)) == 0)
            then get_bit value 31
            else get_bit_at value (sub32 (bit_and count 0xF) 1)),
      )
      else (0, 0)

  unfoldable pub shift : ℕ → M (ℕ × ℕ)
  shift ins = do
    let rm = bit_and ins 0xF
    cpsr ← arm_read_cpsr
    let carry = bit_and (cpsr >>> 29) 1
    let mode = bit_and (ins >>> 5) 3
    if bit_and (ins >>> 4) 1 == 0
        then (do
          value ← arm_read_register rm
          pure (shift_by_immediate mode (bit_and (ins >>> 7) 0x1F) value carry))
        else do
          value ← arm_read_register rm
          count ← arm_read_register (bit_and (ins >>> 8) 0xF)
          pure (shift_by_register mode (u8 count) value carry)

  unfoldable pub rotate_immediate : ℕ → ℕ → ℕ
  rotate_immediate immed_8 rotate_imm =
      bit_or (shr immed_8 (2 * rotate_imm)) (shl immed_8 (32 - 2 * rotate_imm))

  unfoldable pub rotate : ℕ → M (ℕ × ℕ)
  rotate ins = do
    let immed_8 = bit_and ins 0xFF
    let rotate_imm = bit_and (ins >>> 8) 0xF
    let immediate = rotate_immediate immed_8 rotate_imm
    cpsr ← arm_read_cpsr
    pure (immediate, (if rotate_imm == 0 then get_bit cpsr 29 else get_bit immediate 31))
