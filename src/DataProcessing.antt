-- ===== src/DataProcessing.antt =====
-- arm_data_processing.c: the decoders of the two classes of data-processing instructions. The
-- operations are in Alu, the shifter operands in Shifter.
pub mod Alu
pub mod Flags
pub mod Meaning
pub mod Compare
pub mod Shifted
pub mod Logic
pub mod Sums
pub mod Keeps
pub mod Total
pub mod Operand
pub mod Shifter
use projet_prog.Base.{ℕ, ◌>>>◌, bit_and, ◌==◌, if◌then◌else◌, Machine}
use projet_prog.Conditions.{undefined_instruction}
use projet_prog.Core.{M, pure, ◌>>=◌, ◌>>◌, arm_write_register}
use Alu.{and, eor, sub, rsb, add, adc, sbc, rsc, tst, teq, cmp, cmn, orr, mov, bic, mvn}
use Shifter.{shift, rotate}

-- arm_write_register(p, rd, f(...))
abbrev pub write_back : ℕ → M ℕ → M ℕ
write_back rd f = do dest ← f; arm_write_register rd dest; pure 0

-- The switch on the opcode, the same in both decoders.
unfoldable pub opcode_switch : (opcode s rn rd op2 carry_out : ℕ) → M ℕ
opcode_switch opcode s rn rd op2 carry_out =
    if opcode == 0x0
    then write_back rd (and s rn rd op2 carry_out)
    else if opcode == 0x1
    then write_back rd (eor s rn rd op2 carry_out)
    else if opcode == 0x2
    then write_back rd (sub s rn rd op2 carry_out)
    else if opcode == 0x3
    then write_back rd (rsb s rn rd op2 carry_out)
    else if opcode == 0x4
    then write_back rd (add s rn rd op2 carry_out)
    else if opcode == 0x5
    then write_back rd (adc s rn rd op2 carry_out)
    else if opcode == 0x6
    then write_back rd (sbc s rn rd op2 carry_out)
    else if opcode == 0x7
    then write_back rd (rsc s rn rd op2 carry_out)
    else if opcode == 0x8
    then tst s rn rd op2 carry_out >> pure 0
    else if opcode == 0x9
    then teq s rn rd op2 carry_out >> pure 0
    else if opcode == 0xA
    then cmp s rn rd op2 carry_out >> pure 0
    else if opcode == 0xB
    then cmn s rn rd op2 carry_out >> pure 0
    else if opcode == 0xC
    then write_back rd (orr s rn rd op2 carry_out)
    else if opcode == 0xD
    then write_back rd (mov s rn rd op2 carry_out)
    else if opcode == 0xE
    then write_back rd (bic s rn rd op2 carry_out)
    else if opcode == 0xF
    then write_back rd (mvn s rn rd op2 carry_out)
    else pure undefined_instruction

module _ ⦃m : Machine⦄ where
  unfoldable pub arm_data_processing_shift : ℕ → M ℕ
  arm_data_processing_shift ins = do
    let opcode = bit_and (ins >>> 21) 0xF
    let rn = bit_and (ins >>> 16) 0xF
    let rd = bit_and (ins >>> 12) 0xF
    let s = bit_and (ins >>> 20) 1
    (rm, carry_out) ← shift ins
    opcode_switch opcode s rn rd rm carry_out

  unfoldable pub arm_data_processing_immediate_msr : ℕ → M ℕ
  arm_data_processing_immediate_msr ins = do
    let opcode = bit_and (ins >>> 21) 0xF
    let rn = bit_and (ins >>> 16) 0xF
    let rd = bit_and (ins >>> 12) 0xF
    let s = bit_and (ins >>> 20) 1
    (immediate, carry_out) ← rotate ins
    opcode_switch opcode s rn rd immediate carry_out
