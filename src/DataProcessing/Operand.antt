-- ===== src/DataProcessing/Operand.antt =====
-- The shifter operands are words, and reading them faults nowhere.
use projet_prog.Base.{ℕ, ◌<◌, arith, bit_and, ◌>>>◌, ◌<<<◌, Machine, bit_or-lt, bit_and-lt_right}
use projet_prog.Registers.{nb_register}
use projet_prog.Util.Bounds.{shl-lt, shr-lt, asr-lt, ror-lt}
use projet_prog.Core.{Core}
use projet_prog.Core.Valid.{Regime, Yields, Yields-bind, Yields-pure, Yields-if}
use projet_prog.Core.Rules.{Word, arm_read_register-Yields, arm_read_cpsr-Yields}
use projet_prog.DataProcessing.Shifter.{
  shift_by_immediate, shift_by_register, shift, rotate_immediate, rotate,
}

-- The operand of a pair of operand and carry.
abbrev pub Operand : ℕ × ℕ → Type 0
Operand r = Word r.0

pub field-lt : (x k : ℕ) → bit_and (x >>> k) 0xF < nb_register
field-lt x k = omega (arith, bit_and-lt_right 4 (x >>> k) 0xF (omega arith))

register-lt : (x : ℕ) → bit_and x 0xF < nb_register
register-lt x = omega (arith, bit_and-lt_right 4 x 0xF (omega arith))

module _ ⦃m : Machine⦄ where
  shift_by_immediate-lt :
      (mode imm value carry : ℕ) → Word value → Operand (shift_by_immediate mode imm value carry)
  unfolding shift_by_immediate
  shift_by_immediate-lt mode imm value carry w = ground (
    arith,
    shl-lt value imm,
    shr-lt value imm w,
    asr-lt value imm w,
    ror-lt value imm w,
    bit_or-lt 32 (value >>> 1) (carry <<< 31) (omega arith) (omega arith),
  )

  shift_by_register-lt :
      (mode count value carry : ℕ) → Word value → Operand (shift_by_register mode count value carry)
  unfolding shift_by_register
  shift_by_register-lt mode count value carry w =
      ground (
        arith,
        shl-lt value count,
        shr-lt value count w,
        asr-lt value count w,
        ror-lt value count w,
      )

  pub rotate_immediate-lt :
      (immed_8 rotate_imm : ℕ) → Word immed_8 → Word (rotate_immediate immed_8 rotate_imm)
  unfolding rotate_immediate
  rotate_immediate-lt immed_8 rotate_imm w = bit_or-lt 32 _ _ (shr-lt _ _ w) (shl-lt _ _)

  module _ {F : Type 0} {Inv : Core → Type 0} (R : Regime Inv) (ins : ℕ) where
    pub shift-Yields : Yields F Inv Operand (shift ins)
    unfolding shift
    shift-Yields = Yields-bind (arm_read_cpsr-Yields R) λ cpsr wc.
        Yields-if _
          (Yields-bind (arm_read_register-Yields R _ (register-lt ins))
            λ value w. Yields-pure _ (shift_by_immediate-lt _ _ value _ w))
          (Yields-bind (arm_read_register-Yields R _ (register-lt ins)) λ value w.
            Yields-bind (arm_read_register-Yields R _ (field-lt ins 8))
              λ count wn. Yields-pure _ (shift_by_register-lt _ _ value _ w))

    pub rotate-Yields : Yields F Inv Operand (rotate ins)
    unfolding rotate
    rotate-Yields = Yields-bind (arm_read_cpsr-Yields R) λ cpsr wc.
        Yields-pure _
          (rotate_immediate-lt _ _ (omega (arith, bit_and-lt_right 8 ins 0xFF (omega arith))))
