-- ===== src/DataProcessing/Total.antt =====
-- The two decoders of data-processing instructions are total and touch the registers only.
use projet_prog.Base.{ℕ, arith, ◌>>>◌, bit_and-lt_right, Machine}
use projet_prog.Core.{Core}
use projet_prog.Core.Valid.{IsValid, Regime, Yields, Yields-bind}
use projet_prog.Core.Rules.{IsZero}
use projet_prog.Core.Regimes.{
  OnlyRegisters, OnlyRegisters-Regime, OnlyRegisters-refl, Returns, Yields-Returns,
}
use projet_prog.DataProcessing.{arm_data_processing_shift, arm_data_processing_immediate_msr}
use projet_prog.DataProcessing.Keeps.{opcode_switch-Yields}
use projet_prog.DataProcessing.Operand.{field-lt, shift-Yields, rotate-Yields}

module _ ⦃m : Machine⦄ where
  module _ {F : Type 0} {Inv : Core → Type 0} (R : Regime Inv) (ins : ℕ) where
    pub shift_instruction-Yields : Yields F Inv IsZero (arm_data_processing_shift ins)
    unfolding arm_data_processing_shift
    shift_instruction-Yields = Yields-bind (shift-Yields R ins) λ r w.
        opcode_switch-Yields R _ _ _ _ _ (field-lt ins 16) (field-lt ins 12) w _
          (bit_and-lt_right 4 (ins >>> 21) 0xF (omega arith))

    pub immediate_instruction-Yields : Yields F Inv IsZero (arm_data_processing_immediate_msr ins)
    unfolding arm_data_processing_immediate_msr
    immediate_instruction-Yields = Yields-bind (rotate-Yields R ins) λ r w.
        opcode_switch-Yields R _ _ _ _ _ (field-lt ins 16) (field-lt ins 12) w _
          (bit_and-lt_right 4 (ins >>> 21) 0xF (omega arith))

  -- From every valid state, every data-processing instruction with a register operand is executed
  -- without undefined access, returns 0, and changes nothing but registers, which stay words.
  pub arm_data_processing_shift-OnlyRegisters :
      (ins : ℕ) (p : Core)
      → IsValid p
      → Returns IsZero (OnlyRegisters p) (arm_data_processing_shift ins p)
  arm_data_processing_shift-OnlyRegisters ins p v =
      Yields-Returns (shift_instruction-Yields (OnlyRegisters-Regime p) ins)
        (OnlyRegisters-refl p v)

  -- The same for every data-processing instruction with an immediate operand.
  pub arm_data_processing_immediate_msr-OnlyRegisters :
      (ins : ℕ) (p : Core)
      → IsValid p
      → Returns IsZero (OnlyRegisters p) (arm_data_processing_immediate_msr ins p)
  arm_data_processing_immediate_msr-OnlyRegisters ins p v =
      Yields-Returns (immediate_instruction-Yields (OnlyRegisters-Regime p) ins)
        (OnlyRegisters-refl p v)
