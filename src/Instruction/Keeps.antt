-- ===== src/Instruction/Keeps.antt =====
-- What one step keeps, and the codes that it can return.
use projet_prog.Base.{
  ℕ, ◌≡◌, ◌⊎◌, inl, inr, refl, arith, u8, add32, minus_one, false, ◌==◌, Machine,
}
use projet_prog.Base.Fault.{MayFault, After}
use projet_prog.Core.{Core}
use projet_prog.Core.Valid.{
  IsValid, Regime, Yields, Yields-bind, Yields-then, Yields-pure, Yields-if, Yields-case,
  Yields-mono,
}
use projet_prog.Core.Rules.{
  IsZero, arm_read_register-Yields, arm_write_register-Yields, arm_read_cpsr-Yields,
}
use projet_prog.Core.Regimes.{SameSize, SameSize-Regime, SameSize-refl}
use projet_prog.Core.Access.{arm_fetch-Yields}
use projet_prog.Memory.Reads.{IsCode}
use projet_prog.Conditions.{arm_check_cond, undefined_instruction}
use projet_prog.Branch.{arm_branch}
use projet_prog.Exception.{arm_exception, reset_or_return, software_interrupt, reset}
use projet_prog.LoadStore.{arm_coprocessor_load_store}
use projet_prog.LoadStore.Stores.{arm_load_store-Yields, arm_load_store_multiple-Yields}
use projet_prog.DataProcessing.Total.{shift_instruction-Yields, immediate_instruction-Yields}
use projet_prog.Instruction.{instruction_switch, arm_execute_instruction, arm_step}

-- The code of an executed instruction: success, undefined instruction or -1.
abbrev pub IsResult : ℕ → Type 0
IsResult r = (r ≡ 0) ⊎ (r ≡ undefined_instruction) ⊎ (r ≡ minus_one)

-- The code of a step: success, undefined instruction, or the byte of -1.
abbrev pub IsStepCode : ℕ → Type 0
IsStepCode r = (r ≡ 0) ⊎ (r ≡ undefined_instruction) ⊎ (r ≡ 255)

module _ {F : Type 0} {Inv : Core → Type 0} (R : Regime Inv) (ins : ℕ) where
  pub arm_check_cond-Yields : Yields F Inv (λ _. Unit {0}) (arm_check_cond ins)
  unfolding arm_check_cond
  arm_check_cond-Yields = Yields-bind (arm_read_cpsr-Yields R) λ cpsr w. Yields-pure _ tt

  pub arm_branch-Yields : Yields F Inv IsCode (arm_branch ins)
  unfolding arm_branch
  arm_branch-Yields = Yields-bind (arm_read_register-Yields R 15 (omega arith)) λ pc w.
      Yields-bind arm_check_cond-Yields λ passed _.
        Yields-if (passed == 1)
          (Yields-then
            (Yields-if _ (Yields-pure tt tt)
              (arm_write_register-Yields R 14 (add32 pc 4) (omega arith) (omega arith)))
            (Yields-then (arm_write_register-Yields R 15 _ (omega arith) (omega arith))
              (Yields-pure 0 (inl refl))))
          (Yields-pure minus_one (inr refl))

pub outcome-IsResult : (r : ℕ) → IsCode r → IsResult r
outcome-IsResult r h = ground arith

pub zero-IsResult : (r : ℕ) → IsZero r → IsResult r
zero-IsResult r h = ground arith

module _ ⦃m : Machine⦄ {F : Type 0} {Inv : Core → Type 0} where
  -- Neither code is an exception that the simulator handles.
  pub unhandled :
      (r : ℕ) → IsResult r → (r == 0) ≡ false → Yields F Inv IsStepCode (arm_exception (u8 r))
  unfolding arm_exception reset_or_return
  unhandled r h e =
      Yields-case (u8 r == software_interrupt) (λ is. absurd (ground arith))
        λ n8.
          Yields-case (u8 r == reset) (λ is. absurd (ground arith))
            λ n1. Yields-pure _ (ground arith)

module _ ⦃m : Machine⦄ (q : Core) where
  instruction_switch-Yields :
      (type ins : ℕ) → Yields MayFault (SameSize q) IsResult (instruction_switch type ins)
  unfolding instruction_switch arm_coprocessor_load_store
  instruction_switch-Yields type ins =
      let R = SameSize-Regime q in
      Yields-if (type == 0) (Yields-mono (shift_instruction-Yields R ins) zero-IsResult) (
        Yields-if (type == 1) (Yields-mono (immediate_instruction-Yields R ins) zero-IsResult) (
          Yields-if (type == 2) (Yields-mono (arm_load_store-Yields q ins) outcome-IsResult) (
            Yields-if (type == 4)
              (Yields-mono (arm_load_store_multiple-Yields q ins) outcome-IsResult)
              (Yields-if (type == 6) (Yields-pure _ (inr (inl refl))) (
                Yields-if (type == 5) (Yields-mono (arm_branch-Yields R ins) outcome-IsResult)
                  (Yields-pure _ (inr (inl refl))))))))

  arm_execute_instruction-Yields : Yields MayFault (SameSize q) IsResult arm_execute_instruction
  unfolding arm_execute_instruction
  arm_execute_instruction-Yields = Yields-bind (arm_fetch-Yields q m.junk m.junk_lt) λ r h.
      Yields-if (r.0 == 0)
        (Yields-bind (arm_check_cond-Yields (SameSize-Regime q) r.1) λ passed _.
          Yields-if (passed == 0) (Yields-pure _ (outcome-IsResult r.0 h.0))
            (instruction_switch-Yields _ r.1))
        (Yields-pure _ (outcome-IsResult r.0 h.0))

  pub arm_step-Yields : Yields MayFault (SameSize q) IsStepCode arm_step
  unfolding arm_step
  arm_step-Yields =
      Yields-bind arm_execute_instruction-Yields
        λ r h. Yields-case (r == 0) (λ e. Yields-pure _ (ground arith)) λ e. unhandled r h e

  -- A step from a valid state that makes no access outside an allocated object ends in a valid
  -- state with the same memory size and output, with success, undefined instruction or the byte
  -- of -1.
  pub arm_step-SameSize :
      IsValid q → After MayFault (λ (r : ℕ × Core). IsStepCode r.0 × SameSize q r.1) (arm_step q)
  arm_step-SameSize v = arm_step-Yields.run q (SameSize-refl q v)
