-- ===== src/Core/Rules.antt =====
-- The accessors of arm_core.c in a regime: what they yield and keep, and when they do not fault.
use projet_prog.Base.{
  ℕ, ◌^◌, ◌<◌, ◌≡◌, arith, bit_and, add32, ◌==◌, lt→ltb, bit_and-lt_right, Bool-cases, inl, inr,
}
use projet_prog.Base.Fault.{done}
use projet_prog.Registers.{
  Registers, nb_register, assign, cpsr_mask, registers_get_mode, registers_read, registers_write,
  registers_read_cpsr, registers_write_cpsr, registers_read_spsr,
}
use projet_prog.Core.{
  Core, asks, modify, ◌>>=◌, arm_read_register_internal, arm_read_register,
  arm_write_register_internal, arm_write_register, arm_read_cpsr, arm_write_cpsr, arm_read_spsr,
  arm_current_mode_has_spsr,
}
use projet_prog.Core.Valid.{
  IsWords, Regime, Yields, Yields-bind, Yields-pure, Yields-asks, Yields-modify,
}

-- A value that fits a uint32_t.
abbrev pub Word : ℕ → Type 0
Word v = v < 2 ^ 32

abbrev pub IsZero : ℕ → Type 0
IsZero v = v ≡ 0

abbrev pub Any : Unit {0} → Type 0
Any _ = Unit {0}

pub assign-IsWords : (r : Registers) (i v : ℕ) → IsWords r → Word v → IsWords (assign r i v)
assign-IsWords r i v h w j p = ground (arith, h j p)

module _ {F : Type 0} {Inv : Core → Type 0} (R : Regime Inv) where
  read_internal-Yields :
      (reg mode : ℕ) → reg < nb_register → Yields F Inv Word (arm_read_register_internal reg mode)
  unfolding arm_read_register_internal registers_read
  read_internal-Yields reg mode h =
      Yields-bind
        (Yields-asks λ p i. rw (lt→ltb reg nb_register h) (done ((R.valid p i).words reg h)))
        λ (v : ℕ) (w : Word v). Yields-pure _ (elim (Bool-cases (reg == 15)) [
          | inl pc ↦ rw pc (bit_and-lt_right 32 (add32 v 4) 0xFFFFFFFD (omega arith))
          | inr other ↦ rw other w
        ])

  pub arm_read_register-Yields :
      (reg : ℕ) → reg < nb_register → Yields F Inv Word (arm_read_register reg)
  unfolding arm_read_register
  arm_read_register-Yields reg h = record {
    run = λ p i. (read_internal-Yields reg (registers_get_mode p.reg) h).run p i;
  }

  write_internal-Yields :
      (reg mode value : ℕ)
      → reg < nb_register
      → Word value
      → Yields F Inv Any (arm_write_register_internal reg mode value)
  unfolding arm_write_register_internal registers_write asks modify ◌>>=◌
  write_internal-Yields reg mode value h w = record {
    run = λ p i. rw (lt→ltb reg nb_register h) (
        done (
          tt,
          R.keeps p (assign p.reg reg value) i
              (assign-IsWords p.reg reg value (R.valid p i).words w),
        ));
  }

  pub arm_write_register-Yields :
      (reg value : ℕ)
      → reg < nb_register
      → Word value
      → Yields F Inv Any (arm_write_register reg value)
  unfolding arm_write_register
  arm_write_register-Yields reg value h w = record {
    run = λ p i. (write_internal-Yields reg (registers_get_mode p.reg) value h w).run p i;
  }

  pub arm_read_cpsr-Yields : Yields F Inv Word arm_read_cpsr
  unfolding arm_read_cpsr registers_read_cpsr
  arm_read_cpsr-Yields =
      Yields-asks λ p i. done (bit_and-lt_right 32 (p.reg 16) cpsr_mask (omega arith))

  pub arm_read_spsr-Yields : Yields F Inv Word arm_read_spsr
  unfolding arm_read_spsr registers_read_spsr
  arm_read_spsr-Yields = Yields-asks λ p i. done (omega arith)

  pub arm_write_cpsr-Yields : (value : ℕ) → Yields F Inv Any (arm_write_cpsr value)
  unfolding arm_write_cpsr registers_write_cpsr
  arm_write_cpsr-Yields value = Yields-modify _ λ p i. R.keeps p _ i (
      assign-IsWords p.reg 16 (bit_and value cpsr_mask) (R.valid p i).words
        (bit_and-lt_right 32 value cpsr_mask (omega arith)))

  pub arm_current_mode_has_spsr-Yields : Yields F Inv (λ _. Unit {0}) arm_current_mode_has_spsr
  unfolding arm_current_mode_has_spsr
  arm_current_mode_has_spsr-Yields = Yields-asks λ p i. done tt
