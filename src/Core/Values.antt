-- ===== src/Core/Values.antt =====
-- The values that the register accessors of arm_core.c give, as equations on runs.
pub use projet_prog.Base.State.{after, asks-eq, onward}
use projet_prog.Base.{ℕ, ◌<◌, ◌≡◌, refl, bit_and, add32, some, ◌==◌, if◌then◌else◌, lt→ltb}
use projet_prog.Registers.{
  nb_register, assign, registers_read, registers_write, registers_read_cpsr,
}
use projet_prog.Core.{
  Core, pure, ◌>>=◌, ◌>>◌, asks, modify, arm_read_cpsr, arm_read_register,
  arm_read_register_internal, arm_write_register, arm_write_register_internal,
}

-- A register as an instruction sees it: the pc is four ahead, with bit 1 clear.
abbrev pub visible : Core → ℕ → ℕ
visible p reg = if reg == 15 then bit_and (add32 (p.reg reg) 4) 0xFFFFFFFD else p.reg reg

abbrev pub with_register : Core → ℕ → ℕ → Core
with_register p reg value = record p { reg = assign p.reg reg value }

module _ (p : Core) (reg : ℕ) (h : reg < nb_register) where
  pub arm_read_register-eq : arm_read_register reg p ≡ some (visible p reg, p)
  unfolding arm_read_register arm_read_register_internal registers_read asks pure ◌>>=◌
  arm_read_register-eq = rw (lt→ltb reg nb_register h) refl

  pub arm_write_register-eq :
      (value : ℕ) → arm_write_register reg value p ≡ some (tt, with_register p reg value)
  unfolding arm_write_register arm_write_register_internal registers_write asks modify pure ◌>>=◌
      ◌>>◌
  arm_write_register-eq value = rw (lt→ltb reg nb_register h) refl

pub arm_read_cpsr-eq : (p : Core) → arm_read_cpsr p ≡ some (registers_read_cpsr p.reg, p)
unfolding arm_read_cpsr asks
arm_read_cpsr-eq p = refl
