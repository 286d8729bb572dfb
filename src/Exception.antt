-- ===== src/Exception.antt =====
-- arm_exception.c, and arm_create of arm_core.c, which resets the processor through it.
pub mod Outcome
use projet_prog.Base.{
  ℕ, bit_and, sub32, u8, u32, Option, none, some, [], ◌∷◌, ◌++◌, ◌==◌, if◌then◌else◌, Machine,
}
use projet_prog.Core.{
  Core, M, pure, ◌>>=◌, ◌>>◌, modify, arm_read_register, arm_read_word, arm_write_cpsr,
  arm_write_register,
}
use projet_prog.Memory.{Memory, memory_get_size}
use projet_prog.Registers.{Registers}

abbrev pub reset : ℕ
reset = 1

abbrev pub software_interrupt : ℕ
software_interrupt = 8

abbrev pub end_simulation : ℕ
end_simulation = 9

-- The value that the reset loads into the cpsr.
abbrev pub reset_cpsr : ℕ
reset_cpsr = 0x1D3

-- putchar writes its argument as an unsigned char.
unfoldable pub putchar : ℕ → M (Unit {0})
putchar c = modify λ p. record p { stdout = p.stdout ++ (u8 c ∷ []) }

-- The part below the software interrupt's switch.
unfoldable pub reset_or_return : ℕ → M ℕ
reset_or_return exception =
    if exception == reset
    then (do arm_write_cpsr reset_cpsr; arm_write_register 15 0; pure exception)
    else pure exception

module _ ⦃m : Machine⦄ where
  unfoldable pub arm_exception : ℕ → M ℕ
  arm_exception exception =
      if exception == software_interrupt
      then (do
        address ← arm_read_register 15
        (_, word) ← arm_read_word (sub32 address 8) m.junk
        let instruction = bit_and word 0xFFFFFF
        if instruction == 0x123456
            then pure end_simulation
            else if instruction == 1
            then (do value ← arm_read_register 0; putchar value; pure 0)
            else reset_or_return exception)
      else reset_or_return exception

  -- The allocation of the struct succeeds.
  unfoldable pub arm_create : Registers → Memory → Option (Unit {0} × Core)
  arm_create reg mem =
      (arm_exception reset >> arm_write_register 13 (u32 (memory_get_size mem)))
        (record { cycle_count = 0; reg = reg; mem = mem; stdout = [] })
