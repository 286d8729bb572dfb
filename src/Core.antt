-- ===== src/Core.antt =====
-- arm_core.c: access to the registers and the memory of the processor. The calls of the trace
-- module, which only print, are left out.
mod State
pub mod Valid
pub mod Access
pub mod Regimes
pub mod Rules
pub mod Values
pub use State.{Core, M, put_reg, put_mem}
unfoldable pub use State.{pure, ◌>>=◌, ◌>>◌, asks, modify}
use projet_prog.Base.{ℕ, ◌+◌, ◌%◌, bit_and, add32, minus_one, some, ◌==◌, if◌then◌else◌}
use projet_prog.Memory.{
  memory_read_byte, memory_read_half, memory_read_word, memory_write_byte, memory_write_half,
  memory_write_word,
}
use projet_prog.Registers.{
  usr, registers_get_mode, registers_current_mode_has_spsr, registers_in_a_privileged_mode,
  registers_read, registers_read_cpsr, registers_read_spsr, registers_write, registers_write_cpsr,
  registers_write_spsr,
}

-- ENDIANESS: Makefile.am builds the simulator with BIG_ENDIAN_SIMULATOR.
abbrev pub endianess : ℕ
endianess = 1

unfoldable pub arm_current_mode_has_spsr : M ℕ
arm_current_mode_has_spsr = asks λ p. some (registers_current_mode_has_spsr p.reg)

unfoldable pub arm_in_a_privileged_mode : M ℕ
arm_in_a_privileged_mode = asks λ p. some (registers_in_a_privileged_mode p.reg)

unfoldable pub arm_get_cycle_count : M ℕ
arm_get_cycle_count = asks λ p. some p.cycle_count

unfoldable pub arm_read_register_internal : ℕ → ℕ → M ℕ
arm_read_register_internal reg mode = do
  value ← asks λ p. registers_read p.reg reg mode
  pure (if reg == 15 then bit_and (add32 value 4) 0xFFFFFFFD else value)

unfoldable pub arm_read_register : ℕ → M ℕ
unfolding arm_read_register_internal
arm_read_register reg p = arm_read_register_internal reg (registers_get_mode p.reg) p

unfoldable pub arm_read_usr_register : ℕ → M ℕ
unfolding arm_read_register_internal
arm_read_usr_register reg = arm_read_register_internal reg usr

unfoldable pub arm_read_cpsr : M ℕ
arm_read_cpsr = asks λ p. some (registers_read_cpsr p.reg)

unfoldable pub arm_read_spsr : M ℕ
arm_read_spsr = asks λ p. some (registers_read_spsr p.reg (registers_get_mode p.reg))

unfoldable pub arm_write_register_internal : ℕ → ℕ → ℕ → M (Unit {0})
arm_write_register_internal reg mode value = do
  r ← asks λ p. registers_write p.reg reg mode value
  put_reg r

unfoldable pub arm_write_register : ℕ → ℕ → M (Unit {0})
unfolding arm_write_register_internal
arm_write_register reg value p = arm_write_register_internal reg (registers_get_mode p.reg) value p

unfoldable pub arm_write_usr_register : ℕ → ℕ → M (Unit {0})
unfolding arm_write_register_internal
arm_write_usr_register reg value = arm_write_register_internal reg usr value

unfoldable pub arm_write_cpsr : ℕ → M (Unit {0})
arm_write_cpsr value = modify λ p. record p { reg = registers_write_cpsr p.reg value }

unfoldable pub arm_write_spsr : ℕ → M (Unit {0})
arm_write_spsr value =
    modify λ p. record p { reg = registers_write_spsr p.reg (registers_get_mode p.reg) value }

-- The reads return their code and what the out-parameter then holds.
unfoldable pub arm_read_byte : (address old : ℕ) → M (ℕ × ℕ)
arm_read_byte address old = asks λ p. memory_read_byte p.mem address old

unfoldable pub arm_read_half : (address old : ℕ) → M (ℕ × ℕ)
arm_read_half address old = asks λ p. memory_read_half p.mem address old endianess

unfoldable pub arm_read_word : (address old : ℕ) → M (ℕ × ℕ)
arm_read_word address old = asks λ p. memory_read_word p.mem address old endianess

unfoldable pub arm_fetch : (old : ℕ) → M (ℕ × ℕ)
arm_fetch old = do
  mode ← asks λ p. some (registers_get_mode p.reg)
  address ← asks λ p. registers_read p.reg 15 mode
  r ← asks λ p. registers_write p.reg 15 mode (add32 address 4)
  put_reg r
  result ← asks λ p. memory_read_word p.mem address old endianess
  modify λ p. record p { cycle_count = add32 p.cycle_count 1 }
  pure result

unfoldable pub arm_write_byte : (address value : ℕ) → M ℕ
arm_write_byte address value = do
  (code, m) ← asks λ p. memory_write_byte p.mem address value
  put_mem m
  pure code

unfoldable pub arm_write_half : (address value : ℕ) → M ℕ
arm_write_half address value = do
  (code, m) ← asks λ p. memory_write_half p.mem address value endianess
  put_mem m
  pure code

unfoldable pub arm_write_word : (address value : ℕ) → M ℕ
arm_write_word address value = do
  (code, m) ← asks λ p. memory_write_word p.mem address value endianess
  put_mem m
  pure code
