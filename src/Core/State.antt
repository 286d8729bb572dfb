-- ===== src/Core/State.antt =====
-- The processor state of arm_core.h, and the runs of its operations.
unfoldable pub use projet_prog.Base.State.{pure, ◌>>=◌, ◌>>◌, asks, modify}
use projet_prog.Base.{ℕ, List}
use projet_prog.Base.State.{Run}
use projet_prog.Registers.{Registers}
use projet_prog.Memory.{Memory}

-- struct arm_core_data, and the bytes that the program has sent to the standard output.
pub record Core : Type 0 where
  pub cycle_count : ℕ
  pub reg : Registers
  pub mem : Memory
  pub stdout : List ℕ

abbrev pub M : Type 0 → Type 0
M A = Run Core A

abbrev pub put_reg : Registers → M (Unit {0})
put_reg r = modify (λ p. record p { reg = r })

abbrev pub put_mem : Memory → M (Unit {0})
put_mem m = modify (λ p. record p { mem = m })
