-- ===== src/Core/Valid.antt =====
-- Well-formed processor states.
pub use projet_prog.Base.Yields.{
  Yields, Yields-bind, Yields-then, Yields-pure, Yields-if, Yields-case, Yields-mono, Yields-asks,
  Yields-modify,
}
use projet_prog.Base.{ℕ, ◌^◌, ◌<◌}
use projet_prog.Memory.Cells.{IsBytes}
use projet_prog.Registers.{Registers, nb_register}
use projet_prog.Core.{Core}

-- Every register holds a word.
abbrev pub IsWords : Registers → Type 0
IsWords r = (i : ℕ) → i < nb_register → r i < 2 ^ 32

pub record IsValid (p : Core) : Type 0 where
  pub words : IsWords p.reg
  pub bytes : IsBytes p.mem

-- A property of states that gives validity and that writing words into registers keeps.
pub record Regime (Inv : Core → Type 0) : Type 0 where
  pub valid : (p : Core) → Inv p → IsValid p
  pub keeps : (p : Core) (r : Registers) → Inv p → IsWords r → Inv (record p { reg = r })
