-- ===== src/Names.antt =====
-- arm_constants.c: the names of exceptions, modes and registers, and the choice of an exception by
-- its name in send_irq.c. NULL is `none`.
pub mod Lookup
use projet_prog.Base.{
  ℕ, zero, suc, ◌+◌, ◌-◌, Option, none, some, Bool, true, false, ltb, ◌==◌, if◌then◌else◌, List, [],
  ◌∷◌,
}
use projet_prog.Text.{Bytes, codes, same_text}

abbrev pub Table : Type 0
Table = List (Option Bytes)

-- An entry; `none` is an access outside the table.
unfoldable pub entry : Table → ℕ → Option (Option Bytes)
entry [] i = none
entry (x ∷ l) zero = some x
entry (x ∷ l) (suc i) = entry l i

abbrev pub arm_mode_names : Table
arm_mode_names =
    none
    ∷ none
    ∷ none
    ∷ none
    ∷ none
    ∷ none
    ∷ none
    ∷ none
    ∷ none
    ∷ none
    ∷ none
    ∷ none
    ∷ none
    ∷ none
    ∷ none
    ∷ none
    ∷ some (codes "USR")
    ∷ some (codes "FIQ")
    ∷ some (codes "IRQ")
    ∷ some (codes "SVC")
    ∷ none
    ∷ none
    ∷ none
    ∷ some (codes "ABT")
    ∷ none
    ∷ none
    ∷ none
    ∷ some (codes "UND")
    ∷ none
    ∷ none
    ∷ none
    ∷ some (codes "SYS")
    ∷ []

abbrev pub arm_register_names : Table
arm_register_names =
    some (codes "R00")
    ∷ some (codes "R01")
    ∷ some (codes "R02")
    ∷ some (codes "R03")
    ∷ some (codes "R04")
    ∷ some (codes "R05")
    ∷ some (codes "R06")
    ∷ some (codes "R07")
    ∷ some (codes "R08")
    ∷ some (codes "R09")
    ∷ some (codes "R10")
    ∷ some (codes "R11")
    ∷ some (codes "R12")
    ∷ some (codes "SP")
    ∷ some (codes "LR")
    ∷ some (codes "PC")
    ∷ some (codes "CPSR")
    ∷ some (codes "SPSR")
    ∷ []

abbrev pub arm_exception_names : Table
arm_exception_names =
    none
    ∷ some (codes "reset")
    ∷ some (codes "data abort")
    ∷ some (codes "fast interrupt")
    ∷ some (codes "interrupt")
    ∷ some (codes "imprecise abort")
    ∷ some (codes "prefetch abort")
    ∷ some (codes "undefined instruction")
    ∷ some (codes "software interrupt")
    ∷ []

unfoldable pub arm_get_exception_name : ℕ → Option (Option Bytes)
arm_get_exception_name exception =
    if ltb exception 8 then entry arm_exception_names exception else some none

unfoldable pub arm_get_mode_name : ℕ → Option (Option Bytes)
arm_get_mode_name mode = entry arm_mode_names mode

unfoldable pub arm_get_register_name : ℕ → Option (Option Bytes)
arm_get_register_name reg = entry arm_register_names reg

-- Whether the entry is there and has the name.
unfoldable pub is_named : Bytes → Option (Option Bytes) → Bool
is_named name none = false
is_named name (some none) = false
is_named name (some (some s)) = same_text s name

-- for (i ...; n rounds); the result is `none` behind the loop.
unfoldable pub mode_loop : (n i : ℕ) → Bytes → Option ℕ
mode_loop zero i name = none
mode_loop (suc n) i name =
    let rest = mode_loop n (i + 1) name in
    if is_named name (arm_get_mode_name i) then some i else rest

-- The int8_t is the mode, or -1 as `none`.
unfoldable pub arm_get_mode_number : Bytes → Option ℕ
arm_get_mode_number name = mode_loop 32 0 name

-- The loop of send_irq.c that compares the names from an exception on, on fuel, and the test behind
-- it; `none` is the exit for an unknown name.
unfoldable pub irq_loop : (fuel irq : ℕ) → Bytes → Option ℕ
irq_loop zero irq name = none
irq_loop (suc fuel) irq name = elim (arm_get_exception_name irq) [
  | none ↦ none
  | some none ↦ none
  | some (some s) ↦ if same_text s name then some irq else irq_loop fuel (irq + 1) name
]

-- The eighth name is behind the last.
unfoldable pub irq_of : Bytes → Option ℕ
irq_of name = irq_loop 8 1 name
