-- ===== src/Debug.antt =====
-- debug.c: the sorted array of the names of the files that debug messages are printed for.
pub mod Search
pub mod Loops
pub mod Insert
use projet_prog.Base.{
  ℕ, zero, suc, ◌+◌, ◌-◌, ◌/◌, Option, none, some, Bool, true, false, ◌&&◌, ltb, leb, ◌==◌,
  if◌then◌else◌,
}
use projet_prog.Base.Fault.{◌>>=◌}
use projet_prog.Text.{Bytes, before, same_text}

-- MAX_FILES_NUMBER
abbrev pub max_files_number : ℕ
max_files_number = 64

abbrev pub Names : Type 0
Names = ℕ → Bytes

-- debugged_files and nb_debugged_files
pub record Debugged : Type 0 where
  pub debugged_files : Names
  pub nb_debugged_files : ℕ

abbrev pub put : Names → ℕ → Bytes → Names
put f i name = λ k. if k == i then name else f k

-- while ((i < nb) && (i < MAX_FILES_NUMBER) && strcmp(...) < 0), n rounds left
unfoldable pub position_loop : (n : ℕ) → Names → Bytes → (i : ℕ) → ℕ
position_loop zero f name i = i
position_loop (suc n) f name i =
    let next = position_loop n f name (i + 1) in
    if ltb i max_files_number && before (f i) name then next else i

-- for (j ...; n rounds) debugged_files[j] = debugged_files[j - 1]; `none` is outside the array.
unfoldable pub shift_loop : (n : ℕ) → Names → (j : ℕ) → Option Names
shift_loop zero f j = some f
shift_loop (suc n) f j =
    let rest = shift_loop n (put f j (f (j - 1))) (j - 1) in
    if ltb j max_files_number then rest else none

unfoldable pub add_debug_to : Bytes → Debugged → Option Debugged
add_debug_to name d =
    let i = position_loop d.nb_debugged_files d.debugged_files name 0 in
    if leb max_files_number i then some d else do
      f ← shift_loop (d.nb_debugged_files - i) d.debugged_files d.nb_debugged_files
      some (record { debugged_files = put f i name; nb_debugged_files = d.nb_debugged_files + 1 })

-- while (from < to), on fuel, and the test behind it; `end` is to + 1.
unfoldable pub name_loop : (fuel : ℕ) → Names → Bytes → (from end : ℕ) → ℕ
name_loop zero f name from end = 0
name_loop (suc fuel) f name from end =
    let middle = (from + (end - 1)) / 2 in
    elim (ltb (from + 1) end) [
      | true ↦ elim (before (f middle) name) [
        | true ↦ name_loop fuel f name (middle + 1) end
        | false ↦ elim (before name (f middle)) [
          | true ↦ name_loop fuel f name from middle
          | false ↦ 1
        ]
      ]
      | false ↦ if (from + 1 == end) && same_text (f from) name then 1 else 0
    ]

unfoldable pub is_debugged : Bytes → Debugged → ℕ
is_debugged name d = name_loop (suc d.nb_debugged_files) d.debugged_files name 0 d.nb_debugged_files
