-- ===== src/Examples/Debugger.antt =====
-- The theorems on the breakpoint table at a concrete table.
use projet_prog.Base.{◌*◌, ◌≡◌, arith, refl}
use projet_prog.Breakpoints.{Table, search_loop, gdb_find_breakpoint}
use projet_prog.Breakpoints.Find.{IsTable}

-- The addresses 0, 8 and 16.
abbrev three : Table
three = record { breakpoints = λ i. i * 8; breakpoints_number = 3 }

three-IsTable : IsTable three
three-IsTable = record { increasing = λ i j p q. omega arith; fits = omega arith }

finds_sixteen : gdb_find_breakpoint three 16 ≡ 2
unfolding gdb_find_breakpoint search_loop
finds_sixteen = refl
