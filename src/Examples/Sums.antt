-- ===== src/Examples/Sums.antt =====
-- The theorems on operations that set the flags at a concrete state.
use projet_prog.Base.{◌≡◌, arith, add32, sub32, some}
use projet_prog.Core.{Core}
use projet_prog.Core.Values.{visible, with_register}
use projet_prog.DataProcessing.{opcode_switch}
use projet_prog.DataProcessing.Compare.{compared}
use projet_prog.DataProcessing.Alu.{no_v}
use projet_prog.DataProcessing.Flags.{FlagsSet, result_flags}
use projet_prog.DataProcessing.Logic.{logical_and, opcode_switch-flagged}
use projet_prog.DataProcessing.Meaning.{and_op, value_of}
use projet_prog.DataProcessing.Sums.{added, opcode_switch-added, opcode_switch-subtracted}
use projet_prog.Examples.{cpu, cpu-IsValid}

-- ADDS r3, r2, a number that carries
opcode_switch-added_example :
    (p' : Core) × (opcode_switch 0x4 1 2 3 0xFFFFFFFF 0 cpu
      ≡ some (0, with_register p' 3 (add32 (visible cpu 2) 0xFFFFFFFF)))
    × FlagsSet (added (visible cpu 2) 0xFFFFFFFF) cpu p'
opcode_switch-added_example =
    opcode_switch-added cpu 2 3 0xFFFFFFFF 0 cpu-IsValid (omega arith) (omega arith) (omega arith)
      (omega arith)

-- SUBS r3, r2, #9
opcode_switch-subtracted_example :
    (p' : Core) × (opcode_switch 0x2 1 2 3 9 0 cpu
      ≡ some (0, with_register p' 3 (sub32 (visible cpu 2) 9)))
    × FlagsSet (compared (visible cpu 2) 9) cpu p'
opcode_switch-subtracted_example =
    opcode_switch-subtracted cpu 2 3 9 0 cpu-IsValid (omega arith) (omega arith) (omega arith)
      (omega arith)

-- ANDS r3, r2, #4 with a carry from the shifter: the result is 0, and Z is clear.
opcode_switch-flagged_example :
    (p' : Core) × (opcode_switch 0 1 2 3 4 1 cpu
      ≡ some (0, with_register p' 3 (value_of and_op (visible cpu 2) 4 0)))
    × FlagsSet (result_flags (visible cpu 3) 1 no_v) cpu p'
opcode_switch-flagged_example =
    opcode_switch-flagged logical_and cpu 2 3 4 1 cpu-IsValid (omega arith) (omega arith)
      (omega arith) (omega arith) (omega arith)
