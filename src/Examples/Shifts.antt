-- ===== src/Examples/Shifts.antt =====
-- The theorems on shifts at concrete words.
use projet_prog.Base.{◌+◌, ◌-◌, ◌*◌, ◌/◌, ◌%◌, ◌^◌, ◌≡◌, arith, ◌==◌, if◌then◌else◌}
use projet_prog.Util.{get_bit}
use projet_prog.DataProcessing.Shifter.{shift_by_immediate}
use projet_prog.DataProcessing.Shifted.{shift_by_immediate-shifted}
use projet_prog.Examples.{x86}

shift_by_immediate-shifted_example :
    (shift_by_immediate 0 3 0x80000005 1
      ≡ (0x80000005 * 2 ^ 3 % 2 ^ 32, 0x80000005 / 2 ^ (32 - 3) % 2))
    × (shift_by_immediate 1 3 0x80000005 1 ≡ (0x80000005 / 2 ^ 3, 0x80000005 / 2 ^ (3 - 1) % 2))
    × (shift_by_immediate 2 3 0x80000005 1 ≡ (
      (if get_bit 0x80000005 31 == 0 then 0 else (2 ^ 3 - 1) * 2 ^ (32 - 3)) + 0x80000005 / 2 ^ 3,
      0x80000005 / 2 ^ (3 - 1) % 2,
    ))
    × (shift_by_immediate 3 3 0x80000005 1
        ≡ (0x80000005 % 2 ^ 3 * 2 ^ (32 - 3) + 0x80000005 / 2 ^ 3, 0x80000005 / 2 ^ (3 - 1) % 2))
shift_by_immediate-shifted_example =
    shift_by_immediate-shifted 0x80000005 3 1 (omega arith) (omega arith) (omega arith)
