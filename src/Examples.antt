-- ===== src/Examples.antt =====
-- The machine, the memory and the processor that the examples run on.
mod Blocks
mod Debugger
mod Flags
mod Memories
mod Protocol
mod Runs
mod Shifts
mod Steps
mod Sums
mod Tables
mod Scans
mod Starts
use projet_prog.Base.{ℕ, ◌*◌, ◌/◌, ◌%◌, ◌^◌, arith, ◌==◌, if◌then◌else◌, [], Machine}
use projet_prog.Memory.{Memory}
use projet_prog.Memory.Cells.{IsBytes}
use projet_prog.Core.{Core}
use projet_prog.Core.Valid.{IsValid}

-- A host that takes the count of a 32-bit shift modulo 32, and clears its locals.
instance abbrev pub x86 : Machine
x86 = record {
  shl_wide = λ x n. (x * 2 ^ (n % 32)) % 2 ^ 32;
  shr_wide = λ x n. (x / 2 ^ (n % 32)) % 2 ^ 32;
  junk = 0;
  shl_wide_lt = λ x n. omega arith;
  shr_wide_lt = λ x n. omega arith;
  junk_lt = omega arith;
}

-- Sixteen bytes that start with MOV r1, #5.
abbrev pub mov_byte : ℕ → ℕ
mov_byte i =
    if i == 0
    then 0xE3
    else if i == 1
    then 0xA0
    else if i == 2
    then 0x10
    else if i == 3
    then 5
    else i % 256

abbrev pub ram : Memory
ram = record { value = mov_byte; taille = 16 }

pub ram-IsBytes : IsBytes ram
ram-IsBytes i p = ground arith

-- Register i holds i, but the pc 0; the flag C is set.
abbrev pub file : ℕ → ℕ
file i = if i == 15 then 0 else if i == 16 then 0x200001D3 else i

abbrev pub cpu : Core
cpu = record { cycle_count = 0; reg = file; mem = ram; stdout = [] }

pub cpu-IsValid : IsValid cpu
cpu-IsValid = record { words = λ i p. ground arith; bytes = ram-IsBytes }
