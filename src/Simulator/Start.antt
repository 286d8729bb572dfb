-- ===== src/Simulator/Start.antt =====
-- arm_simulator.c: the processor that the program starts with, and what the threads keep of it.
use projet_prog.Base.{
  ℕ, ◌<◌, ◌≡◌, refl, arith, some, Option, List, [], Bool, ◌==◌, if◌then◌else◌, Machine,
}
use projet_prog.Text.{Bytes}
use projet_prog.Registers.{Registers, assign, registers_create, registers_create-zero}
use projet_prog.Memory.{memory_create}
use projet_prog.Core.{Core}
use projet_prog.Core.Valid.{IsValid}
use projet_prog.Exception.{reset_cpsr}
use projet_prog.Exception.Outcome.{arm_create-state}
use projet_prog.Breakpoints.{Cells}
use projet_prog.Debug.{Names}
use projet_prog.Gdb.{Gdb, gdb_init_data}
use projet_prog.Gdb.Kept.{WellFormed}
use projet_prog.Server.{Reaches}
use projet_prog.Server.Invariant.{gdb_init_data-WellFormed}
use projet_prog.Simulator.{Settings, ready, parse_options, started, running, create, main}

-- The processor after a reset, with 32 KiB of memory.
abbrev pub fresh : (bytes : ℕ → ℕ) (contents : Registers) → Core
fresh bytes contents = record {
  cycle_count = 0;
  reg = assign (assign (assign (registers_create contents) 16 reset_cpsr) 15 0) 13 0x8000;
  mem = record { value = bytes; taille = 0x8000 };
  stdout = [];
}

-- The registers after a reset: the stack pointer is r13, the cpsr is 16.
abbrev pub IsReset : Registers → Type 0
IsReset r = (i : ℕ) → i < 18 → r i ≡ (if i == 13 then 0x8000 else if i == 16 then reset_cpsr else 0)

module _ ⦃m : Machine⦄ (bytes : ℕ → ℕ) (contents : Registers) where
  create-fresh : create bytes contents ≡ some (tt, fresh bytes contents)
  unfolding create memory_create
  create-fresh = arm_create-state (registers_create contents) (memory_create bytes 0x8000)

  fresh-IsValid : ((i : ℕ) → bytes i < 256) → IsValid (fresh bytes contents)
  fresh-IsValid h = record {
    words = λ i p. ground (arith, registers_create-zero contents i p);
    bytes = λ i p. h i;
  }

  module _ (opens : Bytes → Bool) (files : ℕ → Bytes) (lines : ℕ → ℕ) (names : Names)
      (l : List (ℕ × Option Bytes)) where
    -- The two ways in which the program leaves the loop of its options.
    main-ready :
        (o : Settings)
        → parse_options opens l (started files lines names) ≡ some (ready o)
        → main opens files lines names bytes contents l ≡ some (running o (fresh bytes contents))
    unfolding main
    main-ready o e = rw (e, create-fresh) refl

    -- If the loop of the options ends, the program runs with a reset processor: the pc is 0, the
    -- stack pointer the size of the memory, the cpsr that of the reset and every other register 0.
    -- Any sequence of packets, answers and interrupts that makes no access outside an allocated
    -- object then leads to a session with a sorted table, a valid processor and 32 KiB of memory.
    pub main-WellFormed :
        (o : Settings) (packet points : Cells) (gdb : Gdb)
        → ((i : ℕ) → bytes i < 256)
        → parse_options opens l (started files lines names) ≡ some (ready o)
        → Reaches (gdb_init_data packet points (fresh bytes contents)) gdb
        → (main opens files lines names bytes contents l ≡ some (running o (fresh bytes contents)))
          × IsReset (fresh bytes contents).reg
          × WellFormed 0x8000 gdb
    main-WellFormed o packet points gdb h e r = (
      main-ready o e,
      λ i p. ground (arith, registers_create-zero contents i p),
      gdb_init_data-WellFormed packet points (fresh bytes contents) gdb (fresh-IsValid h) r,
    )
