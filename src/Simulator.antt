-- ===== src/Simulator.antt =====
-- arm_simulator.c: main up to the start of the two threads. The options are those that getopt_long
-- finds in the arguments of the program, each with its optarg, which is NULL (`none`) for an option
-- without an argument; fopen is the parameter `opens`. The short option -s is such an option, and
-- --trace-state is not.
pub mod Start
pub mod Flags
pub mod Options
use projet_prog.Base.{
  ℕ, ◌%◌, ◌^◌, Option, none, some, List, [], ◌∷◌, Bool, true, false, minus_one, ◌==◌, if◌then◌else◌,
  Machine,
}
use projet_prog.Base.Fault.{◌>>=◌}
use projet_prog.Text.{Bytes, atoi}
use projet_prog.Registers.{Registers, registers_create}
use projet_prog.Memory.{memory_create}
use projet_prog.Core.{Core}
use projet_prog.Exception.{arm_create}
use projet_prog.Names.{arm_get_mode_number}
use projet_prog.Debug.{Names, Debugged, add_debug_to}
use projet_prog.Trace.{Trace, registers_flag, memory_flag, position_flag, trace_add}

-- What the options set; no trace file is the standard output. An in_port_t has 16 bits.
pub record Settings : Type 0 where
  pub gdb_port : ℕ
  pub irq_port : ℕ
  pub trace_file : Option Bytes
  pub trace : Trace
  pub debugged : Debugged

pub data Parsed : Type 0 where
  ready : Settings → Parsed
  exited : ℕ → Parsed

-- The int that arm_get_mode_number returns.
abbrev pub mode_of : Option ℕ → ℕ
mode_of none = minus_one
mode_of (some mode) = mode

abbrev traced : ℕ → Settings → Option Parsed
traced flags o = some (ready (record o { trace = trace_add flags o.trace }))

abbrev debugging : Option Debugged → Settings → Option Parsed
debugging none o = none
debugging (some d) o = some (ready (record o { debugged = d }))

module _ (opens : Bytes → Bool) where
  -- One round of the loop; `none` is an access outside the array of debug.c, or a use of NULL as a
  -- text.
  unfoldable pub parse_option : ℕ × Option Bytes → Settings → Option Parsed
  parse_option (opt, optarg) o =
      if opt == b'g'
      then optarg >>= (λ s. some (ready (record o { gdb_port = atoi s % 2 ^ 16 })))
      else if opt == b'i'
      then optarg >>= (λ s. some (ready (record o { irq_port = atoi s % 2 ^ 16 })))
      else if opt == b'h'
      then some (exited 0)
      else if opt == b't'
      then optarg >>= (λ s.
        if opens s then some (ready (record o { trace_file = some s })) else some (exited 1))
      else if opt == b'r'
      then traced registers_flag o
      else if opt == b'm'
      then traced memory_flag o
      else if opt == b's'
      then optarg >>= (λ s. traced (mode_of (arm_get_mode_number s)) o)
      else if opt == b'p'
      then traced position_flag o
      else if opt == b'd'
      then optarg >>= (λ s. debugging (add_debug_to s o.debugged) o)
      else some (exited 1)

  -- while ((opt = getopt_long(...)) != -1)
  unfoldable pub parse_options : List (ℕ × Option Bytes) → Settings → Option Parsed
  parse_options [] o = some (ready o)
  parse_options (x ∷ l) o = parse_option x o >>= λ p. elim p [
    | exited code ↦ some (exited code)
    | ready o' ↦ parse_options l o'
  ]

-- The static variables of trace.c and debug.c; the lists of places and names may hold anything.
unfoldable pub started : (files : ℕ → Bytes) (lines : ℕ → ℕ) (names : Names) → Settings
started files lines names = record {
  gdb_port = 0;
  irq_port = 0;
  trace_file = none;
  trace = record {
    enabled = 1;
    location_file_stack = files;
    location_line_stack = lines;
    location_stack_top = minus_one;
    trace_flags = 0;
    states = λ i. 0;
  };
  debugged = record { debugged_files = names; nb_debugged_files = 0 };
}

pub data Outcome : Type 0 where
  running : Settings → Core → Outcome
  exit : ℕ → Outcome

module _ ⦃m : Machine⦄ where
  -- The processor that the threads share; the arrays hold what malloc returned.
  unfoldable pub create : (bytes : ℕ → ℕ) (contents : Registers) → Option (Unit {0} × Core)
  create bytes contents = arm_create (registers_create contents) (memory_create bytes 0x8000)

  unfoldable pub main :
      (opens : Bytes → Bool) (files : ℕ → Bytes) (lines : ℕ → ℕ) (names : Names) (bytes : ℕ → ℕ)
      (contents : Registers)
      → List (ℕ × Option Bytes)
      → Option Outcome
  main opens files lines names bytes contents l =
      parse_options opens l (started files lines names) >>= λ p. elim p [
        | exited code ↦ some (exit code)
        | ready o ↦ create bytes contents >>= λ r. some (running o r.1)
      ]
