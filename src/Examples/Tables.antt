-- ===== src/Examples/Tables.antt =====
-- The theorems on the tables of names and on the trace at concrete names.
use projet_prog.Base.{
  ℕ, ◌+◌, ◌<◌, ◌≡◌, ◌⊎◌, ◌↔◌, minus_one, List, [], ◌∷◌, ◌++◌, arith, refl, some, none, false, true,
  ◌==◌, if◌then◌else◌,
}
use projet_prog.Text.{Bytes, codes, before}
use projet_prog.Debug.{Debugged, max_files_number, add_debug_to, is_debugged}
use projet_prog.Debug.Search.{IsSorted, Debugs, is_debugged-Debugs}
use projet_prog.Debug.Insert.{add_debug_to-Debugs}
use projet_prog.Trace.{Trace, registers_flag, position_flag, state_flag}
use projet_prog.Trace.Print.{Log, write, traces, trace_register, trace_arm_state}
use projet_prog.Trace.State.{blocks, trace_arm_state-blocks}
use projet_prog.Trace.Lines.{place, register_line}
use projet_prog.Trace.Places.{trace_register-place}
use projet_prog.Examples.{file}
use projet_prog.Trace.Nested.{Call, start, end, calls, pair, no_calls}
use projet_prog.Names.{arm_mode_names, arm_get_exception_name, irq_of}
use projet_prog.Names.Lookup.{irq_of-name}

-- Debug messages for arm_core.c and memory.c.
abbrev two_files : Debugged
two_files = record {
  debugged_files = λ i. if i == 0 then codes "arm_core.c" else codes "memory.c";
  nb_debugged_files = 2;
}

in_order : before (codes "memory.c") (codes "arm_core.c") ≡ false
unfolding before
in_order = refl

two_files-IsSorted : IsSorted two_files
two_files-IsSorted = record { sorted = λ i j p q. ground (arith, in_order); fits = omega arith }

add_debug_to-Debugs_example :
    (2 < max_files_number
      → (d' : Debugged) × (add_debug_to (codes "debug.c") two_files ≡ some d')
        × IsSorted d'
        × ((x : Bytes) → Debugs d' x ↔ ((x ≡ codes "debug.c") ⊎ Debugs two_files x)))
    × (2 ≡ max_files_number
        → (((i : ℕ)
              → i < max_files_number
              → before (two_files.debugged_files i) (codes "debug.c") ≡ true)
            → add_debug_to (codes "debug.c") two_files ≡ some two_files)
          × ((i : ℕ)
              → i < max_files_number
              → before (two_files.debugged_files i) (codes "debug.c") ≡ false
              → add_debug_to (codes "debug.c") two_files ≡ none))
add_debug_to-Debugs_example = add_debug_to-Debugs two_files (codes "debug.c") two_files-IsSorted

is_debugged-Debugs_example :
    (Debugs two_files (codes "memory.c") → is_debugged (codes "memory.c") two_files ≡ 1)
    × (¬ Debugs two_files (codes "memory.c") → is_debugged (codes "memory.c") two_files ≡ 0)
is_debugged-Debugs_example = is_debugged-Debugs two_files (codes "memory.c") two_files-IsSorted

irq_of-name_example :
    (irq_of (codes "interrupt") ≡ some 4)
    ↔ (arm_get_exception_name 4 ≡ some (some (codes "interrupt")))
irq_of-name_example = irq_of-name (codes "interrupt") 4

-- An access from debug.c that makes one from memory.c.
abbrev two_calls : List Call
two_calls =
    start (codes "debug.c") 7 ∷ (start (codes "memory.c") 9 ∷ ([] ++ (end ∷ []))) ++ (end ∷ [])

abbrev empty_trace : Trace
empty_trace = record {
  enabled = 1;
  location_file_stack = λ i. [];
  location_line_stack = λ i. 0;
  location_stack_top = minus_one;
  trace_flags = 0;
  states = λ i. 0;
}

-- Accesses to registers and places are traced, and the state in the supervisor mode.
abbrev traced_log : Log
traced_log = record {
  trace = record empty_trace {
    trace_flags = registers_flag + position_flag + state_flag;
    states = λ i. if i == 19 then 1 else 0;
  };
  last_address = 0x12345678;
  output = [];
}

trace_register-place_example :
    (t' : Trace) × (calls (start (codes "arm_core.c") 90 ∷ two_calls) traced_log.trace ≡ some t')
    × (trace_register 7 0 3 19 5 (record traced_log { trace = t' })
        ≡ some (
            write
              (if traces registers_flag traced_log.trace
                then (if traces position_flag traced_log.trace
                    then place (codes "arm_core.c") 90
                    else [])
                  ++ register_line 7 0 3 19 5
                else [])
              (record traced_log { trace = t' })))
trace_register-place_example =
    trace_register-place {d = 2} {l = two_calls} 0 (codes "arm_core.c") 90 traced_log 7 0 3 19 5
      (pair (codes "debug.c") 7 (pair (codes "memory.c") 9 no_calls no_calls) no_calls)
      (λ e. omega (arith, e)) refl (omega arith) (omega arith) (omega arith) (omega arith)

trace_arm_state-blocks_example :
    trace_arm_state file traced_log
    ≡ some (
        write
          (if traces state_flag traced_log.trace
            then blocks traced_log.trace.states arm_mode_names 0 file
            else [])
          traced_log)
trace_arm_state-blocks_example = trace_arm_state-blocks file traced_log
