-- ===== src/Examples/Starts.antt =====
-- The theorems on the start of the program at concrete options.
use projet_prog.Base.{ℕ, ◌≡◌, refl, arith, bit, some, none, Option, List, true, false, [], ◌∷◌}
use projet_prog.Text.{Bytes, codes}
use projet_prog.Trace.{trace_add}
use projet_prog.Names.{arm_get_mode_number, mode_loop, is_named, arm_get_mode_name, entry}
use projet_prog.Text.{before}
use projet_prog.Simulator.{Settings, ready, running, parse_option, parse_options, started, main}
use projet_prog.Simulator.Start.{fresh, IsReset, main-WellFormed}
use projet_prog.Simulator.Flags.{any, is_option, is_mode, is_known_mode, is_bare, flag}
use projet_prog.Simulator.Options.{parse_options-flags}
use projet_prog.Examples.{x86}
use projet_prog.Base.State.{pure, ◌>>=◌, ◌>>◌, modify}
use projet_prog.Registers.{assign, registers_write, registers_write_cpsr}
use projet_prog.Core.{asks, arm_write_cpsr, arm_write_register, arm_write_register_internal}
use projet_prog.Exception.{arm_exception, reset_or_return, reset_cpsr}
use projet_prog.Gdb.{Gdb, gdb_init_data, gdb_packet_analysis}
use projet_prog.Gdb.State.{written, on_arm}
use projet_prog.Gdb.Kept.{WellFormed}
use projet_prog.Gdb.Received.{packet_of, gdb_packet_analysis-checked}
use projet_prog.Server.{interrupt, packet, irq, here, then_step}

abbrev nothing : ℕ → ℕ
nothing i = 0

abbrev no_text : ℕ → Bytes
no_text i = []

-- --trace-registers --trace-state SVC
abbrev arguments : List (ℕ × Option Bytes)
arguments = (b'r', none) ∷ (b's', some (codes "SVC")) ∷ []

abbrev settings : Settings
settings = record (started no_text nothing no_text) {
  trace = trace_add 19 (trace_add 64 (started no_text nothing no_text).trace);
}

parsed :
    parse_options (λ name. true) arguments (started no_text nothing no_text) ≡ some (ready settings)
unfolding parse_options parse_option started arm_get_mode_number mode_loop is_named
    arm_get_mode_name entry before
parsed = refl

-- -s SVC: the short option takes no argument.
short_state : parse_options (λ name. true) ((b's', none) ∷ []) settings ≡ none
unfolding parse_options parse_option
short_state = refl

abbrev new : Gdb
new = gdb_init_data nothing nothing (fresh nothing nothing)

-- After a packet with a wrong sum.
abbrev asked : Gdb
asked = record new { events = written (codes "-") ∷ new.events }

wrong_sum : gdb_packet_analysis 0 (packet_of (codes "?") 0) new ≡ some (true, asked)
wrong_sum =
    (gdb_packet_analysis-checked 0 (codes "?") 0 (omega arith) new).1 (λ e. omega (arith, e))

-- After a reset.
abbrev restarted : Gdb
restarted = record asked {
  arm = record asked.arm { reg = assign (registers_write_cpsr asked.arm.reg reset_cpsr) 15 0 };
}

reset_byte : interrupt 1 asked ≡ some (tt, restarted)
unfolding interrupt on_arm arm_exception reset_or_return arm_write_cpsr arm_write_register
    arm_write_register_internal registers_write pure modify asks ◌>>=◌ ◌>>◌
reset_byte = refl

main-WellFormed_example :
    (main (λ name. true) no_text nothing no_text nothing nothing arguments
      ≡ some (running settings (fresh nothing nothing)))
    × IsReset (fresh nothing nothing).reg
    × WellFormed 0x8000 restarted
main-WellFormed_example =
    main-WellFormed nothing nothing (λ name. true) no_text nothing no_text arguments settings
      nothing nothing restarted (λ i. omega arith) parsed
      (then_step (then_step here (packet 0 (packet_of (codes "?") 0) wrong_sum)) (irq 1 reset_byte))

parse_options-flags_example :
    (bit 5 settings.trace.trace_flags ≡ flag (any (is_option b'm') arguments))
    × (bit 6 settings.trace.trace_flags ≡ flag (any (is_option b'r') arguments))
    × (bit 7 settings.trace.trace_flags ≡ flag (any is_known_mode arguments))
    × (bit 8 settings.trace.trace_flags ≡ flag (any (is_option b'p') arguments))
    × (settings.trace.states 19 ≡ flag (any (is_mode 19) arguments))
    × (any is_bare arguments ≡ false)
parse_options-flags_example =
    parse_options-flags (λ name. true) no_text nothing no_text arguments settings 19 (omega arith)
      parsed
