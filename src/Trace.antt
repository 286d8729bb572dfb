-- ===== src/Trace.antt =====
-- trace.c: the flags of the trace and the stack of the places that accesses come from. `none` is an access outside the stack.
pub mod Lines
pub mod Nested
pub mod Print
pub mod Places
pub mod State
use projet_prog.Base.{
  ℕ, ◌^◌, bit_or, add32, sub32, Option, none, some, not, ◌&&◌, ltb, ◌==◌, if◌then◌else◌,
}
use projet_prog.Text.{Bytes}

-- REGISTERS, MEMORY and POSITION
abbrev pub registers_flag : ℕ
registers_flag = 64

abbrev pub memory_flag : ℕ
memory_flag = 32

abbrev pub position_flag : ℕ
position_flag = 256

-- STATE
abbrev pub state_flag : ℕ
state_flag = 128

-- The length of the stack.
abbrev pub stack_size : ℕ
stack_size = 128

-- The variables of the module; an int is its pattern, and the top of an empty stack is -1.
pub record Trace : Type 0 where
  pub enabled : ℕ
  pub location_file_stack : ℕ → Bytes
  pub location_line_stack : ℕ → ℕ
  pub location_stack_top : ℕ
  pub trace_flags : ℕ
  pub states : ℕ → ℕ

unfoldable pub trace_start_location : Bytes → ℕ → Trace → Option Trace
trace_start_location file line t =
    let top = add32 t.location_stack_top 1 in
    if t.enabled == 0
    then some t
    else if ltb top stack_size
    then some (record t {
      location_stack_top = top;
      location_file_stack = λ i. if i == top then file else t.location_file_stack i;
      location_line_stack = λ i. if i == top then line else t.location_line_stack i;
    })
    else none

unfoldable pub trace_end_location : Trace → Trace
trace_end_location t =
    if t.enabled == 0 then t else record t { location_stack_top = sub32 t.location_stack_top 1 }

unfoldable pub trace_disable : Trace → Trace
trace_disable t = record t { enabled = 0 }

unfoldable pub trace_enable : Trace → Trace
trace_enable t = record t { enabled = 1 }

unfoldable pub trace_add : ℕ → Trace → Trace
trace_add flags t =
    if ltb flags (2 ^ 31) && not (ltb flags 32)
    then record t { trace_flags = bit_or t.trace_flags flags }
    else if ltb flags (2 ^ 31)
    then record t {
      trace_flags = bit_or t.trace_flags state_flag;
      states = λ i. if i == flags then 1 else t.states i;
    }
    else t
