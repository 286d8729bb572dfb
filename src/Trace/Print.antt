-- ===== src/Trace/Print.antt =====
-- trace.c: what is printed on the log, in the format that is chosen where ARM_TRACE_FORMAT is not
-- defined. `none` is an access outside a table, a buffer or the stack of places.
use projet_prog.Base.{
  ℕ, zero, suc, ◌+◌, ◌%◌, ◌^◌, bit_and, add32, Option, none, some, Bool, not, ◌&&◌, ◌||◌, ltb, ◌==◌,
  if◌then◌else◌, [], ◌∷◌, ◌++◌,
}
use projet_prog.Base.Fault.{◌>>=◌}
use projet_prog.Text.{Bytes, codes, size}
use projet_prog.Text.Format.{int_text, upper_digits, padded}
use projet_prog.Names.{arm_get_mode_name, arm_get_register_name}
use projet_prog.Registers.{Registers, registers_read, registers_read_cpsr, registers_read_spsr}
use projet_prog.Trace.{Trace, stack_size, registers_flag, memory_flag, position_flag, state_flag}

-- The variables of the module, and what has been written to the file.
pub record Log : Type 0 where
  pub trace : Trace
  pub last_address : ℕ
  pub output : Bytes

abbrev pub write : Bytes → Log → Log
write s log = record log { output = log.output ++ s }

-- The new file, by what it holds.
unfoldable pub set_trace_file : (contents : Bytes) → Log → Log
set_trace_file contents log = record log { output = contents }

-- enabled && (trace_flags & flag)
abbrev pub traces : ℕ → Trace → Bool
traces flag t = not (t.enabled == 0) && not (bit_and t.trace_flags flag == 0)

-- A table of two texts.
unfoldable pub one_of : Bytes → Bytes → ℕ → Option Bytes
one_of s t zero = some s
one_of s t (suc zero) = some t
one_of s t (suc (suc i)) = none

abbrev pub access_type : ℕ → Option Bytes
access_type type = one_of (codes "write") (codes "read") type

-- An int at least 0 is a pattern below 2 ^ 31.
unfoldable pub trace_print_location : Log → Option Log
trace_print_location log =
    let t = log.trace in
    let top = t.location_stack_top in
    if not (traces position_flag t) || not (ltb top (2 ^ 31))
    then some log
    else if ltb top stack_size
    then some (
        write
          (t.location_file_stack top
            ++ (codes ", " ++ (int_text (t.location_line_stack top) ++ codes ": ")))
          log)
    else none

unfoldable pub trace_memory : (cycle type size cause address value : ℕ) → Log → Option Log
trace_memory cycle type size cause address value log =
    if not (traces memory_flag log.trace) then some log else (do
      let seq = if address == add32 log.last_address 4 then 1 else 0
      log ← trace_print_location (record log { last_address = address })
      seq_text ← one_of [] [] seq
      type_text ← access_type type
      cause_text ← one_of [] (codes ", fetch") cause
      some (
          write
            (codes "Cycle "
              ++ (int_text cycle
                  ++ (codes ", Mem "
                      ++ (seq_text
                          ++ (type_text
                              ++ (codes " ("
                                  ++ (int_text size
                                      ++ (codes " bytes"
                                          ++ (cause_text
                                              ++ (codes ") addr: "
                                                  ++ (upper_digits address 8
                                                      ++ (codes ", val: "
                                                          ++ (upper_digits value 8
                                                            ++ (10 ∷ []))))))))))))))
            log))

-- char mode_name[5]
abbrev pub mode_name_size : ℕ
mode_name_size = 5

-- strcpy and strcat into the buffer, with the zero byte at the end; no name leaves it empty.
unfoldable pub mode_suffix : Option Bytes → Option Bytes
mode_suffix none = some []
mode_suffix (some name) = if ltb (1 + size name) mode_name_size then some (b'_' ∷ name) else none

unfoldable pub trace_register : (cycle type reg mode value : ℕ) → Log → Option Log
trace_register cycle type reg mode value log =
    if not (traces registers_flag log.trace) then some log else (do
      name ← arm_get_mode_name mode
      mode_name ← mode_suffix name
      log ← trace_print_location log
      type_text ← access_type type
      entry ← arm_get_register_name reg
      register_name ← entry
      some (
          write
            (codes "Cycle "
              ++ (int_text cycle
                  ++ (codes ", Register "
                      ++ (type_text
                          ++ (codes ", "
                              ++ (register_name
                                  ++ (mode_name
                                      ++ (codes ", val: "
                                          ++ (upper_digits value 8 ++ (10 ∷ []))))))))))
            log))

-- for (; reg < 16; reg++), with n rounds left
unfoldable pub registers_loop : (n reg count mode : ℕ) → Registers → Log → Option Log
registers_loop zero reg count mode r log = some log
registers_loop (suc n) reg count mode r log = do
  let breaks = not (count == 0) && (count % 5 == 0)
  let log = if breaks then write (10 ∷ codes "    ") log else log
  entry ← arm_get_register_name reg
  name ← entry
  value ← registers_read r reg mode
  registers_loop n (reg + 1) (count + 1) mode r
      (write (codes "   " ++ (padded name ++ (b'=' ∷ upper_digits value 8))) log)

-- The body of the loop for a mode that has a name.
unfoldable pub print_mode : Bytes → ℕ → Registers → Log → Option Log
print_mode name mode r log = do
  log ← registers_loop 16 0 0 mode r (write (name ++ codes ":") log)
  let log = write (codes "   CPSR=" ++ upper_digits (registers_read_cpsr r) 8) log
  let log = write (codes "   SPSR=" ++ upper_digits (registers_read_spsr r mode) 8) log
  some (write (10 ∷ []) log)

-- arm_get_mode_name(mode) && states[mode]
unfoldable pub state_of : Option Bytes → ℕ → Registers → Log → Option Log
state_of none mode r log = some log
state_of (some name) mode r log =
    let text = print_mode name mode r log in if log.trace.states mode == 0 then some log else text

-- for (; mode < 32; mode++), with n rounds left
unfoldable pub modes_loop : (n mode : ℕ) → Registers → Log → Option Log
modes_loop zero mode r log = some log
modes_loop (suc n) mode r log = do
  name ← arm_get_mode_name mode
  log ← state_of name mode r log
  modes_loop n (mode + 1) r log

unfoldable pub trace_arm_state : Registers → Log → Option Log
trace_arm_state r log = if traces state_flag log.trace then modes_loop 32 0 r log else some log
