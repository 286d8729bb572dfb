-- ===== src/Trace/Lines.antt =====
-- trace.c: the lines of an access to a register and of one to the memory.
use projet_prog.Base.{
  ℕ, zero, suc, ◌+◌, ◌^◌, ◌<◌, ◌≡◌, inl, inr, ap, refl, sym, arith, add32, Option, none, some, Bool,
  Bool-cases, ◌&&◌, ltb, ◌==◌, if◌then◌else◌, [], ◌∷◌, ◌++◌, true, false, lt→ltb,
}
use projet_prog.Text.{Bytes, codes, size}
use projet_prog.Text.Order.{clash}
use projet_prog.Names.{
  Table, entry, arm_mode_names, arm_register_names, arm_get_mode_name, arm_get_register_name,
}
use projet_prog.Trace.{Trace, stack_size, registers_flag, memory_flag, position_flag}
use projet_prog.Text.Format.{int_text, upper_digits}
use projet_prog.Trace.Print.{
  Log, write, traces, one_of, access_type, mode_name_size, mode_suffix, trace_print_location,
  trace_register, trace_memory,
}
use projet_prog.Trace.State.{write-write, write-nil, full}

-- The name at a position, and the suffix for it.
unfoldable pub text_at : Table → ℕ → Bytes
text_at [] i = []
text_at (none ∷ l) zero = []
text_at (some s ∷ l) zero = s
text_at (x ∷ l) (suc i) = text_at l i

unfoldable pub suffix_at : Table → ℕ → Bytes
suffix_at [] i = []
suffix_at (none ∷ l) zero = []
suffix_at (some s ∷ l) zero = b'_' ∷ s
suffix_at (x ∷ l) (suc i) = suffix_at l i

-- The first n entries are there, and their suffixes fit the buffer.
unfoldable suffixes_fit : ℕ → Table → Bool
suffixes_fit zero l = true
suffixes_fit (suc n) [] = false
suffixes_fit (suc n) (none ∷ l) = suffixes_fit n l
suffixes_fit (suc n) (some s ∷ l) = ltb (1 + size s) mode_name_size && suffixes_fit n l

both : (a b : Bool) → (a && b) ≡ true → (a ≡ true) × (b ≡ true)
both true b e = (refl, e)
both false b e = absurd (clash (sym e))

entry-text_at :
    (n i : ℕ) (l : Table) → full n l ≡ true → i < n → entry l i ≡ some (some (text_at l i))
unfolding full entry text_at
entry-text_at zero i l all h = absurd (omega arith)
entry-text_at (suc n) i [] all h = absurd (clash (sym all))
entry-text_at (suc n) i (none ∷ l) all h = absurd (clash (sym all))
entry-text_at (suc n) zero (some s ∷ l) all h = refl
entry-text_at (suc n) (suc i) (some s ∷ l) all h = entry-text_at n i l all (omega arith)

entry-suffix_at :
    (n i : ℕ) (l : Table)
    → suffixes_fit n l ≡ true
    → i < n
    → (x : Option Bytes) × (entry l i ≡ some x) × (mode_suffix x ≡ some (suffix_at l i))
unfolding suffixes_fit entry suffix_at mode_suffix
entry-suffix_at zero i l all h = absurd (omega arith)
entry-suffix_at (suc n) i [] all h = absurd (clash (sym all))
entry-suffix_at (suc n) zero (none ∷ l) all h = (none, refl, refl)
entry-suffix_at (suc n) (suc i) (none ∷ l) all h = entry-suffix_at n i l all (omega arith)
entry-suffix_at (suc n) zero (some s ∷ l) all h =
    (some s, refl, rw ((both (ltb (1 + size s) mode_name_size) (suffixes_fit n l) all).0) refl)
entry-suffix_at (suc n) (suc i) (some s ∷ l) all h =
    entry-suffix_at n i l (both (ltb (1 + size s) mode_name_size) (suffixes_fit n l) all).1
      (omega arith)

-- The place on top of a stack that is not empty.
abbrev pub place : Bytes → ℕ → Bytes
place file line = file ++ (codes ", " ++ (int_text line ++ codes ": "))

abbrev pub place_of : Trace → ℕ → Bytes
place_of t top =
    if traces position_flag t
    then place (t.location_file_stack top) (t.location_line_stack top)
    else []

trace_print_location-place :
    (log : Log) (top : ℕ)
    → log.trace.location_stack_top ≡ top
    → top < stack_size
    → trace_print_location log ≡ some (write (place_of log.trace top) log)
unfolding trace_print_location
trace_print_location-place log top at room = elim (Bool-cases (traces position_flag log.trace)) [
  | inl e ↦ rw (e, at, lt→ltb top (2 ^ 31) (omega arith), lt→ltb top stack_size room) refl
  | inr e ↦ rw e (ap some (sym (write-nil log)))
]

-- The line of an access.
abbrev pub type_name : ℕ → Bytes
type_name type = if type == 0 then codes "write" else codes "read"

access_type-name : (type : ℕ) → type < 2 → access_type type ≡ some (type_name type)
unfolding one_of
access_type-name zero h = refl
access_type-name (suc zero) h = refl
access_type-name (suc (suc type)) h = absurd (omega arith)

abbrev pub register_line : (cycle type reg mode value : ℕ) → Bytes
register_line cycle type reg mode value =
    codes "Cycle "
    ++ (int_text cycle
        ++ (codes ", Register "
            ++ (type_name type
                ++ (codes ", "
                    ++ (text_at arm_register_names reg
                        ++ (suffix_at arm_mode_names mode
                            ++ (codes ", val: " ++ (upper_digits value 8 ++ (10 ∷ [])))))))))

abbrev pub cause_name : ℕ → Bytes
cause_name cause = if cause == 0 then [] else codes ", fetch"

abbrev pub memory_line : (cycle type size cause address value : ℕ) → Bytes
memory_line cycle type size cause address value =
    codes "Cycle "
    ++ (int_text cycle
        ++ (codes ", Mem "
            ++ (type_name type
                ++ (codes " ("
                    ++ (int_text size
                        ++ (codes " bytes"
                            ++ (cause_name cause
                                ++ (codes ") addr: "
                                    ++ (upper_digits address 8
                                        ++ (codes ", val: "
                                            ++ (upper_digits value 8 ++ (10 ∷ []))))))))))))

module _ (cycle type reg mode value : ℕ) (h_type : type < 2) (h_reg : reg < 18)
    (h_mode : mode < 32) where
  pub trace_register-line :
      (log : Log) (top : ℕ)
      → log.trace.location_stack_top ≡ top
      → top < stack_size
      → trace_register cycle type reg mode value log
        ≡ some (
            write
              (if traces registers_flag log.trace
                then place_of log.trace top ++ register_line cycle type reg mode value
                else [])
              log)
  unfolding trace_register arm_get_mode_name arm_get_register_name full suffixes_fit
  trace_register-line log top at room =
      let (name, there, fits) = entry-suffix_at 32 mode arm_mode_names refl h_mode in
      elim (Bool-cases (traces registers_flag log.trace)) [
        | inl e ↦
            rw
              (
                e,
                there,
                fits,
                trace_print_location-place log top at room,
                access_type-name type h_type,
                entry-text_at 18 reg arm_register_names refl h_reg,
              )
              (ap some (
                write-write (place_of log.trace top) (register_line cycle type reg mode value) log))
        | inr e ↦ rw e (ap some (sym (write-nil log)))
      ]

cause_text : (cause : ℕ) → cause < 2 → one_of [] (codes ", fetch") cause ≡ some (cause_name cause)
unfolding one_of
cause_text zero h = refl
cause_text (suc zero) h = refl
cause_text (suc (suc cause)) h = absurd (omega arith)

no_seq : (b : Bool) → one_of [] [] (if b then 1 else 0) ≡ some []
unfolding one_of
no_seq true = refl
no_seq false = refl

-- With a place on the stack, an access to memory returns, for the two types and the two causes. If
-- the accesses to memory are traced it keeps the address as the last one and adds one line: the
-- place if the places are traced, the cycle, the type, the size, the cause of a fetch, the address
-- and the value.
pub trace_memory-line :
    (cycle type size cause address value : ℕ) (log : Log) (top : ℕ)
    → type < 2
    → cause < 2
    → log.trace.location_stack_top ≡ top
    → top < stack_size
    → trace_memory cycle type size cause address value log
      ≡ some (
          if traces memory_flag log.trace
          then write
              (place_of log.trace top ++ memory_line cycle type size cause address value)
              (record log { last_address = address })
          else log)
unfolding trace_memory
trace_memory-line cycle type size cause address value log top h_type h_cause at room =
    let log' = record log { last_address = address } in
    elim (Bool-cases (traces memory_flag log.trace)) [
      | inl e ↦
          rw
            (
              e,
              trace_print_location-place log' top at room,
              no_seq (address == add32 log.last_address 4),
              access_type-name type h_type,
              cause_text cause h_cause,
            )
            (ap some (
              write-write (place_of log.trace top) (memory_line cycle type size cause address value)
                log'))
      | inr e ↦ rw e refl
    ]
