-- ===== src/Simulator/Flags.antt =====
-- arm_simulator.c: what one option makes of the flags of the trace.
use projet_prog.Base.{
  ℕ, zero, suc, ◌+◌, ◌<◌, ◌≡◌, ◌⊎◌, inl, inr, refl, arith, max, bit, bit-bit_or, bit_or, minus_one,
  some, none, Option, List, [], ◌∷◌, Bool, true, false, ◌==◌, ◌&&◌, ◌||◌, ltb, if◌then◌else◌,
}
use projet_prog.Text.{Bytes}
use projet_prog.Names.{arm_get_mode_number, mode_loop}
use projet_prog.Trace.{Trace, trace_add, registers_flag, memory_flag, position_flag, state_flag}
use projet_prog.Simulator.{Settings, ready, mode_of, parse_option}

-- The mode that an argument names, as the int that arm_get_mode_number returns.
abbrev pub mode_argument : Option Bytes → ℕ
mode_argument none = minus_one
mode_argument (some s) = mode_of (arm_get_mode_number s)

-- The option -s without its argument.
abbrev pub is_bare : ℕ × Option Bytes → Bool
is_bare (opt, none) = opt == b's'
is_bare (opt, some s) = false

-- What an option hands to trace_add.
abbrev pub flags_of : ℕ × Option Bytes → Option ℕ
flags_of (opt, optarg) =
    if opt == b'r'
    then some registers_flag
    else if opt == b'm'
    then some memory_flag
    else if opt == b's'
    then some (mode_argument optarg)
    else if opt == b'p'
    then some position_flag
    else none

abbrev pub after_flags : Option ℕ → Trace → Trace
after_flags none t = t
after_flags (some flags) t = trace_add flags t

pub parse_option-trace :
    (opens : Bytes → Bool) (opt : ℕ) (optarg : Option Bytes) (o o' : Settings)
    → parse_option opens (opt, optarg) o ≡ some (ready o')
    → o'.trace ≡ after_flags (flags_of (opt, optarg)) o.trace
unfolding parse_option
parse_option-trace opens opt none o o' e = ground arith
parse_option-trace opens opt (some s) o o' e = ground arith

-- Without its argument the option is a use of NULL.
pub parse_option-bare :
    (opens : Bytes → Bool) (opt : ℕ) (optarg : Option Bytes) (o o' : Settings)
    → parse_option opens (opt, optarg) o ≡ some (ready o')
    → is_bare (opt, optarg) ≡ false
unfolding parse_option
parse_option-bare opens opt none o o' e = ground arith
parse_option-bare opens opt (some s) o o' e = refl

mode_loop-lt : (n i : ℕ) (name : Bytes) (mode : ℕ) → mode_loop n i name ≡ some mode → mode < n + i
unfolding mode_loop
mode_loop-lt zero i name mode e = absurd (cc)
mode_loop-lt (suc n) i name mode e = ground (arith, mode_loop-lt n (i + 1) name mode)

-- The mode of a name, or the value -1.
mode_range :
    (optarg : Option Bytes) → (mode_argument optarg < 32) ⊎ (mode_argument optarg ≡ minus_one)
unfolding arm_get_mode_number
mode_range none = inr refl
mode_range (some name) = range (mode_loop 32 0 name) (λ mode. mode_loop-lt 32 0 name mode)
  where
    range :
        (o : Option ℕ)
        → ((mode : ℕ) → o ≡ some mode → mode < 32)
        → (mode_of o < 32) ⊎ (mode_of o ≡ minus_one)
    range none h = inr refl
    range (some mode) h = inl (h mode refl)

-- Whether an option is among them that satisfies the test.
abbrev pub any : (ℕ × Option Bytes → Bool) → List (ℕ × Option Bytes) → Bool
any p [] = false
any p (x ∷ l) = p x || any p l

abbrev pub is_option : ℕ → ℕ × Option Bytes → Bool
is_option c (opt, optarg) = opt == c

-- The option that asks for the states in a mode.
abbrev pub is_mode : ℕ → ℕ × Option Bytes → Bool
is_mode mode (opt, optarg) = (opt == b's') && (mode_argument optarg == mode)

abbrev pub is_known_mode : ℕ × Option Bytes → Bool
is_known_mode (opt, optarg) = (opt == b's') && ltb (mode_argument optarg) 32

abbrev pub flag : Bool → ℕ
flag true = 1
flag false = 0

module _ (t : Trace) where
  -- Bit k of the flags after one of them is set.
  abbrev Sets : (k a b c d : ℕ) → Type 0
  Sets k a b c d =
      (bit k (bit_or t.trace_flags memory_flag) ≡ max (bit k t.trace_flags) a)
      × (bit k (bit_or t.trace_flags registers_flag) ≡ max (bit k t.trace_flags) b)
      × (bit k (bit_or t.trace_flags state_flag) ≡ max (bit k t.trace_flags) c)
      × (bit k (bit_or t.trace_flags position_flag) ≡ max (bit k t.trace_flags) d)

  sets :
      (k : ℕ)
      → Sets k (bit k memory_flag) (bit k registers_flag) (bit k state_flag) (bit k position_flag)
  sets k = (
    bit-bit_or k t.trace_flags _,
    bit-bit_or k t.trace_flags _,
    bit-bit_or k t.trace_flags _,
    bit-bit_or k t.trace_flags _,
  )

  Sets-memory : Sets 5 1 0 0 0
  unfolding bit
  Sets-memory = sets 5

  Sets-registers : Sets 6 0 1 0 0
  unfolding bit
  Sets-registers = sets 6

  Sets-state : Sets 7 0 0 1 0
  unfolding bit
  Sets-state = sets 7

  Sets-position : Sets 8 0 0 0 1
  unfolding bit
  Sets-position = sets 8

  module _ (opt : ℕ) (optarg : Option Bytes) where
    pub step_memory :
        bit 5 (after_flags (flags_of (opt, optarg)) t).trace_flags
        ≡ max (bit 5 t.trace_flags) (flag (opt == b'm'))
    unfolding trace_add
    step_memory = ground (arith, Sets-memory, mode_range optarg)

    pub step_registers :
        bit 6 (after_flags (flags_of (opt, optarg)) t).trace_flags
        ≡ max (bit 6 t.trace_flags) (flag (opt == b'r'))
    unfolding trace_add
    step_registers = ground (arith, Sets-registers, mode_range optarg)

    pub step_state :
        bit 7 (after_flags (flags_of (opt, optarg)) t).trace_flags
        ≡ max (bit 7 t.trace_flags) (flag (is_known_mode (opt, optarg)))
    unfolding trace_add
    step_state = ground (arith, Sets-state, mode_range optarg)

    pub step_position :
        bit 8 (after_flags (flags_of (opt, optarg)) t).trace_flags
        ≡ max (bit 8 t.trace_flags) (flag (opt == b'p'))
    unfolding trace_add
    step_position = ground (arith, Sets-position, mode_range optarg)

    pub step_states :
        (mode : ℕ)
        → mode < 32
        → (after_flags (flags_of (opt, optarg)) t).states mode
          ≡ (if is_mode mode (opt, optarg) then 1 else t.states mode)
    unfolding trace_add
    step_states mode h = ground (arith, mode_range optarg)
