-- ===== src/Simulator/Options.antt =====
-- arm_simulator.c: what the options make of the flags of the trace.
use projet_prog.Base.{
  ℕ, ◌<◌, ◌≡◌, ◌∙◌, refl, ap, subst, arith, max, bit, some, none, Option, List, [], ◌∷◌, Bool, true,
  false, if◌then◌else◌,
}
use projet_prog.Base.Fault.{◌>>=◌}
use projet_prog.Text.{Bytes}
use projet_prog.Debug.{Names}
use projet_prog.Trace.{Trace}
use projet_prog.Simulator.{Settings, Parsed, ready, exited, parse_option, parse_options, started}
use projet_prog.Simulator.Flags.{
  flags_of, after_flags, parse_option-trace, parse_option-bare, is_bare, any, is_option, is_mode,
  is_known_mode, flag, step_memory, step_registers, step_state, step_position, step_states,
}

-- The flags after some options, by those before.
record Traced (l : List (ℕ × Option Bytes)) (t t' : Trace) : Type 0 where
  memory : bit 5 t'.trace_flags ≡ max (bit 5 t.trace_flags) (flag (any (is_option b'm') l))
  registers : bit 6 t'.trace_flags ≡ max (bit 6 t.trace_flags) (flag (any (is_option b'r') l))
  state : bit 7 t'.trace_flags ≡ max (bit 7 t.trace_flags) (flag (any is_known_mode l))
  position : bit 8 t'.trace_flags ≡ max (bit 8 t.trace_flags) (flag (any (is_option b'p') l))
  states :
      (mode : ℕ) → mode < 32 → t'.states mode ≡ (if any (is_mode mode) l then 1 else t.states mode)
  bare : any is_bare l ≡ false

-- One option more in front.
Traced-option :
    (opt : ℕ) (optarg : Option Bytes) (l : List (ℕ × Option Bytes)) (t t1 t2 : Trace)
    → t1 ≡ after_flags (flags_of (opt, optarg)) t
    → is_bare (opt, optarg) ≡ false
    → Traced l t1 t2
    → Traced ((opt, optarg) ∷ l) t t2
Traced-option opt optarg l t t1 t2 e whole r = record {
  memory = ground (arith, r.memory, field (bit 5) e, step_memory t opt optarg);
  registers = ground (arith, r.registers, field (bit 6) e, step_registers t opt optarg);
  state = ground (arith, r.state, field (bit 7) e, step_state t opt optarg);
  position = ground (arith, r.position, field (bit 8) e, step_position t opt optarg);
  states = λ mode h. ground (
    arith,
    r.states mode h,
    ap (λ (t : Trace). t.states mode) e,
    step_states t opt optarg mode h,
  );
  bare = rw whole r.bare;
}
  where
    field : (f : ℕ → ℕ) {a b : Trace} → a ≡ b → f a.trace_flags ≡ f b.trace_flags
    field f e = ap (λ (t : Trace). f t.trace_flags) e

parse_options-split :
    (opens : Bytes → Bool) (x : ℕ × Option Bytes) (l : List (ℕ × Option Bytes)) (o o' : Settings)
    → parse_options opens (x ∷ l) o ≡ some (ready o')
    → (o1 : Settings) × (parse_option opens x o ≡ some (ready o1))
      × (parse_options opens l o1 ≡ some (ready o'))
unfolding parse_options
parse_options-split opens x l o o' e = split (parse_option opens x o) e
  where
    split :
        (p : Option Parsed)
        → (p >>= λ p. elim p as (λ _. Option Parsed) [
          | exited code ↦ some (exited code)
          | ready o' ↦ parse_options opens l o'
        ])
          ≡ some (ready o')
        → (o1 : Settings) × (p ≡ some (ready o1)) × (parse_options opens l o1 ≡ some (ready o'))
    split none e = absurd (cc)
    split (some (exited code)) e = absurd (cc)
    split (some (ready o1)) e = (o1, refl, e)

trace_of : Trace → Option Parsed → Trace
trace_of t none = t
trace_of t (some (exited code)) = t
trace_of t (some (ready o)) = o.trace

Traced-none : (t : Trace) → Traced [] t t
Traced-none t = record {
  memory = omega arith;
  registers = omega arith;
  state = omega arith;
  position = omega arith;
  states = λ mode h. refl;
  bare = refl;
}

loop-Traced :
    (opens : Bytes → Bool) (l : List (ℕ × Option Bytes)) (o o' : Settings)
    → parse_options opens l o ≡ some (ready o')
    → Traced l o.trace o'.trace
unfolding parse_options trace_of
loop-Traced opens [] o o' e =
    subst (Traced [] o.trace) (ap (trace_of o.trace) e) (Traced-none o.trace)
loop-Traced opens ((opt, optarg) ∷ l) o o' e =
    let (o1, first, rest) = parse_options-split opens (opt, optarg) l o o' e in
    Traced-option opt optarg l o.trace o1.trace o'.trace
      (parse_option-trace opens opt optarg o o1 first)
      (parse_option-bare opens opt optarg o o1 first) (loop-Traced opens l o1 o' rest)

zero-max : (a : ℕ) → max 0 a ≡ a
zero-max a = omega arith

if-flag : (b : Bool) → (if b then 1 else 0) ≡ flag b
if-flag true = refl
if-flag false = refl

-- If the loop of the options ends with settings, no -s was there without its argument, which is a
-- use of NULL, and what is traced at the start of the program is known from its options: the
-- accesses to memory, those to registers and the places of accesses each exactly if an option asks
-- for them, the state of the processor exactly if an option names a mode, and a mode exactly if an
-- option names it.
pub parse_options-flags :
    (opens : Bytes → Bool) (files : ℕ → Bytes) (lines : ℕ → ℕ) (names : Names)
    (l : List (ℕ × Option Bytes)) (o : Settings) (mode : ℕ)
    → mode < 32
    → parse_options opens l (started files lines names) ≡ some (ready o)
    → (bit 5 o.trace.trace_flags ≡ flag (any (is_option b'm') l))
      × (bit 6 o.trace.trace_flags ≡ flag (any (is_option b'r') l))
      × (bit 7 o.trace.trace_flags ≡ flag (any is_known_mode l))
      × (bit 8 o.trace.trace_flags ≡ flag (any (is_option b'p') l))
      × (o.trace.states mode ≡ flag (any (is_mode mode) l))
      × (any is_bare l ≡ false)
unfolding started bit
parse_options-flags opens files lines names l o mode h e =
    let r = loop-Traced opens l (started files lines names) o e in
    (
      r.memory ∙ zero-max _,
      r.registers ∙ zero-max _,
      r.state ∙ zero-max _,
      r.position ∙ zero-max _,
      r.states mode h ∙ if-flag (any (is_mode mode) l),
      r.bare,
    )
