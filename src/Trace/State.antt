-- ===== src/Trace/State.antt =====
-- trace.c: what the trace of the state prints.
use mathlib.Core.List.{append_assoc, append-nil}
use projet_prog.Base.{
  ℕ, zero, suc, ◌+◌, ◌%◌, ◌≤◌, ◌≡◌, ◌∙◌, ap, refl, sym, arith, Option, none, some, Bool, Bool-cases,
  inl, inr, not, ◌&&◌, ◌==◌, if◌then◌else◌, [], ◌∷◌, ◌++◌, true, false, lt→ltb,
}
use projet_prog.Base.Fault.{◌>>=◌}
use projet_prog.Text.{Bytes, codes}
use projet_prog.Text.Order.{clash}
use projet_prog.Names.{
  Table, entry, arm_mode_names, arm_register_names, arm_get_mode_name, arm_get_register_name,
}
use projet_prog.Registers.{Registers, registers_read, registers_read_cpsr, registers_read_spsr}
use projet_prog.Trace.{state_flag}
use projet_prog.Text.Format.{padded, upper_digits}
use projet_prog.Trace.Print.{
  Log, write, traces, registers_loop, print_mode, state_of, modes_loop, trace_arm_state,
}

pub write-write : (s t : Bytes) (log : Log) → write t (write s log) ≡ write (s ++ t) log
write-write s t log = ap (λ o. record log { output = o }) (append_assoc log.output s t)

pub write-nil : (log : Log) → write [] log ≡ log
write-nil log = ap (λ o. record log { output = o }) (append-nil log.output)

-- Register i: a new line before each fifth one, and then its name and its value.
abbrev pub new_line : ℕ → Bytes
new_line i = if not (i == 0) && (i % 5 == 0) then 10 ∷ codes "    " else []

abbrev pub cell : Bytes → ℕ → Registers → Bytes
cell name i r = new_line i ++ (codes "   " ++ (padded name ++ (b'=' ∷ upper_digits (r i) 8)))

-- The first n names of a table, for the registers from i on.
unfoldable pub cells : ℕ → Table → ℕ → Registers → Bytes
cells zero l i r = []
cells (suc n) [] i r = []
cells (suc n) (none ∷ l) i r = []
cells (suc n) (some name ∷ l) i r = cell name i r ++ cells n l (i + 1) r

-- The line of a mode.
abbrev pub block : Bytes → Registers → Bytes
block name r =
    name
    ++ (codes ":"
        ++ (cells 16 arm_register_names 0 r
            ++ ((codes "   CPSR=" ++ upper_digits (registers_read_cpsr r) 8)
                ++ (codes "   SPSR=FFFFFFFF" ++ (10 ∷ [])))))

-- The lines of the modes from m on that have a name and are chosen.
unfoldable pub blocks : (states : ℕ → ℕ) → Table → ℕ → Registers → Bytes
blocks states [] m r = []
blocks states (none ∷ l) m r = blocks states l (m + 1) r
blocks states (some name ∷ l) m r =
    (if states m == 0 then [] else block name r) ++ blocks states l (m + 1) r

-- The table l is what the table t has from i on.
Behind : Table → ℕ → Table → Type 0
Behind t i l = (k : ℕ) → entry t (i + k) ≡ entry l k

module _ (t : Table) (i : ℕ) where
  Behind-head : (l : Table) → Behind t i l → entry t i ≡ entry l 0
  unfolding Behind
  Behind-head l h = ap (entry t) (omega arith) ∙ h 0

  Behind-tail : (x : Option Bytes) (l : Table) → Behind t i (x ∷ l) → Behind t (i + 1) l
  unfolding Behind entry
  Behind-tail x l h k = ap (entry t) (omega arith) ∙ h (suc k)

Behind-all : (t : Table) → Behind t 0 t
unfolding Behind
Behind-all t k = ap (entry t) (omega arith)

-- The first n entries are names.
unfoldable pub full : ℕ → Table → Bool
full zero l = true
full (suc n) [] = false
full (suc n) (none ∷ l) = false
full (suc n) (some name ∷ l) = full n l

write-cell :
    (b : Bool) (a s : Bytes) (log : Log)
    → write s (if b then write a log else log) ≡ write ((if b then a else []) ++ s) log
write-cell true a s log = write-write a s log
write-cell false a s log = refl

module _ (mode : ℕ) (r : Registers) where
  registers_loop-cells :
      (n i : ℕ) (l : Table) (log : Log)
      → Behind arm_register_names i l
      → full n l ≡ true
      → i + n ≤ 18
      → registers_loop n i i mode r log ≡ some (write (cells n l i r) log)
  unfolding registers_loop cells full arm_get_register_name registers_read entry
  registers_loop-cells zero i l log h all fits = ap some (sym (write-nil log))
  registers_loop-cells (suc n) i [] log h all fits = absurd (clash (sym all))
  registers_loop-cells (suc n) i (none ∷ l) log h all fits = absurd (clash (sym all))
  registers_loop-cells (suc n) i (some name ∷ l) log h all fits =
      let text = codes "   " ++ (padded name ++ (b'=' ∷ upper_digits (r i) 8)) in
      let here = Behind-head arm_register_names i (some name ∷ l) h in
      rw (here, lt→ltb i 18 (omega arith))
        (registers_loop-cells n (i + 1) l _ (Behind-tail arm_register_names i (some name) l h) all
            (omega arith)
          ∙ ap (λ q. some (write (cells n l (i + 1) r) q))
              (write-cell (not (i == 0) && (i % 5 == 0)) (10 ∷ codes "    ") text log)
          ∙ ap some (write-write (cell name i r) (cells n l (i + 1) r) log))

-- Writing one text after another is writing them together.
write-texts :
    (a b c d e f : Bytes) (log : Log)
    → write f (write e (write d (write c (write (a ++ b) log))))
      ≡ write (a ++ (b ++ (c ++ (d ++ (e ++ f))))) log
write-texts a b c d e f log =
    write-write e f _
    ∙ write-write d (e ++ f) _
    ∙ write-write c (d ++ (e ++ f)) _
    ∙ write-write (a ++ b) (c ++ (d ++ (e ++ f))) log
    ∙ ap (λ s. write s log) (append_assoc a b (c ++ (d ++ (e ++ f))))

print_mode-block :
    (name : Bytes) (m : ℕ) (r : Registers) (log : Log)
    → print_mode name m r log ≡ some (write (block name r) log)
unfolding print_mode registers_read_spsr upper_digits full
print_mode-block name m r log =
    let regs = cells 16 arm_register_names 0 r in
    let cpsr = codes "   CPSR=" ++ upper_digits (registers_read_cpsr r) 8 in
    let spsr = codes "   SPSR=FFFFFFFF" in
    let start = write (name ++ codes ":") log in
    ap (λ o. o >>= λ log. some (write (10 ∷ []) (write spsr (write cpsr log))))
      (registers_loop-cells m r 16 0 arm_register_names start (Behind-all arm_register_names) refl
        (omega arith))
    ∙ ap some (write-texts name (codes ":") regs cpsr spsr (10 ∷ []) log)

state_of-block :
    (name : Bytes) (m : ℕ) (r : Registers) (log : Log)
    → state_of (some name) m r log
      ≡ some (write (if log.trace.states m == 0 then [] else block name r) log)
unfolding state_of
state_of-block name m r log = elim (Bool-cases (log.trace.states m == 0)) [
  | inl e ↦ rw e (ap some (sym (write-nil log)))
  | inr e ↦ rw e (print_mode-block name m r log)
]

length : Table → ℕ
length [] = 0
length (x ∷ l) = suc (length l)

modes_loop-blocks :
    (l : Table) (m : ℕ) (r : Registers) (log : Log)
    → Behind arm_mode_names m l
    → modes_loop (length l) m r log ≡ some (write (blocks log.trace.states l m r) log)
unfolding modes_loop length blocks arm_get_mode_name entry state_of
modes_loop-blocks [] m r log h = ap some (sym (write-nil log))
modes_loop-blocks (none ∷ l) m r log h =
    rw (Behind-head arm_mode_names m (none ∷ l) h)
      (modes_loop-blocks l (m + 1) r log (Behind-tail arm_mode_names m none l h))
modes_loop-blocks (some name ∷ l) m r log h =
    let text = if log.trace.states m == 0 then [] else block name r in
    let rest = blocks log.trace.states l (m + 1) r in
    ap (λ o. o >>= λ x. state_of x m r log >>= modes_loop (length l) (m + 1) r)
      (Behind-head arm_mode_names m (some name ∷ l) h)
    ∙ ap (λ o. o >>= modes_loop (length l) (m + 1) r) (state_of-block name m r log)
    ∙ modes_loop-blocks l (m + 1) r (write text log) (Behind-tail arm_mode_names m (some name) l h)
    ∙ ap some (write-write text rest log)

-- trace_arm_state returns, and with the trace of the state on it writes a line for each mode that
-- has a name and is chosen, in the order of their numbers: the name, the sixteen registers with a
-- new line before each fifth, the cpsr without its reserved bits, and FFFFFFFF as the spsr. With the
-- trace off it writes nothing. Nothing but the output changes.
pub trace_arm_state-blocks :
    (r : Registers) (log : Log)
    → trace_arm_state r log
      ≡ some (
          write
            (if traces state_flag log.trace then blocks log.trace.states arm_mode_names 0 r else [])
            log)
unfolding trace_arm_state length
trace_arm_state-blocks r log = elim (Bool-cases (traces state_flag log.trace)) [
  | inl e ↦ rw e (modes_loop-blocks arm_mode_names 0 r log (Behind-all arm_mode_names))
  | inr e ↦ rw e (ap some (sym (write-nil log)))
]
