-- ===== src/Trace/Places.antt =====
-- trace.c and trace_location.h: the place that the line of an access to a register names.
use projet_prog.Base.{
  ℕ, suc, ◌+◌, ◌<◌, ◌≤◌, ◌≡◌, ◌≢◌, ◌∙◌, ap, refl, arith, sub32, add32, some, ◌==◌, if◌then◌else◌,
  List, [], ◌∷◌, ◌++◌, true,
}
use projet_prog.Base.Fault.{◌>>=◌}
use projet_prog.Text.{Bytes}
use projet_prog.Trace.{Trace, stack_size, registers_flag, position_flag}
use projet_prog.Trace.Nested.{
  Call, start, calls, Nested, Holding, entered-eq, entered, calls-Holding,
}
use projet_prog.Trace.Print.{Log, write, traces, trace_register}
use projet_prog.Trace.Lines.{place, place_of, register_line, trace_register-line}

traces-Holding : (flag k : ℕ) (t t' : Trace) → Holding k t t' → traces flag t' ≡ traces flag t
traces-Holding flag k t t' h = rw (h.enabled, h.flags) refl

place_of-entered :
    (k : ℕ) (t t' : Trace) (file : Bytes) (line : ℕ)
    → add32 t.location_stack_top 1 ≡ k
    → Holding (suc k) (entered file line t) t'
    → place_of t' k ≡ (if traces position_flag t then place file line else [])
place_of-entered k t t' file line at h =
    let top : (k == add32 t.location_stack_top 1) ≡ true = ground (arith, at) in
    rw
      (
        traces-Holding position_flag (suc k) (entered file line t) t' h,
        h.files k (omega arith),
        h.lines k (omega arith),
        top,
      )
      refl

-- Behind trace_start_location and any nested calls that have ended, an access to a register with a
-- number below 18, in a mode below 32, with room for the depth of the calls, returns. If the accesses
-- to registers are traced it adds one line, and nothing else: the place of its own call if the places
-- are traced, the cycle, the type, the name of the register, that of the mode if it has one, and the
-- value.
pub trace_register-place :
    {d : ℕ} {l : List Call} (k : ℕ) (file : Bytes) (line : ℕ) (log : Log)
    → (cycle type reg mode value : ℕ) → Nested d l
    → log.trace.enabled ≢ 0
    → log.trace.location_stack_top ≡ sub32 k 1
    → k + 1 + d ≤ stack_size
    → type < 2
    → reg < 18
    → mode < 32
    → (t' : Trace) × (calls (start file line ∷ l) log.trace ≡ some t')
      × (trace_register cycle type reg mode value (record log { trace = t' })
          ≡ some (
              write
                (if traces registers_flag log.trace
                  then (if traces position_flag log.trace then place file line else [])
                    ++ register_line cycle type reg mode value
                  else [])
                (record log { trace = t' })))
unfolding calls
trace_register-place {l} k file line log cycle type reg mode value nested on top room a b c =
    let t = log.trace in
    let (t', run, h) =
      calls-Holding (suc k) (entered file line t) nested on (omega (arith, top)) (omega arith) in
    let at : add32 t.location_stack_top 1 ≡ k = omega (arith, top) in
    (
      t',
      ap (λ o. o >>= calls l) (entered-eq t on k file line top (omega arith)) ∙ run,
      trace_register-line cycle type reg mode value a b c (record log { trace = t' }) k (h.top ∙ at)
            (omega arith)
          ∙ rw
              (
                place_of-entered k t t' file line at h,
                traces-Holding registers_flag (suc k) (entered file line t) t' h,
              )
              refl,
    )
