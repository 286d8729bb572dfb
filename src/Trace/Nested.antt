-- ===== src/Trace/Nested.antt =====
-- trace.c and trace_location.h: the places of nested accesses.
use projet_prog.Base.{
  ℕ, suc, ◌+◌, ◌<◌, ◌≤◌, ◌≡◌, ◌≢◌, ◌∙◌, ap, refl, sym, arith, add32, sub32, Option, none, some,
  true, false, ltb, ◌==◌, List, [], ◌∷◌, ◌++◌, if◌then◌else◌,
}
use projet_prog.Base.Fault.{◌>>=◌}
use projet_prog.Text.{Bytes}
use projet_prog.Trace.{Trace, stack_size, trace_start_location, trace_end_location}

-- The two calls that trace_location.h puts round an access.
pub data Call : Type 0 where
  start : Bytes → ℕ → Call
  end : Call

unfoldable pub calls : List Call → Trace → Option Trace
calls [] t = some t
calls (start file line ∷ l) t = trace_start_location file line t >>= calls l
calls (end ∷ l) t = calls l (trace_end_location t)

-- Calls in pairs, at most d deep.
pub data Nested : ℕ → List Call → Type 0 where
  no_calls : {d : ℕ} → Nested d []
  pair :
      {d : ℕ} {l l' : List Call} (file : Bytes) (line : ℕ)
      → Nested d l
      → Nested (suc d) l'
      → Nested (suc d) (start file line ∷ (l ++ (end ∷ l')))

-- The stack has k places, and the lowest k are those of the other trace.
pub record Holding (k : ℕ) (t t' : Trace) : Type 0 where
  pub top : t'.location_stack_top ≡ t.location_stack_top
  pub files : (i : ℕ) → i < k → t'.location_file_stack i ≡ t.location_file_stack i
  pub lines : (i : ℕ) → i < k → t'.location_line_stack i ≡ t.location_line_stack i
  pub enabled : t'.enabled ≡ t.enabled
  pub flags : t'.trace_flags ≡ t.trace_flags

calls-append : (l l' : List Call) (t : Trace) → calls (l ++ l') t ≡ (calls l t >>= calls l')
unfolding calls
calls-append [] l' t = refl
calls-append (end ∷ l) l' t = calls-append l l' (trace_end_location t)
calls-append (start file line ∷ l) l' t =
    split (trace_start_location file line t) (calls-append l l')
  where
    split :
        (o : Option Trace)
        → ((t : Trace) → calls (l ++ l') t ≡ (calls l t >>= calls l'))
        → (o >>= calls (l ++ l')) ≡ ((o >>= calls l) >>= calls l')
    split none same = refl
    split (some t) same = same t

abbrev pub entered : Bytes → ℕ → Trace → Trace
entered file line t =
    let top = add32 t.location_stack_top 1 in
    record t {
      location_stack_top = top;
      location_file_stack = λ i. if i == top then file else t.location_file_stack i;
      location_line_stack = λ i. if i == top then line else t.location_line_stack i;
    }

abbrev left : Trace → Trace
left t = record t { location_stack_top = sub32 t.location_stack_top 1 }

module _ (t : Trace) (on : t.enabled ≢ 0) where
  is_on : (t.enabled == 0) ≡ false
  is_on = ground arith

  pub entered-eq :
      (k : ℕ) (file : Bytes) (line : ℕ)
      → t.location_stack_top ≡ sub32 k 1
      → k < stack_size
      → trace_start_location file line t ≡ some (entered file line t)
  unfolding trace_start_location
  entered-eq k file line top room =
      let fits : ltb (add32 t.location_stack_top 1) stack_size ≡ true = ground (arith, top, room) in
      rw (is_on, fits) refl

  left-eq : trace_end_location t ≡ left t
  unfolding trace_end_location
  left-eq = rw is_on refl

-- A place below the new one is not the new one.
below_new : (k i top : ℕ) → top ≡ sub32 k 1 → k < stack_size → i < k → (i == add32 top 1) ≡ false
below_new k i top e room h = ground (arith, e)

-- A pair of calls round t2, and what follows from the left place to t4.
module _ (k : ℕ) (t t2 t4 : Trace) (file : Bytes) (line : ℕ) (on : t.enabled ≢ 0)
    (top : t.location_stack_top ≡ sub32 k 1) (room : k < stack_size)
    (h2 : Holding (suc k) (entered file line t) t2) where
  still_on : t2.enabled ≢ 0
  still_on e = on (sym h2.enabled ∙ e)

  paired :
      (l l' : List Call)
      → calls l (entered file line t) ≡ some t2
      → calls l' (left t2) ≡ some t4
      → calls (start file line ∷ (l ++ (end ∷ l'))) t ≡ some t4
  unfolding calls
  paired l l' e2 e4 =
      ap (λ o. o >>= calls (l ++ (end ∷ l'))) (entered-eq t on k file line top room)
      ∙ calls-append l (end ∷ l') (entered file line t)
      ∙ ap (λ o. o >>= calls (end ∷ l')) e2
      ∙ ap (calls l') (left-eq t2 still_on)
      ∙ e4

  paired-Holding : Holding k (left t2) t4 → Holding k t t4
  paired-Holding h4 = record {
    top = h4.top ∙ omega (arith, h2.top, top);
    files = λ i h.
        h4.files i h
        ∙ h2.files i (omega arith)
        ∙ rw (below_new k i t.location_stack_top top room h) refl;
    lines = λ i h.
        h4.lines i h
        ∙ h2.lines i (omega arith)
        ∙ rw (below_new k i t.location_stack_top top room h) refl;
    enabled = h4.enabled ∙ h2.enabled;
    flags = h4.flags ∙ h2.flags;
  }

-- Nested calls on an enabled trace with room for their depth return, with the stack and the flags as
-- they were.
pub calls-Holding :
    {d : ℕ} {l : List Call} (k : ℕ) (t : Trace)
    → Nested d l
    → t.enabled ≢ 0
    → t.location_stack_top ≡ sub32 k 1
    → k + d ≤ stack_size
    → (t' : Trace) × (calls l t ≡ some t') × Holding k t t'
unfolding calls
calls-Holding k t no_calls on top room = (
  t,
  refl,
  record { top = refl; files = λ i h. refl; lines = λ i h. refl; enabled = refl; flags = refl },
)
calls-Holding k t (pair {l} {l'} file line body rest) on top room =
    let (t2, e2, h2) =
      calls-Holding (suc k) (entered file line t) body on (omega (arith, top)) (omega arith) in
    let fits : k < stack_size = omega arith in
    let (t4, e4, h4) =
      calls-Holding k (left t2) rest (still_on k t t2 t2 file line on top fits h2)
        (omega (arith, h2.top, top)) room in
    (
      t4,
      paired k t t2 t4 file line on top fits h2 l l' e2 e4,
      paired-Holding k t t2 t4 file line on top fits h2 h4,
    )
