-- ===== src/Gdb/Stops.antt =====
-- gdb_protocol.c: where the loop of cont stops, as a relation on the states of the session.
use mathlib.Core.Option.{none-ne-some, some-injective}
use projet_prog.Base.{
  ℕ, zero, suc, ◌≤◌, ◌≡◌, ◌≢◌, ◌⊎◌, ◌↔◌, ◌∙◌, inl, inr, ap, refl, sym, subst, arith, ◌==◌, Option,
  some, none, Bool, Bool-cases, true, false, Machine,
}
use projet_prog.Base.State.{pure, ◌>>=◌, ◌>>◌, asks, modify, after, after_step, fault_step, asks-eq}
use projet_prog.Registers.{registers_read, registers_get_mode}
use projet_prog.Core.{Core}
use projet_prog.Instruction.{arm_step}
use projet_prog.Breakpoints.Find.{IsTable, Member, located}
use projet_prog.Text.{Bytes}
use projet_prog.Gdb.State.{Gdb, Session, on_arm}
use projet_prog.Gdb.Send.{gdb_send_stop_reason}
use projet_prog.Gdb.Reason.{told, told-eq}
use projet_prog.Gdb.Execute.{stops_at, single_step, cont}

-- The pc is at a breakpoint, or the last step raised an exception.
abbrev pub Halted : Gdb → Type 0
Halted gdb = Member gdb.table (gdb.arm.reg 15) ⊎ (gdb.target_exception ≢ 0)

module _ ⦃m : Machine⦄ where
  -- n steps lead to the first state that is halted.
  pub data Stops : ℕ → Gdb → Gdb → Type 0 where
    last : {gdb gdb' : Gdb} → single_step gdb ≡ some (tt, gdb') → Halted gdb' → Stops 1 gdb gdb'
    more :
        {n : ℕ} {gdb gdb' gdb'' : Gdb}
        → single_step gdb ≡ some (tt, gdb')
        → ¬ Halted gdb'
        → Stops n gdb' gdb''
        → Stops (suc n) gdb gdb''

stops_at-Halted :
    (gdb : Gdb)
    → IsTable gdb.table
    → ((stops_at gdb (gdb.arm.reg 15) ≡ true) × Halted gdb)
      ⊎ ((stops_at gdb (gdb.arm.reg 15) ≡ false) × (¬ Halted gdb))
unfolding stops_at
stops_at-Halted gdb t = elim (located gdb.table (gdb.arm.reg 15) t) [
  | inr found ↦ inl (rw found.0 refl, inl (_, found.1))
  | inl absent ↦ elim (Bool-cases (gdb.target_exception == 0)) [
    | inl quiet ↦ inr (
      rw (absent.0, quiet) refl,
      λ h. elim h [ inl (i, there) ↦ absent.1 i there | inr raised ↦ raised (ground arith) ],
    )
    | inr raised ↦ inl (rw (absent.0, raised) refl, inr (ground arith))
  ]
]

module _ ⦃m : Machine⦄ where
  stepped : Gdb → Option (ℕ × Core) → Option (Unit {0} × Gdb)
  stepped gdb none = none
  stepped gdb (some (exception, arm)) =
      some (tt, record gdb { arm = arm; target_exception = exception })

  on_arm-stepped : (gdb : Gdb) → single_step gdb ≡ stepped gdb (arm_step gdb.arm)
  unfolding single_step on_arm stepped modify ◌>>=◌
  on_arm-stepped gdb = split (arm_step gdb.arm)
    where
      split :
          (o : Option (ℕ × Core))
          → (on_arm (λ _. o) >>= λ exception.
                modify λ gdb. record gdb { target_exception = exception })
              gdb
            ≡ stepped gdb o
      split none = refl
      split (some (exception, arm)) = refl

  -- A step leaves the table alone.
  stepped-table :
      (gdb gdb' : Gdb) (o : Option (ℕ × Core))
      → stepped gdb o ≡ some (tt, gdb')
      → gdb'.table ≡ gdb.table
  unfolding stepped
  stepped-table gdb gdb' none e = cc
  stepped-table gdb gdb' (some (exception, arm)) e = cc

  single_step-table : (gdb gdb' : Gdb) → single_step gdb ≡ some (tt, gdb') → gdb'.table ≡ gdb.table
  single_step-table gdb gdb' e =
      stepped-table gdb gdb' (arm_step gdb.arm) (sym (on_arm-stepped gdb) ∙ e)

  abbrev go_on : ℕ → Bytes → Bool → Session Bool
  go_on fuel text stop = elim stop [
    | true ↦ gdb_send_stop_reason >> pure true
    | false ↦ cont fuel text
  ]

  cont-step :
      (gdb gdb' : Gdb) (fuel : ℕ) (text : Bytes)
      → single_step gdb ≡ some (tt, gdb')
      → cont (suc fuel) text gdb ≡ go_on fuel text (stops_at gdb' (gdb'.arm.reg 15)) gdb'
  unfolding cont registers_read
  cont-step gdb gdb' fuel text e =
      after_step single_step _ e
      ∙ after (asks λ gdb. registers_read gdb.arm.reg 15 (registers_get_mode gdb.arm.reg)) _
          (asks-eq _ refl)
      ∙ after (asks λ gdb. some (stops_at gdb (gdb'.arm.reg 15))) _ (asks-eq _ refl)

  -- Given as much fuel as steps, cont comes to the halted state that the steps first lead to.
  steps_end :
      {n : ℕ} {gdb gdb' : Gdb} (fuel : ℕ) (text : Bytes)
      → IsTable gdb.table
      → Stops n gdb gdb'
      → n ≤ fuel
      → cont fuel text gdb ≡ go_on 0 text true gdb'
  steps_end zero text t (last e h) p = absurd (omega arith)
  steps_end zero text t (more e h s) p = absurd (omega arith)
  steps_end {gdb} {gdb'} (suc fuel) text t (last e h) p =
      elim (stops_at-Halted gdb' (subst IsTable (sym (single_step-table gdb gdb' e)) t)) [
        | inl halted ↦ cont-step gdb gdb' fuel text e ∙ rw halted.0 refl
        | inr going ↦ absurd (going.1 h)
      ]
  steps_end {gdb} (suc fuel) text t (more {gdb' = gdb'} e h s) p =
      let t' = subst IsTable (sym (single_step-table gdb gdb' e)) t in
      elim (stops_at-Halted gdb' t') [
        | inl halted ↦ absurd (h halted.1)
        | inr going ↦
            cont-step gdb gdb' fuel text e ∙ rw going.0 (steps_end fuel text t' s (omega arith))
      ]

  ended : (gdb : Gdb) (text : Bytes) → go_on 0 text true gdb ≡ some (true, told gdb)
  unfolding pure
  ended gdb text = after_step gdb_send_stop_reason _ (told-eq gdb)

  faulted :
      (gdb : Gdb) (fuel : ℕ) (text : Bytes)
      → single_step gdb ≡ none
      → cont (suc fuel) text gdb ≡ none
  unfolding cont ◌>>=◌ ◌>>◌
  faulted gdb fuel text e = fault_step single_step _ e

  same_state :
      {q q' : Gdb} → ◌≡◌ {A = Option (Bool × Gdb)} (some (true, q)) (some (true, q')) → q ≡ q'
  same_state e = ap (λ (r : Bool × Gdb). r.1) (some-injective _ _ e)

  -- A run that ends has met a halted state in at most as many steps as it has fuel.
  Ended : ℕ → Gdb → Gdb → Type 0
  Ended fuel gdb q = (n : ℕ) × (gdb' : Gdb) × (n ≤ fuel) × Stops n gdb gdb' × (q ≡ told gdb')

  module _ (fuel : ℕ) (text : Bytes) (gdb q : Gdb) (t : IsTable gdb.table)
      (e : cont (suc fuel) text gdb ≡ some (true, q))
      (later : (gdb' : Gdb)
        → IsTable gdb'.table
        → cont fuel text gdb' ≡ some (true, q)
        → Ended fuel gdb' q) where
    first_round : (o : Option (Unit {0} × Gdb)) → single_step gdb ≡ o → Ended (suc fuel) gdb q
    unfolding Ended
    first_round none s = absurd (none-ne-some _ (sym (faulted gdb fuel text s) ∙ e))
    first_round (some (tt, gdb')) s =
        let t' = subst IsTable (sym (single_step-table gdb gdb' s)) t in
        let same : go_on fuel text (stops_at gdb' (gdb'.arm.reg 15)) gdb' ≡ some (true, q) =
          sym (cont-step gdb gdb' fuel text s) ∙ e in
        elim (stops_at-Halted gdb' t') [
          | inl (halts, halted) ↦
              let here = subst (λ b. go_on fuel text b gdb' ≡ some (true, q)) halts same in
              (1, gdb', omega arith, last s halted, same_state (sym here ∙ ended gdb' text))
          | inr (goes, going) ↦
              let beyond = subst (λ b. go_on fuel text b gdb' ≡ some (true, q)) goes same in
              let (n, end, enough, steps, sent) = later gdb' t' beyond in
              (suc n, end, omega arith, more s going steps, sent)
        ]

  cont-Ended :
      (fuel : ℕ) (text : Bytes) (gdb q : Gdb)
      → IsTable gdb.table
      → cont fuel text gdb ≡ some (true, q)
      → Ended fuel gdb q
  unfolding cont pure
  cont-Ended zero text gdb q t e = cc
  cont-Ended (suc fuel) text gdb q t e =
      first_round fuel text gdb q t e (λ gdb' t'. cont-Ended fuel text gdb' q t') (single_step gdb)
        refl

  -- From a state with a sorted table, cont ends with a state exactly if some number of steps within
  -- its fuel leads to a first halted state, and the end is that state after its reason is sent.
  pub cont-Stops :
      (fuel : ℕ) (text : Bytes) (gdb q : Gdb)
      → IsTable gdb.table
      → (cont fuel text gdb ≡ some (true, q))
        ↔ ((n : ℕ) × (gdb' : Gdb) × (n ≤ fuel) × Stops n gdb gdb' × (q ≡ told gdb'))
  unfolding Ended
  cont-Stops fuel text gdb q t = (
    cont-Ended fuel text gdb q t,
    λ (n, gdb', enough, steps, sent).
        steps_end fuel text t steps enough ∙ ended gdb' text ∙ ap (λ q. some (true, q)) (sym sent),
  )
