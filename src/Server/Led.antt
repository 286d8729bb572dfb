-- ===== src/Server/Led.antt =====
-- scanner.c, arm_simulator.c: runs of the scanner as steps of the server, with a rule for each way
-- to build a run.
use projet_prog.Base.{
  ◌≡◌, ◌⊎◌, inl, inr, refl, sym, subst, none, some, Option, Bool, true, false, if◌then◌else◌,
  Machine,
}
use projet_prog.Base.State.{pure, ◌>>=◌, ◌>>◌, modify}
use projet_prog.Gdb.{Gdb, Session}
use projet_prog.Scanner.{ParserData, Parser, on_gdb}
use projet_prog.Server.{Reaches, here, Reaches-trans}

module _ ⦃m : Machine⦄ where
  -- Where the outcome is a value that P names, the session was led on by steps.
  pub data Led {A : Type 0} (P : A → Type 0) (gdb : Gdb) : Option (A × ParserData) → Type 0 where
    fault : Led P gdb none
    other : {a : A} {parser : ParserData} → ¬ (P a) → Led P gdb (some (a, parser))
    led : {a : A} {parser : ParserData} → Reaches gdb parser.gdb → Led P gdb (some (a, parser))

  abbrev pub Leads : {A : Type 0} → (A → Type 0) → Parser A → Type 0
  Leads P run = (parser : ParserData) → Led P parser.gdb (run parser)

  abbrev pub Any : {A : Type 0} → A → Type 0
  Any a = Unit {0}

  abbrev pub Goes : Bool → Type 0
  Goes b = b ≡ true

  pub Led-trans :
      {A : Type 0} {P : A → Type 0} {g h : Gdb} {o : Option (A × ParserData)}
      → Reaches g h
      → Led P h o
      → Led P g o
  Led-trans r fault = fault
  Led-trans r (other n) = other n
  Led-trans r (led q) = led (Reaches-trans r q)

  module _ {A B : Type 0} {P : A → Type 0} {Q : B → Type 0} where
    pub resume :
        {g : Gdb} {o : Option (A × ParserData)} (f : A → Parser B)
        → Led P g o
        → ((a : A) → Leads Q (f a))
        → ((a : A) → ¬ (P a) → (parser : ParserData) → Led Q g (f a parser))
        → Led Q g (elim o [ none ↦ none | some (a, parser) ↦ f a parser ])
    resume f fault k n = fault
    resume f (other {a} {parser} c) k n = n a c parser
    resume f (led {a} {parser} r) k n = Led-trans r (k a parser)

  pub Leads-bind :
      {A B : Type 0} {Q : B → Type 0} {run : Parser A} {f : A → Parser B}
      → Leads Any run
      → ((a : A) → Leads Q (f a))
      → Leads Q (run >>= f)
  unfolding ◌>>=◌
  Leads-bind {f} y k = λ parser. resume f (y parser) k (λ a c p. absurd (c tt))

  pub Leads-then :
      {A B : Type 0} {Q : B → Type 0} {run : Parser A} {next : Parser B}
      → Leads Any run
      → Leads Q next
      → Leads Q (run >> next)
  unfolding ◌>>◌
  Leads-then y k = Leads-bind y λ a. k

  pub Leads-if :
      {A : Type 0} {Q : A → Type 0} {x y : Parser A} (b : Bool)
      → Leads Q x
      → Leads Q y
      → Leads Q (if b then x else y)
  Leads-if true h k = h
  Leads-if false h k = k

  -- A change of the scanner alone.
  pub Leads-some :
      {A : Type 0} {Q : A → Type 0} {a : A} (f : ParserData → ParserData)
      → ((parser : ParserData) → (f parser).gdb ≡ parser.gdb)
      → Leads Q (λ parser. some (a, f parser))
  Leads-some f same = λ parser. led (subst (Reaches parser.gdb) (sym (same parser)) here)

  pub Leads-modify :
      (f : ParserData → ParserData)
      → ((parser : ParserData) → (f parser).gdb ≡ parser.gdb)
      → Leads Any (modify f)
  unfolding modify
  Leads-modify f same = Leads-some f same

  pub Leads-pure : {A : Type 0} {Q : A → Type 0} (a : A) → Leads Q (pure a)
  unfolding pure
  Leads-pure a = Leads-some (λ parser. parser) (λ parser. refl)

  lifted :
      {A : Type 0} {P : A → Type 0} (parser : ParserData) (o : Option (A × Gdb))
      → ((a : A) (gdb : Gdb) → o ≡ some (a, gdb) → ¬ (P a) ⊎ Reaches parser.gdb gdb)
      → Led P parser.gdb
          (elim o [ none ↦ none | some (a, gdb) ↦ some (a, record parser { gdb = gdb }) ])
  lifted parser none h = fault
  lifted parser (some (a, gdb)) h = elim (h a gdb refl) [ inl n ↦ other n | inr r ↦ led r ]

  -- A session within the scanner.
  pub Leads-on_gdb :
      {A : Type 0} {P : A → Type 0} {run : Session A}
      → ((gdb gdb' : Gdb) (a : A) → run gdb ≡ some (a, gdb') → ¬ (P a) ⊎ Reaches gdb gdb')
      → Leads P (on_gdb run)
  unfolding on_gdb
  Leads-on_gdb h = λ parser. lifted parser _ λ a gdb e. h parser.gdb gdb a e
