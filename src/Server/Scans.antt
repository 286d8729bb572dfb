-- ===== src/Server/Scans.antt =====
-- scanner.c, arm_simulator.c: a run of the scanner is a sequence of steps of the server.
use mathlib.Core.Option.{some-injective}
use projet_prog.Base.{
  ℕ, zero, suc, ◌≡◌, ◌⊎◌, inl, inr, refl, sym, subst, ap, none, some, Option, Bool, true, false, [],
  ◌∷◌, ◌==◌, ltb, if◌then◌else◌, Machine,
}
use projet_prog.Base.State.{pure, ◌>>=◌, ◌>>◌, modify}
use projet_prog.Core.{Core}
use projet_prog.Core.Valid.{IsValid}
use projet_prog.Breakpoints.{Cells}
use projet_prog.Text.{Bytes, size, take, drop}
use projet_prog.Gdb.{Gdb, gdb_init_data, gdb_packet_analysis}
use projet_prog.Gdb.Send.{gdb_require_retransmission}
use projet_prog.Gdb.Kept.{WellFormed}
use projet_prog.Scanner.{
  ParserData, Parser, on_gdb, set_error, handle_error, make_room, add_character_to_error,
  add_first_character, act_on, yylex, gdb_scanner, new_parser,
}
use projet_prog.Scanner.Match.{next_token}
use projet_prog.Server.{Step, Reaches, packet, resend, refuse, here, then_step}
use projet_prog.Server.Invariant.{gdb_init_data-WellFormed}
use projet_prog.Server.Led.{
  Led, fault, other, led, Leads, Any, Goes, resume, Leads-then, Leads-if, Leads-modify, Leads-pure,
  Leads-on_gdb,
}

module _ ⦃m : Machine⦄ where
  one : {g h : Gdb} → Step g h → Reaches g h
  one s = then_step here s

  stored :
      (b : Bool) (parser changed : ParserData)
      → changed.gdb ≡ parser.gdb
      → Led Any parser.gdb (if b then some (tt, changed) else none)
  stored true parser changed e = led (subst (Reaches parser.gdb) (sym e) here)
  stored false parser changed e = fault

  set_error-Leads : (c : ℕ) → Leads Any (set_error c)
  unfolding set_error
  set_error-Leads c = λ parser. stored (ltb parser.len 1024) parser _ refl

  require-Leads : Leads Any (on_gdb gdb_require_retransmission)
  require-Leads = Leads-on_gdb λ gdb gdb' a e. inr (one (refuse e))

  handle_error-Leads : Leads Any handle_error
  unfolding handle_error
  handle_error-Leads = λ parser. either (parser.len == 0) parser
    where
      either :
          (b : Bool) (parser : ParserData)
          → Led Any parser.gdb (
              if b
              then some (tt, parser)
              else (set_error 0
                    >> (on_gdb gdb_require_retransmission
                        >> modify (λ parser. record parser { len = 0 })))
                  parser)
      either true parser = led here
      either false parser =
          Leads-then (set_error-Leads 0) (Leads-then require-Leads (Leads-modify _ λ parser. refl))
            parser

  make_room-Leads : Leads Any make_room
  unfolding make_room
  make_room-Leads = λ parser. either (ltb 1022 parser.len) parser
    where
      either :
          (b : Bool) (parser : ParserData)
          → Led Any parser.gdb (if b then handle_error parser else some (tt, parser))
      either true parser = handle_error-Leads parser
      either false parser = led here

  add_first_character-Leads : (s : Bytes) → Leads Any (add_first_character s)
  unfolding add_first_character add_character_to_error
  add_first_character-Leads [] = λ parser. fault
  add_first_character-Leads (c ∷ s) = λ parser.
      Leads-then make_room-Leads (Leads-then (set_error-Leads c) (Leads-modify _ λ parser. refl))
        parser

  act_on-Leads : (fuel yy_act : ℕ) (text : Bytes) → Leads Goes (act_on fuel yy_act text)
  unfolding act_on
  act_on-Leads fuel yy_act text =
      Leads-if (yy_act == 1) (Leads-then handle_error-Leads (Leads-pure true)) (
        Leads-if (yy_act == 2)
          (Leads-then handle_error-Leads
            (Leads-then (Leads-on_gdb λ gdb gdb' a e. inr (one (resend e))) (Leads-pure true)))
          (Leads-if (yy_act == 3)
            (Leads-then handle_error-Leads
              (Leads-on_gdb λ gdb gdb' goes_on e. packet_case fuel text goes_on e))
            (Leads-if (yy_act == 4) (Leads-then (add_first_character-Leads text) (Leads-pure true))
              (Leads-if (yy_act == 5) (Leads-then (Leads-modify _ λ parser. refl) (Leads-pure true))
                (λ parser. fault)))))
    where
      packet_case :
          {gdb gdb' : Gdb} (fuel : ℕ) (text : Bytes) (goes_on : Bool)
          → gdb_packet_analysis fuel text gdb ≡ some (goes_on, gdb')
          → ¬ (goes_on ≡ true) ⊎ Reaches gdb gdb'
      packet_case fuel text true e = inr (one (packet fuel text e))
      packet_case fuel text false e = inl λ c. absurd (cc)

  -- After a token that was served to its end, the rest of the stream.
  yylex-Leads : (fuel rounds : ℕ) (s : Bytes) → Leads Goes (yylex fuel rounds s)
  unfolding yylex pure ◌>>=◌
  yylex-Leads fuel rounds [] = Leads-then handle_error-Leads (Leads-pure true)
  yylex-Leads fuel zero (c ∷ s) = λ parser. other λ e. absurd (cc)
  yylex-Leads fuel (suc rounds) (c ∷ s) =
      λ parser. token (λ n. yylex-Leads fuel rounds (drop n (c ∷ s))) (next_token (c ∷ s)) parser
    where
      onward : ℕ → Bool → Parser Bool
      onward yyleng goes_on = elim goes_on as (λ _. Parser Bool) [
        | false ↦ pure false
        | true ↦ yylex fuel rounds (drop yyleng (c ∷ s))
      ]

      goes :
          (yyleng : ℕ)
          → Leads Goes (onward yyleng true)
          → (goes_on : Bool) → Leads Goes (onward yyleng goes_on)
      goes yyleng rest true = rest
      goes yyleng rest false = λ parser. other λ e. absurd (cc)

      stops :
          (gdb : Gdb) (yyleng : ℕ) (goes_on : Bool)
          → ¬ (goes_on ≡ true)
          → (parser : ParserData) → Led Goes gdb (onward yyleng goes_on parser)
      stops gdb yyleng true n parser = absurd (n refl)
      stops gdb yyleng false n parser = other λ e. absurd (cc)

      token :
          ((yyleng : ℕ) → Leads Goes (onward yyleng true))
          → (o : Option (ℕ × ℕ))
          → Leads Goes (elim o as (λ _. Parser Bool) [
            | none ↦ λ parser. none
            | some (yy_act, yyleng) ↦ act_on fuel yy_act (take yyleng (c ∷ s)) >>= λ goes_on.
                elim goes_on as (λ _. Parser Bool) [
                  | false ↦ pure false
                  | true ↦ yylex fuel rounds (drop yyleng (c ∷ s))
                ]
          ])
      token rest none = λ parser. fault
      token rest (some (yy_act, yyleng)) = λ parser.
          resume {P = Goes} (onward yyleng) (act_on-Leads fuel yy_act (take yyleng (c ∷ s)) parser)
            (goes yyleng (rest yyleng)) (stops parser.gdb yyleng)

  reached :
      {g : Gdb} {o : Option (Bool × ParserData)} {end : ParserData}
      → Led Goes g o
      → o ≡ some (true, end)
      → Reaches g end.gdb
  reached fault e = absurd (cc)
  reached (other n) e = absurd (n (ap (λ (r : Bool × ParserData). r.0) (some-injective _ _ e)))
  reached {g} (led r) e =
      subst (λ (q : ParserData). Reaches g q.gdb)
        (ap (λ (r : Bool × ParserData). r.1) (some-injective _ _ e)) r

  -- What a scanner does to its session is a sequence of the steps of the server, whatever the
  -- stream, if no request runs out of fuel.
  pub gdb_scanner-Reaches :
      (fuel : ℕ) (contents points error : Cells) (arm : Core) (stream : Bytes) (end : ParserData)
      → gdb_scanner fuel contents points error arm stream ≡ some (true, end)
      → Reaches (gdb_init_data contents points arm) end.gdb
  unfolding gdb_scanner
  gdb_scanner-Reaches fuel contents points error arm stream end e =
      reached (yylex-Leads fuel (size stream) stream (new_parser contents points error arm)) e

  -- After any stream that a new scanner on a valid processor takes to its end, the table of
  -- breakpoints is sorted, the processor valid, and its memory of the size that it had.
  pub gdb_scanner-WellFormed :
      (fuel : ℕ) (contents points error : Cells) (arm : Core) (stream : Bytes) (end : ParserData)
      → IsValid arm
      → gdb_scanner fuel contents points error arm stream ≡ some (true, end)
      → WellFormed arm.mem.taille end.gdb
  gdb_scanner-WellFormed fuel contents points error arm stream end v e =
      gdb_init_data-WellFormed contents points arm end.gdb v
        (gdb_scanner-Reaches fuel contents points error arm stream end e)
