-- ===== src/Scanner/Requests.antt =====
-- scanner.c: the packets that gdb_send_data writes, one behind the other in a stream.
use projet_prog.Base.{
  ℕ, zero, suc, ◌≤◌, ◌≡◌, ◌∙◌, ap, refl, arith, u8, Option, none, some, List, Bool, true, false, [],
  ◌∷◌, ◌++◌, Machine,
}
use projet_prog.Base.State.{pure, ◌>>=◌, ◌>>◌, modify, after_step}
use projet_prog.Text.{Bytes, codes, size, sum, drop, size-append}
use projet_prog.Gdb.{Gdb, Session, handle, gdb_packet_analysis}
use projet_prog.Gdb.State.{written}
use projet_prog.Gdb.Send.{gdb_send_ack}
use projet_prog.Gdb.Packet.{frame}
use projet_prog.Gdb.Received.{tail_of, gdb_packet_analysis-checked}
use projet_prog.Scanner.{ParserData, Parser, on_gdb, handle_error, yylex, gdb_scanner, new_parser}
use projet_prog.Scanner.Rules.{packet}
use projet_prog.Scanner.Stream.{serve, yylex-token}
use projet_prog.Scanner.Errors.{handle_error-none}
use projet_prog.Core.{Core}
use projet_prog.Breakpoints.{Cells}
use projet_prog.Scanner.Frames.{
  end_of, take-append, drop-append_all, frame-next_token, frames, ArePlain, frames-AreBytes,
}

module _ ⦃m : Machine⦄ (fuel : ℕ) where
  -- Each request is acknowledged and handled, in their order.
  unfoldable pub serve_requests : List Bytes → Session Bool
  serve_requests [] = pure true
  serve_requests (s ∷ l) = do
    gdb_send_ack
    goes_on ← handle fuel (s ++ (0 ∷ tail_of (u8 (sum s))))
    elim goes_on [ false ↦ pure false | true ↦ serve_requests l ]

  -- The state after the acknowledgement, and what the request makes of it.
  abbrev handled : Bytes → Gdb → Option (Bool × Gdb)
  handled s gdb =
      handle fuel (s ++ (0 ∷ tail_of (u8 (sum s))))
        (record gdb { events = written (codes "+") ∷ gdb.events })

  abbrev continued : (Bool → Parser Bool) → Option (Bool × ParserData) → Option (Bool × ParserData)
  continued k o = elim o [ none ↦ none | some (b, parser) ↦ k b parser ]

  abbrev within : ParserData → Option (Bool × Gdb) → Option (Bool × ParserData)
  within parser o = elim o [ none ↦ none | some (b, gdb) ↦ some (b, record parser { gdb = gdb }) ]

  on_gdb-within :
      (k : Session Bool) (parser : ParserData) → on_gdb k parser ≡ within parser (k parser.gdb)
  unfolding on_gdb
  on_gdb-within k parser = refl

  serve-packet :
      (s : Bytes) (parser : ParserData)
      → parser.len ≡ 0
      → serve fuel packet (frame s) parser ≡ within parser (handled s parser.gdb)
  unfolding serve
  serve-packet s parser e =
      after_step handle_error (on_gdb (gdb_packet_analysis fuel (frame s)))
        (handle_error-none parser e)
      ∙ on_gdb-within (gdb_packet_analysis fuel (frame s)) parser
      ∙ ap (within parser)
          ((gdb_packet_analysis-checked fuel s (u8 (sum s)) (omega arith) parser.gdb).0 refl)

  abbrev onward : ℕ → Bytes → Bool → Parser Bool
  onward rounds t false = pure false
  onward rounds t true = yylex fuel rounds t

  -- What a request does to a scanner and to a session are the same, if that holds of the rest.
  rest-same :
      (rounds : ℕ) (t : Bytes) (l : List Bytes) (parser : ParserData) (o : Option (Bool × Gdb))
      → ((gdb : Gdb)
          → yylex fuel rounds t (record parser { gdb = gdb })
            ≡ within parser (serve_requests l gdb))
      → continued (onward rounds t) (within parser o)
        ≡ within parser (elim o [
          | none ↦ none
          | some (b, gdb) ↦
              (elim b as (λ _. Session Bool) [ false ↦ pure false | true ↦ serve_requests l ]) gdb
        ])
  unfolding pure
  rest-same rounds t l parser none same = refl
  rest-same rounds t l parser (some (false, gdb)) same = refl
  rest-same rounds t l parser (some (true, gdb)) same = same gdb

  yylex-frames :
      (rounds : ℕ) (l : List Bytes) (parser : ParserData)
      → size (frames l) ≤ rounds
      → ArePlain l
      → parser.len ≡ 0
      → yylex fuel rounds (frames l) parser ≡ on_gdb (serve_requests l) parser
  unfolding yylex serve_requests pure on_gdb ◌>>=◌ ◌>>◌ gdb_send_ack modify
  yylex-frames rounds [] parser h each e =
      after_step handle_error (pure true) (handle_error-none parser e)
  yylex-frames zero (s ∷ l) parser h each e = absurd (omega arith)
  yylex-frames (suc rounds) (s ∷ l) parser h each e =
      let t = frames l in
      let below : size t ≤ rounds = omega (arith, size-append (frame s) t) in
      ap (λ run. run parser)
        (yylex-token fuel rounds b'$' ((s ++ end_of (u8 (sum s))) ++ t) packet (size (frame s))
          (frame-next_token s t each.0 (frames-AreBytes l each.1)))
      ∙ ap
          (λ u.
            (serve fuel packet u >>= onward rounds (drop (size (frame s)) (frame s ++ t))) parser)
          (take-append (frame s) t)
      ∙ ap (λ u. (serve fuel packet (frame s) >>= onward rounds u) parser)
          (drop-append_all (frame s) t)
      ∙ ap (continued (onward rounds t)) (serve-packet s parser e)
      ∙ rest-same rounds t l parser (handled s parser.gdb)
          λ gdb. yylex-frames rounds l (record parser { gdb = gdb }) below each.1 e

  -- The stream of the packets of some texts, which gdb_send_data writes if they have no zero byte
  -- and fit its buffer, is to a new scanner the sequence of these requests: each is acknowledged
  -- and handled before the next, until one does not return. The texts have neither mark of a packet.
  pub gdb_scanner-frames :
      (contents points error : Cells) (arm : Core) (l : List Bytes)
      → ArePlain l
      → gdb_scanner fuel contents points error arm (frames l)
        ≡ on_gdb (serve_requests l) (new_parser contents points error arm)
  unfolding gdb_scanner
  gdb_scanner-frames contents points error arm l each =
      yylex-frames (size (frames l)) l (new_parser contents points error arm) (omega arith) each
        refl
