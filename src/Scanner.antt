-- ===== src/Scanner.antt =====
-- scanner.c, which flex generates from scanner.l: the packets in the stream of the debugger. The
-- stream is the list of the bytes that the connection delivers until it is closed; how they are
-- read into the buffer of the scanner is left out.
pub mod Tables
pub mod Match
pub mod Classes
pub mod Body
pub mod First
pub mod Rules
pub mod Longest
pub mod Stream
pub mod Errors
pub mod Frames
pub mod Requests
use projet_prog.Base.{
  ℕ, zero, suc, ◌+◌, Option, none, some, [], ◌∷◌, ◌++◌, Bool, true, false, ltb, ◌==◌, if◌then◌else◌,
  Machine,
}
use projet_prog.Base.State.{Run, pure, ◌>>=◌, ◌>>◌, modify}
use projet_prog.Core.{Core}
use projet_prog.Breakpoints.{Cells, store_at}
use projet_prog.Text.{Bytes, size, take, drop}
use projet_prog.Gdb.{Gdb, Session, gdb_init_data, gdb_packet_analysis}
use projet_prog.Gdb.Send.{gdb_require_retransmission, gdb_transmit_packet}
use Match.{next_token}

-- MAX_ERROR_SIZE
abbrev pub max_error_size : ℕ
max_error_size = 1024

-- struct parser_data, with what the scanner writes to its standard output, the last byte first.
pub record ParserData : Type 0 where
  pub gdb : Gdb
  pub buffer : Cells
  pub len : ℕ
  pub yyout : Bytes

abbrev pub Parser : Type 0 → Type 0
Parser A = Run ParserData A

unfoldable pub on_gdb : {A : Type 0} → Session A → Parser A
on_gdb m parser = elim (m parser.gdb) [
  | none ↦ none
  | some (a, gdb) ↦ some (a, record parser { gdb = gdb })
]

-- data->buffer[data->len] = c
unfoldable pub set_error : ℕ → Parser (Unit {0})
set_error c parser =
    if ltb parser.len max_error_size
    then some (tt, record parser { buffer = store_at parser.buffer parser.len c })
    else none

unfoldable pub handle_error : Parser (Unit {0})
handle_error parser =
    if parser.len == 0
    then some (tt, parser)
    else (do
      set_error 0
      on_gdb gdb_require_retransmission
      modify λ parser. record parser { len = 0 })
        parser

-- if (data->len > MAX_ERROR_SIZE-2)
unfoldable pub make_room : Parser (Unit {0})
make_room parser = if ltb 1022 parser.len then handle_error parser else some (tt, parser)

unfoldable pub add_character_to_error : ℕ → Parser (Unit {0})
add_character_to_error c = do
  make_room
  set_error c
  modify λ parser. record parser { len = parser.len + 1 }

-- add_character_to_error(yyextra, *yytext)
unfoldable pub add_first_character : Bytes → Parser (Unit {0})
add_first_character [] parser = none
add_first_character (c ∷ s) parser = add_character_to_error c parser

-- handle_error(yyextra) before what a rule does.
abbrev after_error : {A : Type 0} → Parser A → Parser A
after_error m = handle_error >> m

-- The variables of gdb_scanner; error holds what the array of the errors held.
abbrev pub new_parser : (contents points error : Cells) → Core → ParserData
new_parser contents points error arm = record {
  gdb = gdb_init_data contents points arm;
  buffer = error;
  len = 0;
  yyout = [];
}

module _ ⦃m : Machine⦄ (fuel : ℕ) where
  -- The switch on the action of a rule, for the text that it matched; the messages of debug are
  -- left out. The result is false where the fuel of cont ended.
  unfoldable pub act_on : (yy_act : ℕ) → (yytext : Bytes) → Parser Bool
  act_on yy_act yytext =
      if yy_act == 1
      then after_error (pure true)
      else if yy_act == 2
      then after_error (on_gdb gdb_transmit_packet >> pure true)
      else if yy_act == 3
      then after_error (on_gdb (gdb_packet_analysis fuel yytext))
      else if yy_act == 4
      then add_first_character yytext >> pure true
      else if yy_act == 5
      then modify (λ parser. record parser { yyout = yytext ++ parser.yyout }) >> pure true
      else λ parser. none

  -- One token after the other, up to the end of the stream; every token takes a byte of it, so as
  -- many rounds are enough. The result is false where a fuel ended.
  unfoldable pub yylex : (rounds : ℕ) → Bytes → Parser Bool
  yylex rounds [] = handle_error >> pure true
  yylex zero (c ∷ s) = pure false
  yylex (suc rounds) (c ∷ s) = elim (next_token (c ∷ s)) [
    | none ↦ λ parser. none
    | some (yy_act, yyleng) ↦ do
      goes_on ← act_on yy_act (take yyleng (c ∷ s))
      elim goes_on [ false ↦ pure false | true ↦ yylex rounds (drop yyleng (c ∷ s)) ]
  ]

  unfoldable pub gdb_scanner :
      (contents points error : Cells) → Core → Bytes → Option (Bool × ParserData)
  gdb_scanner contents points error arm stream =
      yylex (size stream) stream (new_parser contents points error arm)
