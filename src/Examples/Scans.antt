-- ===== src/Examples/Scans.antt =====
-- The theorems on the scanner at concrete streams.
use projet_prog.Base.{ℕ, ◌+◌, ◌/◌, ◌≡◌, refl, arith, some, List, true, [], ◌∷◌}
use projet_prog.Base.State.{pure, ◌>>=◌, ◌>>◌, modify}
use projet_prog.Text.{Bytes, codes, size}
use projet_prog.Gdb.{gdb_init_data}
use projet_prog.Gdb.State.{written}
use projet_prog.Gdb.Send.{gdb_transmit_packet, bytes_from}
use projet_prog.Gdb.Kept.{WellFormed}
use projet_prog.Scanner.{ParserData, new_parser, on_gdb, handle_error, act_on, yylex, gdb_scanner}
use projet_prog.Scanner.Tables.{class_of, transition, follow, get_elem?}
use projet_prog.Scanner.Match.{remember, yy_match, yy_find_action, next_token}
use projet_prog.Scanner.Rules.{Rule, number, IsToken}
use projet_prog.Scanner.Longest.{next_token-IsToken}
use projet_prog.Scanner.Stream.{Tokens, serve_all, gdb_scanner-Tokens}
use projet_prog.Scanner.Errors.{AreInvalid, Refused, yylex-invalid}
use projet_prog.Scanner.Errors as Errors
use projet_prog.Scanner.Frames.{IsPlain, frames}
use projet_prog.Scanner.Frames as Frames
use projet_prog.Scanner.Requests.{serve_requests, gdb_scanner-frames}
use projet_prog.Server.Scans.{gdb_scanner-WellFormed}
use projet_prog.Examples.{x86, cpu, cpu-IsValid}

abbrev nothing : ℕ → ℕ
nothing i = 0

abbrev new : ParserData
new = new_parser nothing nothing nothing cpu

-- A packet and an answer behind it.
abbrev stream : Bytes
stream = codes "$?#3f+"

next_token-IsToken_example :
    (rule : Rule) × (n : ℕ) × (next_token stream ≡ some (number rule, n)) × IsToken stream rule n
next_token-IsToken_example = next_token-IsToken b'$' (codes "?#3f+") (omega arith)

gdb_scanner-Tokens_example :
    (l : List (Rule × Bytes)) × Tokens stream l
    × (gdb_scanner 0 nothing nothing nothing cpu stream ≡ serve_all 0 l new)
gdb_scanner-Tokens_example = gdb_scanner-Tokens 0 nothing nothing nothing cpu stream (omega arith)

gdb_scanner-frames_example :
    gdb_scanner 0 nothing nothing nothing cpu (frames (codes "?" ∷ []))
    ≡ on_gdb (serve_requests 0 (codes "?" ∷ [])) new
gdb_scanner-frames_example = gdb_scanner-frames 0 nothing nothing nothing cpu (codes "?" ∷ []) (
  Frames.one_more (omega arith) (λ e. omega (arith, e)) (λ e. omega (arith, e)) Frames.none_left,
  tt,
)

yylex-invalid_example :
    (end : ParserData) × (yylex 0 (size (codes "?")) (codes "?") new ≡ some (true, end))
    × Refused ((new.len + size (codes "?") + 1022) / 1023) new end
yylex-invalid_example =
    yylex-invalid 0 (codes "?") new
      (Errors.one_more (omega arith) (λ e. omega (arith, e)) (λ e. omega (arith, e))
        (λ e. omega (arith, e)) (λ e. omega (arith, e)) Errors.none_left)
      (omega arith)

-- After an answer that asks for the last packet again.
abbrev resent : ParserData
resent = record new { gdb = record new.gdb { events = written [] ∷ [] } }

minus : gdb_scanner 0 nothing nothing nothing cpu (codes "-") ≡ some (true, resent)
unfolding gdb_scanner yylex act_on handle_error on_gdb gdb_transmit_packet bytes_from next_token
    yy_match yy_find_action remember class_of transition follow get_elem? pure modify ◌>>=◌ ◌>>◌
    gdb_init_data
minus = refl

gdb_scanner-WellFormed_example : WellFormed 16 resent.gdb
gdb_scanner-WellFormed_example =
    gdb_scanner-WellFormed 0 nothing nothing nothing cpu (codes "-") resent cpu-IsValid minus
