-- ===== src/Scanner/Stream.antt =====
-- scanner.c: what yylex makes of a whole stream.
use projet_prog.Base.{
  ℕ, zero, suc, ◌<◌, ◌≤◌, ◌≡◌, ◌∙◌, ap, refl, arith, some, List, Bool, true, false, [], ◌∷◌, ◌++◌,
  Machine,
}
use projet_prog.Base.State.{pure, ◌>>=◌, ◌>>◌, modify}
use projet_prog.Core.{Core}
use projet_prog.Breakpoints.{Cells}
use projet_prog.Text.{Bytes, size, take, drop}
use projet_prog.Gdb.{gdb_packet_analysis}
use projet_prog.Gdb.Send.{gdb_transmit_packet}
use projet_prog.Scanner.{
  Parser, on_gdb, handle_error, add_first_character, act_on, yylex, gdb_scanner, new_parser,
}
use projet_prog.Scanner.Match.{next_token}
use projet_prog.Scanner.Body.{AreBytes}
use projet_prog.Scanner.Rules.{Rule, ack, retransmission, packet, invalid, echo, number, IsToken}
use projet_prog.Scanner.Longest.{next_token-IsToken}

-- A stream as the sequence of its tokens.
pub data Tokens : Bytes → List (Rule × Bytes) → Type 0 where
  ended : Tokens [] []
  token :
      {s : Bytes} {rule : Rule} {n : ℕ} {l : List (Rule × Bytes)}
      → IsToken s rule n
      → Tokens (drop n s) l
      → Tokens s ((rule, take n s) ∷ l)

size-drop : (n : ℕ) (s : Bytes) → 0 < n → n ≤ size s → size (drop n s) < size s
size-drop zero s p h = absurd (omega arith)
size-drop (suc n) [] p h = absurd (omega arith)
size-drop (suc zero) (c ∷ s) p h = omega arith
size-drop (suc (suc n)) (c ∷ s) p h = omega (arith, size-drop (suc n) s (omega arith) (omega arith))

AreBytes-drop : (n : ℕ) (s : Bytes) → AreBytes s → AreBytes (drop n s)
AreBytes-drop zero s h = h
AreBytes-drop (suc n) [] h = h
AreBytes-drop (suc n) (c ∷ s) h = AreBytes-drop n s h.1

module _ ⦃m : Machine⦄ (fuel : ℕ) where
  -- What scanner.l does for a token.
  unfoldable pub serve : Rule → Bytes → Parser Bool
  serve ack text = handle_error >> pure true
  serve retransmission text = handle_error >> (on_gdb gdb_transmit_packet >> pure true)
  serve packet text = handle_error >> on_gdb (gdb_packet_analysis fuel text)
  serve invalid text = add_first_character text >> pure true
  serve echo text = modify (λ parser. record parser { yyout = text ++ parser.yyout }) >> pure true

  -- For all the tokens of a stream, and at its end.
  unfoldable pub serve_all : List (Rule × Bytes) → Parser Bool
  serve_all [] = handle_error >> pure true
  serve_all ((rule, text) ∷ l) = do
    goes_on ← serve rule text
    elim goes_on [ false ↦ pure false | true ↦ serve_all l ]

  act_on-serve : (rule : Rule) (text : Bytes) → act_on fuel (number rule) text ≡ serve rule text
  unfolding act_on serve
  act_on-serve ack text = refl
  act_on-serve retransmission text = refl
  act_on-serve packet text = refl
  act_on-serve invalid text = refl
  act_on-serve echo text = refl

  -- One token, and the rest of the stream.
  pub yylex-token :
      (rounds c : ℕ) (s : Bytes) (rule : Rule) (n : ℕ)
      → next_token (c ∷ s) ≡ some (number rule, n)
      → yylex fuel (suc rounds) (c ∷ s) ≡ (
          serve rule (take n (c ∷ s)) >>= λ goes_on. elim goes_on as (λ _. Parser Bool) [
            | false ↦ pure false
            | true ↦ yylex fuel rounds (drop n (c ∷ s))
          ])
  unfolding yylex
  yylex-token rounds c s rule n e = rw (yylex, e, act_on-serve rule (take n (c ∷ s))) refl

  yylex-Tokens :
      (rounds : ℕ) (s : Bytes)
      → size s ≤ rounds
      → AreBytes s
      → (l : List (Rule × Bytes)) × Tokens s l × (yylex fuel rounds s ≡ serve_all l)
  unfolding yylex serve_all
  yylex-Tokens rounds [] h b = ([], ended, refl)
  yylex-Tokens zero (c ∷ s) h b = absurd (omega arith)
  yylex-Tokens (suc rounds) (c ∷ s) h b =
      let (rule, n, e, t) = next_token-IsToken c s b in
      let shorter = size-drop n (c ∷ s) t.some_bytes t.inside in
      let (l, tokens, f) =
        yylex-Tokens rounds (drop n (c ∷ s)) (omega arith) (AreBytes-drop n (c ∷ s) b) in
      (
        (rule, take n (c ∷ s)) ∷ l,
        token t tokens,
        yylex-token rounds c s rule n e
            ∙ ap
                (λ (k : Parser Bool). serve rule (take n (c ∷ s)) >>= λ goes_on.
                  elim goes_on as (λ _. Parser Bool) [ false ↦ pure false | true ↦ k ])
                f,
      )

  -- A scanner serves the tokens of its stream of bytes, one after the other, and no round is
  -- missing: the tokens are those of scanner.l, and together they are the whole stream.
  pub gdb_scanner-Tokens :
      (contents points error : Cells) (arm : Core) (stream : Bytes)
      → AreBytes stream
      → (l : List (Rule × Bytes)) × Tokens stream l
        × (gdb_scanner fuel contents points error arm stream
            ≡ serve_all l (new_parser contents points error arm))
  unfolding gdb_scanner
  gdb_scanner-Tokens contents points error arm stream b =
      let (l, tokens, e) = yylex-Tokens (size stream) stream (omega arith) b in
      (l, tokens, ap (λ run. run (new_parser contents points error arm)) e)
