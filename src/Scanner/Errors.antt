-- ===== src/Scanner/Errors.antt =====
-- scanner.c: the bytes that belong to no packet.
use projet_prog.Base.{
  ℕ, zero, suc, ◌+◌, ◌/◌, ◌<◌, ◌≡◌, ◌≢◌, ◌∙◌, inl, inr, Bool-cases, ap, subst, refl, arith, some,
  List, Bool, true, false, [], ◌∷◌, ◌==◌, ltb, if◌then◌else◌, lt→ltb, Machine,
}
use projet_prog.Base.State.{pure, modify, after, after_step}
use projet_prog.Breakpoints.{store_at}
use projet_prog.Text.{Bytes, codes, size}
use projet_prog.Gdb.{Gdb}
use projet_prog.Gdb.State.{Event, written}
use projet_prog.Gdb.Send.{gdb_require_retransmission}
use projet_prog.Scanner.{
  ParserData, on_gdb, set_error, handle_error, make_room, add_character_to_error,
  add_first_character, yylex,
}
use projet_prog.Scanner.Body.{AreBytes}
use projet_prog.Scanner.First.{first_token, next_token-first}
use projet_prog.Scanner.Rules.{invalid}
use projet_prog.Scanner.Stream.{serve, yylex-token}

-- A request for a new transmission.
abbrev pub refused : Gdb → Gdb
refused gdb = record gdb { events = written (codes "-") ∷ gdb.events }

-- The array of the errors has room for them and for the zero byte.
abbrev pub Fits : ParserData → Type 0
Fits parser = parser.len < 1024

abbrev emptied : ParserData → ParserData
emptied parser = record parser {
  gdb = refused parser.gdb;
  buffer = store_at parser.buffer parser.len 0;
  len = 0;
}

module _ (parser : ParserData) (fits : Fits parser) where
  set_error-eq :
      (c : ℕ)
      → set_error c parser
        ≡ some (tt, record parser { buffer = store_at parser.buffer parser.len c })
  unfolding set_error
  set_error-eq c = rw (lt→ltb parser.len 1024 fits) refl

  -- The errors so far are given up, and a new transmission is asked for once.
  pub handle_error-some : 0 < parser.len → handle_error parser ≡ some (tt, emptied parser)
  unfolding handle_error on_gdb gdb_require_retransmission modify
  handle_error-some h =
      let there : (parser.len == 0) ≡ false = ground arith in
      rw there (
        after_step (set_error 0) _ (set_error-eq 0)
        ∙ after_step (on_gdb gdb_require_retransmission)
            (modify λ parser. record parser { len = 0 }) refl)

pub handle_error-none :
    (parser : ParserData) → parser.len ≡ 0 → handle_error parser ≡ some (tt, parser)
unfolding handle_error
handle_error-none parser h =
    let none_there : (parser.len == 0) ≡ true = ground arith in rw none_there refl

-- A byte after other errors: where the array is full it is emptied first.
abbrev full : ParserData → Bool
full parser = ltb 1022 parser.len

abbrev room_made : ParserData → ParserData
room_made parser = if full parser then emptied parser else parser

abbrev added : ℕ → ParserData → ParserData
added c parser = record parser {
  buffer = store_at parser.buffer parser.len c;
  len = parser.len + 1;
}

module _ (parser : ParserData) (fits : Fits parser) where
  make_room-eq : make_room parser ≡ some (tt, room_made parser)
  unfolding make_room
  make_room-eq = elim (Bool-cases (full parser)) [
    | inl e ↦ rw e (handle_error-some parser fits (ground arith))
    | inr e ↦ rw e refl
  ]

  room : Fits (room_made parser)
  room = elim (Bool-cases (full parser)) [
    | inl e ↦ rw e (omega arith)
    | inr e ↦ rw e (ground arith)
  ]

  add_character_to_error-added :
      (c : ℕ) → add_character_to_error c parser ≡ some (tt, added c (room_made parser))
  unfolding add_character_to_error modify
  add_character_to_error-added c =
      after_step make_room _ make_room-eq
      ∙ after_step (set_error c) (modify λ parser. record parser { len = parser.len + 1 })
          (set_error-eq (room_made parser) room c)

added-Fits : (c : ℕ) (parser : ParserData) → Fits parser → Fits (added c (room_made parser))
added-Fits c parser fits = elim (Bool-cases (full parser)) [
  | inl e ↦ rw e (omega arith)
  | inr e ↦ rw e (ground arith)
]

-- Bytes that neither start a packet nor are an answer nor end a line.
pub data AreInvalid : Bytes → Type 0 where
  none_left : AreInvalid []
  one_more :
      {c : ℕ} {s : Bytes}
      → c < 256
      → c ≢ 10
      → c ≢ b'$'
      → c ≢ b'+'
      → c ≢ b'-'
      → AreInvalid s
      → AreInvalid (c ∷ s)

AreInvalid-AreBytes : {s : Bytes} → AreInvalid s → AreBytes s
AreInvalid-AreBytes none_left = tt
AreInvalid-AreBytes (one_more p a b d e h) = (p, AreInvalid-AreBytes h)

-- n requests for a new transmission.
abbrev pub refusals : ℕ → List Event → List Event
refusals zero events = events
refusals (suc n) events = refusals n (written (codes "-") ∷ events)

-- The end of a stream that asked for n of them.
pub record Refused (n : ℕ) (parser : ParserData) (end : ParserData) : Type 0 where
  pub emptied : end.len ≡ 0
  pub gdb : end.gdb ≡ record parser.gdb { events = refusals n parser.gdb.events }
  pub yyout : end.yyout ≡ parser.yyout

Refused-eq :
    {n k : ℕ} {parser end : ParserData} → n ≡ k → Refused n parser end → Refused k parser end
Refused-eq {parser} {end} e r = subst (λ n. Refused n parser end) e r

-- One byte more counts as the state it leads to.
Refused-added :
    (b : Bool) (c n : ℕ) (parser end : ParserData)
    → Fits parser
    → full parser ≡ b
    → Refused
        (((added c (if b then emptied parser else parser)).len + n + 1022) / 1023)
        (added c (if b then emptied parser else parser))
        end
    → Refused ((parser.len + suc n + 1022) / 1023) parser end
Refused-added true c n parser end fits e r =
    Refused-eq {n = suc ((0 + 1 + n + 1022) / 1023)} (ground arith)
      (record { emptied = r.emptied; gdb = r.gdb; yyout = r.yyout })
Refused-added false c n parser end fits e r =
    Refused-eq {n = (parser.len + 1 + n + 1022) / 1023} (omega arith)
      (record { emptied = r.emptied; gdb = r.gdb; yyout = r.yyout })

first_token-invalid : (c : ℕ) (s : Bytes) → AreInvalid (c ∷ s) → first_token c s ≡ some (4, 1)
unfolding first_token
first_token-invalid c s (one_more p a b d e h) = ground arith

module _ ⦃m : Machine⦄ (fuel : ℕ) where
  invalid_step :
      (rounds c : ℕ) (s : Bytes) (parser : ParserData)
      → AreInvalid (c ∷ s)
      → Fits parser
      → yylex fuel (suc rounds) (c ∷ s) parser ≡ yylex fuel rounds s (added c (room_made parser))
  unfolding serve add_first_character pure
  invalid_step rounds c s parser h fits =
      ap (λ run. run parser)
        (yylex-token fuel rounds c s invalid 1
          (next_token-first c s (AreInvalid-AreBytes h) ∙ first_token-invalid c s h))
      ∙ after (serve fuel invalid (c ∷ [])) _ (
          after_step (add_first_character (c ∷ [])) (pure true)
            (add_character_to_error-added parser fits c))

  -- A stream of bytes other than '+', '-', '$' and the newline, from any state of the errors that
  -- fits the array, asks for a new transmission once for every 1023 bytes of the former errors and
  -- the stream together, and once for those that are left. It changes nothing else of the session
  -- and writes nowhere outside the array.
  pub yylex-invalid :
      (s : Bytes) (parser : ParserData)
      → AreInvalid s
      → Fits parser
      → (end : ParserData) × (yylex fuel (size s) s parser ≡ some (true, end))
        × Refused ((parser.len + size s + 1022) / 1023) parser end
  unfolding yylex pure
  yylex-invalid [] parser h fits = elim (Bool-cases (ltb 0 parser.len)) [
    | inl e ↦ (
      emptied parser,
      after_step handle_error (pure true) (handle_error-some parser fits (ground arith)),
      Refused-eq {n = 1} (ground arith) (record { emptied = refl; gdb = refl; yyout = refl }),
    )
    | inr e ↦ (
      parser,
      after_step handle_error (pure true) (handle_error-none parser (ground arith)),
      Refused-eq {n = 0} (ground arith)
          (record { emptied = ground arith; gdb = refl; yyout = refl }),
    )
  ]
  yylex-invalid (c ∷ s) parser (one_more p a b d f h) fits =
      let next = added c (room_made parser) in
      let (end, e, r) = yylex-invalid s next h (added-Fits c parser fits) in
      (
        end,
        invalid_step (size s) c s parser (one_more p a b d f h) fits ∙ e,
        Refused-added (full parser) c (size s) parser end fits refl r,
      )
