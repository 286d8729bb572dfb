-- ===== src/Scanner/Body.antt =====
-- scanner.c: how yylex reads a packet.
use projet_prog.Base.{
  ℕ, suc, ◌+◌, ◌<◌, ◌≡◌, inl, inr, Bool-cases, ◌∙◌, ap, sym, refl, arith, Option, none, some, Bool,
  true, false, ◌&&◌, ◌==◌, [], ◌∷◌, if◌then◌else◌,
}
use projet_prog.Base.Fault.{◌>>=◌}
use projet_prog.Text.{Bytes}
use projet_prog.Scanner.Tables.{get_elem?, yy_accept, yy_base}
use projet_prog.Scanner.Match.{Cursor, remember, yy_match, yy_find_action}
use projet_prog.Scanner.Classes.{
  is_hex, class_number, class_of_lem, target, transition-target, is_scanning, target-body,
  target-digits,
}

abbrev pub AreBytes : Bytes → Type 0
AreBytes [] = Unit
AreBytes (c ∷ s) = (c < 256) × AreBytes s

-- One round of the loop.
pub yy_match-step :
    (c : ℕ) (s : Bytes) (p : Cursor) {accept : ℕ} (state base : ℕ)
    → c < 256
    → p.state < 14
    → is_scanning p.state ≡ true
    → get_elem? yy_accept p.state ≡ some accept
    → target p.state (class_number c) ≡ state
    → get_elem? yy_base state ≡ some base
    → yy_match (c ∷ s) p ≡ (
        let q = record (remember accept p) { state = state; count = p.count + 1 } in
        elim (base == 14) [ true ↦ some q | false ↦ yy_match s q ])
unfolding yy_match
yy_match-step c s p state base small range scanning e t f =
    rw
      (yy_match, class_of_lem c small, e, transition-target p.state c range scanning ∙ ap some t, f)
      refl

-- What follows the first mark of a packet, and the length of what is left of the packet.
unfoldable pub two_digits : Bytes → Option ℕ
two_digits (h ∷ l ∷ s) = if is_hex h && is_hex l then some 2 else none
two_digits _ = none

unfoldable pub longer : Option ℕ → Option ℕ
longer none = none
longer (some n) = some (suc n)

unfoldable pub packet_tail : Bytes → Option ℕ
packet_tail [] = none
packet_tail (c ∷ s) =
    if c == b'#' then longer (two_digits s) else if c == b'$' then none else longer (packet_tail s)

-- The packet, or its first mark alone.
unfoldable pub outcome : ℕ → Option ℕ → Option (ℕ × ℕ)
outcome k none = some (4, 1)
outcome k (some n) = some (3, k + n)

abbrev pub cursor : (state count : ℕ) → Cursor
cursor state count = record { state = state; count = count; last_state = 6; last_count = 1 }

module _ (c : ℕ) (small : c < 256) where
  first_digit :
      (s : Bytes) (k : ℕ)
      → yy_match (c ∷ s) (cursor 10 k)
        ≡ (if is_hex c then yy_match s (cursor 11 (k + 1)) else some (cursor 13 (k + 1)))
  unfolding get_elem? is_scanning remember
  first_digit s k =
      let step = λ (state base : ℕ).
        yy_match-step c s (cursor 10 k) state base small (omega arith) refl refl in
      elim (Bool-cases (is_hex c)) [
        | inl e ↦ rw e (step 11 2 ((target-digits c).0 ∙ rw e refl) refl)
        | inr e ↦ rw e (step 13 14 ((target-digits c).0 ∙ rw e refl) refl)
      ]

  second_digit :
      (s : Bytes) (k : ℕ)
      → yy_match (c ∷ s) (cursor 11 k) ≡ some (cursor (if is_hex c then 12 else 13) (k + 1))
  unfolding get_elem? is_scanning remember
  second_digit s k =
      let step = λ (state base : ℕ).
        yy_match-step c s (cursor 11 k) state base small (omega arith) refl refl in
      elim (Bool-cases (is_hex c)) [
        | inl e ↦ rw e (step 12 14 ((target-digits c).1 ∙ rw e refl) refl)
        | inr e ↦ rw e (step 13 14 ((target-digits c).1 ∙ rw e refl) refl)
      ]

match_second :
    (c : ℕ) (s : Bytes) (k : ℕ)
    → c < 256
    → yy_match (c ∷ s) (cursor 11 k) >>= yy_find_action
      ≡ outcome k (if is_hex c then some 1 else none)
unfolding yy_find_action get_elem? outcome
match_second c s k h = elim (Bool-cases (is_hex c)) [
  | inl e ↦ rw (second_digit c h s k, e) refl
  | inr e ↦ rw (second_digit c h s k, e) refl
]

-- The loop behind the mark of the sum.
match_digits :
    (s : Bytes) (k : ℕ)
    → AreBytes s
    → yy_match s (cursor 10 k) >>= yy_find_action ≡ outcome k (two_digits s)
unfolding yy_match yy_find_action get_elem? two_digits outcome
match_digits [] k h = refl
match_digits (c ∷ []) k h = elim (Bool-cases (is_hex c)) [
  | inl e ↦ rw (first_digit c h.0 [] k, e) refl
  | inr e ↦ rw (first_digit c h.0 [] k, e) refl
]
match_digits (c ∷ d ∷ s) k h = elim (Bool-cases (is_hex c)) [
  | inl e ↦ rw (first_digit c h.0 (d ∷ s) k, e, match_second d s (k + 1) h.1.0) (both (is_hex d))
  | inr e ↦ rw (first_digit c h.0 (d ∷ s) k, e) refl
]
  where
    both :
        (b : Bool)
        → outcome (k + 1) (if b then some 1 else none) ≡ outcome k (if b then some 2 else none)
    both true = ap (λ n. some (3, n)) (omega arith)
    both false = refl

outcome-longer : (k : ℕ) (o : Option ℕ) → outcome (k + 1) o ≡ outcome k (longer o)
unfolding outcome longer
outcome-longer k none = refl
outcome-longer k (some n) = ap (λ n. some (3, n)) (omega arith)

-- The cursor behind the first mark, or behind more bytes of the packet.
pub data Inside : Cursor → Type 0 where
  opened : Inside (record { state = 6; count = 1; last_state = 0; last_count = 0 })
  further : (k : ℕ) → Inside (cursor 9 k)

module _ (c : ℕ) (s : Bytes) (small : c < 256) where
  body_step :
      {p : Cursor} (state base : ℕ)
      → Inside p
      → target 9 (class_number c) ≡ state
      → get_elem? yy_base state ≡ some base
      → yy_match (c ∷ s) p ≡ (
          let q = cursor state (p.count + 1) in
          elim (base == 14) [ true ↦ some q | false ↦ yy_match s q ])
  unfolding get_elem? is_scanning remember
  body_step state base opened t f =
      yy_match-step c s _ state base small (omega arith) refl refl
        ((target-body c).0 ∙ sym (target-body c).1 ∙ t) f
  body_step state base (further k) t f =
      yy_match-step c s _ state base small (omega arith) refl refl t f

  -- A byte between the marks.
  body_round :
      {p : Cursor}
      → Inside p
      → yy_match s (cursor 10 (p.count + 1)) >>= yy_find_action
        ≡ outcome (p.count + 1) (two_digits s)
      → yy_match s (cursor 9 (p.count + 1)) >>= yy_find_action
        ≡ outcome (p.count + 1) (packet_tail s)
      → yy_match (c ∷ s) p >>= yy_find_action ≡ outcome p.count (packet_tail (c ∷ s))
  unfolding yy_find_action get_elem? packet_tail outcome
  body_round {p} inside digits more = elim (Bool-cases (c == b'#')) [
    | inl e ↦
        rw (body_step 10 3 inside ((target-body c).1 ∙ rw e refl) refl, packet_tail, e)
          (digits ∙ outcome-longer p.count (two_digits s))
    | inr e ↦ elim (Bool-cases (c == b'$')) [
      | inl f ↦
          rw (body_step 13 14 inside ((target-body c).1 ∙ rw (e, f) refl) refl, packet_tail, e, f)
            refl
      | inr f ↦
          rw (body_step 9 8 inside ((target-body c).1 ∙ rw (e, f) refl) refl, packet_tail, e, f)
            (more ∙ outcome-longer p.count (packet_tail s))
    ]
  ]

-- The loop between the marks.
pub match_body :
    (s : Bytes) {p : Cursor}
    → AreBytes s
    → Inside p
    → yy_match s p >>= yy_find_action ≡ outcome p.count (packet_tail s)
unfolding yy_match yy_find_action get_elem? packet_tail outcome
match_body [] h opened = refl
match_body [] h (further k) = refl
match_body (c ∷ s) {p} h inside =
    body_round c s h.0 inside (match_digits s (p.count + 1) h.1)
      (match_body s h.1 (further (p.count + 1)))
