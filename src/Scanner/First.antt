-- ===== src/Scanner/First.antt =====
-- scanner.c: the first token of a stream.
use projet_prog.Base.{
  ℕ, ◌≡◌, inl, inr, Bool-cases, ◌∙◌, ap, refl, arith, Option, some, false, ◌==◌, ◌∷◌, if◌then◌else◌,
}
use projet_prog.Base.Fault.{◌>>=◌}
use projet_prog.Text.{Bytes}
use projet_prog.Scanner.Tables.{get_elem?, yy_accept, yy_base}
use projet_prog.Scanner.Match.{Cursor, remember, yy_find_action, token_start, next_token}
use projet_prog.Scanner.Classes.{class_number, target, is_scanning, target-first}
use projet_prog.Scanner.Body.{AreBytes, yy_match-step, match_body, opened, packet_tail, outcome}

found :
    (q : Cursor) (yy_act : ℕ)
    → get_elem? yy_accept q.state ≡ some yy_act
    → (yy_act == 0) ≡ false
    → yy_find_action q ≡ some (yy_act, q.count)
unfolding yy_find_action
found q yy_act e n = ground arith

-- The action and the length of the first token.
unfoldable pub first_token : ℕ → Bytes → Option (ℕ × ℕ)
first_token c s =
    if c == 10
    then some (5, 1)
    else if c == b'$'
    then outcome 1 (packet_tail s)
    else if c == b'+'
    then some (1, 1)
    else if c == b'-'
    then some (2, 1)
    else some (4, 1)

module _ (c : ℕ) (s : Bytes) (h : AreBytes (c ∷ s)) where
  -- A token of one byte.
  lone :
      (state yy_act : ℕ)
      → target 1 (class_number c) ≡ state
      → get_elem? yy_base state ≡ some 14
      → get_elem? yy_accept state ≡ some yy_act
      → (yy_act == 0) ≡ false
      → next_token (c ∷ s) ≡ some (yy_act, 1)
  unfolding next_token yy_find_action get_elem? is_scanning remember
  lone state yy_act t f g n =
      ap (λ o. o >>= yy_find_action)
        (yy_match-step c s token_start state 14 h.0 (omega arith) refl refl t f)
      ∙ found (record token_start { state = state; count = 1 }) yy_act g n

  pub next_token-first : next_token (c ∷ s) ≡ first_token c s
  unfolding first_token get_elem? is_scanning remember next_token
  next_token-first = elim (Bool-cases (c == 10)) [
    | inl e ↦ rw e (lone 5 5 (target-first c ∙ rw e refl) refl refl refl)
    | inr e ↦ elim (Bool-cases (c == b'$')) [
      | inl f ↦
          rw
            (
              e,
              f,
              yy_match-step c s token_start 6 9 h.0 (omega arith) refl refl
                  (target-first c ∙ rw (e, f) refl) refl,
            )
            (match_body s h.1 opened)
      | inr f ↦ elim (Bool-cases (c == b'+')) [
        | inl g ↦ rw (e, f, g) (lone 7 1 (target-first c ∙ rw (e, f, g) refl) refl refl refl)
        | inr g ↦ elim (Bool-cases (c == b'-')) [
          | inl k ↦
              rw (e, f, g, k) (lone 8 2 (target-first c ∙ rw (e, f, g, k) refl) refl refl refl)
          | inr k ↦
              rw (e, f, g, k) (lone 4 4 (target-first c ∙ rw (e, f, g, k) refl) refl refl refl)
        ]
      ]
    ]
  ]
