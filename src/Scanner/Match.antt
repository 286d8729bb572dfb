-- ===== src/Scanner/Match.antt =====
-- scanner.c: the loop of yylex that finds the next token.
use projet_prog.Base.{ℕ, ◌+◌, Option, some, [], ◌∷◌, true, false, ◌==◌, if◌then◌else◌}
use projet_prog.Base.Fault.{◌>>=◌}
use projet_prog.Text.{Bytes}
use projet_prog.Scanner.Tables.{get_elem?, class_of, transition, yy_accept, yy_base}

-- yy_current_state and yy_cp, and the last accepting state with its position; the positions count
-- the bytes from yy_bp on.
pub record Cursor : Type 0 where
  pub state : ℕ
  pub count : ℕ
  pub last_state : ℕ
  pub last_count : ℕ

-- yy_last_accepting_state and yy_last_accepting_cpos
unfoldable pub remember : ℕ → Cursor → Cursor
remember accept p =
    if accept == 0 then p else record p { last_state = p.state; last_count = p.count }

-- The loop at yy_match; the end of the stream ends it too.
unfoldable pub yy_match : Bytes → Cursor → Option Cursor
yy_match [] p = some p
yy_match (c ∷ s) p = class_of c >>= λ class. get_elem? yy_accept p.state >>= λ accept.
    transition p.state class >>= λ state. get_elem? yy_base state >>= λ base.
    let q = record (remember accept p) { state = state; count = p.count + 1 } in
    elim (base == 14) [ true ↦ some q | false ↦ yy_match s q ]

-- yy_find_action: the action, and yyleng
unfoldable pub yy_find_action : Cursor → Option (ℕ × ℕ)
yy_find_action p = get_elem? yy_accept p.state >>= λ yy_act. elim (yy_act == 0) [
  | true ↦ get_elem? yy_accept p.last_state >>= λ backed_up. some (backed_up, p.last_count)
  | false ↦ some (yy_act, p.count)
]

-- The first state is yy_start; the last accepting state is set before it is used.
abbrev pub token_start : Cursor
token_start = record { state = 1; count = 0; last_state = 0; last_count = 0 }

unfoldable pub next_token : Bytes → Option (ℕ × ℕ)
next_token s = yy_match s token_start >>= yy_find_action
