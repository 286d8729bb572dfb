-- ===== src/Scanner/Tables.antt =====
-- scanner.c: the tables of the scanner that flex generates from scanner.l, and its transitions.
use projet_prog.Base.{
  ℕ, zero, suc, ◌+◌, Option, none, some, List, [], ◌∷◌, true, false, leb, ◌==◌, if◌then◌else◌,
}
use projet_prog.Base.Fault.{◌>>=◌}

-- An entry; `none` is an access outside the table.
unfoldable pub get_elem? : List ℕ → ℕ → Option ℕ
get_elem? [] i = none
get_elem? (x ∷ l) zero = some x
get_elem? (x ∷ l) (suc i) = get_elem? l i

abbrev pub yy_accept : List ℕ
yy_accept = 0 ∷ 0 ∷ 0 ∷ 6 ∷ 4 ∷ 5 ∷ 4 ∷ 1 ∷ 2 ∷ 0 ∷ 0 ∷ 0 ∷ 3 ∷ 0 ∷ []

abbrev pub yy_ec : List ℕ
yy_ec =
    0 ∷ 1 ∷ 1 ∷ 1 ∷ 1 ∷ 1 ∷ 1 ∷ 1 ∷ 1 ∷ 1 ∷ 2 ∷ 1 ∷ 1 ∷ 1 ∷ 1 ∷ 1 ∷ 1 ∷ 1 ∷ 1 ∷ 1 ∷ 1 ∷ 1 ∷ 1 ∷ 1
    ∷ 1 ∷ 1 ∷ 1 ∷ 1 ∷ 1 ∷ 1 ∷ 1 ∷ 1 ∷ 1 ∷ 1 ∷ 1 ∷ 3 ∷ 4 ∷ 1 ∷ 1 ∷ 1 ∷ 1 ∷ 1 ∷ 1 ∷ 5 ∷ 1 ∷ 6 ∷ 1 ∷ 1
    ∷ 7 ∷ 7 ∷ 7 ∷ 7 ∷ 7 ∷ 7 ∷ 7 ∷ 7 ∷ 7 ∷ 7 ∷ 1 ∷ 1 ∷ 1 ∷ 1 ∷ 1 ∷ 1 ∷ 1 ∷ 7 ∷ 7 ∷ 7 ∷ 7 ∷ 7 ∷ 7 ∷ 1
    ∷ 1 ∷ 1 ∷ 1 ∷ 1 ∷ 1 ∷ 1 ∷ 1 ∷ 1 ∷ 1 ∷ 1 ∷ 1 ∷ 1 ∷ 1 ∷ 1 ∷ 1 ∷ 1 ∷ 1 ∷ 1 ∷ 1 ∷ 1 ∷ 1 ∷ 1 ∷ 1 ∷ 1
    ∷ 1 ∷ 7 ∷ 7 ∷ 7 ∷ 7 ∷ 7 ∷ 7 ∷ 1 ∷ 1 ∷ 1 ∷ 1 ∷ 1 ∷ 1 ∷ 1 ∷ 1 ∷ 1 ∷ 1 ∷ 1 ∷ 1 ∷ 1 ∷ 1 ∷ 1 ∷ 1 ∷ 1
    ∷ 1 ∷ 1 ∷ 1 ∷ 1 ∷ 1 ∷ 1 ∷ 1 ∷ 1 ∷ 1 ∷ 1 ∷ 1 ∷ 1 ∷ 1 ∷ 1 ∷ 1 ∷ 1 ∷ 1 ∷ 1 ∷ 1 ∷ 1 ∷ 1 ∷ 1 ∷ 1 ∷ 1
    ∷ 1 ∷ 1 ∷ 1 ∷ 1 ∷ 1 ∷ 1 ∷ 1 ∷ 1 ∷ 1 ∷ 1 ∷ 1 ∷ 1 ∷ 1 ∷ 1 ∷ 1 ∷ 1 ∷ 1 ∷ 1 ∷ 1 ∷ 1 ∷ 1 ∷ 1 ∷ 1 ∷ 1
    ∷ 1 ∷ 1 ∷ 1 ∷ 1 ∷ 1 ∷ 1 ∷ 1 ∷ 1 ∷ 1 ∷ 1 ∷ 1 ∷ 1 ∷ 1 ∷ 1 ∷ 1 ∷ 1 ∷ 1 ∷ 1 ∷ 1 ∷ 1 ∷ 1 ∷ 1 ∷ 1 ∷ 1
    ∷ 1 ∷ 1 ∷ 1 ∷ 1 ∷ 1 ∷ 1 ∷ 1 ∷ 1 ∷ 1 ∷ 1 ∷ 1 ∷ 1 ∷ 1 ∷ 1 ∷ 1 ∷ 1 ∷ 1 ∷ 1 ∷ 1 ∷ 1 ∷ 1 ∷ 1 ∷ 1 ∷ 1
    ∷ 1 ∷ 1 ∷ 1 ∷ 1 ∷ 1 ∷ 1 ∷ 1 ∷ 1 ∷ 1 ∷ 1 ∷ 1 ∷ 1 ∷ 1 ∷ 1 ∷ 1 ∷ 1 ∷ 1 ∷ 1 ∷ 1 ∷ 1 ∷ 1 ∷ 1 ∷ 1 ∷ 1
    ∷ 1 ∷ 1 ∷ 1 ∷ 1 ∷ 1 ∷ 1 ∷ 1 ∷ 1 ∷ 1 ∷ 1 ∷ 1 ∷ 1 ∷ 1 ∷ 1 ∷ 1 ∷ 1 ∷ []

abbrev pub yy_meta : List ℕ
yy_meta = 0 ∷ 1 ∷ 1 ∷ 1 ∷ 2 ∷ 1 ∷ 1 ∷ 1 ∷ []

abbrev pub yy_base : List ℕ
yy_base = 0 ∷ 0 ∷ 0 ∷ 13 ∷ 14 ∷ 14 ∷ 9 ∷ 14 ∷ 14 ∷ 8 ∷ 3 ∷ 2 ∷ 14 ∷ 14 ∷ 7 ∷ []

abbrev pub yy_def : List ℕ
yy_def = 0 ∷ 13 ∷ 1 ∷ 13 ∷ 13 ∷ 13 ∷ 14 ∷ 13 ∷ 13 ∷ 14 ∷ 13 ∷ 13 ∷ 13 ∷ 0 ∷ 13 ∷ []

abbrev pub yy_nxt : List ℕ
yy_nxt =
    0 ∷ 4 ∷ 5 ∷ 4 ∷ 6 ∷ 7 ∷ 8 ∷ 4 ∷ 9 ∷ 12 ∷ 11 ∷ 10 ∷ 10 ∷ 13 ∷ 3 ∷ 13 ∷ 13 ∷ 13 ∷ 13 ∷ 13 ∷ 13
    ∷ 13 ∷ []

abbrev pub yy_chk : List ℕ
yy_chk =
    0 ∷ 1 ∷ 1 ∷ 1 ∷ 1 ∷ 1 ∷ 1 ∷ 1 ∷ 14 ∷ 11 ∷ 10 ∷ 9 ∷ 6 ∷ 3 ∷ 13 ∷ 13 ∷ 13 ∷ 13 ∷ 13 ∷ 13 ∷ 13 ∷ 13
    ∷ []

-- The class of a byte; a zero byte of the input has class 1, as in yy_get_previous_state.
unfoldable pub class_of : ℕ → Option ℕ
class_of c = if c == 0 then some 1 else get_elem? yy_ec c

-- while (yy_chk[yy_base[state] + class] != state), on fuel, and the next state behind it
unfoldable pub follow : (fuel state class : ℕ) → Option ℕ
follow zero state class = none
follow (suc fuel) state class = do
  base ← get_elem? yy_base state
  owner ← get_elem? yy_chk (base + class)
  elim (owner == state) [
    | true ↦ get_elem? yy_nxt (base + class)
    | false ↦ do
      state' ← get_elem? yy_def state
      class' ← if leb 14 state' then get_elem? yy_meta class else some class
      follow fuel state' class'
  ]

-- A default is followed at most twice.
unfoldable pub transition : (state class : ℕ) → Option ℕ
transition state class = follow 3 state class
