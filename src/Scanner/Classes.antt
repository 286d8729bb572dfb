-- ===== src/Scanner/Classes.antt =====
-- scanner.c: what the tables of the scanner say.
use projet_prog.Base.{
  ℕ, zero, suc, ◌<◌, ◌≡◌, ◌*◌, ◌/◌, ◌%◌, Bool-cases, inl, inr, ◌+◌, refl, arith, Option, none, some,
  Bool, true, false, not, ◌&&◌, ◌||◌, leb, ◌==◌, if◌then◌else◌,
}
use projet_prog.Scanner.Tables.{class_of, follow, transition, get_elem?}

unfoldable pub is_hex : ℕ → Bool
is_hex c = (leb b'0' c && leb c b'9') || (leb b'a' c && leb c b'f') || (leb b'A' c && leb c b'F')

-- The classes, by the characters that scanner.l names.
unfoldable pub class_number : ℕ → ℕ
class_number c =
    if c == 10
    then 2
    else if c == b'#'
    then 3
    else if c == b'$'
    then 4
    else if c == b'+'
    then 5
    else if c == b'-'
    then 6
    else if is_hex c
    then 7
    else 1

-- Whether a table has the value.
gives : Option ℕ → ℕ → Bool
gives none v = false
gives (some u) v = u == v

gives-eq : (o : Option ℕ) (v : ℕ) → gives o v ≡ true → o ≡ some v
unfolding gives
gives-eq none v e = cc
gives-eq (some u) v e = ground arith

-- Whether a table has the values of a function at the first n numbers.
tabulates : (n : ℕ) → (ℕ → Option ℕ) → (ℕ → ℕ) → Bool
tabulates zero table f = true
tabulates (suc n) table f =
    let rest = tabulates n table f in if gives (table n) (f n) then rest else false

tabulates-eq :
    (n : ℕ) (table : ℕ → Option ℕ) (f : ℕ → ℕ)
    → tabulates n table f ≡ true
    → (i : ℕ) → i < n
    → table i ≡ some (f i)
unfolding tabulates
tabulates-eq zero table f e i h = absurd (omega arith)
tabulates-eq (suc n) table f e i h = elim (Bool-cases (i == n)) [
  | inl last ↦ let same : i ≡ n = ground arith in rw same (gives-eq (table n) (f n) (ground arith))
  | inr before ↦ tabulates-eq n table f (ground arith) i (ground arith)
]

class_table : tabulates 256 class_of class_number ≡ true
unfolding tabulates gives class_of class_number is_hex get_elem?
class_table = refl

pub class_of_lem : (c : ℕ) → c < 256 → class_of c ≡ some (class_number c)
class_of_lem c h = tabulates-eq 256 class_of class_number class_table c h

-- The states that yy_match goes through, and where the classes lead from them.
unfoldable pub target : (state class : ℕ) → ℕ
target state class =
    if state == 1
    then (if class == 2
        then 5
        else if class == 4
        then 6
        else if class == 5
        then 7
        else if class == 6
        then 8
        else 4)
    else if (state == 6) || (state == 9)
    then (if class == 3 then 10 else if class == 4 then 13 else 9)
    else if (state == 10) && (class == 7)
    then 11
    else if (state == 11) && (class == 7)
    then 12
    else 13

unfoldable pub is_scanning : ℕ → Bool
is_scanning state = (state == 1) || (state == 6) || (state == 9) || (state == 10) || (state == 11)

-- The transition from a state that is scanning; the others do not matter.
checked : (state class : ℕ) → Option ℕ
checked state class =
    if is_scanning state && not (class == 0)
    then transition state class
    else some (target state class)

transition_table : tabulates 112 (λ i. checked (i / 8) (i % 8)) (λ i. target (i / 8) (i % 8)) ≡ true
unfolding tabulates gives checked is_scanning transition follow target get_elem?
transition_table = refl

checked-target :
    (state class : ℕ) → state < 14 → class < 8 → checked state class ≡ some (target state class)
checked-target state class h k =
    let row : (state * 8 + class) / 8 ≡ state = omega arith in
    let column : (state * 8 + class) % 8 ≡ class = omega arith in
    rw (row, column) at
      (tabulates-eq 112 (λ i. checked (i / 8) (i % 8)) (λ i. target (i / 8) (i % 8))
        transition_table (state * 8 + class) (omega arith))

class_number_bounds : (c : ℕ) → (0 < class_number c) × (class_number c < 8)
unfolding class_number
class_number_bounds c = ground arith

-- The transition from one of these states on a byte.
pub transition-target :
    (state c : ℕ)
    → state < 14
    → is_scanning state ≡ true
    → transition state (class_number c) ≡ some (target state (class_number c))
unfolding checked
transition-target state c h scanning =
    let (pos, small) = class_number_bounds c in
    let there : not (class_number c == 0) ≡ true = ground arith in
    rw (scanning, there) at (checked-target state (class_number c) h small)

-- The targets, by the bytes.
pub target-first :
    (c : ℕ)
    → target 1 (class_number c) ≡ (
        if c == 10
        then 5
        else if c == b'$'
        then 6
        else if c == b'+'
        then 7
        else if c == b'-'
        then 8
        else 4)
unfolding target class_number
target-first c = ground arith

pub target-body :
    (c : ℕ)
    → (target 6 (class_number c) ≡ (if c == b'#' then 10 else if c == b'$' then 13 else 9))
      × (target 9 (class_number c) ≡ (if c == b'#' then 10 else if c == b'$' then 13 else 9))
unfolding target class_number
target-body c = (ground arith, ground arith)

pub target-digits :
    (c : ℕ)
    → (target 10 (class_number c) ≡ (if is_hex c then 11 else 13))
      × (target 11 (class_number c) ≡ (if is_hex c then 12 else 13))
unfolding target class_number is_hex
target-digits c = (ground arith, ground arith)
