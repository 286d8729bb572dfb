-- ===== src/Breakpoints/Find.antt =====
-- The binary search of the breakpoint table.
use projet_prog.Base.{
  ℕ, zero, suc, ◌+◌, ◌/◌, ◌<◌, ◌≤◌, ◌≡◌, ◌≢◌, ◌⊎◌, ◌==◌, ==_iff, arith, minus_one, ltb, Bool-cases,
  inl, inr, ltb→lt, true, false, refl,
}
use projet_prog.Breakpoints.{Table, Cells, search_loop, gdb_find_breakpoint, max_breakpoints_number}

-- Strictly increasing below n.
abbrev pub Increasing : Cells → ℕ → Type 0
Increasing c n = (i j : ℕ) → i < j → j < n → c i < c j

-- A table as the code maintains it.
pub record IsTable (gdb : Table) : Type 0 where
  pub increasing : Increasing gdb.breakpoints gdb.breakpoints_number
  pub fits : gdb.breakpoints_number ≤ max_breakpoints_number

-- The value is among the first n cells, at the position.
abbrev pub Cell : Cells → (n value i : ℕ) → Type 0
Cell c n value i = (i < n) × (c i ≡ value)

abbrev pub Among : Cells → (n value : ℕ) → Type 0
Among c n value = (i : ℕ) × Cell c n value i

-- The address is in the table, at the position.
abbrev pub At : Table → ℕ → ℕ → Type 0
At gdb address i = Cell gdb.breakpoints gdb.breakpoints_number address i

-- The address is in the table.
abbrev pub Member : Table → ℕ → Type 0
Member gdb address = Among gdb.breakpoints gdb.breakpoints_number address

-- Distinct positions hold addresses in their order.
in_order : (c : Cells) (n i j : ℕ) → Increasing c n → i < n → c i ≡ c j → j < n → i ≡ j
in_order c n i j inc p e q = ground (arith, inc i j, inc j i)

module _ (c : Cells) (address : ℕ) where
  search_loop-found :
      (fuel begin end n i : ℕ)
      → Increasing c n
      → end ≤ n
      → end < begin + fuel
      → begin ≤ i
      → i < end
      → c i ≡ address
      → search_loop fuel c address begin end ≡ i
  unfolding search_loop
  search_loop-found zero begin end n i inc fits enough low high e = absurd (omega arith)
  search_loop-found (suc fuel) begin end n i inc fits enough low high e =
      let middle = (begin + end) / 2 in
      let below = search_loop-found fuel begin middle n i inc (omega arith) in
      let beyond = search_loop-found fuel (middle + 1) end n i inc fits in
      ground (arith, below, beyond, inc i middle, inc middle i, e)

  search_loop-absent :
      (fuel begin end : ℕ)
      → ((i : ℕ) → i < end → c i ≢ address)
      → search_loop fuel c address begin end ≡ minus_one
  unfolding search_loop
  search_loop-absent zero begin end none_there = refl
  search_loop-absent (suc fuel) begin end none_there =
      let middle = (begin + end) / 2 in
      elim (Bool-cases (ltb begin end)) [
        | inr finished ↦ ground arith
        | inl more ↦
            let below =
              search_loop-absent fuel begin middle
                λ i h. none_there i (omega (arith, ltb→lt begin end more)) in
            let beyond = search_loop-absent fuel (middle + 1) end none_there in
            ground (arith, below, beyond, none_there middle)
      ]

  search_loop_sound :
      (fuel begin end : ℕ)
      → (search_loop fuel c address begin end ≡ minus_one)
        ⊎ ((search_loop fuel c address begin end < end)
            × (c (search_loop fuel c address begin end) ≡ address))
  unfolding search_loop
  search_loop_sound zero begin end = inl refl
  search_loop_sound (suc fuel) begin end =
      let middle = (begin + end) / 2 in
      let below = search_loop_sound fuel begin middle in
      let beyond = search_loop_sound fuel (middle + 1) end in
      elim (Bool-cases (ltb begin end)) [
        | inr finished ↦ inl (ground arith)
        | inl more ↦ ground (arith, below, beyond, ltb→lt begin end more)
      ]

-- In a table, the search returns the position of an address that is there, and -1 for an address
-- that is not.
pub gdb_find_breakpoint-At :
    (gdb : Table) (address : ℕ)
    → IsTable gdb
    → ((i : ℕ) → At gdb address i → gdb_find_breakpoint gdb address ≡ i)
      × (((i : ℕ) → ¬ At gdb address i) → gdb_find_breakpoint gdb address ≡ minus_one)
unfolding gdb_find_breakpoint
gdb_find_breakpoint-At gdb address t = (
  λ i h.
      search_loop-found gdb.breakpoints address (suc gdb.breakpoints_number) 0
        gdb.breakpoints_number gdb.breakpoints_number i t.increasing (omega arith) (omega arith)
        (omega arith) h.0 h.1,
  λ absent.
      search_loop-absent gdb.breakpoints address (suc gdb.breakpoints_number) 0
        gdb.breakpoints_number λ i h e. absent i (h, e),
)

-- The test of the result against -1 tells whether the address is there.
pub located :
    (gdb : Table) (address : ℕ)
    → IsTable gdb
    → (((gdb_find_breakpoint gdb address == minus_one) ≡ true) × ((i : ℕ) → ¬ At gdb address i))
      ⊎ (((gdb_find_breakpoint gdb address == minus_one) ≡ false)
          × At gdb address (gdb_find_breakpoint gdb address))
unfolding gdb_find_breakpoint
located gdb address t =
    elim (search_loop_sound gdb.breakpoints address (suc gdb.breakpoints_number) 0
      gdb.breakpoints_number) [
        | inl e ↦ inl (
          (==_iff _ _).1 e,
          λ i h. ground (arith, (gdb_find_breakpoint-At gdb address t).0 i h, e, h.0, t.fits),
        )
        | inr found ↦ inr (ground (arith, found.0, t.fits), found)
      ]
