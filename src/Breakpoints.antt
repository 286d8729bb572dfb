-- ===== src/Breakpoints.antt =====
-- gdb_protocol.c: the table of breakpoints, a sorted array of addresses.
pub mod Find
pub mod Insert
pub mod Delete
use projet_prog.Base.{
  ℕ, zero, suc, ◌+◌, ◌-◌, ◌/◌, minus_one, Bool, not, ltb, ◌==◌, if◌then◌else◌, true, false,
}

-- MAX_BREAKPOINTS_NUMBER
abbrev pub max_breakpoints_number : ℕ
max_breakpoints_number = 1024

-- The fields of struct gdb_protocol_data that hold breakpoints.
pub record Table : Type 0 where
  pub breakpoints : ℕ → ℕ
  pub breakpoints_number : ℕ

abbrev pub Cells : Type 0
Cells = ℕ → ℕ

-- breakpoints[i] = v
abbrev pub store_at : Cells → ℕ → ℕ → Cells
store_at c i v = λ k. if k == i then v else c k

-- while (begin < end), on fuel; the result is the position, or -1
unfoldable pub search_loop : (fuel : ℕ) → Cells → (address begin end : ℕ) → ℕ
search_loop zero c address begin end = minus_one
search_loop (suc fuel) c address begin end =
    let middle = (begin + end) / 2 in
    elim (ltb begin end) [
      | false ↦ minus_one
      | true ↦ elim (ltb address (c middle)) [
        | true ↦ search_loop fuel c address begin middle
        | false ↦ elim (ltb (c middle) address) [
          | true ↦ search_loop fuel c address (middle + 1) end
          | false ↦ middle
        ]
      ]
    ]

unfoldable pub gdb_find_breakpoint : Table → ℕ → ℕ
gdb_find_breakpoint gdb address =
    search_loop (suc gdb.breakpoints_number) gdb.breakpoints address 0 gdb.breakpoints_number

-- while ((j > 0) && (breakpoints[j - 1] > address)), then breakpoints[j] = address
unfoldable pub insert_loop : Cells → (j address : ℕ) → Cells
insert_loop c zero address = store_at c 0 address
insert_loop c (suc j) address =
    let shifted = insert_loop (store_at c (suc j) (c j)) j address in
    if ltb address (c j) then shifted else store_at c (suc j) address

unfoldable pub gdb_add_breakpoint : Table → ℕ → ℕ × Table
gdb_add_breakpoint gdb address =
    if ltb gdb.breakpoints_number max_breakpoints_number
    then (if not (gdb_find_breakpoint gdb address == minus_one) then (1, gdb) else (
      1,
      record {
        breakpoints = insert_loop gdb.breakpoints gdb.breakpoints_number address;
        breakpoints_number = gdb.breakpoints_number + 1;
      },
    ))
    else (0, gdb)

-- for (j ...; n rounds) breakpoints[j] = breakpoints[j + 1]
unfoldable pub delete_loop : Cells → (n j : ℕ) → Cells
delete_loop c zero j = c
delete_loop c (suc n) j = delete_loop (store_at c j (c (j + 1))) n (j + 1)

unfoldable pub gdb_remove_breakpoint : Table → ℕ → ℕ × Table
gdb_remove_breakpoint gdb address =
    let position = gdb_find_breakpoint gdb address in
    if position == minus_one
    then (0, gdb)
    else let last = gdb.breakpoints_number - 1 in
      (
        1,
        record {
          breakpoints = delete_loop gdb.breakpoints (last - position) position;
          breakpoints_number = last;
        },
      )
