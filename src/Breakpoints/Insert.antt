-- ===== src/Breakpoints/Insert.antt =====
-- What the insertion of a breakpoint makes of the table.
use projet_prog.Base.{
  ℕ, zero, suc, ◌+◌, ◌-◌, ◌<◌, ◌≤◌, ◌≡◌, ◌≢◌, ◌↔◌, ◌⊎◌, arith, ltb, Bool-cases, inl, inr, ltb→lt,
  not_ltb→le, lt→ltb, refl, ◌==◌, ap, sym, ◌∙◌,
}
use projet_prog.Breakpoints.{
  Table, Cells, store_at, insert_loop, gdb_find_breakpoint, gdb_add_breakpoint,
  max_breakpoints_number,
}
use projet_prog.Breakpoints.Find.{Increasing, IsTable, Among, Member, located}

-- `d` is `c` with `address` inserted at `place`, the cells from there to j moved up by one.
pub record Inserted (c d : Cells) (address place j : ℕ) : Type 0 where
  pub before : (k : ℕ) → k < place → d k ≡ c k
  pub here : d place ≡ address
  pub moved : (k : ℕ) → place ≤ k → k < j → d (k + 1) ≡ c k
  pub beyond : (k : ℕ) → j < k → d k ≡ c k
  pub in_range : place ≤ j
  pub larger : (k : ℕ) → place ≤ k → k < j → address < c k
  pub smaller : (k : ℕ) → k + 1 ≡ place → c k ≤ address

abbrev Place : (c d : Cells) (address j : ℕ) → Type 0
Place c d address j = (place : ℕ) × Inserted c d address place j

shift_one :
    (c d : Cells) (address place j : ℕ)
    → address < c j
    → Inserted (store_at c (suc j) (c j)) d address place j
    → Inserted c d address place (suc j)
shift_one c d address place j h r = record {
  before = λ k p. ground (arith, r.before k, r.in_range);
  here = r.here;
  moved = λ k p q. ground (arith, r.moved k p, r.beyond (k + 1));
  beyond = λ k p. ground (arith, r.beyond k);
  in_range = omega (arith, r.in_range);
  larger = λ k p q. ground (arith, r.larger k p);
  smaller = λ k e. ground (arith, r.smaller k e, r.in_range);
}

insert_loop-Inserted : (c : Cells) (j address : ℕ) → Place c (insert_loop c j address) address j
unfolding insert_loop
insert_loop-Inserted c zero address = (
  zero,
  record {
    before = λ k p. absurd (omega arith);
    here = ground arith;
    moved = λ k p q. absurd (omega arith);
    beyond = λ k p. ground arith;
    in_range = omega arith;
    larger = λ k p q. absurd (omega arith);
    smaller = λ k e. absurd (omega arith);
  },
)
insert_loop-Inserted c (suc j) address = elim (Bool-cases (ltb address (c j))) [
  | inl less ↦
      let (place, r) = insert_loop-Inserted (store_at c (suc j) (c j)) j address in
      rw less (place, shift_one c _ address place j (ltb→lt _ _ less) r)
  | inr not_less ↦ rw not_less (
    suc j,
    record {
      before = λ k p. ground arith;
      here = ground arith;
      moved = λ k p q. absurd (omega arith);
      beyond = λ k p. ground arith;
      in_range = omega arith;
      larger = λ k p q. absurd (omega arith);
      smaller = λ k e. ground (arith, not_ltb→le address (c j) not_less);
    },
  )
]

-- The inserted array, where the address was not among the first n.
module _ (c d : Cells) (address place n : ℕ) (inc : Increasing c n)
    (absent : (i : ℕ) → i < n → c i ≢ address) (r : Inserted c d address place n) where
  below_place : (k : ℕ) → k < place → c k < address
  below_place k p = ground (arith, r.smaller (place - 1), inc k (place - 1), r.in_range, absent k)

  -- A position of the grown array is the new one, or comes from an old one.
  abbrev Origin : ℕ → Type 0
  Origin k =
      ((k ≡ place) × (d k ≡ address))
      ⊎ ((k < place) × (d k ≡ c k) × (c k < address))
      ⊎ ((place < k) × (d k ≡ c (k - 1)) × (address < c (k - 1)))

  origin : (k : ℕ) → k < n + 1 → Origin k
  origin k p = elim (Bool-cases (ltb k place)) [
    | inl less ↦
        let before = ltb→lt k place less in
        inr (inl (before, r.before k before, below_place k before))
    | inr not_less ↦ elim (Bool-cases (k == place)) [
      | inl here ↦ inl (ground (arith, r.here))
      | inr after ↦
          let later : place < k = ground (arith, not_ltb→le k place not_less) in
          let back : k - 1 + 1 ≡ k = omega arith in
          let same : d k ≡ c (k - 1) =
            ap d (sym back) ∙ r.moved (k - 1) (omega arith) (omega arith) in
          inr (inr (later, same, r.larger (k - 1) (omega arith) (omega arith)))
    ]
  ]

  Increasing-inserted : Increasing d (n + 1)
  Increasing-inserted i j p q = ground (
    arith,
    origin i (omega arith),
    origin j q,
    inc i j,
    inc i (j - 1),
    inc (i - 1) (j - 1),
    r.in_range,
  )

  abbrev OldOrNew : ℕ → Type 0
  OldOrNew x = (x ≡ address) ⊎ Among c n x

  came_from : (x k : ℕ) → k < n + 1 → d k ≡ x → Origin k → OldOrNew x
  came_from x k p e (inl (h, s)) = inl (sym e ∙ s)
  came_from x k p e (inr (inl (h, s, l))) = inr (k, (omega (arith, r.in_range), sym s ∙ e))
  came_from x k p e (inr (inr (h, s, l))) = inr (k - 1, (omega arith, sym s ∙ e))

  goes_to : (x : ℕ) → OldOrNew x → Among d (n + 1) x
  goes_to x (inl e) = (place, (omega (arith, r.in_range), r.here ∙ sym e))
  goes_to x (inr (i, (p, e))) = elim (Bool-cases (ltb i place)) [
    | inl less ↦ (i, (omega arith, r.before i (ltb→lt i place less) ∙ e))
    | inr not_less ↦ (i + 1, (omega arith, r.moved i (not_ltb→le i place not_less) p ∙ e))
  ]

-- Adding an address to a table that has room returns 1 and gives a table with that address and
-- the former ones, and no other.
pub gdb_add_breakpoint-Member :
    (gdb : Table) (address : ℕ)
    → IsTable gdb
    → gdb.breakpoints_number < max_breakpoints_number
    → (gdb' : Table) × (gdb_add_breakpoint gdb address ≡ (1, gdb'))
      × IsTable gdb'
      × ((x : ℕ) → Member gdb' x ↔ ((x ≡ address) ⊎ Member gdb x))
unfolding gdb_add_breakpoint
gdb_add_breakpoint-Member gdb address t room =
    let c = gdb.breakpoints in
    let n = gdb.breakpoints_number in
    rw (lt→ltb n max_breakpoints_number room) (elim (located gdb address t) [
      | inl (missing, absent) ↦
          let (place, r) = insert_loop-Inserted c n address in
          let d = insert_loop c n address in
          let new : (i : ℕ) → i < n → c i ≢ address = λ i p e. absent i (p, e) in
          rw missing (
            record { breakpoints = d; breakpoints_number = n + 1 },
            refl,
            record {
              increasing = Increasing-inserted c d address place n t.increasing new r;
              fits = omega (arith, room);
            },
            λ x. (
              λ m.
                  came_from c d address place n t.increasing new r x m.0 m.1.0 m.1.1
                    (origin c d address place n t.increasing new r m.0 m.1.0),
              goes_to c d address place n t.increasing new r x,
            ),
          )
      | inr (there, at) ↦ rw there (
        gdb,
        refl,
        t,
        λ x. (
          inr,
          λ o. elim o [
            | inl e ↦ (gdb_find_breakpoint gdb address, (at.0, at.1 ∙ sym e))
            | inr m ↦ m
          ],
        ),
      )
    ])
