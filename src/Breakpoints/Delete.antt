-- ===== src/Breakpoints/Delete.antt =====
-- What the removal of a breakpoint makes of the table.
use projet_prog.Base.{
  ℕ, zero, suc, ◌+◌, ◌-◌, ◌<◌, ◌≤◌, ◌≡◌, ◌≢◌, ◌↔◌, ◌⊎◌, arith, ltb, Bool-cases, inl, inr, ltb→lt,
  not_ltb→le, refl, ap, sym, ◌∙◌, ◌==◌,
}
use projet_prog.Breakpoints.{
  Table, Cells, store_at, delete_loop, gdb_find_breakpoint, gdb_remove_breakpoint,
}
use projet_prog.Breakpoints.Find.{Increasing, IsTable, Among, Member, located}

-- `d` is `c` with the cells from j on, n of them, moved down by one.
pub record MovedDown (c d : Cells) (n j : ℕ) : Type 0 where
  pub before : (k : ℕ) → k < j → d k ≡ c k
  pub moved : (k : ℕ) → j ≤ k → k < j + n → d k ≡ c (k + 1)

delete_loop-MovedDown : (c : Cells) (n j : ℕ) → MovedDown c (delete_loop c n j) n j
unfolding delete_loop
delete_loop-MovedDown c zero j = record {
  before = λ k p. refl;
  moved = λ k p q. absurd (omega arith);
}
delete_loop-MovedDown c (suc n) j =
    let r = delete_loop-MovedDown (store_at c j (c (j + 1))) n (j + 1) in
    record {
      before = λ k p. ground (arith, r.before k);
      moved = λ k p q. elim (Bool-cases (k == j)) [
        | inl here ↦ ground (arith, r.before k)
        | inr later ↦ ground (arith, r.moved k)
      ];
    }

-- Without the cell at `place` of the first `last + 1`.
module _ (c d : Cells) (place last : ℕ) (inc : Increasing c (last + 1)) (inside : place < last + 1)
    (r : MovedDown c d (last - place) place) where
  shrunk_cell : (k : ℕ) → k < last → ((k < place) × (d k ≡ c k)) ⊎ ((place ≤ k) × (d k ≡ c (k + 1)))
  shrunk_cell k p = elim (Bool-cases (ltb k place)) [
    | inl less ↦ inl (ltb→lt k place less, r.before k (ltb→lt k place less))
    | inr not_less ↦
        let from = not_ltb→le k place not_less in inr (from, r.moved k from (omega arith))
  ]

  Increasing-shrunk : Increasing d last
  Increasing-shrunk i j p q = ground (
    arith,
    shrunk_cell i (omega arith),
    shrunk_cell j q,
    inc i j,
    inc i (j + 1),
    inc (i + 1) (j + 1),
  )

  kept_and_other : (x : ℕ) → Among d last x → Among c (last + 1) x × (x ≢ c place)
  kept_and_other x (k, (p, e)) = elim (shrunk_cell k p) [
    | inl (less, s) ↦ ((k, (omega arith, sym s ∙ e)), ground (arith, inc k place))
    | inr (from, s) ↦ ((k + 1, (omega arith, sym s ∙ e)), ground (arith, inc place (k + 1)))
  ]

  still_there : (x : ℕ) → Among c (last + 1) x × (x ≢ c place) → Among d last x
  still_there x ((k, (p, e)), other) = elim (Bool-cases (ltb k place)) [
    | inl less ↦ let before = ltb→lt k place less in (k, (omega arith, r.before k before ∙ e))
    | inr not_less ↦
        let later : place < k = ground (arith, not_ltb→le k place not_less) in
        let back : k - 1 + 1 ≡ k = omega arith in
        (k - 1, (omega arith, r.moved (k - 1) (omega arith) (omega arith) ∙ ap c back ∙ e))
  ]

-- Removing an address returns 1 if it was in the table and 0 if not, and either way gives a table
-- with the other addresses of the former one, and no other.
pub gdb_remove_breakpoint-Member :
    (gdb : Table) (address : ℕ)
    → IsTable gdb
    → (code : ℕ) × (gdb' : Table) × (gdb_remove_breakpoint gdb address ≡ (code, gdb'))
      × ((code ≡ 1) ↔ Member gdb address)
      × IsTable gdb'
      × ((x : ℕ) → Member gdb' x ↔ (Member gdb x × (x ≢ address)))
unfolding gdb_remove_breakpoint
gdb_remove_breakpoint-Member gdb address t =
    let c = gdb.breakpoints in
    let n = gdb.breakpoints_number in
    elim (located gdb address t) [
      | inl (missing, absent) ↦ rw missing (
        0,
        gdb,
        refl,
        (λ e. absurd (omega arith), λ m. absurd (absent m.0 m.1)),
        t,
        λ x. (λ m. (m, λ e. absent m.0 (m.1.0, m.1.1 ∙ e)), λ m. m.0),
      )
      | inr (there, at) ↦
          let place = gdb_find_breakpoint gdb address in
          let last : ℕ = n - 1 in
          let d = delete_loop c (last - place) place in
          let r = delete_loop-MovedDown c (last - place) place in
          let size : last + 1 ≡ n = omega (arith, at.0) in
          let inc : Increasing c (last + 1) = λ i j p q. t.increasing i j p (omega (arith, size)) in
          let inside : place < last + 1 = omega (arith, at.0) in
          rw there (
            1,
            record { breakpoints = d; breakpoints_number = last },
            refl,
            (λ _. (place, at), λ _. refl),
            record {
              increasing = Increasing-shrunk c d place last inc inside r;
              fits = omega (arith, t.fits);
            },
            λ x. (
              λ m.
                  let (k, other) = kept_and_other c d place last inc inside r x m in
                  ((k.0, (omega (arith, k.1.0, size), k.1.1)), λ e. other (e ∙ sym at.1)),
              λ m.
                  still_there c d place last inc inside r x
                    ((m.0.0, (omega (arith, m.0.1.0, size), m.0.1.1)), λ e. m.1 (e ∙ at.1)),
            ),
          )
    ]
