-- ===== src/Gdb/Points.antt =====
-- gdb_protocol.c: what the requests Z0 and z0 do to the breakpoints.
use mathlib.Core.Logic.{◌⊎◌}
use projet_prog.Base.{
  ℕ, suc, ◌/◌, ◌^◌, ◌<◌, ◌≤◌, ◌≡◌, ◌≢◌, ◌↔◌, ◌∙◌, ap, refl, subst, arith, u8, ◌==◌, minus_one, inl,
  inr, Bool-cases, some, none, true, ◌∷◌, ◌++◌, if◌then◌else◌, Machine,
}
use projet_prog.Base.State.{modify, after_step, modify-eq}
use projet_prog.Breakpoints.{
  Table, max_breakpoints_number, gdb_find_breakpoint, gdb_remove_breakpoint,
}
use projet_prog.Breakpoints.Find.{IsTable, Member}
use projet_prog.Breakpoints.Insert.{gdb_add_breakpoint-Member}
use projet_prog.Breakpoints.Delete.{gdb_remove_breakpoint-Member}
use projet_prog.Text.{
  Bytes, codes, size, digits, hex_value, scan_hex, scan_hex_within, skip_spaces, is_space,
  hex_signed, hex_prefixed, hex_number, hex_digits, literal,
}
use projet_prog.Text.Hex.{scan_hex-digits}
use projet_prog.Gdb.State.{Gdb, written}
use projet_prog.Gdb.Buffer.{is_text}
use projet_prog.Gdb.Packet.{frame, replied, send_literal}
use projet_prog.Gdb.Send.{gdb_send_data}
use projet_prog.Gdb.Scan.{assigned, scan_pair, scan_first, scan_second, scan_point}
use projet_prog.Gdb.Requests.{changed, set_point, remove_point, set_breakpoint, remove_breakpoint}

-- The text of a request on a software breakpoint: an address in two digits or more, and a byte
-- that ends it.
abbrev pub point_text : (k address x : ℕ) → Bytes → Bytes
point_text k address x rest = b'0' ∷ b',' ∷ (digits address (suc (suc k)) ++ (x ∷ rest))

with_table : Gdb → Table → Gdb
with_table gdb table = record gdb { table = table }

changed-eq :
    (failure answer : Bytes) (result : ℕ) (table : Table) (gdb : Gdb)
    → (if result == 0 then failure else codes "OK") ≡ answer
    → is_text answer ≡ true
    → size answer ≤ 40
    → changed failure (result, table) gdb ≡ some (tt, replied answer (with_table gdb table))
unfolding changed with_table
changed-eq failure answer result table gdb e t short =
    after_step (modify λ gdb. record gdb { table = table }) _ (modify-eq _ gdb)
    ∙ ap (λ s. gdb_send_data s (with_table gdb table)) e
    ∙ send_literal answer (with_table gdb table) t short

removal :
    (table : Table) (address : ℕ)
    → ((gdb_remove_breakpoint table address).0 ≡ 0) ⊎ ((gdb_remove_breakpoint table address).0 ≡ 1)
unfolding gdb_remove_breakpoint
removal table address = elim (Bool-cases (gdb_find_breakpoint table address == minus_one)) [
  | inl absent ↦ inl (rw absent refl)
  | inr found ↦ inr (rw found refl)
]

subst_code : {a b : ℕ} → a ≡ b → (a ≡ 0) ⊎ (a ≡ 1) → (b ≡ 0) ⊎ (b ≡ 1)
subst_code e h = subst (λ n. (n ≡ 0) ⊎ (n ≡ 1)) e h

module _ ⦃m : Machine⦄ (k address x : ℕ) (rest : Bytes) (word : address < 2 ^ 32)
    (fits : address / 16 ^ suc k < 16) (ends : hex_value x ≡ none) where
  first_zero : (s : Bytes) → scan_hex (b'0' ∷ b',' ∷ s) ≡ some (0, b',' ∷ s)
  unfolding scan_hex scan_hex_within skip_spaces is_space hex_signed hex_prefixed hex_number
      hex_digits hex_value
  first_zero s = refl

  scanned : scan_point (point_text k address x rest) ≡ (0, address)
  unfolding scan_point scan_pair scan_first scan_second literal assigned
  scanned =
      let then_address = scan_hex-digits k address word fits x ends rest in
      ap (λ o. pointed (scan_first o)) (first_zero (digits address (suc (suc k)) ++ (x ∷ rest)))
      ∙ ap (λ o. pointed (0, assigned o)) then_address
    where
      pointed : ℕ × ℕ → ℕ × ℕ
      pointed (type, address) = (u8 type, address)

  -- The request Z0 for an address in two digits or more, with a sorted table that has room, is
  -- answered by OK; the table is then sorted and has that address and the former ones, and no
  -- other, and the processor is as before.
  pub set_breakpoint-Member :
      (gdb : Gdb)
      → IsTable gdb.table
      → gdb.table.breakpoints_number < max_breakpoints_number
      → (gdb' : Gdb) × (set_breakpoint (point_text k address x rest) gdb ≡ some (tt, gdb'))
        × (gdb'.events ≡ written (frame (codes "OK")) ∷ gdb.events)
        × (gdb'.arm ≡ gdb.arm)
        × IsTable gdb'.table
        × ((y : ℕ) → Member gdb'.table y ↔ ((y ≡ address) ⊎ Member gdb.table y))
  unfolding set_breakpoint set_point with_table is_text
  set_breakpoint-Member gdb t room =
      let (table, added, sorted, members) = gdb_add_breakpoint-Member gdb.table address t room in
      (
        _,
        ap (λ p. set_point p gdb) scanned
            ∙ ap (λ r. changed (codes "E04") r gdb) added
            ∙ changed-eq (codes "E04") (codes "OK") 1 table gdb refl refl (omega arith),
        refl,
        refl,
        sorted,
        members,
      )

  -- The request z0 for an address in two digits or more makes of a sorted table one with the other
  -- former addresses, and no other, and leaves the processor as it is; the answer is OK where the
  -- address was in the table, and E05 where it was not.
  pub remove_breakpoint-Member :
      (gdb : Gdb)
      → IsTable gdb.table
      → (gdb' : Gdb) × (answer : Bytes) × (remove_breakpoint (point_text k address x rest) gdb
          ≡ some (tt, gdb'))
        × (gdb'.events ≡ written (frame answer) ∷ gdb.events)
        × (Member gdb.table address → answer ≡ codes "OK")
        × (¬ Member gdb.table address → answer ≡ codes "E05")
        × (gdb'.arm ≡ gdb.arm)
        × IsTable gdb'.table
        × ((y : ℕ) → Member gdb'.table y ↔ (Member gdb.table y × (y ≢ address)))
  unfolding remove_breakpoint remove_point with_table is_text
  remove_breakpoint-Member gdb t =
      let (code, table, removed, there, sorted, members) =
        gdb_remove_breakpoint-Member gdb.table address t in
      let run =
        ap (λ p. remove_point p gdb) scanned ∙ ap (λ r. changed (codes "E05") r gdb) removed in
      elim (subst_code (ap (λ (r : ℕ × Table). r.0) removed) (removal gdb.table address)) [
        | inl zero_code ↦ (
          _,
          codes "E05",
          run
              ∙ changed-eq (codes "E05") (codes "E05") code table gdb (rw zero_code refl) refl
                  (omega arith),
          refl,
          λ h. absurd (omega (arith, there.1 h, zero_code)),
          λ h. refl,
          refl,
          sorted,
          members,
        )
        | inr one_code ↦ (
          _,
          codes "OK",
          run
              ∙ changed-eq (codes "E05") (codes "OK") code table gdb (rw one_code refl) refl
                  (omega arith),
          refl,
          λ h. refl,
          λ h. absurd (h (there.0 one_code)),
          refl,
          sorted,
          members,
        )
      ]
