-- ===== src/Gdb/Kept.antt =====
-- gdb_protocol.c: well-formed sessions, and the parts of the handlers that keep them.
use projet_prog.Base.{
  ℕ, ◌+◌, ◌≡◌, ◌∙◌, refl, ltb, Option, none, some, Bool, true, false, if◌then◌else◌,
}
use projet_prog.Base.Fault.{After, MayFault, fault, done}
use projet_prog.Base.State.{Run, asks, modify}
use projet_prog.Base.Yields.{Yields, Yields-bind, Yields-then, Yields-asks, Yields-modify}
use projet_prog.Core.{Core}
use projet_prog.Core.Valid.{IsValid}
use projet_prog.Breakpoints.{store_at}
use projet_prog.Breakpoints.Find.{IsTable}
use projet_prog.Text.{Bytes, size, codes}
use projet_prog.Gdb.State.{Gdb, Session, max_packet_size, store_text, set_byte, put_text, on_arm}
use projet_prog.Gdb.Send.{
  gdb_send_ack, gdb_require_retransmission, gdb_transmit_packet, gdb_send_buffer, gdb_send_data,
  gdb_send_stop_reason, write_out,
}

-- A sorted table, a valid processor, and a memory of n bytes.
pub record WellFormed (n : ℕ) (gdb : Gdb) : Type 0 where
  pub table : IsTable gdb.table
  pub valid : IsValid gdb.arm
  pub same_size : gdb.arm.mem.taille ≡ n

-- A run from a well-formed session that does not fault ends in one.
abbrev pub Keeps : {A : Type 0} → ℕ → Session A → Type 0
Keeps n m = Yields MayFault (WellFormed n) (λ _. Unit {0}) m

module _ (n : ℕ) where
  -- A change of the connection alone.
  connection :
      (f : Gdb → Gdb)
      → ((gdb : Gdb) → ((f gdb).table ≡ gdb.table) × ((f gdb).arm ≡ gdb.arm))
      → (gdb : Gdb) → WellFormed n gdb
      → WellFormed n (f gdb)
  connection f same gdb w = record {
    table = rw (same gdb).0 w.table;
    valid = rw (same gdb).1 w.valid;
    same_size = rw (same gdb).1 w.same_size;
  }

  pub any-Keeps : {A : Type 0} (f : Gdb → Option A) → Keeps n (asks f)
  any-Keeps f = Yields-asks λ gdb w. whatever (f gdb)
    where
      whatever : {A : Type 0} (o : Option A) → After MayFault (λ _. Unit {0}) o
      whatever none = fault tt
      whatever (some a) = done tt

  guarded :
      (b : Bool) (gdb : Gdb)
      → WellFormed n gdb
      → After MayFault
          (λ (r : Unit {0} × Gdb). Unit {0} × WellFormed n r.1)
          (if b then some (tt, gdb) else none)
  guarded true gdb w = done (tt, w)
  guarded false gdb w = fault tt

  pub set_byte-Keeps : (i v : ℕ) → Keeps n (set_byte i v)
  unfolding set_byte
  set_byte-Keeps i v = record {
    run = λ gdb w. guarded (ltb i max_packet_size) _ (
        connection (λ gdb. record gdb { packet = store_at gdb.packet i v }) (λ gdb. (refl, refl))
          gdb w);
  }

  pub put_text-Keeps : (i : ℕ) (s : Bytes) → Keeps n (put_text i s)
  unfolding put_text
  put_text-Keeps i s = record {
    run = λ gdb w. guarded (ltb (i + size s) max_packet_size) _ (
        connection (λ gdb. record gdb { packet = store_text gdb.packet i s }) (λ gdb. (refl, refl))
          gdb w);
  }

  pub connection-Keeps :
      (f : Gdb → Gdb)
      → ((gdb : Gdb) → ((f gdb).table ≡ gdb.table) × ((f gdb).arm ≡ gdb.arm))
      → Keeps n (modify f)
  connection-Keeps f same = Yields-modify f (connection f same)

  write_out-Keeps : (s : Bytes) → Keeps n (write_out s)
  write_out-Keeps s = connection-Keeps _ λ gdb. (refl, refl)

  pub gdb_send_ack-Keeps : Keeps n gdb_send_ack
  unfolding gdb_send_ack
  gdb_send_ack-Keeps = write_out-Keeps (codes "+")

  pub gdb_require_retransmission-Keeps : Keeps n gdb_require_retransmission
  unfolding gdb_require_retransmission
  gdb_require_retransmission-Keeps = write_out-Keeps (codes "-")

  pub gdb_transmit_packet-Keeps : Keeps n gdb_transmit_packet
  unfolding gdb_transmit_packet
  gdb_transmit_packet-Keeps = record { run = λ gdb w. (write_out-Keeps _).run gdb w }

  pub gdb_send_buffer-Keeps : Keeps n gdb_send_buffer
  unfolding gdb_send_buffer
  gdb_send_buffer-Keeps = Yields-then (set_byte-Keeps _ _) (
      Yields-bind (any-Keeps _) λ r _. Yields-then (set_byte-Keeps _ _) (
        Yields-then (put_text-Keeps _ _) (
          Yields-then (set_byte-Keeps _ _)
            (Yields-then (connection-Keeps _ λ gdb. (refl, refl)) gdb_transmit_packet-Keeps))))

  pub gdb_send_data-Keeps : (s : Bytes) → Keeps n (gdb_send_data s)
  unfolding gdb_send_data
  gdb_send_data-Keeps s = Yields-then (put_text-Keeps _ s) gdb_send_buffer-Keeps

  pub gdb_send_stop_reason-Keeps : Keeps n gdb_send_stop_reason
  unfolding gdb_send_stop_reason
  gdb_send_stop_reason-Keeps = record { run = λ gdb w. (gdb_send_data-Keeps _).run gdb w }

  -- A run of the processor that keeps it valid and its memory the size it has.
  lifted :
      {A : Type 0} (gdb : Gdb)
      → WellFormed n gdb
      → {o : Option (A × Core)}
      → After MayFault (λ (r : A × Core). IsValid r.1 × (r.1.mem.taille ≡ gdb.arm.mem.taille)) o
      → After MayFault
          (λ (r : A × Gdb). Unit {0} × WellFormed n r.1)
          (elim o [ none ↦ none | some (a, arm) ↦ some (a, record gdb { arm = arm }) ])
  lifted gdb w (fault u) = fault u
  lifted gdb w (done h) =
      done (tt, record { table = w.table; valid = h.0; same_size = h.1 ∙ w.same_size })

  pub on_arm-Keeps :
      {A : Type 0} {m : Run Core A}
      → ((p : Core)
          → IsValid p
          → After MayFault (λ (r : A × Core). IsValid r.1 × (r.1.mem.taille ≡ p.mem.taille)) (m p))
      → Keeps n (on_arm m)
  unfolding on_arm
  on_arm-Keeps kept = record { run = λ gdb w. lifted gdb w (kept gdb.arm w.valid) }
