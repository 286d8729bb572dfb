-- ===== src/Gdb/Serves.antt =====
-- gdb_protocol.c: the requests on the memory and the breakpoints keep a session well formed.
use projet_prog.Base.{
  ℕ, zero, suc, ◌+◌, ◌≡◌, ◌∙◌, add32, ltb, Bool, Bool-cases, true, false, inl, inr, Machine, [],
  ◌∷◌, ◌==◌, ltb→lt, minus_one,
}
use projet_prog.Base.Fault
use projet_prog.Base.Fault.{After, MayFault, fault, done}
use projet_prog.Base.State.{pure, ◌>>◌}
use projet_prog.Base.Yields.{
  Yields-bind, Yields-then, Yields-pure, Yields-asks, Yields-modify, Yields-if,
}
use projet_prog.Memory.{Memory}
use projet_prog.Memory.Cells.{IsBytes}
use projet_prog.Memory.Frame.{memory_write_byte-SameOutside}
use projet_prog.Breakpoints.{
  Table, max_breakpoints_number, gdb_add_breakpoint, gdb_remove_breakpoint,
}
use projet_prog.Breakpoints.Find.{IsTable}
use projet_prog.Breakpoints.Insert.{gdb_add_breakpoint-Member}
use projet_prog.Breakpoints.Delete.{gdb_remove_breakpoint-Member}
use projet_prog.Text.{Bytes, codes, hex2}
use projet_prog.Gdb.State.{Session, put_text, set_byte, buffer}
use projet_prog.Gdb.Contents.{
  dump_loop, dump_at, read_memory, fill_loop, fill_at, write_memory_binary,
}
use projet_prog.Gdb.Requests.{
  query, set_thread, changed, set_point, remove_point, set_breakpoint, remove_breakpoint,
}
use projet_prog.Gdb.Send.{gdb_send_data}
use projet_prog.Gdb.Scan.{scan_pair, scan_point}
use projet_prog.Gdb.Kept.{
  Keeps, any-Keeps, set_byte-Keeps, put_text-Keeps, gdb_send_buffer-Keeps, gdb_send_data-Keeps,
}

module _ (n : ℕ) where
  pub query-Keeps : (text : Bytes) → Keeps n (query text)
  unfolding query
  query-Keeps text = gdb_send_data-Keeps n _

  pub set_thread-Keeps : (text : Bytes) → Keeps n (set_thread text)
  unfolding set_thread
  set_thread-Keeps [] = any-Keeps n _
  set_thread-Keeps (type ∷ text) = Yields-bind (any-Keeps n _) λ number _. gdb_send_data-Keeps n _

  changed-Keeps : (failure : Bytes) (r : ℕ × Table) → IsTable r.1 → Keeps n (changed failure r)
  unfolding changed
  changed-Keeps failure (result, table) t =
      Yields-then
        (Yields-modify _ λ gdb w. record { table = t; valid = w.valid; same_size = w.same_size })
        (gdb_send_data-Keeps n _)

  added-IsTable :
      (table : Table) (address : ℕ) → IsTable table → IsTable (gdb_add_breakpoint table address).1
  unfolding gdb_add_breakpoint
  added-IsTable table address t =
      elim (Bool-cases (ltb table.breakpoints_number max_breakpoints_number)) [
        | inr full ↦ rw full t
        | inl room ↦
            let (table', e, t', _) =
              gdb_add_breakpoint-Member table address t
                (ltb→lt table.breakpoints_number max_breakpoints_number room) in
            rw e t'
      ]

  removed-IsTable :
      (table : Table) (address : ℕ)
      → IsTable table
      → IsTable (gdb_remove_breakpoint table address).1
  removed-IsTable table address t =
      let (code, table', e, _, t', _) = gdb_remove_breakpoint-Member table address t in rw e t'

  set_point-Keeps : (p : ℕ × ℕ) → Keeps n (set_point p)
  unfolding set_point
  set_point-Keeps (type, address) = record {
    run = λ gdb w.
        (Yields-if (type == 0)
            (changed-Keeps (codes "E04") _ (added-IsTable gdb.table address w.table))
            (gdb_send_data-Keeps n (codes "E03"))).run
          gdb w;
  }

  remove_point-Keeps : (p : ℕ × ℕ) → Keeps n (remove_point p)
  unfolding remove_point
  remove_point-Keeps (type, address) = record {
    run = λ gdb w.
        (Yields-if (type == 0)
            (changed-Keeps (codes "E05") _ (removed-IsTable gdb.table address w.table))
            (gdb_send_data-Keeps n (codes "E03"))).run
          gdb w;
  }

module _ ⦃m : Machine⦄ (n : ℕ) where
  pub set_breakpoint-Keeps : (text : Bytes) → Keeps n (set_breakpoint text)
  unfolding set_breakpoint
  set_breakpoint-Keeps text = record {
    run = λ gdb w. (set_point-Keeps n (scan_point text)).run gdb w;
  }

  pub remove_breakpoint-Keeps : (text : Bytes) → Keeps n (remove_breakpoint text)
  unfolding remove_breakpoint
  remove_breakpoint-Keeps text = record {
    run = λ gdb w. (remove_point-Keeps n (scan_point text)).run gdb w;
  }

  dump_loop-Keeps : (size address position : ℕ) → Keeps n (dump_loop size address position)
  unfolding dump_loop
  dump_loop-Keeps zero address position = Yields-pure tt tt
  dump_loop-Keeps (suc size) address position =
      Yields-bind (any-Keeps n _)
        λ r _. round (r.0 == minus_one) r.1 (dump_loop-Keeps size (add32 address 1) (position + 2))
    where
      round :
          (past : Bool) (value : ℕ)
          → Keeps n (dump_loop size (add32 address 1) (position + 2))
          → Keeps n (elim past as (λ _. Session (Unit {0})) [
            | true ↦ pure tt
            | false ↦
                put_text position (hex2 value) >> dump_loop size (add32 address 1) (position + 2)
          ])
      round true value rest = Yields-pure tt tt
      round false value rest = Yields-then (put_text-Keeps n _ _) rest

  dump_at-Keeps : (p : ℕ × ℕ) → Keeps n (dump_at p)
  unfolding dump_at
  dump_at-Keeps (address, size) =
      Yields-bind (any-Keeps n _) λ inside _. Yields-then (dumped inside) (gdb_send_buffer-Keeps n)
    where
      dumped :
          (inside : Bool)
          → Keeps n (elim inside as (λ _. Session (Unit {0})) [
            | true ↦ set_byte buffer 0 >> dump_loop size address buffer
            | false ↦ put_text buffer (codes "E0E")
          ])
      dumped true = Yields-then (set_byte-Keeps n _ _) (dump_loop-Keeps size address buffer)
      dumped false = put_text-Keeps n _ _

  -- The memory that a write leaves has the size of the session's memory, and bytes.
  Fits : ℕ × Memory → Type 0
  Fits r = IsBytes r.1 × (r.1.taille ≡ n)

  fill_loop-Keeps :
      (k address : ℕ) (content : Bytes) (write_ok : Bool)
      → Keeps n (fill_loop k address content write_ok)
  unfolding fill_loop Fits
  fill_loop-Keeps zero address content write_ok = Yields-pure write_ok tt
  fill_loop-Keeps (suc k) address content false = Yields-pure false tt
  fill_loop-Keeps (suc k) address content true = Yields-bind (any-Keeps n _) λ r _.
      Yields-bind {P = Fits}
        (Yields-asks λ gdb w.
          Fault.mono (memory_write_byte-SameOutside gdb.arm.mem address r.0)
            λ s h. (h.bytes w.valid.bytes, h.same_size ∙ w.same_size))
        λ s h.
          Yields-then
            (Yields-modify _ λ gdb w. record {
              table = w.table;
              valid = record { words = w.valid.words; bytes = h.0 };
              same_size = h.1;
            })
            (fill_loop-Keeps k (add32 address 1) r.1 (s.0 == 0))

  fill_at-Keeps : (p : ℕ × ℕ) (text : Bytes) → Keeps n (fill_at p text)
  unfolding fill_at
  fill_at-Keeps (address, size) text = Yields-bind (any-Keeps n _) λ content _.
      Yields-bind (any-Keeps n _) λ inside _.
        Yields-bind (fill_loop-Keeps size address content inside) λ write_ok _. answered write_ok
    where
      answered :
          (write_ok : Bool)
          → Keeps n (elim write_ok as (λ _. Session (Unit {0})) [
            | true ↦ gdb_send_data (codes "OK")
            | false ↦ gdb_send_data (codes "E02")
          ])
      answered true = gdb_send_data-Keeps n _
      answered false = gdb_send_data-Keeps n _

  pub read_memory-Keeps : (text : Bytes) → Keeps n (read_memory text)
  unfolding read_memory
  read_memory-Keeps text = dump_at-Keeps (scan_pair text)

  pub write_memory_binary-Keeps : (text : Bytes) → Keeps n (write_memory_binary text)
  unfolding write_memory_binary
  write_memory_binary-Keeps text = fill_at-Keeps (scan_pair text) text
