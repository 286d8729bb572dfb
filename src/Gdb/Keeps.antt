-- ===== src/Gdb/Keeps.antt =====
-- gdb_protocol.c: the requests that run the processor or read or write the registers keep a session well formed.
use projet_prog.Base.{
  ℕ, zero, suc, ◌+◌, refl, arith, ltb, none, Bool, Bool-cases, true, false, inl, inr, Machine,
  if◌then◌else◌, bit_and-lt_right, lt→ltb, ltb→lt,
}
use projet_prog.Base.Fault
use projet_prog.Base.Fault.{After, MayFault, fault, done}
use projet_prog.Base.State.{pure, ◌>>◌}
use projet_prog.Base.Yields.{Yields-bind, Yields-then, Yields-pure, Yields-asks, Yields-modify}
use projet_prog.Registers.{
  Registers, cpsr_mask, nb_register, registers_write, registers_write_cpsr, registers_get_mode,
}
use projet_prog.Core.Valid.{IsWords}
use projet_prog.Core.Rules.{assign-IsWords}
use projet_prog.Instruction.Keeps.{arm_step-SameSize}
use projet_prog.Text.{Bytes}
use projet_prog.Gdb.State.{Gdb, Session}
use projet_prog.Gdb.Send.{gdb_send_stop_reason}
use projet_prog.Gdb.Execute.{
  single_step, single_step_with_signal, cont, step, step_with_signal, reason, kill_request,
}
use projet_prog.Gdb.Register.{
  read_register, read_loop, unknown_loop, read_general_registers, read_single_register,
  write_register, write_loop, write_general_registers, write_single_register, put_registers,
}
use projet_prog.Gdb.Scan.{read_uint32, write_uint32}
use projet_prog.Gdb.Range.{read_uint32-lt}
use projet_prog.Gdb.Kept.{
  WellFormed, Keeps, any-Keeps, put_text-Keeps, connection-Keeps, gdb_send_buffer-Keeps,
  gdb_send_data-Keeps, gdb_send_stop_reason-Keeps, on_arm-Keeps,
}

module _ (n : ℕ) where
  pub kill_request-Keeps : (text : Bytes) → Keeps n (kill_request text)
  unfolding kill_request
  kill_request-Keeps text = connection-Keeps n _ λ gdb. (refl, refl)

  pub reason-Keeps : (text : Bytes) → Keeps n (reason text)
  unfolding reason
  reason-Keeps text = gdb_send_stop_reason-Keeps n

  write_uint32-Keeps : (i value : ℕ) → Keeps n (write_uint32 i value)
  unfolding write_uint32
  write_uint32-Keeps i value = put_text-Keeps n i _

  read_register-Keeps : (i reg : ℕ) → Keeps n (read_register i reg)
  unfolding read_register
  read_register-Keeps i reg = Yields-bind (any-Keeps n _) λ value _. write_uint32-Keeps i value

  read_loop-Keeps : (k i position : ℕ) → Keeps n (read_loop k i position)
  unfolding read_loop
  read_loop-Keeps zero i position = Yields-pure tt tt
  read_loop-Keeps (suc k) i position =
      Yields-then (read_register-Keeps position i) (read_loop-Keeps k (i + 1) (position + 8))

  unknown_loop-Keeps : (k position : ℕ) → Keeps n (unknown_loop k position)
  unfolding unknown_loop
  unknown_loop-Keeps zero position = Yields-pure tt tt
  unknown_loop-Keeps (suc k) position =
      Yields-then (put_text-Keeps n _ _) (unknown_loop-Keeps k (position + 8))

  pub read_general_registers-Keeps : (text : Bytes) → Keeps n (read_general_registers text)
  unfolding read_general_registers
  read_general_registers-Keeps text = Yields-then (read_loop-Keeps 16 0 _) (
      Yields-then (unknown_loop-Keeps 24 _) (
        Yields-then (put_text-Keeps n _ _) (
          Yields-bind (any-Keeps n _)
            λ cpsr _. Yields-then (write_uint32-Keeps _ cpsr) (gdb_send_buffer-Keeps n))))

  pub read_single_register-Keeps : (text : Bytes) → Keeps n (read_single_register text)
  unfolding read_single_register
  read_single_register-Keeps text = Yields-then (read_register-Keeps _ _) (gdb_send_buffer-Keeps n)

  -- New registers that are words.
  put_registers-Keeps : (r : Registers) → IsWords r → Keeps n (put_registers r)
  put_registers-Keeps r words = Yields-modify _ λ gdb w. record {
    table = w.table;
    valid = record { words = words; bytes = w.valid.bytes };
    same_size = w.same_size;
  }

module _ ⦃m : Machine⦄ (n : ℕ) where
  pub single_step-Keeps : Keeps n single_step
  unfolding single_step
  single_step-Keeps =
      Yields-bind
        (on_arm-Keeps n λ p v. Fault.mono (arm_step-SameSize p v) λ r h. (h.1.valid, h.1.same_size))
        λ exception _. connection-Keeps n _ λ gdb. (refl, refl)

  pub step-Keeps : (text : Bytes) → Keeps n (step text)
  unfolding step
  step-Keeps text = Yields-then single_step-Keeps (gdb_send_stop_reason-Keeps n)

  pub step_with_signal-Keeps : (text : Bytes) → Keeps n (step_with_signal text)
  unfolding step_with_signal single_step_with_signal
  step_with_signal-Keeps text = Yields-then single_step-Keeps (gdb_send_stop_reason-Keeps n)

  pub cont-Keeps : (fuel : ℕ) (text : Bytes) → Keeps n (cont fuel text)
  unfolding cont
  cont-Keeps zero text = Yields-pure false tt
  cont-Keeps (suc fuel) text = Yields-then single_step-Keeps (
      Yields-bind (any-Keeps n _)
        λ pc _. Yields-bind (any-Keeps n _) λ stop _. going stop (cont-Keeps fuel text))
    where
      going :
          (stop : Bool)
          → Keeps n (cont fuel text)
          → Keeps n (elim stop as (λ _. Session Bool) [
            | true ↦ gdb_send_stop_reason >> pure true
            | false ↦ cont fuel text
          ])
      going true rest = Yields-then (gdb_send_stop_reason-Keeps n) (Yields-pure true tt)
      going false rest = rest

  write_register-Keeps : (reg : ℕ) (text : Bytes) → Keeps n (write_register reg text)
  unfolding write_register registers_write
  write_register-Keeps reg text =
      Yields-bind {P = IsWords} (Yields-asks λ gdb w. written gdb w)
        λ r words. put_registers-Keeps n r words
    where
      written :
          (gdb : Gdb)
          → WellFormed n gdb
          → After MayFault IsWords (
              if ltb reg 16
              then registers_write gdb.arm.reg reg
                  (registers_get_mode gdb.arm.reg)
                  (read_uint32 text)
              else none)
      written gdb w = elim (Bool-cases (ltb reg 16)) [
        | inr large ↦ rw large (fault tt)
        | inl small ↦
            let inside = lt→ltb reg nb_register (omega (arith, ltb→lt reg 16 small)) in
            rw (small, inside)
              (done (
                assign-IsWords gdb.arm.reg reg (read_uint32 text) w.valid.words
                  (read_uint32-lt text)))
      ]

  write_loop-Keeps : (k i : ℕ) (text : Bytes) → Keeps n (write_loop k i text)
  unfolding write_loop
  write_loop-Keeps zero i text = Yields-pure tt tt
  write_loop-Keeps (suc k) i text =
      Yields-bind (any-Keeps n _)
        λ position _. Yields-then (write_register-Keeps i position) (write_loop-Keeps k (i + 1) _)

  pub write_general_registers-Keeps : (text : Bytes) → Keeps n (write_general_registers text)
  unfolding write_general_registers registers_write_cpsr
  write_general_registers-Keeps text = Yields-then (write_loop-Keeps 16 0 text) (
      Yields-bind (any-Keeps n _) λ position _.
        Yields-then
          (Yields-modify _ λ gdb w. record {
            table = w.table;
            valid = record {
              words =
                  assign-IsWords gdb.arm.reg 16 _ w.valid.words
                    (bit_and-lt_right 32 _ cpsr_mask (omega arith));
              bytes = w.valid.bytes;
            };
            same_size = w.same_size;
          })
          (gdb_send_data-Keeps n _))

  pub write_single_register-Keeps : (text : Bytes) → Keeps n (write_single_register text)
  unfolding write_single_register
  write_single_register-Keeps text =
      Yields-bind (any-Keeps n _)
        λ value _. Yields-then (write_register-Keeps _ value) (gdb_send_data-Keeps n _)
