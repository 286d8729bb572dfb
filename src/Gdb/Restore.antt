-- ===== src/Gdb/Restore.antt =====
-- gdb_protocol.c: what the request G makes of an answer to g.
use projet_prog.Base.{
  ℕ, zero, suc, ◌+◌, ◌<◌, ◌≤◌, ◌≡◌, ◌∙◌, ap, refl, arith, ◌^◌, bit_and, bit_and-bit_and,
  bit_and-lt_right, some, none, ◌∷◌, ◌++◌, ltb, lt→ltb, if◌then◌else◌, Machine,
}
use projet_prog.Base.State.{pure, asks, modify, after, after_step, asks-eq}
use projet_prog.Registers.{
  Registers, assign, nb_register, cpsr_mask, registers_get_mode, registers_write,
  registers_read_cpsr, registers_write_cpsr,
}
use projet_prog.Core.Valid.{IsWords}
use projet_prog.Text.{Bytes, codes, drop, hex8, digits}
use projet_prog.Text.Hex.{scan_hex_within-hex8}
use projet_prog.Gdb.State.{Gdb, written}
use projet_prog.Gdb.Buffer.{IsText, one_more, none_left}
use projet_prog.Gdb.Packet.{frame, gdb_send_data-frame}
use projet_prog.Gdb.Scan.{assigned, read_uint32, readable}
use projet_prog.Gdb.Register.{write_register, write_loop, write_general_registers}
use projet_prog.Gdb.Dump.{registers_dump, registers_text, unknown_text}

-- The registers i to i + n - 1 taken from r.
copied : Registers → (n i : ℕ) → Registers → Registers
copied r zero i f = f
copied r (suc n) i f = copied r n (i + 1) (assign f i (r i))

abbrev with_registers : Gdb → Registers → Gdb
with_registers gdb r = record gdb { arm = record gdb.arm { reg = r } }

copied-outside : (r f : Registers) (n i j : ℕ) → (j < i) → copied r n i f j ≡ f j
unfolding copied
copied-outside r f zero i j h = refl
copied-outside r f (suc n) i j h =
    copied-outside r (assign f i (r i)) n (i + 1) j (omega arith) ∙ ground arith

copied-behind : (r f : Registers) (n i j : ℕ) → i + n ≤ j → copied r n i f j ≡ f j
unfolding copied
copied-behind r f zero i j h = refl
copied-behind r f (suc n) i j h =
    copied-behind r (assign f i (r i)) n (i + 1) j (omega arith) ∙ ground arith

copied-inside : (r f : Registers) (n i j : ℕ) → i ≤ j → j < i + n → copied r n i f j ≡ r j
unfolding copied
copied-inside r f zero i j p q = absurd (omega arith)
copied-inside r f (suc n) i j p q = ground (
  arith,
  copied-outside r (assign f i (r i)) n (i + 1) j,
  copied-inside r (assign f i (r i)) n (i + 1) j,
)

module _ ⦃m : Machine⦄ where
  ok : IsText (codes "OK")
  ok = one_more (omega arith) (omega arith) (one_more (omega arith) (omega arith) none_left)

  -- Eight digits are read back.
  read_uint32-hex8 : (v : ℕ) (rest : Bytes) → v < 2 ^ 32 → read_uint32 (hex8 v ++ rest) ≡ v
  unfolding read_uint32 assigned
  read_uint32-hex8 v rest h = ap assigned (scan_hex_within-hex8 v h rest)

  write_register-eq :
      (reg : ℕ) (text : Bytes) (gdb : Gdb)
      → reg < 16
      → write_register reg text gdb
        ≡ some (tt, with_registers gdb (assign gdb.arm.reg reg (read_uint32 text)))
  unfolding write_register registers_write modify
  write_register-eq reg text gdb h =
      after
        (asks λ gdb.
          if ltb reg 16
          then registers_write gdb.arm.reg reg (registers_get_mode gdb.arm.reg) (read_uint32 text)
          else none)
        _ (asks-eq _ (rw (lt→ltb reg 16 h, lt→ltb reg nb_register (omega arith)) refl))

  write_loop-copied :
      (r : Registers) (n i : ℕ) (rest : Bytes) (gdb : Gdb)
      → IsWords r
      → i + n ≤ 16
      → write_loop n i (registers_text r n i ++ rest) gdb
        ≡ some (tt, with_registers gdb (copied r n i gdb.arm.reg))
  unfolding write_loop registers_text copied pure readable digits
  write_loop-copied r zero i rest gdb w p = refl
  write_loop-copied r (suc n) i rest gdb w p =
      let text = registers_text r (suc n) i ++ rest in
      after (asks λ gdb. readable text) _ (asks-eq _ refl)
      ∙ after_step (write_register i text) _ (write_register-eq i text gdb (omega arith))
      ∙ ap
          (λ v.
            write_loop n (i + 1) (registers_text r n (i + 1) ++ rest)
              (with_registers gdb (assign gdb.arm.reg i v)))
          (read_uint32-hex8 (r i) (registers_text r n (i + 1) ++ rest) (w i (omega arith)))
      ∙ write_loop-copied r n (i + 1) rest (with_registers gdb (assign gdb.arm.reg i (r i))) w
          (omega arith)

  -- G with the answer to g for a register file of words gives the sixteen registers the values that
  -- they have in that file and the cpsr the masked cpsr of it, and is answered by OK. Nothing else of
  -- the processor changes, the other registers included, nor do the table of breakpoints and the
  -- exception of the target.
  pub write_general_registers-dump :
      (r : Registers) (rest : Bytes) (gdb : Gdb)
      → IsWords r
      → (gdb' : Gdb) × (write_general_registers (registers_dump r ++ (0 ∷ rest)) gdb
          ≡ some (tt, gdb'))
        × ((j : ℕ) → j < 16 → gdb'.arm.reg j ≡ r j)
        × (gdb'.arm.reg 16 ≡ registers_read_cpsr r)
        × ((j : ℕ) → 16 < j → gdb'.arm.reg j ≡ gdb.arm.reg j)
        × (gdb'.arm ≡ record gdb.arm { reg = gdb'.arm.reg })
        × (gdb'.events ≡ written (frame (codes "OK")) ∷ gdb.events)
        × (gdb'.table ≡ gdb.table)
        × (gdb'.target_exception ≡ gdb.target_exception)
  unfolding write_general_registers registers_dump registers_text unknown_text readable digits
      modify registers_write_cpsr registers_read_cpsr
  write_general_registers-dump r rest gdb w =
      let text = registers_dump r ++ (0 ∷ rest) in
      let behind = unknown_text 25 ++ (hex8 (registers_read_cpsr r) ++ (0 ∷ rest)) in
      let f = copied r 16 0 gdb.arm.reg in
      let cpsr = read_uint32 (hex8 (registers_read_cpsr r) ++ (0 ∷ rest)) in
      let same : cpsr ≡ registers_read_cpsr r =
        read_uint32-hex8 (registers_read_cpsr r) (0 ∷ rest)
          (bit_and-lt_right 32 (r 16) cpsr_mask (omega arith)) in
      let end = with_registers gdb (registers_write_cpsr f cpsr) in
      (
        _,
        after_step (write_loop 16 0 text) _ (write_loop-copied r 16 0 behind gdb w (omega arith))
            ∙ after (asks λ gdb. readable (drop 328 text)) _ (asks-eq _ refl)
            ∙ after_step
                (modify λ gdb. record gdb {
                  arm = record gdb.arm { reg = registers_write_cpsr gdb.arm.reg cpsr };
                })
                _ refl
            ∙ gdb_send_data-frame (codes "OK") ok (omega arith) end,
        λ j h. ground (arith, copied-inside r gdb.arm.reg 16 0 j),
        ap (λ v. bit_and v cpsr_mask) same ∙ bit_and-bit_and 32 (r 16) cpsr_mask (omega arith),
        λ j h. ground (arith, copied-behind r gdb.arm.reg 16 0 j),
        refl,
        refl,
        refl,
        refl,
      )
