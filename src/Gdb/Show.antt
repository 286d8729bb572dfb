-- ===== src/Gdb/Show.antt =====
-- gdb_protocol.c: the answer to the request m.
use projet_prog.Base.{
  ℕ, zero, suc, ◌+◌, ◌*◌, ◌/◌, ◌^◌, ◌<◌, ◌≤◌, ◌≡◌, ◌∙◌, ap, refl, arith, u8, ltb, some, Bool, true,
  false, [], ◌∷◌, ◌++◌, lt→ltb, le→not_ltb, Machine,
}
use projet_prog.Base.State.{pure, ◌>>◌, asks, after, after_step, asks-eq}
use projet_prog.Memory.{Memory, memory_get_size, memory_read_byte, cell}
use projet_prog.Breakpoints.{Cells, store_at}
use projet_prog.Text.{Bytes, codes, size, size-append, hex2, digits, hex_value}
use projet_prog.Gdb.State.{
  Gdb, Session, buffer, max_packet_size, store_text, set_byte, set_byte-eq, put_text, put_text-eq,
  written,
}
use projet_prog.Gdb.Send.{gdb_send_buffer}
use projet_prog.Gdb.Buffer.{
  Holds, byte, nothing, IsText, none_left, IsText-append, Holds-prefix, is_text, is_text-IsText,
  store_text-Holds,
}
use projet_prog.Gdb.Packet.{frame, gdb_send_buffer-frame}
use projet_prog.Gdb.Dump.{with_packet, Fills, fill_step, digits-IsText}
use projet_prog.Gdb.Pairs.{pair_text, scan_pair-digits}
use projet_prog.Gdb.Contents.{dump_loop, dump_at, read_memory}

-- The bytes of the memory from an address on, each in two digits.
unfoldable pub memory_text : Memory → (n a : ℕ) → Bytes
memory_text mem zero a = []
memory_text mem (suc n) a = hex2 (mem.value a) ++ memory_text mem n (a + 1)

memory_text-IsText : (mem : Memory) (n a : ℕ) → IsText (memory_text mem n a)
unfolding memory_text
memory_text-IsText mem zero a = none_left
memory_text-IsText mem (suc n) a =
    IsText-append (digits-IsText (mem.value a) 2) (memory_text-IsText mem n (a + 1))

size-memory_text : (mem : Memory) (n a : ℕ) → size (memory_text mem n a) ≡ n * 2
unfolding memory_text digits
size-memory_text mem zero a = refl
size-memory_text mem (suc n) a = omega (arith, size-memory_text mem n (a + 1))

memory_read_byte-eq :
    (mem : Memory) (a old : ℕ) → a < mem.taille → memory_read_byte mem a old ≡ some (0, mem.value a)
unfolding memory_read_byte memory_get_size cell
memory_read_byte-eq mem a old h =
    rw (le→not_ltb mem.taille a (omega arith), lt→ltb a mem.taille h) refl

module _ ⦃m : Machine⦄ where
  dump_loop-Fills :
      (gdb : Gdb) (n a : ℕ) (s : Bytes) (c : Cells)
      → a + n ≤ gdb.arm.mem.taille
      → gdb.arm.mem.taille < 2 ^ 32
      → size s + n * 2 + 2 ≤ max_packet_size
      → Holds c 1 (s ++ (0 ∷ []))
      → Fills gdb
          (s ++ (memory_text gdb.arm.mem n a ++ (0 ∷ [])))
          (dump_loop n a (1 + size s) (with_packet gdb c))
  unfolding dump_loop memory_text pure digits
  dump_loop-Fills gdb zero a s c p q room h = (c, refl, h)
  dump_loop-Fills gdb (suc n) a s c p q room h =
      let t = hex2 (gdb.arm.mem.value a) in
      let (c', ran, held) =
        fill_step gdb c s t (Holds-prefix s (0 ∷ []) h) 2 (put_text (1 + size s) t)
          (dump_loop n (a + 1)) (memory_text gdb.arm.mem n (a + 1) ++ (0 ∷ [])) refl
          (put_text-eq (1 + size s) t (with_packet gdb c) (omega arith))
          λ c' h'.
            dump_loop-Fills gdb n (a + 1) (s ++ t) c' (omega arith) q
              (omega (arith, size-append s t)) h' in
      (
        c',
        after (asks λ gdb. memory_read_byte gdb.arm.mem a (u8 m.junk)) _
              (asks-eq _ (memory_read_byte-eq gdb.arm.mem a (u8 m.junk) (omega arith)))
            ∙ ap
                (λ b.
                  (put_text (1 + size s) t >> dump_loop n b (1 + size s + 2)) (with_packet gdb c))
                (omega arith)
            ∙ ran,
        held,
      )

-- The request is answered by a packet and changes the connection alone.
pub Answered : (Bytes → Session (Unit {0})) → Bytes → Gdb → Bytes → Type 0
Answered handler text gdb answer =
    (gdb' : Gdb) × (handler text gdb ≡ some (tt, gdb'))
    × (gdb'.events ≡ written (frame answer) ∷ gdb.events)
    × (gdb'.arm ≡ gdb.arm)
    × (gdb'.table ≡ gdb.table)

module _ ⦃m : Machine⦄ (j k address n : ℕ) (rest : Bytes) (q : address < 2 ^ 32)
    (word : address / 16 ^ suc j < 16) (p : n < 2 ^ 32) (length : n / 16 ^ suc k < 16) where
  -- The request m, with its numbers in two digits or more, for some bytes inside the memory that
  -- fit the packet is answered by them, each in two digits; for an address outside the memory the
  -- answer is E0E. Neither changes the target.
  pub read_memory-shown :
      (gdb : Gdb)
      → gdb.arm.mem.taille < 2 ^ 32
      → (address < gdb.arm.mem.taille
          → address + n ≤ gdb.arm.mem.taille
          → n * 2 + 5 ≤ max_packet_size
          → Answered read_memory
              (pair_text j k address n (0 ∷ rest))
              gdb
              (memory_text gdb.arm.mem n address))
        × (gdb.arm.mem.taille ≤ address
            → Answered read_memory (pair_text j k address n (0 ∷ rest)) gdb (codes "E0E"))
  unfolding read_memory dump_at memory_get_size hex_value is_text Answered
  read_memory-shown gdb small = (
    λ inside fits room.
        let shown = memory_text gdb.arm.mem n address in
        let c = store_at gdb.packet buffer 0 in
        let (c', ran, held) =
          dump_loop-Fills gdb n address [] c fits small (omega (arith, room)) (byte refl nothing) in
        (
          _,
          scanned gdb
              ∙ test gdb true (lt→ltb address gdb.arm.mem.taille inside)
              ∙ after_step (set_byte buffer 0 >> dump_loop n address buffer) _
                  (after_step (set_byte buffer 0) _ (set_byte-eq buffer 0 gdb (omega arith)) ∙ ran)
              ∙ gdb_send_buffer-frame shown (memory_text-IsText gdb.arm.mem n address)
                  (omega (arith, size-memory_text gdb.arm.mem n address, room)) (with_packet gdb c')
                  held,
          refl,
          refl,
          refl,
        ),
    λ outside.
        let c' = store_text gdb.packet buffer (codes "E0E") in
        (
          _,
          scanned gdb
              ∙ test gdb false (le→not_ltb address gdb.arm.mem.taille outside)
              ∙ after_step (put_text buffer (codes "E0E")) _
                  (put_text-eq buffer (codes "E0E") gdb (omega arith))
              ∙ gdb_send_buffer-frame (codes "E0E") (is_text-IsText (codes "E0E") refl)
                  (omega arith) (with_packet gdb c')
                  (store_text-Holds gdb.packet buffer (codes "E0E")),
          refl,
          refl,
          refl,
        ),
  )
    where
      dumped : Bool → Session (Unit {0})
      dumped inside =
          elim inside [
            | true ↦ set_byte buffer 0 >> dump_loop n address buffer
            | false ↦ put_text buffer (codes "E0E")
          ]
          >> gdb_send_buffer

      scanned :
          (gdb : Gdb)
          → read_memory (pair_text j k address n (0 ∷ rest)) gdb ≡ dump_at (address, n) gdb
      scanned gdb =
          ap (λ p. dump_at p gdb) (scan_pair-digits j k address n 0 rest q word p length refl)

      test :
          (gdb : Gdb) (b : Bool)
          → ltb address gdb.arm.mem.taille ≡ b
          → dump_at (address, n) gdb ≡ dumped b gdb
      test gdb b e =
          after (asks λ gdb. some (ltb address (memory_get_size gdb.arm.mem))) dumped
            (asks-eq _ (ap some e))
