-- ===== src/Gdb/Packet.antt =====
-- gdb_protocol.c: the packets that gdb_send_data builds and gdb_packet_analysis accepts.
use projet_prog.Base.{
  ℕ, ◌+◌, ◌-◌, ◌<◌, ◌≤◌, ◌≡◌, ◌∙◌, ap, arith, u8, ◌==◌, Option, some, true, false, [], ◌∷◌, ◌++◌,
}
use projet_prog.Base.State.{◌>>=◌, ◌>>◌, asks, modify, after, after_step, asks-eq}
use projet_prog.Breakpoints.{Cells, store_at}
use projet_prog.Text.{Bytes, size, sum, size-append, hex2, digits}
use projet_prog.Gdb.State.{
  Gdb, max_packet_size, buffer, store_text, set_byte, put_text, set_byte-eq, put_text-eq, written,
}
use projet_prog.Gdb.Send.{
  bytes_from, check_loop, gdb_transmit_packet, gdb_send_buffer, gdb_send_data,
}
use projet_prog.Gdb.Buffer.{
  Holds, byte, IsText, is_text, is_text-IsText, Holds-agree, Holds-append, store_text-before,
  store_text-Holds, bytes_from-Holds, check_loop-sum, Holds-prefix,
}

-- A packet: the text between its marks and the two digits of its sum.
abbrev pub frame : Bytes → Bytes
frame s = b'$' ∷ (s ++ (b'#' ∷ hex2 (u8 (sum s))))

-- The buffer after a packet with a text of n bytes and this sum is closed.
abbrev pub closed : Cells → (n check : ℕ) → Cells
closed c n check =
    store_at (store_text (store_at (store_at c 0 b'$') (1 + n) b'#') (1 + n + 1) (hex2 check))
      (1 + n + 3) 0

-- The cells of a closed buffer before the digits.
closed-before :
    (c : Cells) (n check j : ℕ)
    → j < 1 + n + 1
    → closed c n check j ≡ store_at (store_at c 0 b'$') (1 + n) b'#' j
closed-before c n check j h =
    let last : (j == 1 + n + 3) ≡ false = ground arith in
    rw last
      (store_text-before (store_at (store_at c 0 b'$') (1 + n) b'#') (1 + n + 1) (hex2 check) j h)

closed-digits : (c : Cells) (n check : ℕ) → Holds (closed c n check) (1 + n + 1) (hex2 check)
unfolding digits
closed-digits c n check =
    Holds-agree
      (Holds-prefix (hex2 check) (0 ∷ [])
        (store_text-Holds (store_at (store_at c 0 b'$') (1 + n) b'#') (1 + n + 1) (hex2 check)))
      λ j p q. ground arith

closed-Holds :
    (c : Cells) (s : Bytes) (check : ℕ)
    → Holds c 1 (s ++ (0 ∷ []))
    → Holds (closed c (size s) check) 0 (b'$' ∷ (s ++ (b'#' ∷ hex2 check)))
closed-Holds c s check h =
    let before = closed-before c (size s) check in
    let text : Holds (closed c (size s) check) 1 s =
      Holds-agree (Holds-prefix s (0 ∷ []) h) λ j p q. before j (omega arith) ∙ ground arith in
    byte (before 0 (omega arith) ∙ ground arith) (
      Holds-append (b'#' ∷ hex2 check) text
        (byte (before (1 + size s) (omega arith) ∙ ground arith) (closed-digits c (size s) check)))

-- The state after a text is sent.
abbrev pub replied : Bytes → Gdb → Gdb
replied s gdb = record gdb {
  packet = closed (store_text gdb.packet 1 s) (size s) (u8 (sum s));
  len = size (frame s);
  events = written (frame s) ∷ gdb.events;
}

module _ (s : Bytes) (t : IsText s) (room : size s + 5 ≤ max_packet_size) where
  -- A buffer that holds a text is sent as its packet.
  pub gdb_send_buffer-frame :
      (gdb : Gdb)
      → Holds gdb.packet 1 (s ++ (0 ∷ []))
      → gdb_send_buffer gdb
        ≡ some (
          tt,
          record gdb {
            packet = closed gdb.packet (size s) (u8 (sum s));
            len = size (frame s);
            events = written (frame s) ∷ gdb.events;
          },
        )
  unfolding gdb_send_buffer gdb_transmit_packet modify ◌>>=◌ ◌>>◌ digits
  gdb_send_buffer-frame gdb h =
      let c = store_at gdb.packet 0 b'$' in
      let summed : check_loop (max_packet_size - 1) c 1 0 ≡ some (u8 (sum s), 1 + size s) =
        check_loop-sum 4095 1 s t (Holds-agree h λ j p q. ground arith) (omega arith) in
      after_step (set_byte 0 b'$') _ (set_byte-eq 0 b'$' gdb (omega arith))
      ∙ after (asks λ gdb. check_loop (max_packet_size - 1) gdb.packet 1 0) _ (asks-eq _ summed)
      ∙ after_step (set_byte (1 + size s) b'#') _ (set_byte-eq _ _ _ (omega arith))
      ∙ after_step (put_text (1 + size s + 1) (hex2 (u8 (sum s)))) _
          (put_text-eq _ _ _ (omega arith))
      ∙ after_step (set_byte (1 + size s + 3) 0) _ (set_byte-eq _ _ _ (omega arith))
      ∙ ap (λ n. sent gdb n (bytes_from (closed gdb.packet (size s) (u8 (sum s))) 0 n)) frame_size
      ∙ ap (sent gdb (size (frame s))) (bytes_from-Holds (closed-Holds gdb.packet s (u8 (sum s)) h))
    where
      frame_size : 1 + size s + 3 ≡ size (frame s)
      frame_size = omega (arith, size-append s (b'#' ∷ hex2 (u8 (sum s))))

      sent : Gdb → ℕ → Bytes → Option (Unit {0} × Gdb)
      sent gdb n w = some (
        tt,
        record gdb {
          packet = closed gdb.packet (size s) (u8 (sum s));
          len = n;
          events = written w ∷ gdb.events;
        },
      )

  -- A text is sent as a packet, whatever the buffer held.
  pub gdb_send_data-frame : (gdb : Gdb) → gdb_send_data s gdb ≡ some (tt, replied s gdb)
  unfolding gdb_send_data
  gdb_send_data-frame gdb =
      after_step (put_text buffer s) _ (put_text-eq buffer s gdb (omega arith))
      ∙ gdb_send_buffer-frame (record gdb { packet = store_text gdb.packet 1 s })
          (store_text-Holds gdb.packet 1 s)

-- A literal of at most 40 bytes.
pub send_literal :
    (s : Bytes) (gdb : Gdb)
    → is_text s ≡ true
    → size s ≤ 40
    → gdb_send_data s gdb ≡ some (tt, replied s gdb)
send_literal s gdb t short = gdb_send_data-frame s (is_text-IsText s t) (omega arith) gdb
