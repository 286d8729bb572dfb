-- ===== src/Gdb/Received.antt =====
-- gdb_protocol.c: what becomes of a packet from the debugger.
use mathlib.Core.List.{append_assoc}
use projet_prog.Base.{
  ℕ, suc, ◌+◌, ◌-◌, ◌<◌, ◌≤◌, ◌≡◌, ◌≢◌, ◌∙◌, ap, refl, arith, u8, ◌==◌, ◌^◌, some, true, false, [],
  ◌∷◌, ◌++◌, Machine,
}
use projet_prog.Base.State.{pure, ◌>>=◌, ◌>>◌, asks, modify, after, asks-eq}
use projet_prog.Text.{
  Bytes, codes, size, sum, drop, size-append, drop-append, hex2, digits, hex_value, scan_hex,
}
use projet_prog.Text.Hex.{scan_hex-hex2}
use projet_prog.Gdb.{Gdb, sum_loop, cut_at, max_packet_size, handle, respond, gdb_packet_analysis}
use projet_prog.Gdb.State.{written}
use projet_prog.Gdb.Send.{gdb_send_data, gdb_send_ack, gdb_require_retransmission}
use projet_prog.Gdb.Buffer.{IsText}
use projet_prog.Gdb.Packet.{gdb_send_data-frame}
use projet_prog.Gdb.Scan.{assigned}

-- A packet with the sum that it claims.
abbrev pub packet_of : Bytes → ℕ → Bytes
packet_of s given = b'$' ∷ (s ++ (b'#' ∷ hex2 given))

sum_loop-sum :
    (s t : Bytes) (check : ℕ)
    → check < 2 ^ 8
    → sum_loop (size s) (s ++ t) check ≡ some (u8 (check + sum s))
unfolding sum_loop
sum_loop-sum [] t check h = ap some (omega arith)
sum_loop-sum (c ∷ s) t check h =
    sum_loop-sum s t (u8 (check + c)) (omega arith) ∙ ap some (omega arith)

cut_at-cut : (s : Bytes) (x : ℕ) (t : Bytes) → cut_at (size s) (s ++ (x ∷ t)) ≡ s ++ (0 ∷ t)
unfolding cut_at
cut_at-cut [] x t = refl
cut_at-cut (c ∷ s) x t = ap (λ r. c ∷ r) (cut_at-cut s x t)

-- What the scanner's buffer holds behind the mark of the sum.
abbrev pub tail_of : ℕ → Bytes
tail_of given = hex2 given ++ (0 ∷ [])

module _ ⦃m : Machine⦄ (fuel : ℕ) (s : Bytes) (given : ℕ) (small : given < 2 ^ 8) where
  length : size (packet_of s given) - 4 ≡ size s
  unfolding digits
  length = omega (arith, size-append s (b'#' ∷ hex2 given))

  whole : packet_of s given ++ (0 ∷ []) ≡ b'$' ∷ (s ++ (b'#' ∷ tail_of given))
  unfolding digits
  whole = ap (λ r. b'$' ∷ r) (append_assoc s (b'#' ∷ hex2 given) (0 ∷ []))

  summed :
      sum_loop (size (packet_of s given) - 4) (drop 1 (packet_of s given ++ (0 ∷ []))) 0
      ≡ some (u8 (sum s))
  summed =
      rw (length, whole)
        (sum_loop-sum s (b'#' ∷ tail_of given) 0 (omega arith) ∙ ap some (omega arith))

  claimed :
      assigned
        (scan_hex (drop (1 + (size (packet_of s given) - 4) + 1) (packet_of s given ++ (0 ∷ []))))
      ≡ given
  unfolding assigned hex_value
  claimed =
      let behind_mark : 1 + size s + 1 ≡ suc (suc (size s)) = omega arith in
      rw
        (
          length,
          whole,
          behind_mark,
          drop-append s b'#' (tail_of given),
          scan_hex-hex2 given small 0 refl [],
        )
        refl

  request :
      drop 1 (cut_at (1 + (size (packet_of s given) - 4)) (packet_of s given ++ (0 ∷ [])))
      ≡ s ++ (0 ∷ tail_of given)
  unfolding cut_at
  request =
      let mark : 1 + size s ≡ suc (size s) = omega arith in
      rw (length, whole, mark) (cut_at-cut s b'#' (tail_of given))

  analysed :
      (gdb : Gdb)
      → gdb_packet_analysis fuel (packet_of s given) gdb
        ≡ respond fuel (u8 (sum s)) given (s ++ (0 ∷ tail_of given)) gdb
  unfolding gdb_packet_analysis
  analysed gdb =
      let text = packet_of s given ++ (0 ∷ []) in
      let n = size (packet_of s given) - 4 in
      after (asks λ gdb. sum_loop n (drop 1 text) 0) _ (asks-eq _ summed)
      ∙ ap (λ g. respond fuel (u8 (sum s)) g (drop 1 (cut_at (1 + n) text)) gdb) claimed
      ∙ ap (λ t. respond fuel (u8 (sum s)) given t gdb) request

  -- A packet whose sum is right, given in two digits, is acknowledged and then handled; for one
  -- whose sum is wrong a new transmission is asked for and nothing else changes.
  pub gdb_packet_analysis-checked :
      (gdb : Gdb)
      → (u8 (sum s) ≡ given
          → gdb_packet_analysis fuel (packet_of s given) gdb
            ≡ handle fuel
                (s ++ (0 ∷ tail_of given))
                (record gdb { events = written (codes "+") ∷ gdb.events }))
        × (u8 (sum s) ≢ given
            → gdb_packet_analysis fuel (packet_of s given) gdb
              ≡ some (true, record gdb { events = written (codes "-") ∷ gdb.events }))
  unfolding respond gdb_send_ack gdb_require_retransmission pure modify ◌>>=◌ ◌>>◌
  gdb_packet_analysis-checked gdb = (
    λ e.
        let same : (u8 (sum s) == given) ≡ true = ground arith in
        analysed gdb ∙ rw (respond, same) refl,
    λ e.
        let differs : (u8 (sum s) == given) ≡ false = ground arith in
        analysed gdb ∙ rw (respond, differs) refl,
  )

-- The packet that gdb_send_data writes for a text, without zero bytes and short enough for the
-- buffer, is acknowledged and handled as that text by gdb_packet_analysis, in any state of the
-- receiver.
pub gdb_packet_analysis-send_data :
    ⦃m : Machine⦄ (fuel : ℕ) (s : Bytes) (gdb receiver : Gdb)
    → IsText s
    → size s + 5 ≤ max_packet_size
    → (packet : Bytes) × (gdb' : Gdb) × (gdb_send_data s gdb ≡ some (tt, gdb'))
      × (gdb'.events ≡ written packet ∷ gdb.events)
      × (gdb_packet_analysis fuel packet receiver
          ≡ handle fuel
              (s ++ (0 ∷ tail_of (u8 (sum s))))
              (record receiver { events = written (codes "+") ∷ receiver.events }))
gdb_packet_analysis-send_data fuel s gdb receiver t room = (
  _,
  _,
  gdb_send_data-frame s t room gdb,
  refl,
  (gdb_packet_analysis-checked fuel s (u8 (sum s)) (omega arith) receiver).0 refl,
)
