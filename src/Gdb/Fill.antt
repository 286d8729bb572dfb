-- ===== src/Gdb/Fill.antt =====
-- gdb_protocol.c: what the request X does to the memory.
use projet_prog.Base.{
  ℕ, zero, suc, ◌+◌, ◌/◌, ◌^◌, ◌<◌, ◌≤◌, ◌≡◌, ◌≢◌, ◌⊎◌, inl, inr, ◌∙◌, ap, refl, arith, u8, bit_xor,
  ◌==◌, ltb, Option, some, none, true, [], ◌∷◌, ◌++◌, if◌then◌else◌, le→not_ltb, lt→ltb, Machine,
}
use projet_prog.Base.State.{pure, asks, after, after_step, asks-eq, modify-eq}
use projet_prog.Memory.{Memory, memory_write_byte, memory_get_size, set_cell}
use projet_prog.Text.{Bytes, codes, size, digits, digit, digit_char, hex_value, after_index}
use projet_prog.Gdb.State.{Gdb, written}
use projet_prog.Gdb.Buffer.{Holds, byte, nothing, is_text}
use projet_prog.Gdb.Packet.{frame, send_literal}
use projet_prog.Gdb.Scan.{behind, readable}
use projet_prog.Gdb.Pairs.{pair_text, scan_pair-digits}
use projet_prog.Gdb.Contents.{
  escaped, content_byte, put_memory, fill_loop, fill_at, write_memory_binary,
}

-- A content stands for bytes: a byte for itself, or 0x7d and the byte with bit 5 inverted.
pub data Encodes : Bytes → Bytes → Type 0 where
  finished : Encodes [] []
  plain : {x : ℕ} {v s : Bytes} → x < 2 ^ 8 → x ≢ 0x7d → Encodes v s → Encodes (x ∷ v) (x ∷ s)
  escape :
      {x c : ℕ} {v s : Bytes}
      → x < 2 ^ 8
      → bit_xor c 0x20 ≡ x
      → Encodes v s
      → Encodes (x ∷ v) (0x7d ∷ c ∷ s)

abbrev put_byte : Memory → ℕ → ℕ → Memory
put_byte mem a x = record mem { value = λ j. if j == a then u8 x else mem.value j }

-- A memory with bytes from an address on.
filled : Memory → ℕ → Bytes → Memory
filled mem a [] = mem
filled mem a (x ∷ v) = filled (put_byte mem a x) (a + 1) v

abbrev with_memory : Gdb → Memory → Gdb
with_memory gdb mem = record gdb { arm = record gdb.arm { mem = mem } }

filled-size : (mem : Memory) (a : ℕ) (v : Bytes) → (filled mem a v).taille ≡ mem.taille
unfolding filled
filled-size mem a [] = refl
filled-size mem a (x ∷ v) = filled-size (put_byte mem a x) (a + 1) v

filled-before :
    (mem : Memory) (a : ℕ) (v : Bytes) (j : ℕ) → j < a → (filled mem a v).value j ≡ mem.value j
unfolding filled
filled-before mem a [] j h = refl
filled-before mem a (x ∷ v) j h =
    filled-before (put_byte mem a x) (a + 1) v j (omega arith) ∙ ground arith

filled-behind :
    (mem : Memory) (a : ℕ) (v : Bytes) (j : ℕ)
    → a + size v ≤ j
    → (filled mem a v).value j ≡ mem.value j
unfolding filled
filled-behind mem a [] j h = refl
filled-behind mem a (x ∷ v) j h =
    filled-behind (put_byte mem a x) (a + 1) v j (omega arith) ∙ ground arith

filled-Holds : (mem : Memory) (a : ℕ) {v s : Bytes} → Encodes v s → Holds (filled mem a v).value a v
unfolding filled
filled-Holds mem a finished = nothing
filled-Holds mem a (plain {x} {v} small h e) =
    byte (filled-before (put_byte mem a x) (a + 1) v a (omega arith) ∙ ground arith)
      (filled-Holds (put_byte mem a x) (a + 1) e)
filled-Holds mem a (escape {x} {c} {v} small h e) =
    byte (filled-before (put_byte mem a x) (a + 1) v a (omega arith) ∙ ground arith)
      (filled-Holds (put_byte mem a x) (a + 1) e)

memory_write_byte-eq :
    (mem : Memory) (a x : ℕ)
    → a < mem.taille
    → memory_write_byte mem a x ≡ some (0, filled mem a (x ∷ []))
unfolding memory_write_byte memory_get_size set_cell filled
memory_write_byte-eq mem a x h =
    rw (le→not_ltb mem.taille a (omega arith), lt→ltb a mem.taille h) refl

module _ ⦃m : Machine⦄ where
  -- One round of the loop.
  fill_round :
      (n a x : ℕ) (s rest : Bytes) (gdb : Gdb)
      → content_byte s ≡ some (x, rest)
      → a + 1 < 2 ^ 32
      → a < gdb.arm.mem.taille
      → fill_loop (suc n) a s true gdb
        ≡ fill_loop n (a + 1) rest true (with_memory gdb (filled gdb.arm.mem a (x ∷ [])))
  unfolding fill_loop
  fill_round n a x s rest gdb e small inside =
      after (asks λ gdb. content_byte s) _ (asks-eq _ e)
      ∙ after (asks λ gdb. memory_write_byte gdb.arm.mem a x) _
          (asks-eq _ (memory_write_byte-eq gdb.arm.mem a x inside))
      ∙ after_step (put_memory (filled gdb.arm.mem a (x ∷ []))) _ (modify-eq _ gdb)
      ∙ ap (λ b. fill_loop n b rest true (with_memory gdb (filled gdb.arm.mem a (x ∷ []))))
          (omega arith)

  fill_loop-filled :
      {v s : Bytes} (a : ℕ) (rest : Bytes) (gdb : Gdb)
      → Encodes v s
      → a + size v ≤ gdb.arm.mem.taille
      → gdb.arm.mem.taille < 2 ^ 32
      → fill_loop (size v) a (s ++ rest) true gdb
        ≡ some (true, with_memory gdb (filled gdb.arm.mem a v))
  unfolding filled content_byte escaped fill_loop pure
  fill_loop-filled a rest gdb finished p q = refl
  fill_loop-filled a rest gdb (plain {x} {v} {s} small h e) p q =
      let mem = filled gdb.arm.mem a (x ∷ []) in
      fill_round (size v) a x (x ∷ (s ++ rest)) (s ++ rest) gdb (ground arith) (omega arith)
        (omega arith)
      ∙ fill_loop-filled (a + 1) rest (with_memory gdb mem) e (omega arith) q
  fill_loop-filled a rest gdb (escape {x} {c} {v} {s} small h e) p q =
      let mem = filled gdb.arm.mem a (x ∷ []) in
      fill_round (size v) a x (0x7d ∷ c ∷ (s ++ rest)) (s ++ rest) gdb
        (ap (λ y. some (y, s ++ rest)) h) (omega arith) (omega arith)
      ∙ fill_loop-filled (a + 1) rest (with_memory gdb mem) e (omega arith) q

after_index-digits : (v k : ℕ) (t : Bytes) → after_index b':' (digits v k ++ t) ≡ after_index b':' t
unfolding after_index digits digit digit_char
after_index-digits v zero t = refl
after_index-digits v (suc k) t = ground (arith, after_index-digits v k t)

behind-content :
    (address n j k : ℕ) (s : Bytes)
    → behind b':' (digits address j ++ (b',' ∷ (digits n k ++ (b':' ∷ s)))) ≡ readable s
unfolding behind after_index
behind-content address n j k s =
    ap found (after_index-digits address j (b',' ∷ (digits n k ++ (b':' ∷ s))))
    ∙ ap found (after_index-digits n k (b':' ∷ s))
  where
    found : Option Bytes → Option Bytes
    found o = elim o [ none ↦ none | some rest ↦ readable rest ]

readable-content :
    (s : Bytes) (x : ℕ) (rest : Bytes) → readable (s ++ (x ∷ rest)) ≡ some (s ++ (x ∷ rest))
unfolding readable
readable-content [] x rest = refl
readable-content (c ∷ s) x rest = refl

-- The text of the request: the address and the size in two digits or more, and the content.
abbrev pub fill_text : (j k address n : ℕ) → Bytes → Bytes → Bytes
fill_text j k address n s rest = pair_text j k address n (b':' ∷ (s ++ (0 ∷ rest)))

module _ ⦃m : Machine⦄ (j k address : ℕ) (v s rest : Bytes) (e : Encodes v s)
    (word : address / 16 ^ suc j < 16) (length : size v / 16 ^ suc k < 16) where
  -- The request X with the escaped content of some bytes, at addresses inside a memory of less
  -- than 4 GiB and with the numbers in two digits or more, is answered by OK; the cells of those addresses then hold
  -- the bytes, the other cells what they held, and nothing else of the processor has changed, nor
  -- have the table of breakpoints and the exception of the target.
  pub write_memory_binary-filled :
      (gdb : Gdb)
      → address < gdb.arm.mem.taille
      → address + size v ≤ gdb.arm.mem.taille
      → gdb.arm.mem.taille < 2 ^ 32
      → (gdb' : Gdb) × (write_memory_binary (fill_text j k address (size v) s rest) gdb
          ≡ some (tt, gdb'))
        × (gdb'.events ≡ written (frame (codes "OK")) ∷ gdb.events)
        × (gdb'.arm ≡ record gdb.arm { mem = gdb'.arm.mem })
        × (gdb'.arm.mem.taille ≡ gdb.arm.mem.taille)
        × Holds gdb'.arm.mem.value address v
        × ((i : ℕ)
            → (i < address) ⊎ (address + size v ≤ i)
            → gdb'.arm.mem.value i ≡ gdb.arm.mem.value i)
        × (gdb'.table ≡ gdb.table)
        × (gdb'.target_exception ≡ gdb.target_exception)
  unfolding write_memory_binary fill_at hex_value is_text memory_get_size
  write_memory_binary-filled gdb inside room small =
      let text = fill_text j k address (size v) s rest in
      let filled_mem = filled gdb.arm.mem address v in
      (
        _,
        ap (λ p. fill_at p text gdb)
              (scan_pair-digits j k address (size v) b':' (s ++ (0 ∷ rest)) (omega arith) word
                (omega arith) length refl)
            ∙ after (asks λ gdb. behind b':' text) _
                (asks-eq _ (behind-content address (size v) _ _ _ ∙ readable-content s 0 rest))
            ∙ after (asks λ gdb. some (ltb address (memory_get_size gdb.arm.mem))) _
                (asks-eq _ (ap some (lt→ltb address gdb.arm.mem.taille inside)))
            ∙ after (fill_loop (size v) address (s ++ (0 ∷ rest)) true) _
                (fill_loop-filled address (0 ∷ rest) gdb e room small)
            ∙ send_literal (codes "OK") (with_memory gdb filled_mem) refl (omega arith),
        refl,
        refl,
        filled-size gdb.arm.mem address v,
        filled-Holds gdb.arm.mem address e,
        λ i h. elim h [
          | inl before ↦ filled-before gdb.arm.mem address v i before
          | inr beyond ↦ filled-behind gdb.arm.mem address v i beyond
        ],
        refl,
        refl,
      )
