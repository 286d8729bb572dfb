-- ===== src/Memory/Word.antt =====
-- memory_write_word and memory_read_word: what an access inside the array does.
use projet_prog.Base.{
  ℕ, ◌+◌, ◌*◌, ◌^◌, ◌<◌, ◌≤◌, ◌≡◌, ◌∙◌, arith, u8, add32, ◌>>>◌, some, ltb, ◌==◌, if◌then◌else◌,
  Bool-cases, inl, inr, le→not_ltb, Bool, false, not,
}
use projet_prog.Util.{reverse_4}
use projet_prog.Util.Arith.{reverse_4-eq, reverse_4-reverse_4}
use projet_prog.Memory.{Memory, set_cell, memory_read_word, memory_write_word}
use projet_prog.Memory.Cells.{IsBytes, poke, gather_word, add32-in}

-- The array after a store of the word `v`, little-endian or big-endian.
abbrev pub word_le : Memory → ℕ → ℕ → Memory
word_le mem a v =
    poke (poke (poke (poke mem a v) (a + 1) (v >>> 8)) (a + 2) (v >>> 16)) (a + 3) (v >>> 24)

abbrev pub word_be : Memory → ℕ → ℕ → Memory
word_be mem a v =
    poke (poke (poke (poke mem a (v >>> 24)) (a + 1) (v >>> 16)) (a + 2) (v >>> 8)) (a + 3) v

abbrev pub word_stored : Memory → ℕ → ℕ → ℕ → Memory
word_stored mem a v be = if be == 0 then word_le mem a v else word_be mem a v

-- Two accesses agree in endianness.
abbrev pub same_order : ℕ → ℕ → Bool
same_order be be' = if be == 0 then be' == 0 else not (be' == 0)

module _ (mem : Memory) (address : ℕ) (small : mem.taille ≤ 2 ^ 32) (bytes : IsBytes mem)
    (inside : address + 3 < mem.taille) where
  guard_passes : ltb mem.taille (add32 address 3) ≡ false
  guard_passes = le→not_ltb _ _ (omega arith)

  pub memory_write_word-in :
      (v be : ℕ) → memory_write_word mem address v be ≡ some (0, word_stored mem address v be)
  unfolding memory_write_word set_cell
  memory_write_word-in v be =
      let e1 = add32-in mem address small bytes 1 (omega arith) in
      let e2 = add32-in mem address small bytes 2 (omega arith) in
      let e3 = add32-in mem address small bytes 3 inside in
      rw (guard_passes, e1, e2, e3) (ground arith)

  -- A word read is the four bytes in the order that `be` names, whatever the variable held.
  pub memory_read_word-in :
      (old be : ℕ)
      → memory_read_word mem address old be
        ≡ some (
          0,
          (let w =
                mem.value address * 2 ^ 24
                + mem.value (address + 1) * 2 ^ 16
                + mem.value (address + 2) * 2 ^ 8
                + mem.value (address + 3) in
              if be == 0 then reverse_4 w else w),
        )
  unfolding memory_read_word
  memory_read_word-in old be = rw (guard_passes, gather_word mem address small bytes old inside)

-- The bytes of a stored word.
abbrev AreBytes : Memory → (a b0 b1 b2 b3 : ℕ) → Type 0
AreBytes mem a b0 b1 b2 b3 =
    (mem.value a ≡ b0)
    × (mem.value (a + 1) ≡ b1)
    × (mem.value (a + 2) ≡ b2)
    × (mem.value (a + 3) ≡ b3)

bytes-word_le :
    (mem : Memory) (a v : ℕ)
    → AreBytes (word_le mem a v) a (u8 v) (u8 (v >>> 8)) (u8 (v >>> 16)) (u8 (v >>> 24))
bytes-word_le mem a v = (ground arith, ground arith, ground arith, ground arith)

bytes-word_be :
    (mem : Memory) (a v : ℕ)
    → AreBytes (word_be mem a v) a (u8 (v >>> 24)) (u8 (v >>> 16)) (u8 (v >>> 8)) (u8 v)
bytes-word_be mem a v = (ground arith, ground arith, ground arith, ground arith)

sum_of_bytes :
    (v : ℕ)
    → v < 2 ^ 32
    → u8 (v >>> 24) * 2 ^ 24 + u8 (v >>> 16) * 2 ^ 16 + u8 (v >>> 8) * 2 ^ 8 + u8 v ≡ v
sum_of_bytes v p = omega arith

module _ (mem : Memory) (address : ℕ) (small : mem.taille ≤ 2 ^ 32) (bytes : IsBytes mem)
    (inside : address + 3 < mem.taille) (v : ℕ) (word : v < 2 ^ 32) where
  IsBytes-word_le : IsBytes (word_le mem address v)
  IsBytes-word_le i p = ground (arith, bytes i p)

  IsBytes-word_be : IsBytes (word_be mem address v)
  IsBytes-word_be i p = ground (arith, bytes i p)

  read-word_le :
      (old be : ℕ)
      → memory_read_word (word_le mem address v) address old be
        ≡ some (0, if be == 0 then v else reverse_4 v)
  read-word_le old be =
      let (e0, e1, e2, e3) = bytes-word_le mem address v in
      memory_read_word-in (word_le mem address v) address small IsBytes-word_le inside old be
      ∙ rw (e0, e1, e2, e3, ← reverse_4-eq v, reverse_4-reverse_4 v word)

  read-word_be :
      (old be : ℕ)
      → memory_read_word (word_be mem address v) address old be
        ≡ some (0, if not (be == 0) then v else reverse_4 v)
  read-word_be old be =
      let (e0, e1, e2, e3) = bytes-word_be mem address v in
      memory_read_word-in (word_be mem address v) address small IsBytes-word_be inside old be
      ∙ rw (e0, e1, e2, e3, sum_of_bytes v word) (ground arith)

-- A word that is read back after a store is the word that was stored, or its byte reversal if the
-- two accesses differ in endianness.
-- The address range lies inside an array of bytes that the addresses can reach, and v is a word.
pub memory_read_word-write_word :
    (mem : Memory) (address v old be be' : ℕ)
    → IsBytes mem
    → mem.taille ≤ 2 ^ 32
    → address + 3 < mem.taille
    → v < 2 ^ 32
    → (mem' : Memory) × (memory_write_word mem address v be ≡ some (0, mem'))
      × (memory_read_word mem' address old be'
          ≡ some (0, if same_order be be' then v else reverse_4 v))
memory_read_word-write_word mem address v old be be' bytes small inside word = (
  word_stored mem address v be,
  memory_write_word-in mem address small bytes inside v be,
  elim (Bool-cases (be == 0)) [
    | inl little ↦ rw little (read-word_le mem address small bytes inside v word old be')
    | inr big ↦ rw big (read-word_be mem address small bytes inside v word old be')
  ],
)
