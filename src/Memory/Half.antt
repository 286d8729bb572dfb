-- ===== src/Memory/Half.antt =====
-- memory_write_half, memory_read_half and the byte accesses: what an access inside the array does.
use projet_prog.Base.{
  ℕ, ◌+◌, ◌*◌, ◌^◌, ◌<◌, ◌≤◌, ◌≡◌, ◌∙◌, arith, u8, add32, ◌>>>◌, some, ltb, ◌==◌, if◌then◌else◌,
  Bool-cases, inl, inr, le→not_ltb, not, false,
}
use projet_prog.Util.{reverse_2}
use projet_prog.Util.Arith.{reverse_2-eq, reverse_2-reverse_2}
use projet_prog.Memory.{Memory, set_cell, memory_read_half, memory_write_half}
use projet_prog.Memory.Cells.{IsBytes, poke, gather_half, add32-in}
use projet_prog.Memory.Word.{same_order}

-- The array after a store of the half-word `v`, little-endian or big-endian.
abbrev pub half_le : Memory → ℕ → ℕ → Memory
half_le mem a v = poke (poke mem a v) (a + 1) (v >>> 8)

abbrev pub half_be : Memory → ℕ → ℕ → Memory
half_be mem a v = poke (poke mem a (v >>> 8)) (a + 1) v

abbrev pub half_stored : Memory → ℕ → ℕ → ℕ → Memory
half_stored mem a v be = if be == 0 then half_le mem a v else half_be mem a v

module _ (mem : Memory) (address : ℕ) (small : mem.taille ≤ 2 ^ 32) (bytes : IsBytes mem)
    (inside : address + 1 < mem.taille) where
  guard_passes : ltb mem.taille (add32 address 1) ≡ false
  guard_passes = le→not_ltb _ _ (omega arith)

  pub memory_write_half-in :
      (v be : ℕ) → memory_write_half mem address v be ≡ some (0, half_stored mem address v be)
  unfolding memory_write_half set_cell
  memory_write_half-in v be =
      rw (guard_passes, add32-in mem address small bytes 1 inside) (ground arith)

  pub memory_read_half-in :
      (old be : ℕ)
      → memory_read_half mem address old be
        ≡ some (
          0,
          (let w = mem.value address * 2 ^ 8 + mem.value (address + 1) in
              if be == 0 then reverse_2 w else w),
        )
  unfolding memory_read_half
  memory_read_half-in old be = rw (guard_passes, gather_half mem address small bytes old inside)

sum_of_bytes : (v : ℕ) → v < 2 ^ 16 → u8 (v >>> 8) * 2 ^ 8 + u8 v ≡ v
sum_of_bytes v p = omega arith

module _ (mem : Memory) (address : ℕ) (small : mem.taille ≤ 2 ^ 32) (bytes : IsBytes mem)
    (inside : address + 1 < mem.taille) (v : ℕ) (word : v < 2 ^ 16) where
  IsBytes-half_le : IsBytes (half_le mem address v)
  IsBytes-half_le i p = ground (arith, bytes i p)

  IsBytes-half_be : IsBytes (half_be mem address v)
  IsBytes-half_be i p = ground (arith, bytes i p)

  read-half_le :
      (old be : ℕ)
      → memory_read_half (half_le mem address v) address old be
        ≡ some (0, if be == 0 then v else reverse_2 v)
  read-half_le old be =
      let e0 : (half_le mem address v).value address ≡ u8 v = ground arith in
      let e1 : (half_le mem address v).value (address + 1) ≡ u8 (v >>> 8) = ground arith in
      memory_read_half-in (half_le mem address v) address small IsBytes-half_le inside old be
      ∙ rw (e0, e1, ← reverse_2-eq v, reverse_2-reverse_2 v word)

  read-half_be :
      (old be : ℕ)
      → memory_read_half (half_be mem address v) address old be
        ≡ some (0, if not (be == 0) then v else reverse_2 v)
  read-half_be old be =
      let e0 : (half_be mem address v).value address ≡ u8 (v >>> 8) = ground arith in
      let e1 : (half_be mem address v).value (address + 1) ≡ u8 v = ground arith in
      memory_read_half-in (half_be mem address v) address small IsBytes-half_be inside old be
      ∙ rw (e0, e1, sum_of_bytes v word) (ground arith)

-- Inside an array of bytes that 32-bit addresses reach, a half-word that is read back after a
-- store is the half-word that was stored, or its byte reversal if the two accesses differ in
-- endianness.
pub memory_read_half-write_half :
    (mem : Memory) (address v old be be' : ℕ)
    → IsBytes mem
    → mem.taille ≤ 2 ^ 32
    → address + 1 < mem.taille
    → v < 2 ^ 16
    → (mem' : Memory) × (memory_write_half mem address v be ≡ some (0, mem'))
      × (memory_read_half mem' address old be'
          ≡ some (0, if same_order be be' then v else reverse_2 v))
memory_read_half-write_half mem address v old be be' bytes small inside word = (
  half_stored mem address v be,
  memory_write_half-in mem address small bytes inside v be,
  elim (Bool-cases (be == 0)) [
    | inl little ↦ rw little (read-half_le mem address small bytes inside v word old be')
    | inr big ↦ rw big (read-half_be mem address small bytes inside v word old be')
  ],
)
