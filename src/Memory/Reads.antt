-- ===== src/Memory/Reads.antt =====
-- What every read of memory.c returns, whatever its address: a value of the width read, and the
-- code 0 or -1.
use projet_prog.Base.{
  ℕ, zero, suc, ◌+◌, ◌*◌, ◌^◌, ◌<◌, ◌≤◌, ◌≡◌, ◌⊎◌, inl, inr, refl, arith, bit_or, u16, u32, add32,
  minus_one, ltb, Bool-cases, bit_or-lt,
}
use projet_prog.Base.Fault
use projet_prog.Base.Fault.{After, MayFault, fault, done}
use projet_prog.Util.Arith.{reverse_2-eq, reverse_4-eq}
use projet_prog.Memory.{Memory, cell, gather, memory_read_byte, memory_read_half, memory_read_word}
use projet_prog.Memory.Cells.{IsBytes}

-- 0 or -1
abbrev pub IsCode : ℕ → Type 0
IsCode c = (c ≡ 0) ⊎ (c ≡ minus_one)

-- A code and a value of w bits.
abbrev pub IsRead : ℕ → ℕ × ℕ → Type 0
IsRead w r = IsCode r.0 × (r.1 < 2 ^ w)

module _ (mem : Memory) (bytes : IsBytes mem) (address : ℕ) where
  cell-byte : (i : ℕ) → After MayFault (λ b. b < 256) (cell mem i)
  unfolding cell
  cell-byte i = elim (Bool-cases (ltb i mem.taille)) [
    | inl inside ↦ rw inside (done (bytes i (ground arith)))
    | inr outside ↦ rw outside (fault tt)
  ]

  gather-lt :
      (w : ℕ) (cast : ℕ → ℕ) (n i value : ℕ)
      → 256 ≤ 2 ^ w
      → ((x : ℕ) → cast x < 2 ^ w)
      → value < 2 ^ w
      → After MayFault (λ v. v < 2 ^ w) (gather cast mem address n i value)
  unfolding gather
  gather-lt w cast zero i value wide fits small = done small
  gather-lt w cast (suc n) i value wide fits small = Fault.bind (cell-byte (add32 address i)) λ b p.
      gather-lt w cast n (i + 1) (bit_or (cast (value * 256)) b) wide fits
        (bit_or-lt w (cast (value * 256)) b (fits (value * 256)) (omega arith))

  pub memory_read_byte-IsRead :
      (old : ℕ) → old < 2 ^ 8 → After MayFault (IsRead 8) (memory_read_byte mem address old)
  unfolding memory_read_byte
  memory_read_byte-IsRead old small = elim (Bool-cases (ltb mem.taille address)) [
    | inl past ↦ rw past (done (inr refl, small))
    | inr passes ↦ rw passes (Fault.bind (cell-byte address) λ b p. done (inl refl, p))
  ]

  pub memory_read_half-IsRead :
      (old be : ℕ) → old < 2 ^ 16 → After MayFault (IsRead 16) (memory_read_half mem address old be)
  unfolding memory_read_half
  memory_read_half-IsRead old be small = elim (Bool-cases (ltb mem.taille (add32 address 1))) [
    | inl past ↦ rw past (done (inr refl, small))
    | inr passes ↦ rw passes (
        Fault.bind (gather-lt 16 u16 2 0 old (omega arith) (λ x. omega arith) small)
          λ v p. done (inl refl, ground (arith, reverse_2-eq v)))
  ]

  pub memory_read_word-IsRead :
      (old be : ℕ) → old < 2 ^ 32 → After MayFault (IsRead 32) (memory_read_word mem address old be)
  unfolding memory_read_word
  memory_read_word-IsRead old be small = elim (Bool-cases (ltb mem.taille (add32 address 3))) [
    | inl past ↦ rw past (done (inr refl, small))
    | inr passes ↦ rw passes (
        Fault.bind (gather-lt 32 u32 4 0 old (omega arith) (λ x. omega arith) small)
          λ v p. done (inl refl, ground (arith, reverse_4-eq v)))
  ]
