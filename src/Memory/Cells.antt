-- ===== src/Memory/Cells.antt =====
-- Lemmas about the single cells and the read loop of memory.c.
use projet_prog.Base.{
  ℕ, suc, zero, ◌+◌, ◌*◌, ◌^◌, ◌<◌, ◌≤◌, ◌≡◌, ap, arith, bit_or, u8, u16, u32, add32, some, none,
  ◌==◌, if◌then◌else◌, lt→ltb, le→not_ltb, bit_or-eq-add, Bool-cases, inl, inr, ==_iff,
}
use projet_prog.Memory.{Memory, cell, set_cell, gather}

-- Every byte in range is a uint8_t.
abbrev pub IsBytes : Memory → Type 0
IsBytes mem = (i : ℕ) → i < mem.taille → mem.value i < 256

-- The array after `mem->value[i] = v`.
abbrev pub poke : Memory → ℕ → ℕ → Memory
poke mem i v = record mem { value = λ j. if j == i then u8 v else mem.value j }

module _ (mem : Memory) where
  pub cell-in : (i : ℕ) → i < mem.taille → cell mem i ≡ some (mem.value i)
  unfolding cell
  cell-in i h = rw (lt→ltb i mem.taille h)

  pub cell-out : (i : ℕ) → mem.taille ≤ i → cell mem i ≡ none
  unfolding cell
  cell-out i h = rw (le→not_ltb i mem.taille h)

  pub set_cell-in : (i v : ℕ) → i < mem.taille → set_cell mem i v ≡ some (poke mem i v)
  unfolding set_cell
  set_cell-in i v h = rw (lt→ltb i mem.taille h)

  pub set_cell-out : (i v : ℕ) → mem.taille ≤ i → set_cell mem i v ≡ none
  unfolding set_cell
  set_cell-out i v h = rw (le→not_ltb i mem.taille h)

pub IsBytes-poke : (mem : Memory) (i v : ℕ) → IsBytes mem → IsBytes (poke mem i v)
IsBytes-poke mem i v h j p = ground (arith, h j)

-- One round of the read loop on a word and on a half-word.
push_byte32 : (v b : ℕ) → b < 256 → bit_or (u32 (v * 256)) b ≡ u32 (v * 256) + b
push_byte32 v b p = bit_or-eq-add 8 (u32 (v * 256)) b (omega arith) p

push_byte16 : (v b : ℕ) → b < 256 → bit_or (u16 (v * 256)) b ≡ u16 (v * 256) + b
push_byte16 v b p = bit_or-eq-add 8 (u16 (v * 256)) b (omega arith) p

word_of_bytes :
    (old b0 b1 b2 b3 : ℕ)
    → b0 < 256
    → b1 < 256
    → b2 < 256
    → b3 < 256
    → bit_or
        (u32 (bit_or (u32 (bit_or (u32 (bit_or (u32 (old * 256)) b0 * 256)) b1 * 256)) b2 * 256))
        b3
      ≡ b0 * 2 ^ 24 + b1 * 2 ^ 16 + b2 * 2 ^ 8 + b3
word_of_bytes old b0 b1 b2 b3 p0 p1 p2 p3 =
    rw
      (
        push_byte32 old b0 p0,
        push_byte32 (u32 (old * 256) + b0) b1 p1,
        push_byte32 (u32 ((u32 (old * 256) + b0) * 256) + b1) b2 p2,
        push_byte32 (u32 ((u32 ((u32 (old * 256) + b0) * 256) + b1) * 256) + b2) b3 p3,
      )
      (omega arith)

half_of_bytes :
    (old b0 b1 : ℕ)
    → b0 < 256
    → b1 < 256
    → bit_or (u16 (bit_or (u16 (old * 256)) b0 * 256)) b1 ≡ b0 * 2 ^ 8 + b1
half_of_bytes old b0 b1 p0 p1 =
    rw (push_byte16 old b0 p0, push_byte16 (u16 (old * 256) + b0) b1 p1) (omega arith)

-- A read loop that meets a cell outside the array faults.
pub gather-out :
    (cast : ℕ → ℕ) (mem : Memory) (address k n i v : ℕ)
    → mem.taille ≤ add32 address k
    → i ≤ k
    → k < i + n
    → gather cast mem address n i v ≡ none
unfolding gather cell
gather-out cast mem address k zero i v out p q = absurd (omega arith)
gather-out cast mem address k (suc n) i v out p q = elim (Bool-cases (i == k)) [
  | inl here ↦ ground (arith, ap (add32 address) ((==_iff i k).0 here))
  | inr later ↦
      let rest =
        gather-out cast mem address k n (i + 1)
          (bit_or (cast (v * 256)) (mem.value (add32 address i))) out (ground arith)
          (omega arith) in
      ground (arith, rest)
]

module _ (mem : Memory) (address : ℕ) (small : mem.taille ≤ 2 ^ 32) (bytes : IsBytes mem) where
  pub add32-in : (i : ℕ) → address + i < mem.taille → add32 address i ≡ address + i
  add32-in i h = omega arith

  cell-at :
      (i : ℕ)
      → address + i < mem.taille
      → cell mem (add32 address i) ≡ some (mem.value (address + i))
  cell-at i h = rw (add32-in i h) (cell-in mem (address + i) h)

  cell-at_zero : address < mem.taille → cell mem (add32 address 0) ≡ some (mem.value address)
  cell-at_zero h =
      let e : add32 address 0 ≡ address = omega arith in rw e (cell-in mem address (omega arith))

  -- The loop reads the word most significant byte first, whatever `*value` held.
  pub gather_word :
      (old : ℕ)
      → address + 3 < mem.taille
      → gather u32 mem address 4 0 old
        ≡ some (
            mem.value address * 2 ^ 24
            + mem.value (address + 1) * 2 ^ 16
            + mem.value (address + 2) * 2 ^ 8
            + mem.value (address + 3))
  unfolding gather
  gather_word old h =
      rw (cell-at_zero (omega arith), cell-at 1 (omega arith), cell-at 2 (omega arith), cell-at 3 h)
        (ap some (
          word_of_bytes old (mem.value address) (mem.value (address + 1)) (mem.value (address + 2))
            (mem.value (address + 3)) (bytes address (omega arith))
            (bytes (address + 1) (omega arith)) (bytes (address + 2) (omega arith))
            (bytes (address + 3) h)))

  pub gather_half :
      (old : ℕ)
      → address + 1 < mem.taille
      → gather u16 mem address 2 0 old ≡ some (mem.value address * 2 ^ 8 + mem.value (address + 1))
  unfolding gather
  gather_half old h =
      rw (cell-at_zero (omega arith), cell-at 1 h)
        (ap some (
          half_of_bytes old (mem.value address) (mem.value (address + 1))
            (bytes address (omega arith)) (bytes (address + 1) h)))
