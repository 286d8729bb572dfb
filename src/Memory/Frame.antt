-- ===== src/Memory/Frame.antt =====
-- What every write of memory.c leaves alone, whatever its address: the size, the bytes elsewhere,
-- and that each byte is below 256.
use projet_prog.Base.{
  ℕ, ◌≡◌, ◌≢◌, refl, arith, add32, ◌>>>◌, some, ltb, ◌==◌, Bool-cases, inl, inr, List, [], ◌∷◌,
}
use projet_prog.Base.Fault
use projet_prog.Base.Fault.{After, MayFault, fault, done, ◌>>=◌}
use projet_prog.Memory.{Memory, set_cell, memory_write_half, memory_write_byte, memory_write_word}
use projet_prog.Memory.Cells.{IsBytes, IsBytes-poke}

abbrev Outside : ℕ → List ℕ → Type 0
Outside j [] = Unit {0}
Outside j (a ∷ as') = (j ≢ a) × Outside j as'

-- `mem'` differs from `mem` at most at the addresses listed.
pub record SameOutside (cells : List ℕ) (mem mem' : Memory) : Type 0 where
  pub same_size : mem'.taille ≡ mem.taille
  pub same_byte : (j : ℕ) → Outside j cells → mem'.value j ≡ mem.value j
  pub bytes : IsBytes mem → IsBytes mem'

abbrev Covers : List ℕ → ℕ → Type 0
Covers cells a = (j : ℕ) → Outside j cells → j ≢ a

-- One more store to a listed cell.
store_more :
    (cells : List ℕ) (a v : ℕ) {mem m : Memory}
    → Covers cells a
    → SameOutside cells mem m
    → After MayFault (SameOutside cells mem) (set_cell m a v)
unfolding set_cell
store_more cells a v {mem} {m} covers s = elim (Bool-cases (ltb a m.taille)) [
  | inl inside ↦ rw inside (
      done (record {
        same_size = s.same_size;
        same_byte = λ j o. ground (arith, s.same_byte j o, covers j o);
        bytes = λ h. IsBytes-poke m a v (s.bytes h);
      }))
  | inr outside ↦ rw outside (fault tt)
]

SameOutside-refl : (cells : List ℕ) (mem : Memory) → SameOutside cells mem mem
SameOutside-refl cells mem = record { same_size = refl; same_byte = λ j o. refl; bytes = λ h. h }

-- The result of a write, its code aside.
abbrev pub Wrote : List ℕ → Memory → ℕ × Memory → Type 0
Wrote cells mem (code, mem') = SameOutside cells mem mem'

abbrev pub word_cells : ℕ → List ℕ
word_cells a = a ∷ add32 a 1 ∷ add32 a 2 ∷ add32 a 3 ∷ []

abbrev pub half_cells : ℕ → List ℕ
half_cells a = a ∷ add32 a 1 ∷ []

module _ (mem : Memory) (a v : ℕ) where
  pub memory_write_byte-SameOutside :
      After MayFault (Wrote (a ∷ []) mem) (memory_write_byte mem a v)
  unfolding memory_write_byte
  memory_write_byte-SameOutside = elim (Bool-cases (ltb mem.taille a)) [
    | inl past ↦ rw past (done (SameOutside-refl _ mem))
    | inr passes ↦
        rw passes
          (Fault.bind (store_more _ a v (λ j o. o.0) (SameOutside-refl (a ∷ []) mem)) λ m s. done s)
  ]

  -- A half-word write, where it does not fault, keeps the size of the memory, every byte but those
  -- at its two addresses, and that each cell is a byte, whatever the address, value and endianness.
  pub memory_write_half-SameOutside :
      (be : ℕ) → After MayFault (Wrote (half_cells a) mem) (memory_write_half mem a v be)
  unfolding memory_write_half
  memory_write_half-SameOutside be = elim (Bool-cases (ltb mem.taille (add32 a 1))) [
    | inl past ↦ rw past (done (SameOutside-refl _ mem))
    | inr passes ↦ rw passes (elim (Bool-cases (be == 0)) [
      | inl little ↦ rw little (both v (v >>> 8))
      | inr big ↦ rw big (both (v >>> 8) v)
    ])
  ]
    where
      both :
          (b0 b1 : ℕ)
          → After MayFault
              (Wrote (half_cells a) mem)
              (do m ← set_cell mem a b0; m ← set_cell m (add32 a 1) b1; some (0, m))
      both b0 b1 =
          Fault.bind (store_more _ a b0 (λ j o. o.0) (SameOutside-refl (half_cells a) mem))
            λ m s. Fault.bind (store_more _ (add32 a 1) b1 (λ j o. o.1.0) s) λ m s. done s

  -- A word write, where it does not fault, keeps the size of the memory, every byte but those at
  -- its four addresses, and that each cell is a byte, whatever the address, value and endianness.
  pub memory_write_word-SameOutside :
      (be : ℕ) → After MayFault (Wrote (word_cells a) mem) (memory_write_word mem a v be)
  unfolding memory_write_word
  memory_write_word-SameOutside be = elim (Bool-cases (ltb mem.taille (add32 a 3))) [
    | inl past ↦ rw past (done (SameOutside-refl _ mem))
    | inr passes ↦ rw passes (elim (Bool-cases (be == 0)) [
      | inl little ↦ rw little (all v (v >>> 8) (v >>> 16) (v >>> 24))
      | inr big ↦ rw big (all (v >>> 24) (v >>> 16) (v >>> 8) v)
    ])
  ]
    where
      all :
          (b0 b1 b2 b3 : ℕ)
          → After MayFault (Wrote (word_cells a) mem) (do
            m ← set_cell mem a b0
            m ← set_cell m (add32 a 1) b1
            m ← set_cell m (add32 a 2) b2
            m ← set_cell m (add32 a 3) b3
            some (0, m))
      all b0 b1 b2 b3 =
          Fault.bind (store_more _ a b0 (λ j o. o.0) (SameOutside-refl (word_cells a) mem)) λ m s.
            Fault.bind (store_more _ (add32 a 1) b1 (λ j o. o.1.0) s) λ m s.
              Fault.bind (store_more _ (add32 a 2) b2 (λ j o. o.1.1.0) s)
                λ m s. Fault.bind (store_more _ (add32 a 3) b3 (λ j o. o.1.1.1.0) s) λ m s. done s
