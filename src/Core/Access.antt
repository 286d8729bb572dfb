-- ===== src/Core/Access.antt =====
-- The memory accessors of arm_core.c in the regime that keeps the size and the output, and the
-- reads in any regime.
use projet_prog.Base.{ℕ, ◌^◌, ◌<◌, ◌≡◌, ◌∙◌, arith, add32, List, Option}
use projet_prog.Base.Fault
use projet_prog.Base.Fault.{After, MayFault, fault, done}
use projet_prog.Memory.{Memory, memory_write_byte, memory_write_half, memory_write_word}
use projet_prog.Memory.Cells.{IsBytes}
use projet_prog.Memory.Frame.{
  Wrote, memory_write_byte-SameOutside, memory_write_half-SameOutside,
  memory_write_word-SameOutside,
}
use projet_prog.Memory.Reads.{
  IsRead, memory_read_byte-IsRead, memory_read_half-IsRead, memory_read_word-IsRead,
}
use projet_prog.Registers.{registers_read, registers_write}
use projet_prog.Core.{
  Core, pure, ◌>>=◌, ◌>>◌, asks, put_mem, arm_read_byte, arm_read_half, arm_read_word,
  arm_write_byte, arm_write_half, arm_write_word, arm_fetch, endianess,
}
use projet_prog.Core.Valid.{
  IsWords, Regime, Yields, Yields-asks, Yields-bind, Yields-then, Yields-pure, Yields-modify,
}
use projet_prog.Core.Rules.{Word, assign-IsWords}
use projet_prog.Core.Regimes.{SameSize, SameSize-Regime}

module _ {Inv : Core → Type 0} (R : Regime Inv) (address old : ℕ) where
  pub arm_read_byte-Yields :
      old < 2 ^ 8 → Yields MayFault Inv (IsRead 8) (arm_read_byte address old)
  unfolding arm_read_byte
  arm_read_byte-Yields small =
      Yields-asks λ p i. memory_read_byte-IsRead p.mem (R.valid p i).bytes address old small

  pub arm_read_half-Yields :
      old < 2 ^ 16 → Yields MayFault Inv (IsRead 16) (arm_read_half address old)
  unfolding arm_read_half
  arm_read_half-Yields small =
      Yields-asks
        λ p i. memory_read_half-IsRead p.mem (R.valid p i).bytes address old endianess small

  pub arm_read_word-Yields :
      old < 2 ^ 32 → Yields MayFault Inv (IsRead 32) (arm_read_word address old)
  unfolding arm_read_word
  arm_read_word-Yields small =
      Yields-asks
        λ p i. memory_read_word-IsRead p.mem (R.valid p i).bytes address old endianess small

module _ (q : Core) where
  -- A memory of bytes with the size of q's.
  abbrev Fits : ℕ × Memory → Type 0
  Fits r = IsBytes r.1 × (r.1.taille ≡ q.mem.taille)

  -- A write of the memory followed by the update of the state.
  write_through :
      (cells : List ℕ) (f : Memory → Option (ℕ × Memory))
      → ((mem : Memory) → After MayFault (Wrote cells mem) (f mem))
      → Yields MayFault
          (SameSize q)
          (λ _. Unit {0})
          (asks (λ p. f p.mem) >>= λ r. put_mem r.1 >> pure r.0)
  write_through cells f wrote =
      Yields-bind
        (Yields-asks {P = Fits}
          λ p i. Fault.mono (wrote p.mem) λ r s. (s.bytes i.valid.bytes, s.same_size ∙ i.same_size))
        λ r h.
          Yields-then
            (Yields-modify _ λ p i. record {
              valid = record { words = i.valid.words; bytes = h.0 };
              same_size = h.1;
              same_stdout = i.same_stdout;
            })
            (Yields-pure _ tt)

  pub arm_write_byte-Yields :
      (address value : ℕ)
      → Yields MayFault (SameSize q) (λ _. Unit {0}) (arm_write_byte address value)
  unfolding arm_write_byte
  arm_write_byte-Yields address value =
      write_through _ (λ mem. memory_write_byte mem address value)
        λ mem. memory_write_byte-SameOutside mem address value

  pub arm_write_half-Yields :
      (address value : ℕ)
      → Yields MayFault (SameSize q) (λ _. Unit {0}) (arm_write_half address value)
  unfolding arm_write_half
  arm_write_half-Yields address value =
      write_through _ (λ mem. memory_write_half mem address value endianess)
        λ mem. memory_write_half-SameOutside mem address value endianess

  pub arm_write_word-Yields :
      (address value : ℕ)
      → Yields MayFault (SameSize q) (λ _. Unit {0}) (arm_write_word address value)
  unfolding arm_write_word
  arm_write_word-Yields address value =
      write_through _ (λ mem. memory_write_word mem address value endianess)
        λ mem. memory_write_word-SameOutside mem address value endianess

  -- The fetch moves the pc and counts a cycle.
  pub arm_fetch-Yields :
      (old : ℕ) → Word old → Yields MayFault (SameSize q) (IsRead 32) (arm_fetch old)
  unfolding arm_fetch registers_read registers_write
  arm_fetch-Yields old small =
      let R = SameSize-Regime q in
      Yields-bind (Yields-asks {P = λ _. Unit {0}} λ p i. done tt) λ mode _.
        Yields-bind (Yields-asks {P = Word} λ p i. done ((R.valid p i).words 15 (omega arith)))
          λ address w.
            Yields-bind
              (Yields-asks {P = IsWords} λ p i.
                done (assign-IsWords p.reg 15 (add32 address 4) (R.valid p i).words (omega arith)))
              λ r words. Yields-then (Yields-modify _ λ p i. R.keeps p r i words) (
                Yields-bind
                  (Yields-asks λ p i.
                    memory_read_word-IsRead p.mem (R.valid p i).bytes address old endianess small)
                  λ result h.
                    Yields-then
                      (Yields-modify _ λ p i. record {
                        valid = record { words = i.valid.words; bytes = i.valid.bytes };
                        same_size = i.same_size;
                        same_stdout = i.same_stdout;
                      })
                      (Yields-pure result h))
