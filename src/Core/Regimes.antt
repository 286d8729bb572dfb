-- ===== src/Core/Regimes.antt =====
-- The regimes that the instructions are proved to stay in.
use projet_prog.Base.{◌≡◌, refl, Option, some}
use projet_prog.Base.Fault.{After, Never, done, fault}
use projet_prog.Core.{Core, M}
use projet_prog.Core.Valid.{IsValid, Regime, Yields}

-- A valid state that differs from `q` in the registers alone.
pub record OnlyRegisters (q p : Core) : Type 0 where
  pub valid : IsValid p
  pub same_mem : p.mem ≡ q.mem
  pub same_cycles : p.cycle_count ≡ q.cycle_count
  pub same_stdout : p.stdout ≡ q.stdout

pub OnlyRegisters-Regime : (q : Core) → Regime (OnlyRegisters q)
OnlyRegisters-Regime q = record {
  valid = λ p i. i.valid;
  keeps = λ p r i words. record {
    valid = record { words = words; bytes = i.valid.bytes };
    same_mem = i.same_mem;
    same_cycles = i.same_cycles;
    same_stdout = i.same_stdout;
  };
}

-- A valid state with the memory size and the output of `q`.
pub record SameSize (q p : Core) : Type 0 where
  pub valid : IsValid p
  pub same_size : p.mem.taille ≡ q.mem.taille
  pub same_stdout : p.stdout ≡ q.stdout

pub SameSize-Regime : (q : Core) → Regime (SameSize q)
SameSize-Regime q = record {
  valid = λ p i. i.valid;
  keeps = λ p r i words. record {
    valid = record { words = words; bytes = i.valid.bytes };
    same_size = i.same_size;
    same_stdout = i.same_stdout;
  };
}

pub OnlyRegisters-refl : (p : Core) → IsValid p → OnlyRegisters p p
OnlyRegisters-refl p v = record {
  valid = v;
  same_mem = refl;
  same_cycles = refl;
  same_stdout = refl;
}

pub SameSize-refl : (p : Core) → IsValid p → SameSize p p
SameSize-refl p v = record { valid = v; same_size = refl; same_stdout = refl }

-- The run returns, with a value in P and a state in Inv.
abbrev pub Returns : {A : Type 0} → (A → Type 0) → (Core → Type 0) → Option (A × Core) → Type 0
Returns {A} P Inv o = (a : A) × (p : Core) × (o ≡ some (a, p)) × P a × Inv p

module _ {A : Type 0} {P : A → Type 0} {Inv : Core → Type 0} where
  never_faults :
      {o : Option (A × Core)} → After Never (λ (r : A × Core). P r.0 × Inv r.1) o → Returns P Inv o
  never_faults (fault u) = absurd u
  never_faults (done {a = (a, p)} h) = (a, p, refl, h.0, h.1)

  pub Yields-Returns : {m : M A} {p : Core} → Yields Never Inv P m → Inv p → Returns P Inv (m p)
  Yields-Returns {p} y i = never_faults (y.run p i)
