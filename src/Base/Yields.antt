-- ===== src/Base/Yields.antt =====
-- What a run keeps of its states: a postcondition family with a rule for each way to build a run.
use mathlib.Core.Path.{◌≡◌, refl}
use mathlib.Core.Bool.{Bool, true, false}
use mathlib.Core.Option.{Option, none, some}
use projet_prog.Base.Tests.{if◌then◌else◌}
use projet_prog.Base.Fault
use projet_prog.Base.Fault.{After, fault, done}
use projet_prog.Base.State.{Run, pure, ◌>>=◌, ◌>>◌, asks, modify}

-- From a state in Inv the run does not fault unless F, returns a value in P, and stays in Inv.
pub record Yields {S A : Type 0} (F : Type 0) (Inv : S → Type 0) (P : A → Type 0) (m : Run S A)
    : Type 0 where
  pub run : (p : S) → Inv p → After F (λ (r : A × S). P r.0 × Inv r.1) (m p)

module _ {S : Type 0} {F : Type 0} {Inv : S → Type 0} {A B : Type 0} {P : A → Type 0}
    {Q : B → Type 0} where
  resume :
      (f : A → Run S B) {o : Option (A × S)}
      → After F (λ (r : A × S). P r.0 × Inv r.1) o
      → ((a : A) → P a → Yields F Inv Q (f a))
      → After F (λ (r : B × S). Q r.0 × Inv r.1) (elim o [ none ↦ none | some (a, p') ↦ f a p' ])
  resume f (fault u) k = fault u
  resume f (done {a = (a, p')} h) k = (k a h.0).run p' h.1

  pub Yields-bind :
      {m : Run S A} {f : A → Run S B}
      → Yields F Inv P m
      → ((a : A) → P a → Yields F Inv Q (f a))
      → Yields F Inv Q (m >>= f)
  unfolding ◌>>=◌
  Yields-bind {f} y k = record { run = λ p i. resume f (y.run p i) k }

  pub Yields-then :
      {m : Run S A} {n : Run S B} → Yields F Inv P m → Yields F Inv Q n → Yields F Inv Q (m >> n)
  unfolding ◌>>◌
  Yields-then y z = Yields-bind y (λ a h. z)

module _ {S : Type 0} {F : Type 0} {Inv : S → Type 0} {A : Type 0} {P : A → Type 0} where
  pub Yields-pure : (a : A) → P a → Yields F Inv P (pure a)
  unfolding pure
  Yields-pure a h = record { run = λ p i. done (h, i) }

  pub Yields-if :
      {x y : Run S A} (b : Bool)
      → Yields F Inv P x
      → Yields F Inv P y
      → Yields F Inv P (if b then x else y)
  Yields-if true h k = h
  Yields-if false h k = k

  -- A branch may use the outcome of the test.
  pub Yields-case :
      {x y : Run S A} (b : Bool)
      → (b ≡ true → Yields F Inv P x)
      → (b ≡ false → Yields F Inv P y)
      → Yields F Inv P (if b then x else y)
  Yields-case true h k = h refl
  Yields-case false h k = k refl

  pub Yields-mono :
      {Q : A → Type 0} {m : Run S A} → Yields F Inv P m → ((a : A) → P a → Q a) → Yields F Inv Q m
  Yields-mono y weaken = record { run = λ p i. Fault.mono (y.run p i) λ r h. (weaken r.0 h.0, h.1) }

  -- A read of the state.
  pub Yields-asks :
      {f : S → Option A} → ((p : S) → Inv p → After F P (f p)) → Yields F Inv P (asks f)
  unfolding asks
  Yields-asks h = record { run = λ p i. answer p i (h p i) }
    where
      answer :
          (p : S)
          → Inv p
          → {o : Option A} → After F P o
          → After F (λ (r : A × S). P r.0 × Inv r.1) (elim o [ none ↦ none | some a ↦ some (a, p) ])
      answer p i (fault u) = fault u
      answer p i (done q) = done (q, i)

module _ {S : Type 0} {F : Type 0} {Inv : S → Type 0} where
  pub Yields-modify :
      (f : S → S) → ((p : S) → Inv p → Inv (f p)) → Yields F Inv (λ _. Unit {0}) (modify f)
  unfolding modify
  Yields-modify f h = record { run = λ p i. done (tt, h p i) }
