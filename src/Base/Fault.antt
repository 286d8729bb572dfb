-- ===== src/Base/Fault.antt =====
-- Computations that may run into undefined behaviour: `none` is an access outside an allocated
-- object.
use mathlib.Core.Path.{◌≡◌, subst}
use mathlib.Core.Option.{Option, none, some, some-injective}

infixl 5 ◌>>=◌
abbrev pub ◌>>=◌ {ℓ κ} : {A : Type ℓ} {B : Type κ} → Option A → (A → Option B) → Option B
none >>= f = none
some a >>= f = f a

-- A run ends with a result that satisfies P, or hits undefined behaviour, where F allows it.
pub data After {ℓ} {A : Type ℓ} (F : Type 0) (P : A → Type 0) : Option A → Type ℓ where
  fault : F → After F P none
  done : {a : A} → P a → After F P (some a)

-- The two choices of F.
abbrev pub MayFault : Type 0
MayFault = Unit {0}

abbrev pub Never : Type 0
Never = ⊥

module _ {ℓ} {A : Type ℓ} {F : Type 0} {P : A → Type 0} where
  pub bind {κ} :
      {B : Type κ} {Q : B → Type 0} {o : Option A} {f : A → Option B}
      → After F P o
      → ((a : A) → P a → After F Q (f a))
      → After F Q (o >>= f)
  bind (fault u) k = fault u
  bind (done p) k = k _ p

  pub mono : {Q : A → Type 0} {o : Option A} → After F P o → ((a : A) → P a → Q a) → After F Q o
  mono (fault u) weaken = fault u
  mono (done p) weaken = done (weaken _ p)

  -- What a run that returned tells.
  pub returned : {o : Option A} {a : A} → After F P o → o ≡ some a → P a
  returned (fault u) e = cc
  returned (done p) e = subst P (some-injective _ _ e) p
