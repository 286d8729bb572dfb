-- ===== src/Base/State.antt =====
-- Runs over a state: a run returns a value and the new state, or `none` where it accesses memory
-- outside an allocated object or aborts.
use mathlib.Core.Path.{◌≡◌, ap, refl}
use mathlib.Core.Option.{Option, none, some}

abbrev pub Run : Type 0 → Type 0 → Type 0
Run S A = S → Option (A × S)

module _ {S : Type 0} where
  unfoldable pub pure : {A : Type 0} → A → Run S A
  pure a p = some (a, p)

  infixl 5 ◌>>=◌ ◌>>◌
  unfoldable pub ◌>>=◌ : {A B : Type 0} → Run S A → (A → Run S B) → Run S B
  ◌>>=◌ m f p = elim (m p) [ none ↦ none | some (a, p') ↦ f a p' ]

  unfoldable pub ◌>>◌ : {A B : Type 0} → Run S A → Run S B → Run S B
  unfolding ◌>>=◌
  m >> k = m >>= λ _. k

  -- A read of the state, which may fault.
  unfoldable pub asks : {A : Type 0} → (S → Option A) → Run S A
  asks f p = elim (f p) [ none ↦ none | some a ↦ some (a, p) ]

  unfoldable pub modify : (S → S) → Run S (Unit {0})
  modify f p = some (tt, f p)

module _ {S A B : Type 0} where
  -- A run that starts with a step of known outcome goes on from that outcome.
  pub after :
      {p p' : S} {a : A} (m : Run S A) (f : A → Run S B) → m p ≡ some (a, p') → (m >>= f) p ≡ f a p'
  unfolding ◌>>=◌
  after m f e = ap (λ o. elim o [ none ↦ none | some (a, p') ↦ f a p' ]) e

  pub after_step :
      {p p' : S} {a : A} (m : Run S A) (n : Run S B) → m p ≡ some (a, p') → (m >> n) p ≡ n p'
  unfolding ◌>>◌
  after_step m n e = after m (λ _. n) e

  pub fault_step : {p : S} (m : Run S A) (n : Run S B) → m p ≡ none → (m >> n) p ≡ none
  unfolding ◌>>◌ ◌>>=◌
  fault_step m n e = ap (λ o. elim o [ none ↦ none | some (a, p') ↦ n p' ]) e

  -- Runs with equal outcomes go on alike.
  pub onward : {p q : S} (m n : Run S A) (f : A → Run S B) → m p ≡ n q → (m >>= f) p ≡ (n >>= f) q
  unfolding ◌>>=◌
  onward m n f e = ap (λ o. elim o [ none ↦ none | some (a, p') ↦ f a p' ]) e

pub asks-eq :
    {S A : Type 0} {a : A} {p : S} (f : S → Option A) → f p ≡ some a → asks f p ≡ some (a, p)
unfolding asks
asks-eq {p} f e = ap (λ o. elim o [ none ↦ none | some a ↦ some (a, p) ]) e

pub modify-eq : {S : Type 0} (f : S → S) (p : S) → modify f p ≡ some (tt, f p)
unfolding modify
modify-eq f p = refl
