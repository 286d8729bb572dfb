-- ===== src/Text/Order.antt =====
-- The order of strcmp, as the test whether its result is negative.
use projet_prog.Base.{◌≡◌, ap, refl, sym, ◌∙◌, arith, true, false, [], ◌∷◌, Bool-cases, inl, inr}
use projet_prog.Text.{Bytes, before}

pub clash : ¬ (true ≡ false)
clash e = cc

pub before_irreflexive : (s : Bytes) → before s s ≡ false
unfolding before
before_irreflexive [] = refl
before_irreflexive (c ∷ s) = ground (arith, before_irreflexive s)

pub before_transitive : (s t u : Bytes) → before s t ≡ true → before t u ≡ true → before s u ≡ true
unfolding before
before_transitive [] [] u p q = cc
before_transitive s t [] p q = cc
before_transitive [] (x ∷ t) (y ∷ u) p q = refl
before_transitive (c ∷ s) [] u p q = cc
before_transitive (c ∷ s) (x ∷ t) (y ∷ u) p q = ground (arith, before_transitive s t u)

-- Two texts of which neither comes first are the same.
pub before_total : (s t : Bytes) → before s t ≡ false → before t s ≡ false → s ≡ t
unfolding before
before_total [] [] p q = refl
before_total [] (x ∷ t) p q = cc
before_total (c ∷ s) [] p q = cc
before_total (c ∷ s) (x ∷ t) p q =
    let heads : c ≡ x = ground arith in
    let tails : s ≡ t = before_total s t (ground arith) (ground arith) in cc

pub before_asymmetric : (s t : Bytes) → before s t ≡ true → before t s ≡ false
before_asymmetric s t p = elim (Bool-cases (before t s)) [
  | inr apart ↦ apart
  | inl back ↦ absurd (clash (sym (before_transitive s t s p back) ∙ before_irreflexive s))
]

-- A text that comes before another comes before each that does not come before that one.
pub before_weak : (s t u : Bytes) → before s t ≡ true → before u t ≡ false → before s u ≡ true
before_weak s t u p q = elim (Bool-cases (before s u)) [
  | inl ahead ↦ ahead
  | inr apart ↦ elim (Bool-cases (before u s)) [
    | inl back ↦ absurd (clash (sym (before_transitive u s t back p) ∙ q))
    | inr equal ↦ absurd (clash (sym p ∙ ap (λ v. before v t) (before_total s u apart equal) ∙ q))
  ]
]
