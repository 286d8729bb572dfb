-- ===== src/Names/Lookup.antt =====
-- arm_constants.c and send_irq.c: a name finds the number whose name it is.
use mathlib.Core.Option.{none-ne-some, some-injective}
use projet_prog.Base.{
  ℕ, zero, suc, ◌+◌, ◌<◌, ◌≡◌, ◌↔◌, ◌∙◌, ap, refl, sym, subst, arith, Option, none, some, Bool,
  true, false, ltb, ◌==◌, ◌&&◌, if◌then◌else◌, Bool-cases, inl, inr, [], ◌∷◌,
}
use projet_prog.Text.{Bytes, before, same_text}
use projet_prog.Text.Order.{before_total, clash}
use projet_prog.Names.{
  Table, entry, arm_exception_names, arm_get_exception_name, irq_loop, irq_of, arm_mode_names,
  arm_get_mode_name, is_named, mode_loop, arm_get_mode_number,
}

same_text_sound : (s t : Bytes) → same_text s t ≡ true → s ≡ t
same_text_sound s t e = before_total s t (ground arith) (ground arith)

-- A test of the numbers below n.
all_below : ℕ → (ℕ → Bool) → Bool
all_below zero P = true
all_below (suc n) P = all_below n P && P n

all_below_sound : (n : ℕ) (P : ℕ → Bool) (i : ℕ) → all_below n P ≡ true → i < n → P i ≡ true
unfolding all_below
all_below_sound zero P i e h = absurd (omega arith)
all_below_sound (suc n) P i e h = elim (Bool-cases (i == n)) [
  | inl last ↦ let here : i ≡ n = ground arith in rw here (ground arith)
  | inr earlier ↦ all_below_sound n P i (ground arith) (ground arith)
]

-- Whether the name of an exception finds it.
finds : ℕ → Bool
finds irq = elim (arm_get_exception_name irq) [
  | none ↦ true
  | some none ↦ true
  | some (some s) ↦ elim (irq_of s) [ none ↦ false | some found ↦ found == irq ]
]

finds_all : all_below 9 finds ≡ true
unfolding all_below finds arm_get_exception_name entry irq_of irq_loop before
finds_all = refl

finds_mode : ℕ → Bool
finds_mode mode = elim (arm_get_mode_name mode) [
  | none ↦ true
  | some none ↦ true
  | some (some s) ↦ elim (arm_get_mode_number s) [ none ↦ false | some found ↦ found == mode ]
]

finds_all_modes : all_below 32 finds_mode ≡ true
unfolding all_below finds_mode arm_get_mode_name entry arm_get_mode_number mode_loop is_named before
finds_all_modes = refl

found_at :
    (o : Option ℕ) (i : ℕ) → (elim o [ none ↦ false | some found ↦ found == i ]) ≡ true → o ≡ some i
found_at none i e = absurd (clash (sym e))
found_at (some found) i e = ap some (ground arith)

-- The number of a name is below the bound of the test, and the test tells that it is found.
back_by_test :
    (name_of : ℕ → Option (Option Bytes)) (find : Bytes → Option ℕ) (i : ℕ) (s : Bytes)
    → (elim (name_of i) [
      | none ↦ true
      | some none ↦ true
      | some (some s) ↦ elim (find s) [ none ↦ false | some found ↦ found == i ]
    ])
      ≡ true
    → name_of i ≡ some (some s)
    → find s ≡ some i
back_by_test name_of find i s t e = found_at (find s) i (sym (ap test e) ∙ t)
  where
    test : Option (Option Bytes) → Bool
    test o = elim o [
      | none ↦ true
      | some none ↦ true
      | some (some s) ↦ elim (find s) [ none ↦ false | some found ↦ found == i ]
    ]

-- A round of a search that stops at the name, and goes on otherwise.
stops_or_goes :
    (name_of : ℕ → Option (Option Bytes)) (n : ℕ) (s name : Bytes) (rest : Option ℕ) (i : ℕ)
    → name_of n ≡ some (some s)
    → (rest ≡ some i → name_of i ≡ some (some name))
    → (if same_text s name then some n else rest) ≡ some i
    → name_of i ≡ some (some name)
stops_or_goes name_of n s name rest i p later e = elim (Bool-cases (same_text s name)) [
  | inl same ↦
      let found : n ≡ i =
        some-injective n i (subst (λ b. (if b then some n else rest) ≡ some i) same e) in
      subst (λ j. name_of j ≡ some (some name)) found
        (p ∙ ap (λ t. some (some t)) (same_text_sound s name same))
  | inr differs ↦ later (subst (λ b. (if b then some n else rest) ≡ some i) differs e)
]

irq_loop_sound :
    (fuel irq : ℕ) (name : Bytes) (i : ℕ)
    → irq_loop fuel irq name ≡ some i
    → arm_get_exception_name i ≡ some (some name)
unfolding irq_loop
irq_loop_sound zero irq name i e = absurd (none-ne-some i e)
irq_loop_sound (suc fuel) irq name i e =
    at (arm_get_exception_name irq) refl (irq_loop_sound fuel (irq + 1) name i) e
  where
    at :
        (o : Option (Option Bytes))
        → arm_get_exception_name irq ≡ o
        → (irq_loop fuel (irq + 1) name ≡ some i → arm_get_exception_name i ≡ some (some name))
        → (elim o [
          | none ↦ none
          | some none ↦ none
          | some (some s) ↦ if same_text s name then some irq else irq_loop fuel (irq + 1) name
        ])
          ≡ some i
        → arm_get_exception_name i ≡ some (some name)
    at none p later e = absurd (none-ne-some i e)
    at (some none) p later e = absurd (none-ne-some i e)
    at (some (some s)) p later e =
        stops_or_goes arm_get_exception_name irq s name (irq_loop fuel (irq + 1) name) i p later e

mode_loop_sound :
    (n k : ℕ) (name : Bytes) (i : ℕ)
    → mode_loop n k name ≡ some i
    → arm_get_mode_name i ≡ some (some name)
unfolding mode_loop is_named
mode_loop_sound zero k name i e = absurd (none-ne-some i e)
mode_loop_sound (suc n) k name i e =
    at (arm_get_mode_name k) refl (mode_loop_sound n (k + 1) name i) e
  where
    at :
        (o : Option (Option Bytes))
        → arm_get_mode_name k ≡ o
        → (mode_loop n (k + 1) name ≡ some i → arm_get_mode_name i ≡ some (some name))
        → (if is_named name o then some k else mode_loop n (k + 1) name) ≡ some i
        → arm_get_mode_name i ≡ some (some name)
    at none p later e = later e
    at (some none) p later e = later e
    at (some (some s)) p later e =
        stops_or_goes arm_get_mode_name k s name (mode_loop n (k + 1) name) i p later e

entries : Table → ℕ
entries [] = 0
entries (x ∷ l) = suc (entries l)

entry-inside : (l : Table) (i : ℕ) (x : Option Bytes) → entry l i ≡ some x → i < entries l
unfolding entry entries
entry-inside [] i x e = absurd (none-ne-some x e)
entry-inside (y ∷ l) zero x e = omega arith
entry-inside (y ∷ l) (suc i) x e = omega (arith, entry-inside l i x e)

below_modes : (i : ℕ) (s : Bytes) → arm_get_mode_name i ≡ some (some s) → i < 32
unfolding arm_get_mode_name entries
below_modes i s e = entry-inside arm_mode_names i (some s) e

below_table : (i : ℕ) (s : Bytes) → arm_get_exception_name i ≡ some (some s) → i < 9
unfolding arm_get_exception_name
below_table i s e = elim (Bool-cases (ltb i 8)) [
  | inl small ↦ ground arith
  | inr large ↦
      let beyond =
        subst (λ b. (if b then entry arm_exception_names i else some none) ≡ some (some s)) large
          e in
      absurd (none-ne-some s (some-injective none (some s) beyond))
]

-- The exception that send_irq chooses for a name is the one that arm_get_exception_name gives that
-- name to, and a name is unknown to it exactly if no exception has it.
pub irq_of-name :
    (name : Bytes) (irq : ℕ)
    → (irq_of name ≡ some irq) ↔ (arm_get_exception_name irq ≡ some (some name))
unfolding irq_of finds
irq_of-name name irq = (
  irq_loop_sound 8 1 name irq,
  λ e.
      back_by_test arm_get_exception_name irq_of irq name
        (all_below_sound 9 finds irq finds_all (below_table irq name e)) e,
)

-- arm_get_mode_number finds a mode for a name exactly if arm_get_mode_name gives that mode the name.
pub arm_get_mode_number-name :
    (name : Bytes) (mode : ℕ)
    → (arm_get_mode_number name ≡ some mode) ↔ (arm_get_mode_name mode ≡ some (some name))
unfolding arm_get_mode_number finds_mode
arm_get_mode_number-name name mode = (
  mode_loop_sound 32 0 name mode,
  λ e.
      back_by_test arm_get_mode_name arm_get_mode_number mode name
        (all_below_sound 32 finds_mode mode finds_all_modes (below_modes mode name e)) e,
)
