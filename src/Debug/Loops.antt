-- ===== src/Debug/Loops.antt =====
-- debug.c: the two loops of the insertion of a name.
use projet_prog.Base.{
  ℕ, zero, suc, ◌+◌, ◌-◌, ◌<◌, ◌≤◌, ◌≡◌, ◌≢◌, ◌∙◌, sym, arith, refl, some, none, true, false, ltb,
  ◌==◌, Bool-cases, inl, inr, ap, subst, ltb→lt, not_ltb→le, lt→ltb, le→not_ltb,
}
use projet_prog.Text.{Bytes, before}
use projet_prog.Text.Order.{clash}
use projet_prog.Debug.{Debugged, Names, put, max_files_number, position_loop, shift_loop}
use projet_prog.Debug.Search.{IsSorted}

-- Where the loop stops: behind the names that come before the new one.
pub record Position (f : Names) (name : Bytes) (i end p : ℕ) : Type 0 where
  pub low : i ≤ p
  pub high : p ≤ end
  pub smaller : (k : ℕ) → i ≤ k → k < p → before (f k) name ≡ true
  pub stopped : p < end → before (f p) name ≡ false

from_next :
    (f : Names) (name : Bytes) (i k : ℕ) {p : ℕ}
    → ((k : ℕ) → i + 1 ≤ k → k < p → before (f k) name ≡ true)
    → before (f i) name ≡ true
    → i ≤ k
    → k < p
    → before (f k) name ≡ true
from_next f name i k later here low high = elim (Bool-cases (k == i)) [
  | inl at ↦ let same : k ≡ i = ground arith in rw same here
  | inr above ↦ later k (ground arith) high
]

pub position_loop-Position :
    (n : ℕ) (f : Names) (name : Bytes) (i : ℕ)
    → i + n ≤ max_files_number
    → Position f name i (i + n) (position_loop n f name i)
unfolding position_loop
position_loop-Position zero f name i h = record {
  low = omega arith;
  high = omega arith;
  smaller = λ k p q. absurd (omega arith);
  stopped = λ p. absurd (omega arith);
}
position_loop-Position (suc n) f name i h =
    let room : ltb i max_files_number ≡ true = lt→ltb i max_files_number (omega arith) in
    elim (Bool-cases (before (f i) name)) [
      | inr stops ↦
          rw (room, stops)
            (record {
              low = omega arith;
              high = omega arith;
              smaller = λ k p q. absurd (omega arith);
              stopped = λ p. stops;
            })
      | inl goes ↦
          let rest = position_loop-Position n f name (i + 1) (omega arith) in
          rw (room, goes)
            (record {
              low = omega (arith, rest.low);
              high = omega (arith, rest.high);
              smaller = λ k p q. from_next f name i k rest.smaller goes p q;
              stopped = λ p. rest.stopped (omega arith);
            })
    ]

-- The cells from p to j - 1 moved up by one.
pub record Shifted (f g : Names) (n j : ℕ) : Type 0 where
  pub kept : (k : ℕ) → k + n ≤ j → g k ≡ f k
  pub above : (k : ℕ) → j < k → g k ≡ f k
  pub moved : (k : ℕ) → j < k + 1 + n → k < j → g (k + 1) ≡ f k

pub put-same : (f : Names) (j : ℕ) (name : Bytes) → put f j name j ≡ name
put-same f j name = let at : (j == j) ≡ true = ground arith in rw at refl

pub put-other : (f : Names) (j k : ℕ) (name : Bytes) → k ≢ j → put f j name k ≡ f k
put-other f j k name h = let off : (k == j) ≡ false = ground arith in rw off refl

pub shift_loop-Shifted :
    (n : ℕ) (f : Names) (j : ℕ)
    → n ≤ j
    → j < max_files_number
    → (g : Names) × (shift_loop n f j ≡ some g) × Shifted f g n j
unfolding shift_loop
shift_loop-Shifted zero f j p q = (
  f,
  refl,
  record { kept = λ k h. refl; above = λ k h. refl; moved = λ k h l. absurd (omega arith) },
)
shift_loop-Shifted (suc n) f j p q =
    let f' = put f j (f (j - 1)) in
    let (g, e, r) = shift_loop-Shifted n f' (j - 1) (omega arith) (omega arith) in
    rw (lt→ltb j max_files_number q) (
      g,
      e,
      record {
        kept = λ k h. r.kept k (omega arith) ∙ put-other f j k (f (j - 1)) (omega arith);
        above = λ k h. r.above k (omega arith) ∙ put-other f j k (f (j - 1)) (omega arith);
        moved = λ k h l. elim (Bool-cases (k + 1 == j)) [
          | inl last ↦
              let top : k + 1 ≡ j = ground arith in
              let below : j - 1 ≡ k = omega (arith, top) in
              ap g top ∙ r.above j (omega arith) ∙ put-same f j (f (j - 1)) ∙ ap f below
          | inr earlier ↦
              r.moved k (omega arith) (ground arith) ∙ put-other f j k (f (j - 1)) (omega arith)
        ];
      },
    )

pub position :
    (d : Debugged) (name : Bytes)
    → IsSorted d
    → Position d.debugged_files name 0 d.nb_debugged_files
        (position_loop d.nb_debugged_files d.debugged_files name 0)
position d name t =
    let all : 0 + d.nb_debugged_files ≡ d.nb_debugged_files = omega arith in
    subst
      (λ e.
        Position d.debugged_files name 0 e
          (position_loop d.nb_debugged_files d.debugged_files name 0))
      all
      (position_loop-Position d.nb_debugged_files d.debugged_files name 0 (omega (arith, t.fits)))

-- The position is not behind a name that does not come before the new one.
pub stops_before :
    (f : Names) (name : Bytes) (p i : ℕ)
    → ((k : ℕ) → 0 ≤ k → k < p → before (f k) name ≡ true)
    → before (f i) name ≡ false
    → p ≤ i
stops_before f name p i smaller b = elim (Bool-cases (ltb i p)) [
  | inl less ↦ absurd (clash (sym (smaller i (omega arith) (ltb→lt i p less)) ∙ b))
  | inr not_less ↦ not_ltb→le i p not_less
]

pub shift_loop-full :
    (n : ℕ) (f : Names) (j : ℕ) → 0 < n → max_files_number ≤ j → shift_loop n f j ≡ none
unfolding shift_loop
shift_loop-full zero f j p q = absurd (omega arith)
shift_loop-full (suc n) f j p q = rw (le→not_ltb j max_files_number q) refl
