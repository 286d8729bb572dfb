-- ===== src/Scanner/Rules.antt =====
-- scanner.l: the rules, and what flex promises of a scanner: the longest match, and the first rule
-- among those of that length.
use projet_prog.Base.{
  ℕ, zero, suc, ◌<◌, ◌≤◌, ◌≡◌, ◌≢◌, ◌∙◌, ◌⊎◌, inl, inr, Bool-cases, ap, sym, subst, refl, arith,
  Option, none, some, true, false, ◌==◌, [], ◌∷◌, ◌++◌,
}
use projet_prog.Text.{Bytes, size, take, drop}
use projet_prog.Scanner.Classes.{is_hex}
use projet_prog.Scanner.Body.{packet_tail, two_digits, longer}

-- The rules in their order, and the one that flex adds for the bytes that no rule matches.
pub data Rule : Type 0 where
  ack retransmission packet invalid echo : Rule

abbrev pub number : Rule → ℕ
number ack = 1
number retransmission = 2
number packet = 3
number invalid = 4
number echo = 5

-- [^$#]*"#"{HEX}{HEX}
pub data Closes : Bytes → Type 0 where
  closing :
      {mark high low : ℕ}
      → mark ≡ b'#'
      → is_hex high ≡ true
      → is_hex low ≡ true
      → Closes (mark ∷ high ∷ low ∷ [])
  plain : {c : ℕ} {s : Bytes} → c ≢ b'#' → c ≢ b'$' → Closes s → Closes (c ∷ s)

pub Closes-pos : {t : Bytes} → Closes t → 0 < size t
Closes-pos (closing e f g) = omega arith
Closes-pos (plain p q k) = omega arith

-- The texts that the rules match.
abbrev pub Matches : Rule → Bytes → Type 0
Matches rule [] = ⊥
Matches ack (c ∷ s) = (c ≡ b'+') × (s ≡ [])
Matches retransmission (c ∷ s) = (c ≡ b'-') × (s ≡ [])
Matches packet (c ∷ s) = (c ≡ b'$') × Closes s
Matches invalid (c ∷ s) = (c ≢ 10) × (s ≡ [])
Matches echo (c ∷ s) = s ≡ []

-- The first n bytes of the input are its first token.
pub record IsToken (input : Bytes) (rule : Rule) (n : ℕ) : Type 0 where
  pub some_bytes : 0 < n
  pub inside : n ≤ size input
  pub matches : Matches rule (take n input)
  pub longest :
      (other : Rule) (m : ℕ)
      → m ≤ size input
      → Matches other (take m input)
      → (m < n) ⊎ ((m ≡ n) × (number rule ≤ number other))

pub take-drop : (n : ℕ) (s : Bytes) → take n s ++ drop n s ≡ s
take-drop zero s = refl
take-drop (suc n) [] = refl
take-drop (suc n) (c ∷ s) = ap (λ r. c ∷ r) (take-drop n s)

pub size-take : (n : ℕ) (s : Bytes) → n ≤ size s → size (take n s) ≡ n
size-take zero s h = refl
size-take (suc n) [] h = omega arith
size-take (suc n) (c ∷ s) h = ap suc (size-take n s (omega arith))

pub packet_tail-Closes : {t : Bytes} (u : Bytes) → Closes t → packet_tail (t ++ u) ≡ some (size t)
unfolding packet_tail two_digits longer
packet_tail-Closes u (closing e f g) = ground arith
packet_tail-Closes u (plain {s} p q h) = ground (arith, packet_tail-Closes u h)

pub packet_tail-take : (m : ℕ) (s : Bytes) → m ≤ size s → Closes (take m s) → packet_tail s ≡ some m
packet_tail-take m s h k =
    ap packet_tail (sym (take-drop m s))
    ∙ packet_tail-Closes (drop m s) k
    ∙ ap some (size-take m s h)

-- The n first bytes are there and close a packet.
abbrev pub ClosedAt : Bytes → ℕ → Type 0
ClosedAt s n = (n ≤ size s) × Closes (take n s)

three : {n : ℕ} → ◌≡◌ {A = Option ℕ} (some 3) (some n) → 3 ≡ n
three e = ground arith

two_digits-Closes :
    (c : ℕ) (s : Bytes) {n : ℕ} → c ≡ b'#' → longer (two_digits s) ≡ some n → ClosedAt (c ∷ s) n
unfolding longer two_digits
two_digits-Closes c [] e f = absurd (cc)
two_digits-Closes c (x ∷ []) e f = absurd (cc)
two_digits-Closes c (x ∷ y ∷ s) {n} e f = read (Bool-cases (is_hex x)) (Bool-cases (is_hex y))
  where
    read :
        (is_hex x ≡ true) ⊎ (is_hex x ≡ false)
        → (is_hex y ≡ true) ⊎ (is_hex y ≡ false)
        → ClosedAt (c ∷ x ∷ y ∷ s) n
    read (inl p) (inl q) =
        subst (ClosedAt (c ∷ x ∷ y ∷ s)) (three (rw (p, q) at f)) (omega arith, closing e p q)
    read (inr p) _ = absurd (ground arith)
    read _ (inr q) = absurd (ground arith)

shorter : {n : ℕ} (o : Option ℕ) → longer o ≡ some n → (m : ℕ) × (o ≡ some m) × (suc m ≡ n)
unfolding longer
shorter none e = absurd (cc)
shorter (some m) e = (m, refl, ground arith)

pub tail-ClosedAt : (s : Bytes) {n : ℕ} → packet_tail s ≡ some n → ClosedAt s n
unfolding packet_tail
tail-ClosedAt [] e = absurd (cc)
tail-ClosedAt (c ∷ s) {n} e = elim (Bool-cases (c == b'#')) [
  | inl p ↦ two_digits-Closes c s (ground arith) (rw p at e)
  | inr p ↦ elim (Bool-cases (c == b'$')) [
    | inl q ↦ absurd (ground arith)
    | inr q ↦
        let (m, f, g) = shorter (packet_tail s) (rw (p, q) at e) in
        let (inside, k) = tail-ClosedAt s f in
        subst (ClosedAt (c ∷ s)) g (omega arith, plain (ground arith) (ground arith) k)
  ]
]
