-- ===== src/Text/Hex.antt =====
-- What printf's %x writes, scanf's %x reads back.
use projet_prog.Base.{
  ℕ, zero, suc, ◌+◌, ◌*◌, ◌/◌, ◌%◌, ◌^◌, ◌<◌, ◌≤◌, ◌≡◌, ◌∙◌, ap, refl, sym, arith, u32, false, ◌&&◌,
  ◌||◌, ◌==◌, ◌∷◌, ◌++◌, none, some,
}
use native.Mathlib.Nat.{pow-suc, div-div-eq-div-mul, div-le_self}
use projet_prog.Text.{
  Bytes, digit_char, digit, digits, hex2, hex8, hex_value, hex_digits, hex_number, hex_prefixed,
  hex_signed, is_space, skip_spaces, scan_hex_within, scan_hex, size, size-append,
}

-- A digit that printf writes: its value, and what it is not.
hex_value-digit_char : (d : ℕ) → d < 16 → hex_value (digit_char d) ≡ some d
unfolding hex_value digit_char
hex_value-digit_char d h = ground arith

plain_digit :
    (d : ℕ)
    → d < 16
    → (is_space (digit_char d) ≡ false)
      × ((digit_char d == b'-') ≡ false)
      × ((digit_char d == b'+') ≡ false)
      × ((digit_char d == b'x') ≡ false)
      × ((digit_char d == b'X') ≡ false)
unfolding is_space digit_char
plain_digit d h = (ground arith, ground arith, ground arith, ground arith, ground arith)

-- One digit of a number being read.
hex_digits-digit :
    (width d value : ℕ) (s : Bytes)
    → d < 16
    → hex_digits (suc width) (digit_char d ∷ s) value ≡ hex_digits width s (u32 (value * 16 + d))
unfolding hex_digits
hex_digits-digit width d value s h = rw (hex_digits, hex_value-digit_char d h) refl

-- The start of a number: no space, sign or prefix is taken.
scan_hex_within-digits :
    (width a b : ℕ) (s : Bytes)
    → a < 16
    → b < 16
    → scan_hex_within (suc (suc width)) (digit_char a ∷ digit_char b ∷ s)
      ≡ some (hex_digits (suc width) (digit_char b ∷ s) a)
unfolding scan_hex_within skip_spaces hex_signed hex_prefixed hex_number
scan_hex_within-digits width a b s h k =
    let (space, minus, plus, _, _) = plain_digit a h in
    let (_, _, _, x, capital) = plain_digit b k in
    let no_prefix : ((digit_char a == b'0') && ((digit_char b == b'x') || (digit_char b == b'X')))
        ≡ false =
      ground arith in
    rw (space, minus, plus, no_prefix, hex_number, hex_value-digit_char a h) refl

size-digits : (v k : ℕ) → size (digits v k) ≡ k
unfolding digits
size-digits v zero = refl
size-digits v (suc k) = ap suc (size-digits v k)

join_digit :
    (v : ℕ) → v < 2 ^ 32 → (k : ℕ) → u32 (v / 16 ^ suc k * 16 + v / 16 ^ k % 16) ≡ v / 16 ^ k
join_digit v h k =
    let above : v / 16 ^ suc k ≡ v / 16 ^ k / 16 =
      ap (λ n. v / n) (pow-suc 16 k) ∙ sym (div-div-eq-div-mul v (16 ^ k) 16) in
    rw above (omega (arith, div-le_self v (16 ^ k)))

hex_digits-digits :
    (v : ℕ)
    → v < 2 ^ 32
    → (k : ℕ) (rest : Bytes) → hex_digits k (digits v k ++ rest) (v / 16 ^ k) ≡ (v, rest)
unfolding hex_digits digits digit
hex_digits-digits v h zero rest = ap (λ n. (n, rest)) (omega arith)
hex_digits-digits v h (suc k) rest =
    hex_digits-digit k (v / 16 ^ k % 16) (v / 16 ^ suc k) (digits v k ++ rest) (omega arith)
    ∙ rw (join_digit v h k) (hex_digits-digits v h k rest)

-- A number in all its digits, at least two.
scan_hex_within-read :
    (width v : ℕ) (rest : Bytes)
    → v < 2 ^ 32
    → v / 16 ^ suc width < 16
    → scan_hex_within (suc (suc width)) (digits v (suc (suc width)) ++ rest) ≡ some (v, rest)
unfolding digits digit
scan_hex_within-read width v rest h small =
    let top : v / 16 ^ suc width % 16 ≡ v / 16 ^ suc width = omega (arith, small) in
    scan_hex_within-digits width (v / 16 ^ suc width % 16) (v / 16 ^ width % 16)
      (digits v width ++ rest) (omega arith) (omega arith)
    ∙ rw top (ap some (hex_digits-digits v h (suc width) rest))

pub scan_hex_within-hex8 :
    (v : ℕ) → v < 2 ^ 32 → (rest : Bytes) → scan_hex_within 8 (hex8 v ++ rest) ≡ some (v, rest)
scan_hex_within-hex8 v h rest = scan_hex_within-read 6 v rest h (omega arith)

-- A number that a byte other than a digit ends, in a width that is large enough.
hex_digits-ended :
    (v : ℕ)
    → v < 2 ^ 32
    → (x : ℕ) → hex_value x ≡ none
    → (k n : ℕ) (rest : Bytes) → k ≤ n
    → hex_digits n (digits v k ++ (x ∷ rest)) (v / 16 ^ k) ≡ (v, x ∷ rest)
unfolding hex_digits digits digit
hex_digits-ended v h x e zero zero rest p = ap (λ n. (n, x ∷ rest)) (omega arith)
hex_digits-ended v h x e zero (suc n) rest p =
    rw (hex_digits, e) (ap (λ n. (n, x ∷ rest)) (omega arith))
hex_digits-ended v h x e (suc k) zero rest p = absurd (omega arith)
hex_digits-ended v h x e (suc k) (suc n) rest p =
    hex_digits-digit n (v / 16 ^ k % 16) (v / 16 ^ suc k) (digits v k ++ (x ∷ rest)) (omega arith)
    ∙ rw (join_digit v h k) (hex_digits-ended v h x e k n rest (omega arith))

pub scan_hex-digits :
    (k v : ℕ)
    → v < 2 ^ 32
    → v / 16 ^ suc k < 16
    → (x : ℕ) → hex_value x ≡ none
    → (rest : Bytes) → scan_hex (digits v (suc (suc k)) ++ (x ∷ rest)) ≡ some (v, x ∷ rest)
unfolding scan_hex digits digit
scan_hex-digits k v h small x e rest =
    let top : v / 16 ^ suc k % 16 ≡ v / 16 ^ suc k = omega (arith, small) in
    scan_hex_within-digits (size (digits v k ++ (x ∷ rest))) (v / 16 ^ suc k % 16) (v / 16 ^ k % 16)
      (digits v k ++ (x ∷ rest)) (omega arith) (omega arith)
    ∙ rw top (
        ap some
          (hex_digits-ended v h x e (suc k) (suc (size (digits v k ++ (x ∷ rest)))) rest room))
  where
    room : suc k ≤ suc (size (digits v k ++ (x ∷ rest)))
    room = omega (arith, size-append (digits v k) (x ∷ rest), size-digits v k)

pub scan_hex-hex2 :
    (v : ℕ)
    → v < 2 ^ 8
    → (x : ℕ) → hex_value x ≡ none
    → (rest : Bytes) → scan_hex (hex2 v ++ (x ∷ rest)) ≡ some (v, x ∷ rest)
scan_hex-hex2 v h = scan_hex-digits 0 v (omega arith) (omega arith)
