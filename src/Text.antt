-- ===== src/Text.antt =====
-- The functions on text of the C library that the program calls: a text is the list of its bytes.
-- In a buffer the text ends at the first zero byte, or with the bytes that the buffer has.
pub mod Format
pub mod Hex
pub mod Order
use Prim.Native.Char.{code}
use Prim.Native.String.{String}
use projet_prog.Base.{
  ℕ, zero, suc, ◌+◌, ◌-◌, ◌*◌, ◌/◌, ◌%◌, ◌^◌, ◌≡◌, refl, arith, u32, sub32, Bool, true, false, not,
  ◌&&◌, ◌||◌, ltb, leb, ◌==◌, if◌then◌else◌, List, [], ◌∷◌, ◌++◌, Option, none, some,
}

abbrev pub Bytes : Type 0
Bytes = List ℕ

-- The bytes of an ASCII literal.
abbrev pub codes : String → Bytes
codes String.[] = []
codes (String.◌∷◌ c s) = code c ∷ codes s

abbrev pub size : Bytes → ℕ
size [] = 0
size (c ∷ s) = suc (size s)

pub size-append : (s t : Bytes) → size (s ++ t) ≡ size s + size t
size-append [] t = omega arith
size-append (c ∷ s) t = omega (arith, size-append s t)

abbrev pub sum : Bytes → ℕ
sum [] = 0
sum (c ∷ s) = c + sum s

abbrev pub take : ℕ → Bytes → Bytes
take zero s = []
take (suc n) [] = []
take (suc n) (c ∷ s) = c ∷ take n s

abbrev pub drop : ℕ → Bytes → Bytes
drop zero s = s
drop (suc n) [] = []
drop (suc n) (c ∷ s) = drop n s

pub drop-append : (s : Bytes) (x : ℕ) (t : Bytes) → drop (suc (size s)) (s ++ (x ∷ t)) ≡ t
drop-append [] x t = refl
drop-append (c ∷ s) x t = drop-append s x t

-- The digit of printf's %x, and the two fixed widths %02x and %08x.
unfoldable pub digit_char : ℕ → ℕ
digit_char d = if ltb d 10 then b'0' + d else b'a' + (d - 10)

unfoldable pub digit : ℕ → ℕ → ℕ
digit v k = digit_char (v / 16 ^ k % 16)

-- The lowest k digits, the highest of them first.
unfoldable pub digits : ℕ → ℕ → Bytes
digits v zero = []
digits v (suc k) = digit v k ∷ digits v k

abbrev pub hex2 : ℕ → Bytes
hex2 v = digits v 2

abbrev pub hex8 : ℕ → Bytes
hex8 v = digits v 8

-- isspace
unfoldable pub is_space : ℕ → Bool
is_space c = (c == 32) || (leb 9 c && leb c 13)

unfoldable pub skip_spaces : Bytes → Bytes
skip_spaces [] = []
skip_spaces (c ∷ s) = let rest = skip_spaces s in if is_space c then rest else c ∷ s

unfoldable pub hex_value : ℕ → Option ℕ
hex_value c =
    if leb b'0' c && leb c b'9'
    then some (c - b'0')
    else if leb b'a' c && leb c b'f'
    then some (c - b'a' + 10)
    else if leb b'A' c && leb c b'F'
    then some (c - b'A' + 10)
    else none

-- The digits that scanf's %x accepts within a width, onto the value so far, cut to 32 bits.
unfoldable pub hex_digits : (width : ℕ) → Bytes → ℕ → ℕ × Bytes
hex_digits zero s value = (value, s)
hex_digits (suc width) [] value = (value, [])
hex_digits (suc width) (c ∷ s) value = elim (hex_value c) [
  | none ↦ (value, c ∷ s)
  | some d ↦ hex_digits width s (u32 (value * 16 + d))
]

-- At least one digit.
unfoldable pub hex_number : (width : ℕ) → Bytes → Option (ℕ × Bytes)
hex_number zero s = none
hex_number (suc width) [] = none
hex_number (suc width) (c ∷ s) = elim (hex_value c) [
  | none ↦ none
  | some d ↦ some (hex_digits width s d)
]

-- An optional 0x before the digits.
unfoldable pub hex_prefixed : (width : ℕ) → Bytes → Option (ℕ × Bytes)
hex_prefixed (suc (suc width)) (c ∷ x ∷ s) =
    if (c == b'0') && ((x == b'x') || (x == b'X'))
    then hex_number width s
    else hex_number (suc (suc width)) (c ∷ x ∷ s)
hex_prefixed width s = hex_number width s

unfoldable pub negated : Option (ℕ × Bytes) → Option (ℕ × Bytes)
negated none = none
negated (some (v, s)) = some (sub32 0 v, s)

unfoldable pub hex_signed : (width : ℕ) → Bytes → Option (ℕ × Bytes)
hex_signed (suc width) (c ∷ s) =
    if c == b'-'
    then negated (hex_prefixed width s)
    else if c == b'+'
    then hex_prefixed width s
    else hex_prefixed (suc width) (c ∷ s)
hex_signed width s = hex_prefixed width s

-- scanf's %x with a width: the value and what follows, or no match.
unfoldable pub scan_hex_within : ℕ → Bytes → Option (ℕ × Bytes)
scan_hex_within width s = hex_signed width (skip_spaces s)

unfoldable pub scan_hex : Bytes → Option (ℕ × Bytes)
scan_hex s = scan_hex_within (size s) s

-- A byte of the format that stands for itself.
unfoldable pub literal : ℕ → Bytes → Option Bytes
literal x [] = none
literal x (c ∷ s) = if c == x then some s else none

-- atoi: the digits, with the sign before; an int is its 32-bit pattern.
unfoldable pub decimal_digits : Bytes → ℕ → ℕ
decimal_digits [] value = value
decimal_digits (c ∷ s) value =
    let rest = decimal_digits s (u32 (value * 10 + (c - b'0'))) in
    if leb b'0' c && leb c b'9' then rest else value

unfoldable pub decimal_signed : Bytes → ℕ
decimal_signed [] = 0
decimal_signed (c ∷ s) =
    if c == b'-'
    then sub32 0 (decimal_digits s 0)
    else if c == b'+'
    then decimal_digits s 0
    else decimal_digits (c ∷ s) 0

unfoldable pub atoi : Bytes → ℕ
atoi s = decimal_signed (skip_spaces s)

-- index(s, x) + 1: what follows the first x before the end of the text, if there is one.
unfoldable pub after_index : ℕ → Bytes → Option Bytes
after_index x [] = none
after_index x (c ∷ s) =
    let rest = after_index x s in if c == x then some s else if c == 0 then none else rest

-- strcmp(s, t) == 0 and strncmp(s, t, strlen(t)) == 0, for a literal t
unfoldable pub starts_with : Bytes → Bytes → Bool
starts_with s [] = true
starts_with [] (x ∷ t) = false
starts_with (c ∷ s) (x ∷ t) = (c == x) && starts_with s t

unfoldable pub equals_text : Bytes → Bytes → Bool
equals_text [] [] = true
equals_text [] (x ∷ t) = false
equals_text (c ∷ s) [] = c == 0
equals_text (c ∷ s) (x ∷ t) = (c == x) && equals_text s t

-- strcmp(s, t) < 0
unfoldable pub before : Bytes → Bytes → Bool
before s [] = false
before [] (x ∷ t) = true
before (c ∷ s) (x ∷ t) =
    let rest = before s t in if ltb c x then true else if ltb x c then false else rest

-- strcmp(s, t) == 0
abbrev pub same_text : Bytes → Bytes → Bool
same_text s t = not (before s t) && not (before t s)
