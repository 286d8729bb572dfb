-- ===== src/Scanner/Frames.antt =====
-- scanner.c: the packet of a text as a token.
use mathlib.Core.List.{append_assoc}
use projet_prog.Base.{
  ℕ, ◌/◌, ◌%◌, ◌^◌, ◌<◌, ◌≡◌, ◌≢◌, ◌∙◌, ap, subst, refl, sym, arith, u8, some, List, true, [], ◌∷◌,
  ◌++◌,
}
use projet_prog.Text.{Bytes, size, sum, take, drop, digit_char, digit, digits, hex2}
use projet_prog.Gdb.Packet.{frame}
use projet_prog.Scanner.Match.{next_token}
use projet_prog.Scanner.Classes.{is_hex}
use projet_prog.Scanner.Body.{AreBytes, outcome}
use projet_prog.Scanner.First.{first_token, next_token-first}
use projet_prog.Scanner.Rules.{Closes, closing, plain, packet_tail-Closes}

-- Bytes that may stand between the marks of a packet.
pub data IsPlain : Bytes → Type 0 where
  none_left : IsPlain []
  one_more : {c : ℕ} {s : Bytes} → c < 256 → c ≢ b'#' → c ≢ b'$' → IsPlain s → IsPlain (c ∷ s)

AreBytes-append : {s : Bytes} (t : Bytes) → IsPlain s → AreBytes t → AreBytes (s ++ t)
AreBytes-append t none_left h = h
AreBytes-append t (one_more p q r k) h = (p, AreBytes-append t k h)

hex_digit_char : (d : ℕ) → d < 16 → (is_hex (digit_char d) ≡ true) × (digit_char d < 256)
unfolding is_hex digit_char
hex_digit_char d h = (ground arith, ground arith)

hex_digit : (v k : ℕ) → (is_hex (digit v k) ≡ true) × (digit v k < 256)
unfolding digit
hex_digit v k = hex_digit_char (v / 16 ^ k % 16) (omega arith)

-- The closing of a packet.
abbrev pub end_of : ℕ → Bytes
end_of check = b'#' ∷ hex2 check

Closes-plain : {s : Bytes} (check : ℕ) → IsPlain s → Closes (s ++ end_of check)
unfolding digits
Closes-plain check none_left = closing refl (hex_digit check 1).0 (hex_digit check 0).0
Closes-plain check (one_more p q r k) = plain q r (Closes-plain check k)

pub take-append : (s t : Bytes) → take (size s) (s ++ t) ≡ s
take-append [] t = refl
take-append (c ∷ s) t = ap (λ r. c ∷ r) (take-append s t)

pub drop-append_all : (s t : Bytes) → drop (size s) (s ++ t) ≡ t
drop-append_all [] t = refl
drop-append_all (c ∷ s) t = drop-append_all s t

module _ (s t : Bytes) (p : IsPlain s) (h : AreBytes t) where
  frame-AreBytes : AreBytes (frame s ++ t)
  unfolding digits
  frame-AreBytes =
      let check = u8 (sum s) in
      (
        omega arith,
        subst AreBytes (sym (append_assoc s (end_of check) t)) (
            AreBytes-append (end_of check ++ t) p
              (omega arith, ((hex_digit check 1).1, ((hex_digit check 0).1, h)))),
      )

  pub frame-next_token : next_token (frame s ++ t) ≡ some (3, size (frame s))
  unfolding first_token outcome
  frame-next_token =
      next_token-first b'$' ((s ++ end_of (u8 (sum s))) ++ t) frame-AreBytes
      ∙ ap (outcome 1) (packet_tail-Closes t (Closes-plain (u8 (sum s)) p))
      ∙ ap (λ n. some (3, n)) (omega arith)

-- The stream of the packets of these texts.
abbrev pub frames : List Bytes → Bytes
frames [] = []
frames (s ∷ l) = frame s ++ frames l

abbrev pub ArePlain : List Bytes → Type 0
ArePlain [] = Unit
ArePlain (s ∷ l) = IsPlain s × ArePlain l

pub frames-AreBytes : (l : List Bytes) → ArePlain l → AreBytes (frames l)
frames-AreBytes [] h = tt
frames-AreBytes (s ∷ l) h = frame-AreBytes s (frames l) h.0 (frames-AreBytes l h.1)
