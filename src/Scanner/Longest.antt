-- ===== src/Scanner/Longest.antt =====
-- scanner.c: the tables find the tokens that the rules of scanner.l ask for.
use projet_prog.Base.{
  ℕ, zero, suc, ◌<◌, ◌≤◌, ◌≡◌, ◌≢◌, ◌∙◌, ◌⊎◌, inl, inr, Bool-cases, ap, sym, subst, refl, arith,
  Option, none, some, true, false, ◌==◌, [], ◌∷◌,
}
use mathlib.Core.Option.{some-injective}
use projet_prog.Text.{Bytes, size, take}
use projet_prog.Scanner.Match.{next_token}
use projet_prog.Scanner.Body.{AreBytes, packet_tail, outcome}
use projet_prog.Scanner.First.{first_token, next_token-first}
use projet_prog.Scanner.Rules.{
  Rule, ack, retransmission, packet, invalid, echo, number, Closes, Closes-pos, Matches, IsToken,
  tail-ClosedAt, packet_tail-take,
}

-- No rule but that of the packets matches more than one byte.
one_byte : (m : ℕ) (s : Bytes) → m ≤ size s → take m s ≡ [] → m ≡ 0
one_byte zero s h e = refl
one_byte (suc m) [] h e = absurd (omega arith)
one_byte (suc m) (c ∷ s) h e = absurd (cc)

longer_match :
    (other : Rule) (c m : ℕ) (s : Bytes)
    → m ≤ size s
    → Matches other (c ∷ take m s)
    → (m ≡ 0) ⊎ ((other ≡ packet) × (c ≡ b'$') × Closes (take m s))
longer_match ack c m s h k = inl (one_byte m s h k.1)
longer_match retransmission c m s h k = inl (one_byte m s h k.1)
longer_match packet c m s h k = inr (refl, k.0, k.1)
longer_match invalid c m s h k = inl (one_byte m s h k.1)
longer_match echo c m s h k = inl (one_byte m s h k)

-- The rules that match a byte alone.
rank :
    (other : Rule) (c : ℕ)
    → Matches other (c ∷ [])
    → (1 ≤ number other)
      × (c ≢ b'+' → 2 ≤ number other)
      × (c ≢ b'+' → c ≢ b'-' → 4 ≤ number other)
      × (c ≡ 10 → 5 ≤ number other)
rank ack c k = (omega arith, λ p. absurd (p k.0), λ p q. absurd (p k.0), λ e. absurd (omega arith))
rank retransmission c k =
    (omega arith, λ p. omega arith, λ p q. absurd (q k.0), λ e. absurd (omega arith))
rank packet c k = absurd (let pos = Closes-pos k.1 in omega arith)
rank invalid c k = (omega arith, λ p. omega arith, λ p q. omega arith, λ e. absurd (k.0 e))
rank echo c k = (omega arith, λ p. omega arith, λ p q. omega arith, λ e. omega arith)

module _ (c : ℕ) (s : Bytes) where
  -- A token of one byte, where no packet starts.
  lone-IsToken :
      (rule : Rule)
      → Matches rule (c ∷ [])
      → ((other : Rule) → Matches other (c ∷ []) → number rule ≤ number other)
      → ((m : ℕ) → c ≡ b'$' → packet_tail s ≢ some m)
      → IsToken (c ∷ s) rule 1
  lone-IsToken rule k first no_packet = record {
    some_bytes = omega arith;
    inside = omega arith;
    matches = k;
    longest = longest;
  }
    where
      longest :
          (other : Rule) (m : ℕ)
          → m ≤ size (c ∷ s)
          → Matches other (take m (c ∷ s))
          → (m < 1) ⊎ ((m ≡ 1) × (number rule ≤ number other))
      longest other zero h j = inl (omega arith)
      longest other (suc m) h j = elim (longer_match other c m s (omega arith) j) [
        | inl e ↦ inr (ap suc e, first other (subst (λ n. Matches other (c ∷ take n s)) e j))
        | inr (_, mark, close) ↦
            absurd (no_packet m mark (packet_tail-take m s (omega arith) close))
      ]

  packet-IsToken : (n : ℕ) → c ≡ b'$' → packet_tail s ≡ some n → IsToken (c ∷ s) packet (suc n)
  packet-IsToken n mark e =
      let (inside, close) = tail-ClosedAt s e in
      record {
        some_bytes = omega arith;
        inside = omega arith;
        matches = (mark, close);
        longest = longest close;
      }
    where
      not_empty : (n : ℕ) → Closes (take n s) → 0 < n
      not_empty zero k = Closes-pos k
      not_empty (suc n) k = omega arith

      longest :
          Closes (take n s)
          → (other : Rule) (m : ℕ) → m ≤ size (c ∷ s)
          → Matches other (take m (c ∷ s))
          → (m < suc n) ⊎ ((m ≡ suc n) × (3 ≤ number other))
      longest k other zero h j = inl (omega arith)
      longest k other (suc m) h j = elim (longer_match other c m s (omega arith) j) [
        | inl one ↦ inl (omega (arith, not_empty n k))
        | inr (rule, _, close) ↦ inr (
          ap suc (some-injective _ _ (sym (packet_tail-take m s (omega arith) close) ∙ e)),
          rw rule (omega arith),
        )
      ]

  absent : (m : ℕ) → (c == b'$') ≡ false → c ≡ b'$' → packet_tail s ≢ some m
  absent m e mark = absurd (ground arith)

  -- What the rules make of a stream that is not empty.
  first_token-IsToken :
      (rule : Rule) × (n : ℕ) × (first_token c s ≡ some (number rule, n)) × IsToken (c ∷ s) rule n
  unfolding first_token outcome
  first_token-IsToken = elim (Bool-cases (c == 10)) [
    | inl e ↦ (
      echo,
      1,
      rw e refl,
      lone-IsToken echo refl (λ other k. (rank other c k).3 (ground arith))
          (λ m mark. absurd (ground arith)),
    )
    | inr e ↦ elim (Bool-cases (c == b'$')) [
      | inl f ↦ marked (ground arith) (packet_tail s) refl
      | inr f ↦ elim (Bool-cases (c == b'+')) [
        | inl g ↦ (
          ack,
          1,
          rw (e, f, g) refl,
          lone-IsToken ack (ground arith, refl) (λ other k. (rank other c k).0) (λ m. absent m f),
        )
        | inr g ↦ elim (Bool-cases (c == b'-')) [
          | inl h ↦ (
            retransmission,
            1,
            rw (e, f, g, h) refl,
            lone-IsToken retransmission (ground arith, refl)
                (λ other k. (rank other c k).1 (ground arith)) (λ m. absent m f),
          )
          | inr h ↦ (
            invalid,
            1,
            rw (e, f, g, h) refl,
            lone-IsToken invalid (ground arith, refl)
                (λ other k. (rank other c k).2 (ground arith) (ground arith)) (λ m. absent m f),
          )
        ]
      ]
    ]
  ]
    where
      marked :
          c ≡ b'$'
          → (o : Option ℕ) → packet_tail s ≡ o
          → (rule : Rule) × (n : ℕ) × (first_token c s ≡ some (number rule, n))
            × IsToken (c ∷ s) rule n
      marked mark none e =
          let newline : (c == 10) ≡ false = ground arith in
          let dollar : (c == b'$') ≡ true = ground arith in
          (
            invalid,
            1,
            rw (newline, dollar, e) refl,
            lone-IsToken invalid (omega arith, refl)
                (λ other k. (rank other c k).2 (omega arith) (omega arith)) (λ m _ f. absurd (cc)),
          )
      marked mark (some n) e =
          let newline : (c == 10) ≡ false = ground arith in
          let dollar : (c == b'$') ≡ true = ground arith in
          (
            packet,
            suc n,
            rw (newline, dollar, e) (ap (λ k. some (3, k)) (omega arith)),
            packet-IsToken n mark e,
          )

-- What the tables find at the start of a stream of bytes that is not empty is the token of
-- scanner.l: some rule matches it, and no rule matches a longer text there, nor an earlier rule one
-- of that length.
pub next_token-IsToken :
    (c : ℕ) (s : Bytes)
    → AreBytes (c ∷ s)
    → (rule : Rule) × (n : ℕ) × (next_token (c ∷ s) ≡ some (number rule, n))
      × IsToken (c ∷ s) rule n
next_token-IsToken c s h =
    let (rule, n, e, token) = first_token-IsToken c s in
    (rule, n, next_token-first c s h ∙ e, token)
