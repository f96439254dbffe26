-- ===== src/Dnsconfig/Atoi/Decimal.antt =====
-- Decimal numerals, which `strconv.Atoi` reads back.
use native.Mathlib.Nat.{pow-suc}
use getresolvd.Base.{
  ℕ, zero, suc, ◌+◌, ◌-◌, ◌*◌, ◌/◌, ◌%◌, ◌^◌, ◌≤◌, ◌<◌, true, false, ◌&&◌, [], ◌∷◌, ◌++◌, ◌≡◌, refl,
  sym, ap, ◌∙◌, arith, some, Text, ltb, leb, ◌==◌, if◌then◌else◌, pos, Bool-cases, inl, inr,
}
use mathlib.Core.List.{append_assoc, append-nil}
use getresolvd.Base.Texts.Words.{no_space, no_space-append}
use getresolvd.Dnsconfig.Atoi.{parse_uint, atoi}

-- The digits of a number below `10 ^ f`.
decimal_onto : ℕ → ℕ → Text
decimal_onto zero n = []
decimal_onto (suc f) n =
    let front = decimal_onto f (n / 10) in
    if ltb n 10 then (n + b'0') ∷ [] else front ++ (n % 10 + b'0') ∷ []

-- The decimal numeral of a number of 64 bits.
unfoldable pub decimal : ℕ → Text
unfolding decimal_onto
decimal n = decimal_onto 20 n

decimal_5040 : decimal 5040 ≡ b'5' ∷ b'0' ∷ b'4' ∷ b'0' ∷ []
unfolding decimal
decimal_5040 = refl

-- One step of the parser.
parse_uint-digit :
    (m d : ℕ) (rest : Text)
    → d < 10
    → m * 10 + d < 2 ^ 64
    → parse_uint m ((d + b'0') ∷ rest) ≡ parse_uint (m * 10 + d) rest
unfolding parse_uint
parse_uint-digit m d rest small bound =
    let digit : (leb b'0' (d + b'0') && leb (d + b'0') b'9') ≡ true = ground arith in
    let same : m * 10 + (d + b'0' - b'0') ≡ m * 10 + d = omega arith in
    let fits : leb (2 ^ 64) (m * 10 + d) ≡ false = ground arith in rw (digit, same, fits) refl

parse_uint-decimal_onto :
    (f n : ℕ) (rest : Text)
    → n < 10 ^ f
    → n < 2 ^ 64
    → parse_uint 0 (decimal_onto f n ++ rest) ≡ parse_uint n rest
unfolding decimal_onto
parse_uint-decimal_onto zero n rest h b = let none_left : n ≡ 0 = omega arith in rw none_left
parse_uint-decimal_onto (suc f) n rest h b = elim (Bool-cases (ltb n 10)) [
  | inl short ↦
      rw (short, decimal_onto)
        (parse_uint-digit 0 n rest (ground arith) (omega arith)
          ∙ ap (λ k. parse_uint k rest) (omega arith))
  | inr long ↦
      let step = parse_uint-digit (n / 10) (n % 10) rest (omega arith) (omega arith) in
      rw (long, decimal_onto, append_assoc (decimal_onto f (n / 10)) ((n % 10 + b'0') ∷ []) rest)
        (parse_uint-decimal_onto f (n / 10) ((n % 10 + b'0') ∷ rest) (omega (arith, pow-suc 10 f))
            (omega arith)
          ∙ (step ∙ ap (λ k. parse_uint k rest) (omega arith)))
]

-- A digit stands first.
abbrev StartsWithDigit : Text → Type 0
StartsWithDigit s = (c : ℕ) × (t : Text) × (s ≡ c ∷ t) × (48 ≤ c) × (c < 58)

StartsWithDigit-append : (s t : Text) → StartsWithDigit s → StartsWithDigit (s ++ t)
StartsWithDigit-append s t (c, u, e, low, high) = (c, u ++ t, rw e, low, high)

decimal_onto-StartsWithDigit : (f n : ℕ) → StartsWithDigit (decimal_onto (suc f) n)
unfolding decimal_onto
decimal_onto-StartsWithDigit zero n = elim (Bool-cases (ltb n 10)) [
  | inl short ↦ rw short (n + b'0', [], refl, omega arith, ground arith)
  | inr long ↦ rw long (n % 10 + b'0', [], refl, omega arith, omega arith)
]
decimal_onto-StartsWithDigit (suc f) n = elim (Bool-cases (ltb n 10)) [
  | inl short ↦ rw short (n + b'0', [], refl, omega arith, ground arith)
  | inr long ↦ rw long (
      StartsWithDigit-append (decimal_onto (suc f) (n / 10)) ((n % 10 + b'0') ∷ [])
        (decimal_onto-StartsWithDigit f (n / 10)))
]

decimal-StartsWithDigit : (n : ℕ) → StartsWithDigit (decimal n)
unfolding decimal
decimal-StartsWithDigit n = decimal_onto-StartsWithDigit 19 n

digit-no_space : (c : ℕ) → 48 ≤ c → c < 58 → no_space (c ∷ []) ≡ true
digit-no_space c low high = ground arith

decimal_onto-no_space : (f n : ℕ) → no_space (decimal_onto f n) ≡ true
unfolding decimal_onto
decimal_onto-no_space zero n = refl
decimal_onto-no_space (suc f) n = elim (Bool-cases (ltb n 10)) [
  | inl short ↦ rw (short, decimal_onto) (digit-no_space (n + b'0') (omega arith) (ground arith))
  | inr long ↦
      rw (long, decimal_onto)
        (no_space-append (decimal_onto f (n / 10)) ((n % 10 + b'0') ∷ [])
          (decimal_onto-no_space f (n / 10))
          (digit-no_space (n % 10 + b'0') (omega arith) (omega arith)))
]

pub decimal-no_space : (n : ℕ) → no_space (decimal n) ≡ true
unfolding decimal
decimal-no_space n = decimal_onto-no_space 20 n

parse_uint-decimal : (n : ℕ) → n < 2 ^ 64 → parse_uint 0 (decimal n) ≡ some n
unfolding decimal
parse_uint-decimal n b =
    ap (parse_uint 0) (sym (append-nil (decimal_onto 20 n)))
    ∙ (parse_uint-decimal_onto 20 n [] (omega arith) b ∙ unfold parse_uint in refl)

-- `strconv.Atoi` reads the decimal numeral of a non-negative `int` back.
pub atoi-decimal : (n : ℕ) → n < 2 ^ 63 → atoi (decimal n) ≡ pos n
unfolding atoi
atoi-decimal n b =
    let (c, t, e, low, high) = decimal-StartsWithDigit n in
    let minus : (c == b'-') ≡ false = ground arith in
    let plus : (c == b'+') ≡ false = ground arith in
    let read : parse_uint 0 (c ∷ t) ≡ some n =
      ap (parse_uint 0) (sym e) ∙ parse_uint-decimal n (omega arith) in
    let fits : leb (2 ^ 63) n ≡ false = ground arith in rw (e, minus, plus, read, fits) refl
