-- ===== src/Dnsconfig/Atoi.antt =====
-- `strconv.Atoi` with its error dropped: 0 on a syntax error, the nearest value out of range.
pub mod Decimal
use getresolvd.Base.{
  ℕ, zero, suc, ◌+◌, ◌-◌, ◌*◌, ◌^◌, not, ◌&&◌, [], ◌∷◌, Option, none, some, Text, leb, ltb, ◌==◌,
  if◌then◌else◌, ℤ, pos, negsuc,
}

-- `strconv.ParseUint` in base 10, on what follows the digits read so far. An overflow ends it with
-- the greatest value.
unfoldable pub parse_uint : ℕ → Text → Option ℕ
parse_uint n [] = some n
parse_uint n (c ∷ s) =
    let n1 = n * 10 + (c - b'0') in
    let rest = parse_uint n1 s in
    if not (leb b'0' c && leb c b'9')
    then none
    else if leb (2 ^ 64) n1
    then some (2 ^ 64 - 1)
    else rest

-- An empty text is a syntax error.
abbrev parse_digits : Text → Option ℕ
parse_digits [] = none
parse_digits (c ∷ s) = parse_uint 0 (c ∷ s)

abbrev pub negated : ℕ → ℤ
negated zero = pos 0
negated (suc n) = negsuc n

abbrev positive : Option ℕ → ℤ
positive none = pos 0
positive (some n) = if leb (2 ^ 63) n then pos (2 ^ 63 - 1) else pos n

abbrev negative : Option ℕ → ℤ
negative none = pos 0
negative (some n) = if ltb (2 ^ 63) n then negsuc (2 ^ 63 - 1) else negated n

unfoldable pub atoi : Text → ℤ
unfolding parse_uint
atoi [] = pos 0
atoi (c ∷ s) =
    if c == b'-'
    then negative (parse_digits s)
    else if c == b'+'
    then positive (parse_digits s)
    else positive (parse_digits (c ∷ s))
