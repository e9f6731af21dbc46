-- ===== src/IrsStub/Money.antt =====
-- irs/internal/stub/server.go: `moneyPattern` and `parseCents`, with Go's `strconv.ParseInt`.
pub mod RoundTrip
pub mod Printed
use soraban.Shared.{
  ℕ, zero, suc, ◌+◌, ◌-◌, ◌*◌, ◌==◌, Bool, true, false, ◌&&◌, ltb, leb, Option, none, some, List,
  [], ◌∷◌, if◌then◌else◌,
}
use soraban.Shared.Int.{ℤ, pos, negsuc}
use soraban.Lifecycle.{Bytes}

unfoldable pub is_digit : ℕ → Bool
is_digit c = leb b'0' c && leb c b'9'

two_digits : Bytes → Bool
unfolding is_digit
two_digits (a ∷ b ∷ []) = is_digit a && is_digit b
two_digits _ = false

-- `[0-9]+\.[0-9]{2}$`, after a digit where `seen`.
unfoldable pub is_amount : Bool → Bytes → Bool
unfolding two_digits is_digit
is_amount seen [] = false
is_amount seen (c ∷ cs) =
    let rest = is_amount true cs in if is_digit c then rest else seen && c == b'.' && two_digits cs

unfoldable pub is_money : Bytes → Bool
is_money [] = false
is_money (c ∷ cs) = if c == b'-' then is_amount false cs else is_amount false (c ∷ cs)

-- `strings.Replace(value, ".", "", 1)`.
unfoldable pub without_point : Bytes → Bytes
without_point [] = []
without_point (c ∷ cs) = let rest = without_point cs in if c == b'.' then cs else c ∷ rest

abbrev cutoff : ℕ
cutoff = 1844674407370955162

abbrev word : ℕ
word = 18446744073709551616

abbrev half : ℕ
half = 9223372036854775808

-- `ParseUint` in base 10: neither `n * 10` nor the sum may leave 64 bits.
unfoldable pub scan : Bytes → ℕ → Option ℕ
unfolding is_digit
scan [] n = some n
scan (c ∷ cs) n =
    let m = n * 10 + (c - b'0') in
    let rest = scan cs m in if is_digit c && ltb n cutoff && ltb m word then rest else none

parse_uint : Bytes → Option ℕ
parse_uint [] = none
parse_uint (c ∷ cs) = scan (c ∷ cs) 0

minus_parsed : Option ℕ → Option ℤ
minus_parsed none = none
minus_parsed (some zero) = some (pos 0)
minus_parsed (some (suc n)) = if ltb half (suc n) then none else some (negsuc n)

plus_parsed : Option ℕ → Option ℤ
plus_parsed none = none
plus_parsed (some n) = if leb half n then none else some (pos n)

unfoldable pub parse_int : Bytes → Option ℤ
unfolding parse_uint minus_parsed plus_parsed
parse_int [] = none
parse_int (c ∷ cs) =
    if c == b'-'
    then minus_parsed (parse_uint cs)
    else if c == b'+'
    then plus_parsed (parse_uint cs)
    else plus_parsed (parse_uint (c ∷ cs))

unfoldable pub parse_cents : Bytes → Option ℤ
parse_cents value = if is_money value then parse_int (without_point value) else none
