-- ===== src/Examples/Amounts.antt =====
-- Amounts that are written and read back.
use soraban.Shared.{some, ◌≡◌, refl, arith, codes, none}
use soraban.Shared.Int.{pos, negsuc, wrap_int64}
use soraban.Store.Identity.Money.{
  digits, decimal, signed_decimal, hundreds, remainder, two_places, print_cents, format_cents,
}
use soraban.IrsStub.Money.{
  is_digit, is_amount, is_money, without_point, scan, parse_int, parse_cents,
}
use soraban.IrsStub.Money.RoundTrip.{parse_cents-format_cents}

written : format_cents (negsuc 1204) ≡ codes "-12.05"
unfolding format_cents print_cents signed_decimal hundreds remainder two_places decimal digits
    wrap_int64 soraban.Shared.Int.◌+ℤ◌
written = refl

-- The least int64, of which the negation is itself.
least : format_cents (negsuc 9223372036854775807) ≡ codes "--92233720368547758.-8"
unfolding format_cents print_cents signed_decimal hundreds remainder two_places decimal digits
    wrap_int64 soraban.Shared.Int.◌+ℤ◌
least = refl

least_read : parse_cents (codes "-92233720368547758.08") ≡ some (negsuc 9223372036854775807)
unfolding parse_cents is_money is_amount is_digit without_point parse_int scan
least_read = refl

too_large : parse_cents (codes "92233720368547758.08") ≡ none
unfolding parse_cents is_money is_amount is_digit without_point parse_int scan
too_large = refl

parse_cents-format_cents_example : parse_cents (format_cents (negsuc 1204)) ≡ some (negsuc 1204)
parse_cents-format_cents_example = parse_cents-format_cents (negsuc 1204) (omega arith)
