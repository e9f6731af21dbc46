-- ===== src/Store/Identity/Money.antt =====
-- postgres/internal/store/identity.go: `formatCents`, and Go's print of decimal numbers.
use soraban.Shared.{ℕ, zero, suc, ◌+◌, ◌/◌, ◌%◌, ltb, [], ◌∷◌, ◌++◌, if◌then◌else◌}
use soraban.Shared.Int.{ℤ, pos, negsuc, wrap_int64}
use soraban.Lifecycle.{Bytes}

-- The digits of `n` in front of `out`, the last of them first.
unfoldable pub digits : ℕ → ℕ → Bytes → Bytes
digits zero n out = out
digits (suc rounds) n out =
    let rest = digits rounds (n / 10) ((b'0' + n % 10) ∷ out) in
    if ltb n 10 then (b'0' + n) ∷ out else rest

-- `%d`; twenty digits are enough for 64 bits.
unfoldable pub decimal : ℕ → Bytes
decimal n = digits 20 n []

unfoldable pub signed_decimal : ℤ → Bytes
signed_decimal (pos n) = decimal n
signed_decimal (negsuc n) = b'-' ∷ decimal (suc n)

minus : ℕ → ℤ
minus zero = pos 0
minus (suc n) = negsuc n

-- Go's `/ 100` and `% 100`, which round towards 0.
unfoldable pub hundreds : ℤ → ℤ
unfolding minus
hundreds (pos n) = pos (n / 100)
hundreds (negsuc n) = minus (suc n / 100)

unfoldable pub remainder : ℤ → ℤ
unfolding minus
remainder (pos n) = pos (n % 100)
remainder (negsuc n) = minus (suc n % 100)

-- `%02d`, of which the sign takes a place.
unfoldable pub two_places : ℤ → Bytes
two_places (pos n) = if ltb n 10 then b'0' ∷ decimal n else decimal n
two_places (negsuc n) = b'-' ∷ decimal (suc n)

unfoldable pub print_cents : Bytes → ℤ → Bytes
print_cents sign value =
    sign ++ (signed_decimal (hundreds value) ++ (b'.' ∷ two_places (remainder value)))

-- Of a negative amount -(n + 1), `value` is n and then `value++`, in int64.
unfoldable pub format_cents : ℤ → Bytes
format_cents (pos n) = print_cents [] (pos n)
format_cents (negsuc n) = print_cents (b'-' ∷ []) (wrap_int64 (pos (suc n)))
