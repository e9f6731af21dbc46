-- ===== src/IrsStub/Money/Printed.antt =====
-- postgres/internal/store/identity.go, `formatCents`: the amount as the text of an element.
use soraban.Shared.{
  ℕ, zero, suc, ◌+◌, ◌/◌, ◌%◌, ◌<◌, ltb, as_text, codes, codes-as_text, Ascii, Bool-cases, inl, inr,
  none, some, [], ◌∷◌, ◌≡◌, refl, ap, arith, str_eq, eq_iff, false,
}
use soraban.Shared.Int.{ℤ, pos, negsuc, wrap_int64}
use soraban.Lifecycle.{Bytes}
use soraban.Store.Identity.Money.{
  digits, decimal, signed_decimal, hundreds, remainder, two_places, print_cents, format_cents,
}
use soraban.IrsStub.Money.{is_money, parse_cents}
use soraban.IrsStub.Money.RoundTrip.{Symmetric, parse_cents-format_cents}
use soraban.IrsStub.Decoding.Utid.{append-Ascii}

digits-Ascii : (rounds n : ℕ) (out : Bytes) → Ascii out → Ascii (digits rounds n out)
unfolding digits
digits-Ascii zero n out h = h
digits-Ascii (suc rounds) n out h =
    let rest = digits-Ascii rounds (n / 10) ((b'0' + n % 10) ∷ out) (omega arith, h) in
    elim (Bool-cases (ltb n 10)) [
      | inl e ↦ let small : b'0' + n < 128 = ground (arith, e) in rw e (small, h)
      | inr e ↦ rw e rest
    ]

signed_decimal-Ascii : (z : ℤ) → Ascii (signed_decimal z)
unfolding signed_decimal decimal
signed_decimal-Ascii (pos n) = digits-Ascii 20 n [] tt
signed_decimal-Ascii (negsuc n) = (omega arith, digits-Ascii 20 (suc n) [] tt)

two_places-Ascii : (z : ℤ) → Ascii (two_places z)
unfolding two_places decimal
two_places-Ascii (pos n) = elim (Bool-cases (ltb n 10)) [
  | inl e ↦ rw e (omega arith, digits-Ascii 20 n [] tt)
  | inr e ↦ rw e (digits-Ascii 20 n [] tt)
]
two_places-Ascii (negsuc n) = (omega arith, digits-Ascii 20 (suc n) [] tt)

print_cents-Ascii : (sign : Bytes) (z : ℤ) → Ascii sign → Ascii (print_cents sign z)
unfolding print_cents
print_cents-Ascii sign z h = append-Ascii sign _ h (
    append-Ascii (signed_decimal (hundreds z)) (b'.' ∷ two_places (remainder z))
      (signed_decimal-Ascii (hundreds z)) (omega arith, two_places-Ascii (remainder z)))

codes-format_cents : (cents : ℤ) → codes (as_text (format_cents cents)) ≡ format_cents cents
unfolding format_cents
codes-format_cents (pos n) = codes-as_text _ (print_cents-Ascii [] (pos n) tt)
codes-format_cents (negsuc n) =
    codes-as_text _ (print_cents-Ascii (b'-' ∷ []) (wrap_int64 (pos (suc n))) (omega arith, tt))

-- The text of an amount is read back.
pub parse_cents-text :
    (cents : ℤ) → Symmetric cents → parse_cents (codes (as_text (format_cents cents))) ≡ some cents
parse_cents-text cents h = rw (codes-format_cents cents) (parse_cents-format_cents cents h)

parse_nothing : parse_cents [] ≡ none
unfolding parse_cents is_money
parse_nothing = refl

-- The text of an amount is not empty.
pub format_cents-named :
    (cents : ℤ) → Symmetric cents → str_eq (as_text (format_cents cents)) "" ≡ false
format_cents-named cents h = elim (Bool-cases (str_eq (as_text (format_cents cents)) "")) [
  | inl e ↦
      let nothing = ap codes ((eq_iff (as_text (format_cents cents)) "").0 e) in
      absurd (cc (ap parse_cents nothing, parse_nothing, parse_cents-text cents h))
  | inr e ↦ e
]
