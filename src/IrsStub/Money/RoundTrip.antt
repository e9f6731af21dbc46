-- ===== src/IrsStub/Money/RoundTrip.antt =====
-- postgres/internal/store/identity.go `formatCents` and irs/internal/stub/server.go `parseCents`:
-- what one writes, the other reads.
use soraban.Shared.{
  ℕ, zero, suc, ◌+◌, ◌-◌, ◌*◌, ◌/◌, ◌%◌, ◌<◌, ◌≤◌, Bool, true, false, some, [], ◌∷◌, ◌++◌, ◌≡◌,
  refl, arith, ltb, Bool-cases, inl, inr, ◌∙◌, subst,
}
use soraban.Shared.Int.{ℤ, pos, negsuc, wrap_int64}
use soraban.Lifecycle.{Bytes}
use soraban.Store.Identity.Money.{
  digits, decimal, signed_decimal, hundreds, remainder, two_places, print_cents, format_cents,
}
use soraban.IrsStub.Money.{
  is_digit, two_digits, is_amount, is_money, without_point, scan, parse_int, parse_cents,
  parse_uint, minus_parsed, plus_parsed,
}

-- 10 to the power of the rounds.
limit : ℕ → ℕ
limit zero = 1
limit (suc rounds) = 10 * limit rounds

is_digit_last : (n : ℕ) → is_digit (b'0' + n % 10) ≡ true
unfolding is_digit
is_digit_last n = ground arith

digits_last :
    (rounds n : ℕ) (out : Bytes) → n < 10 → digits (suc rounds) n out ≡ (b'0' + n % 10) ∷ out
unfolding digits
digits_last rounds n out h = ground (arith, h)

digits_round :
    (rounds n : ℕ) (out : Bytes)
    → 10 ≤ n
    → digits (suc rounds) n out ≡ digits rounds (n / 10) ((b'0' + n % 10) ∷ out)
unfolding digits
digits_round rounds n out h = ground (arith, h)

module _ (P : Bytes → ℕ → Bytes → Type 0)
    (last : (n : ℕ) (out : Bytes) → n < 10 → P ((b'0' + n % 10) ∷ out) n out)
    (more : (n : ℕ) (xs out : Bytes)
      → 10 ≤ n
      → P xs (n / 10) ((b'0' + n % 10) ∷ out)
      → P xs n out) where
  -- What holds of the last round and carries over each other round holds of all the digits.
  digits_elim :
      (rounds n : ℕ) (out : Bytes) → n < limit (suc rounds) → P (digits (suc rounds) n out) n out
  unfolding limit
  digits_elim zero n out h =
      rw (digits_last 0 n out (omega (arith, h))) (last n out (omega (arith, h)))
  digits_elim (suc rounds) n out h = elim (Bool-cases (ltb n 10)) [
    | inl e ↦
        rw (digits_last (suc rounds) n out (ground (arith, e))) (last n out (ground (arith, e)))
    | inr e ↦ rw (digits_round (suc rounds) n out (ground (arith, e))) (
        more n _ out (ground (arith, e))
          (digits_elim rounds (n / 10) ((b'0' + n % 10) ∷ out) (omega (arith, h))))
  ]

is_amount_digit :
    (seen : Bool) (n : ℕ) (cs : Bytes) → is_amount seen ((b'0' + n % 10) ∷ cs) ≡ is_amount true cs
unfolding is_amount
is_amount_digit seen n cs = rw (is_digit_last n) refl

is_amount-digits :
    (rounds n : ℕ) (out : Bytes)
    → n < limit (suc rounds)
    → (seen : Bool) (ys : Bytes)
    → is_amount seen (digits (suc rounds) n out ++ ys) ≡ is_amount true (out ++ ys)
is_amount-digits =
    digits_elim
      (λ xs n out.
        (seen : Bool) (ys : Bytes) → is_amount seen (xs ++ ys) ≡ is_amount true (out ++ ys))
      (λ n out h seen ys. is_amount_digit seen n (out ++ ys))
      (λ n xs out h ih seen ys. ih seen ys ∙ is_amount_digit true n (out ++ ys))

without_point_digit :
    (n : ℕ) (cs : Bytes) → without_point ((b'0' + n % 10) ∷ cs) ≡ (b'0' + n % 10) ∷ without_point cs
unfolding without_point
without_point_digit n cs = ground arith

scan_digit :
    (n : ℕ) (cs : Bytes)
    → n < 18446744073709551616
    → scan ((b'0' + n % 10) ∷ cs) (n / 10) ≡ scan cs n
unfolding scan
scan_digit n cs h =
    let m : n / 10 * 10 + (b'0' + n % 10 - b'0') ≡ n = omega arith in
    rw (is_digit_last n, m) (ground (arith, h))

scan_round :
    (n : ℕ) (cs : Bytes)
    → n < 18446744073709551616
    → scan (without_point ((b'0' + n % 10) ∷ cs)) (n / 10) ≡ scan (without_point cs) n
scan_round n cs h = rw (without_point_digit n cs) (scan_digit n (without_point cs) h)

scan-digits :
    (rounds n : ℕ) (out : Bytes)
    → n < limit (suc rounds)
    → (ys : Bytes) → n < 18446744073709551616
    → scan (without_point (digits (suc rounds) n out ++ ys)) 0 ≡ scan (without_point (out ++ ys)) n
scan-digits =
    digits_elim
      (λ xs n out.
        (ys : Bytes)
        → n < 18446744073709551616
        → scan (without_point (xs ++ ys)) 0 ≡ scan (without_point (out ++ ys)) n)
      (λ n out h ys fits.
        let zero_above : n / 10 ≡ 0 = omega (arith, h) in
        subst
          (λ k.
            scan (without_point ((b'0' + n % 10) ∷ (out ++ ys))) k
            ≡ scan (without_point (out ++ ys)) n)
          zero_above (scan_round n (out ++ ys) fits))
      (λ n xs out h ih ys fits. ih ys (omega (arith, fits)) ∙ scan_round n (out ++ ys) fits)

Leading : Bytes → Type 0
Leading [] = ⊥
Leading (c ∷ cs) = is_digit c ≡ true

digits-Leading :
    (rounds n : ℕ) (out : Bytes) → n < limit (suc rounds) → Leading (digits (suc rounds) n out)
unfolding Leading
digits-Leading =
    digits_elim (λ xs n out. Leading xs) (λ n out h. is_digit_last n) (λ n xs out h ih. ih)

two_places_lem : (n : ℕ) → two_places (pos (n % 100)) ≡ (b'0' + n / 10 % 10) ∷ (b'0' + n % 10) ∷ []
unfolding two_places decimal digits
two_places_lem n = ground arith

-- What is written of `n` cents without a sign.
plain : ℕ → Bytes
plain n = decimal (n / 100) ++ (b'.' ∷ two_places (pos (n % 100)))

below_limit : (n : ℕ) → n < 18446744073709551616 → n / 100 < limit 20
unfolding limit
below_limit n h = omega (arith, h)

cents : ℕ → Bytes
cents n = (b'0' + n / 10 % 10) ∷ (b'0' + n % 10) ∷ []

is_amount-plain : (n : ℕ) → n < 18446744073709551616 → is_amount false (plain n) ≡ true
unfolding plain decimal is_amount two_digits cents
is_amount-plain n h = rw (two_places_lem n) (
    rw (is_amount-digits 19 (n / 100) [] (below_limit n h) false (b'.' ∷ cents n))
      (rw (is_digit_last (n / 10), is_digit_last n) refl))

scan-plain : (n : ℕ) → n < 18446744073709551616 → scan (without_point (plain n)) 0 ≡ some n
unfolding plain decimal cents without_point scan
scan-plain n h =
    let tens : n / 100 ≡ n / 10 / 10 = omega arith in
    rw (two_places_lem n) (
      rw (scan-digits 19 (n / 100) [] (below_limit n h) (b'.' ∷ cents n) (omega (arith, h))) (
        rw tens (
          rw (scan_digit (n / 10) ((b'0' + n % 10) ∷ []) (omega (arith, h)), scan_digit n [] h)
            refl)))

append-Leading : (xs ys : Bytes) → Leading xs → Leading (xs ++ ys)
unfolding Leading
append-Leading [] ys h = absurd h
append-Leading (x ∷ xs) ys h = h

without_point-Leading : (xs : Bytes) → Leading xs → Leading (without_point xs)
unfolding Leading without_point is_digit
without_point-Leading [] h = absurd h
without_point-Leading (x ∷ xs) h = ground (arith, h)

is_money-Leading : (xs : Bytes) → Leading xs → is_money xs ≡ is_amount false xs
unfolding Leading is_money is_digit
is_money-Leading [] h = absurd h
is_money-Leading (x ∷ xs) h = ground (arith, h)

parse_uint-Leading : (xs : Bytes) → Leading xs → parse_uint xs ≡ scan xs 0
unfolding Leading parse_uint
parse_uint-Leading [] h = absurd h
parse_uint-Leading (x ∷ xs) h = refl

parse_int-Leading : (xs : Bytes) → Leading xs → parse_int xs ≡ plus_parsed (scan xs 0)
unfolding Leading parse_int is_digit parse_uint
parse_int-Leading [] h = absurd h
parse_int-Leading (x ∷ xs) h = ground (arith, h)

plain-Leading : (n : ℕ) → n < 18446744073709551616 → Leading (plain n)
unfolding plain decimal
plain-Leading n h =
    append-Leading (digits 20 (n / 100) []) _ (digits-Leading 19 (n / 100) [] (below_limit n h))

parse_plain : (n : ℕ) → n < 9223372036854775808 → parse_cents (plain n) ≡ some (pos n)
unfolding parse_cents plus_parsed
parse_plain n h =
    let leading = plain-Leading n (omega (arith, h)) in
    rw (is_money-Leading (plain n) leading, is_amount-plain n (omega (arith, h)))
      (rw
        (
          parse_int-Leading (without_point (plain n)) (without_point-Leading (plain n) leading),
          scan-plain n (omega (arith, h)),
        )
        (ground (arith, h)))

parse_minus :
    (n : ℕ) → suc n < 9223372036854775808 → parse_cents (b'-' ∷ plain (suc n)) ≡ some (negsuc n)
unfolding parse_cents is_money without_point parse_int minus_parsed
parse_minus n h =
    let leading = plain-Leading (suc n) (omega (arith, h)) in
    rw (is_amount-plain (suc n) (omega (arith, h))) (
      rw
        (
          parse_uint-Leading (without_point (plain (suc n)))
              (without_point-Leading (plain (suc n)) leading),
          scan-plain (suc n) (omega (arith, h)),
        )
        (ground (arith, h)))

wrap_int64-pos : (n : ℕ) → n < 9223372036854775808 → wrap_int64 (pos n) ≡ pos n
unfolding wrap_int64
wrap_int64-pos n h = ground (arith, h)

-- The int64 amounts but the least.
abbrev pub Symmetric : ℤ → Type 0
Symmetric (pos n) = n < 9223372036854775808
Symmetric (negsuc n) = suc n < 9223372036854775808

-- The stub reads back every amount that the adapter writes, for all int64 amounts but the least.
pub parse_cents-format_cents :
    (cents : ℤ) → Symmetric cents → parse_cents (format_cents cents) ≡ some cents
unfolding format_cents print_cents signed_decimal hundreds remainder plain
parse_cents-format_cents (pos n) h = parse_plain n h
parse_cents-format_cents (negsuc n) h = rw (wrap_int64-pos (suc n) h) (parse_minus n h)
