-- ===== src/IrsStub/Preflight.antt =====
-- postgres/internal/store/determination.go, the preflight of a filing, and
-- irs/internal/stub/model.go, `resultFor`: the two tests of a TIN and an amount agree.
use text.Mathlib.TextLemmas.{nil-append, cons-append}
use soraban.Shared.{
  ℕ, ◌==◌, Bool, true, false, not, ◌&&◌, leb, String, str_eq, str_append, codes, codes-str_append,
  byte_length, all_of, is_space, is_blank, none, some, List, [], ◌∷◌, length, if◌then◌else◌, ◌≡◌,
  refl, sym, ◌∙◌, arith, Bool-cases, inl, inr,
}
use soraban.Shared.Int.{ℤ, is_positive}
use soraban.Store.Vendors.{
  vendor_identity, btrim, without_separators, is_tin, is_like, after_characters, tin_of,
  preflight_reason, starts_000, lowered, collapsed,
}
use soraban.IrsStub.Money.{is_digit}
use soraban.IrsStub.Model.{FilingRecord, rejection, is_nine_digits, starts_with_000}

after-tin : (w : String) → after_characters 4 (str_append "tin:" w) ≡ w
unfolding after_characters
after-tin w = rw (cons-append "t" "in:" w) (
    rw (cons-append "i" "n:" w)
      (rw (cons-append "n" ":" w) (rw (cons-append ":" "" w, nil-append w) refl)))

like_tin : (w : String) → is_like (codes "tin:") (codes (str_append "tin:" w)) ≡ true
unfolding is_like
like_tin w = rw (codes-str_append "tin:" w) refl

digits_wide :
    (cs : List ℕ)
    → all_of (λ c. leb b'0' c && leb c b'9') cs ≡ true
    → (byte_length cs ≡ length cs) × (all_of is_digit cs ≡ true)
unfolding is_digit
digits_wide [] h = (refl, refl)
digits_wide (c ∷ cs) h =
    let digit : is_digit c ≡ true = ground (arith, h) in
    let others : all_of (λ c. leb b'0' c && leb c b'9') cs ≡ true = ground (arith, h) in
    let (width, digits) = digits_wide cs others in
    (ground (arith, digit, width), rw (digit, digits) refl)

digits_not_blank :
    (cs : List ℕ)
    → (length cs == 9) ≡ true
    → all_of (λ c. leb b'0' c && leb c b'9') cs ≡ true
    → all_of is_space cs ≡ false
digits_not_blank [] h d = absurd (cc h)
digits_not_blank (c ∷ cs) h d = ground (arith, d)

-- Nine digits are neither blank nor malformed.
is_tin-is_nine_digits :
    (w : String) → is_tin w ≡ true → (is_nine_digits w ≡ true) × (is_blank w ≡ false)
unfolding is_tin is_nine_digits
is_tin-is_nine_digits w h =
    let size : (length (codes w) == 9) ≡ true = ground (arith, h) in
    let digits : all_of (λ c. leb b'0' c && leb c b'9') (codes w) ≡ true = ground (arith, h) in
    let (width, all_digits) = digits_wide (codes w) digits in
    (rw (width, size, all_digits) refl, digits_not_blank (codes w) size digits)

starts_000_same : (cs : List ℕ) → is_like (codes "000") cs ≡ starts_with_000 cs
unfolding is_like starts_with_000
starts_000_same [] = refl
starts_000_same (a ∷ []) = ground arith
starts_000_same (a ∷ b ∷ []) = ground arith
starts_000_same (a ∷ b ∷ c ∷ cs) = ground arith

tin_of-missing : (x : String) → tin_of (str_append "missing-tin:" x) ≡ none
unfolding tin_of is_like
tin_of-missing x = rw (codes-str_append "missing-tin:" x) refl

tin_of-malformed : (x : String) → tin_of (str_append "malformed-tin:" x) ≡ none
unfolding tin_of is_like
tin_of-malformed x = rw (codes-str_append "malformed-tin:" x) refl

tin_of-tin : (w : String) → tin_of (str_append "tin:" w) ≡ some w
unfolding tin_of
tin_of-tin w = rw (like_tin w, after-tin w) refl

preflight_reason-tin :
    (w : String) (cents : ℤ)
    → preflight_reason (str_append "tin:" w) (some w) cents ≡ (
        if starts_with_000 (codes w)
        then some "TIN_INVALID"
        else if not (is_positive cents)
        then some "AMOUNT_INVALID"
        else none)
unfolding preflight_reason starts_000 is_like
preflight_reason-tin w cents = rw (codes-str_append "tin:" w) (rw (starts_000_same (codes w)) refl)

rejection-tin :
    (w : String) (r : FilingRecord)
    → is_tin w ≡ true
    → r.recipient_tin ≡ w
    → rejection r ≡ (
        if starts_with_000 (codes w)
        then some "TIN_INVALID"
        else if not (is_positive r.amount_cents)
        then some "AMOUNT_INVALID"
        else none)
unfolding rejection
rejection-tin w r h same =
    let (nine, blank) = is_tin-is_nine_digits w h in rw (same, nine, blank) refl

-- For a vendor identity with a TIN, the preflight of a filing gives the reason for which the stub
-- rejects a record of that TIN and amount, and none where the stub accepts it.
pub preflight_reason-rejection :
    (is_white : ℕ → Bool) (name tin t : String) (r : FilingRecord)
    → tin_of (vendor_identity is_white name tin) ≡ some t
    → r.recipient_tin ≡ t
    → preflight_reason (vendor_identity is_white name tin) (some t) r.amount_cents ≡ rejection r
unfolding vendor_identity
preflight_reason-rejection is_white name tin t r h same =
    elim (Bool-cases (str_eq (btrim tin) "")) [
      | inl e ↦ absurd (cc (h, e, tin_of-missing (lowered (collapsed is_white false (btrim name)))))
      | inr e ↦ elim (Bool-cases (is_tin (without_separators tin))) [
        | inl f ↦
            let w = without_separators tin in
            let same_tin : w ≡ t = cc (h, e, f, tin_of-tin w) in
            rw (e, f, ← same_tin)
              (preflight_reason-tin w r.amount_cents
                ∙ sym (rejection-tin w r f (cc (same, same_tin))))
        | inr f ↦ absurd (cc (h, e, f, tin_of-malformed (btrim tin)))
      ]
    ]
