-- ===== src/IrsStub/Decoding/Planned.antt =====
-- postgres/internal/store/filing.go `PlanBatches` and irs/internal/stub/server.go
-- `decodeTransmission`: what the IRS reads of a planned batch.
use soraban.Shared.{
  ℕ, ◌/◌, ◌%◌, ◌<◌, ◌≤◌, Bool, true, false, String, str_eq, codes, codes-as_text, Option, some,
  List, [], ◌∷◌, map, length, All, ◌≡◌, ◌≢◌, refl, sym, ap, ◌∙◌, arith, Bool-cases, inl, inr,
  eq_iff,
}
use soraban.Lifecycle.{Bytes}
use soraban.Store.Tables.{Filing}
use soraban.Store.Claims.{or_empty}
use soraban.Store.Plan.Writing.{Detail, detail_of}
use soraban.Store.Identity.Reference.{hex_digit, hex, filing_key_string}
use soraban.Store.Identity.Xml.{XmlTransmission, identities}
use soraban.IrsStub.Money.{parse_cents}
use soraban.IrsStub.Money.RoundTrip.{Symmetric}
use soraban.IrsStub.Money.Printed.{parse_cents-text, format_cents-named}
use soraban.IrsStub.Model.{FilingRecord, contains}
use soraban.IrsStub.Decoding.{filing_record, record_of, cons_record, decode_records}
use soraban.IrsStub.Decoding.Utid.{Octets, hex-Ascii}
use soraban.IrsStub.Decoding.Marshalled.{record_xml}

hex_digit-injective : (a b : ℕ) → a < 16 → b < 16 → hex_digit a ≡ hex_digit b → a ≡ b
unfolding hex_digit
hex_digit-injective a b h k e = ground (arith, h, k, e)

head_of : (a b : ℕ) (x y : Bytes) → a ∷ x ≡ b ∷ y → a ≡ b
head_of a b x y h = cc h

hex-injective : (bs cs : Bytes) → Octets bs → Octets cs → hex bs ≡ hex cs → bs ≡ cs
unfolding hex
hex-injective [] [] h k e = refl
hex-injective [] (c ∷ cs) h k e = absurd (cc e)
hex-injective (b ∷ bs) [] h k e = absurd (cc e)
hex-injective (b ∷ bs) (c ∷ cs) h k e =
    let high =
      hex_digit-injective (b / 16) (c / 16) (omega (arith, h.0)) (omega (arith, k.0)) (cc e) in
    let low = hex_digit-injective (b % 16) (c % 16) (omega arith) (omega arith) (cc e) in
    let same : b ≡ c = omega (arith, high, low) in
    let rest = hex-injective bs cs h.1 k.1 (cc e) in cc (same, rest)

-- Filings that the IRS can read: a key of bytes, and amounts that `formatCents` prints well.
abbrev pub Fit : Filing → Type 0
Fit f =
    (1 ≤ length f.filing_key)
    × Octets f.filing_key
    × Symmetric f.reportable_cents
    × Symmetric f.withholding_cents

-- No two filings have one key.
abbrev pub DistinctKeys : List Filing → Type 0
DistinctKeys [] = Unit
DistinctKeys (f ∷ fs) = All (λ (g : Filing). f.filing_key ≢ g.filing_key) fs × DistinctKeys fs

-- The record that is filed for a filing.
abbrev pub filed_record : Filing → FilingRecord
filed_record f = record {
  record_id = filing_key_string f.filing_key;
  recipient_name = f.vendor_display_name;
  recipient_tin = or_empty f.recipient_tin;
  amount_cents = f.reportable_cents;
  withholding_cents = f.withholding_cents;
}

codes-filing_key_string : (key : Bytes) → Octets key → codes (filing_key_string key) ≡ hex key
unfolding filing_key_string
codes-filing_key_string key h = codes-as_text (hex key) (hex-Ascii key h)

filing_key_string-apart :
    (k l : Bytes)
    → Octets k
    → Octets l
    → k ≢ l
    → str_eq (filing_key_string k) (filing_key_string l) ≡ false
filing_key_string-apart k l h g apart =
    elim (Bool-cases (str_eq (filing_key_string k) (filing_key_string l))) [
      | inl e ↦
          let same = (eq_iff (filing_key_string k) (filing_key_string l)).0 e in
          let equal =
            sym (codes-filing_key_string k h) ∙ ap codes same ∙ codes-filing_key_string l g in
          absurd (apart (hex-injective k l h g equal))
      | inr e ↦ e
    ]

pub empty_text : (s : String) → str_eq s "" ≡ true → codes s ≡ []
empty_text s h = ap codes ((eq_iff s "").0 h)

filing_key_string-named :
    (key : Bytes) → 1 ≤ length key → Octets key → str_eq (filing_key_string key) "" ≡ false
unfolding hex
filing_key_string-named [] h o = absurd (omega (arith, h))
filing_key_string-named (b ∷ key) h o =
    elim (Bool-cases (str_eq (filing_key_string (b ∷ key)) "")) [
      | inl e ↦
          let nothing = empty_text (filing_key_string (b ∷ key)) e in
          let written = codes-filing_key_string (b ∷ key) o in absurd (cc (nothing, written))
      | inr e ↦ e
    ]

-- A text that none of the given ones is.
abbrev pub Unseen : List String → Filing → Type 0
Unseen seen f = contains (filing_key_string f.filing_key) seen ≡ false

Unseen-after :
    (f : Filing) (fs : List Filing) (seen : List String)
    → Octets f.filing_key
    → All Fit fs
    → All (λ (g : Filing). f.filing_key ≢ g.filing_key) fs
    → All (Unseen seen) fs
    → All (Unseen (filing_key_string f.filing_key ∷ seen)) fs
Unseen-after f [] seen o fit apart h = tt
Unseen-after f (g ∷ fs) seen o fit apart h =
    let other = filing_key_string-apart f.filing_key g.filing_key o fit.0.1 apart.0 in
    (rw other h.0, Unseen-after f fs seen o fit.1 apart.1 h.1)

-- `marshal` and `utf8` make the interface that planning takes.
module _ (marshal : XmlTransmission → Option Bytes) (sha256 : Bytes → Bytes) (utf8 : String → Bytes)
    (text_before : String → String → Bool) where
  abbrev pub detail : Filing → Detail
  detail = detail_of sha256 (identities marshal sha256 utf8) text_before

  record_of-Fit :
      (f : Filing)
      → Fit f
      → record_of
          (record_xml (detail f))
          (parse_cents (codes (record_xml (detail f)).nonemployee_compensation_amount))
          (parse_cents (codes (record_xml (detail f)).federal_income_tax_withheld_amount))
        ≡ some (filed_record f)
  unfolding record_of filing_record detail_of record_xml identities
  record_of-Fit f (_, _, amount, withholding) =
      rw (parse_cents-text f.reportable_cents amount)
        (rw (parse_cents-text f.withholding_cents withholding) refl)

  pub decode_records-filed :
      (seen : List String) (fs : List Filing)
      → All Fit fs
      → DistinctKeys fs
      → All (Unseen seen) fs
      → decode_records seen (map record_xml (map detail fs)) ≡ some (map filed_record fs)
  unfolding decode_records cons_record detail_of record_xml identities
  decode_records-filed seen [] fit distinct unseen = refl
  decode_records-filed seen (f ∷ fs) ((long, octets, amount, withholding), fit) distinct unseen =
      let rest =
        decode_records-filed (filing_key_string f.filing_key ∷ seen) fs fit distinct.1
          (Unseen-after f fs seen octets fit distinct.0 unseen.1) in
      let made = record_of-Fit f (long, octets, amount, withholding) in
      let named = filing_key_string-named f.filing_key long octets in
      let one = format_cents-named f.reportable_cents amount in
      let two = format_cents-named f.withholding_cents withholding in
      rw (named, one, two) (rw unseen.0 (rw (made, rest) refl))
