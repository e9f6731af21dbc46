-- ===== src/IrsStub/Decoding.antt =====
-- irs/internal/stub/server.go: `validateXMLElements`, `decodeTransmission`, `decodeStatusRequest`.
pub mod Strictness
pub mod Utid
pub mod WellFormed
pub mod Marshalled
pub mod Planned
pub mod Filed
use soraban.Shared.{
  ℕ, zero, suc, ◌+◌, ◌-◌, ◌==◌, Bool, true, false, not, ◌&&◌, ◌||◌, ltb, leb, String, str_eq, codes,
  is_blank, Option, none, some, is_some, List, [], ◌∷◌, ◌++◌, map, length, find_where,
  if◌then◌else◌,
}
use soraban.Shared.Int.{ℤ, pos, negsuc}
use soraban.Lifecycle.{Bytes}
use soraban.IrsClient.{Token, start_element, end_element, char_data, other_token}
use soraban.IrsStub.Model.{FilingRecord, Transmission, contains}
use soraban.IrsStub.Money.{is_digit, parse_cents}

pub record ManifestXml : Type 0 where
  pub unique_transmission_id : String
  pub transmitter_control_cd : String
  pub transmission_type_cd : String
  pub tax_year : String

pub record SubmissionHeaderXml : Type 0 where
  pub submission_id : String
  pub client_id : String
  pub form_type_cd : String
  pub reported_recipient_cnt : ℤ

pub record FilingRecordXml : Type 0 where
  pub record_id : String
  pub recipient_name : String
  pub recipient_tin : String
  pub nonemployee_compensation_amount : String
  pub federal_income_tax_withheld_amount : String

pub record SubmissionXml : Type 0 where
  pub headers : List SubmissionHeaderXml
  pub records : List FilingRecordXml

pub record TransmissionXml : Type 0 where
  pub manifests : List ManifestXml
  pub submissions : List SubmissionXml

pub record StatusRequestXml : Type 0 where
  pub transmitter_control_cd : String
  pub search_parameter_type : String
  pub search_parameter_text : String

-- What `encoding/xml` makes of a payload: its tokens, with whether they end without an error, and
-- the values that Unmarshal decodes.
pub record RequestXml : Type 0 where
  pub tokens : Bytes → List Token × Bool
  pub transmission : Bytes → Option TransmissionXml
  pub status_request : Bytes → Option StatusRequestXml

-- The loop of `validateXMLElements` and the test after it. The decoder itself reports an end that
-- has no start.
unfoldable pub valid_elements : String → List String → ℕ → Bool → List Token → Bool
valid_elements root allowed depth root_seen [] = root_seen && depth == 0
valid_elements root allowed depth root_seen (start_element name plain ∷ ts) =
    let outermost = valid_elements root allowed (suc depth) true ts in
    let inside = valid_elements root allowed (suc depth) root_seen ts in
    plain
    && contains name allowed
    && (if depth == 0 then not root_seen && str_eq name root && outermost else inside)
valid_elements root allowed depth root_seen (end_element ∷ ts) =
    valid_elements root allowed (depth - 1) root_seen ts
valid_elements root allowed depth root_seen (char_data text ∷ ts) =
    let rest = valid_elements root allowed depth root_seen ts in
    (not (depth == 0) || is_blank text) && rest
valid_elements root allowed depth root_seen (other_token ∷ ts) =
    valid_elements root allowed depth root_seen ts

-- A regular expression without repetition is a list of classes.
unfoldable pub matches : List (ℕ → Bool) → List ℕ → Bool
matches [] [] = true
matches (p ∷ ps) (c ∷ cs) = let rest = matches ps cs in p c && rest
matches _ _ = false

unfoldable pub is_hex : ℕ → Bool
unfolding is_digit
is_hex c = is_digit c || (leb b'A' c && leb c b'F') || (leb b'a' c && leb c b'f')

unfoldable pub literal : List ℕ → List (ℕ → Bool)
literal cs = map (λ c d. c == d) cs

unfoldable pub hexes : ℕ → List (ℕ → Bool)
hexes zero = []
hexes (suc n) = is_hex ∷ hexes n

unfoldable pub dashed : ℕ → List (ℕ → Bool)
dashed n = literal (codes "-") ++ hexes n

unfoldable pub uuid_pattern : List (ℕ → Bool)
uuid_pattern = hexes 8 ++ (dashed 4 ++ (dashed 4 ++ (dashed 4 ++ dashed 12)))

unfoldable pub utid_pattern : String → List (ℕ → Bool)
utid_pattern transmitter =
    uuid_pattern
    ++ (literal (codes ":IRIS:") ++ (literal (codes transmitter) ++ literal (codes "::A")))

unfoldable pub is_utid : String → String → Bool
is_utid transmitter utid = matches (utid_pattern transmitter) (codes utid)

filing_record : FilingRecordXml → ℤ → ℤ → FilingRecord
filing_record r amount withholding = record {
  record_id = r.record_id;
  recipient_name = r.recipient_name;
  recipient_tin = r.recipient_tin;
  amount_cents = amount;
  withholding_cents = withholding;
}

record_of : FilingRecordXml → Option ℤ → Option ℤ → Option FilingRecord
unfolding filing_record
record_of r (some amount) (some withholding) = some (filing_record r amount withholding)
record_of r _ _ = none

cons_record : Option FilingRecord → Option (List FilingRecord) → Option (List FilingRecord)
cons_record (some r) (some rs) = some (r ∷ rs)
cons_record _ _ = none

-- The loop over the records, `seen` being the IDs of those before.
unfoldable pub decode_records : List String → List FilingRecordXml → Option (List FilingRecord)
unfolding record_of cons_record
decode_records seen [] = some []
decode_records seen (r ∷ rs) =
    let rest = decode_records (r.record_id ∷ seen) rs in
    if str_eq r.record_id ""
      || str_eq r.nonemployee_compensation_amount ""
      || str_eq r.federal_income_tax_withheld_amount ""
    then none
    else if contains r.record_id seen
    then none
    else cons_record
        (record_of r (parse_cents (codes r.nonemployee_compensation_amount))
          (parse_cents (codes r.federal_income_tax_withheld_amount)))
        rest

counts : ℤ → ℕ → Bool
counts (pos n) m = n == m
counts (negsuc n) m = false

the_transmission : ManifestXml → SubmissionHeaderXml → List FilingRecord → Transmission
the_transmission manifest header records = record {
  firm_id = manifest.transmitter_control_cd;
  client_id = header.client_id;
  tax_year = manifest.tax_year;
  utid = manifest.unique_transmission_id;
  submission_id = header.submission_id;
  records = records;
}

transmission_of :
    ManifestXml → SubmissionHeaderXml → Option (List FilingRecord) → Option Transmission
unfolding the_transmission
transmission_of manifest header none = none
transmission_of manifest header (some records) = some (the_transmission manifest header records)

lacks_names : ManifestXml → SubmissionHeaderXml → Bool
lacks_names manifest header =
    str_eq manifest.unique_transmission_id ""
    || str_eq manifest.transmitter_control_cd ""
    || str_eq header.submission_id ""
    || str_eq header.client_id ""

is_other_form : ManifestXml → SubmissionHeaderXml → Bool
is_other_form manifest header =
    not (str_eq manifest.transmission_type_cd "O")
    || not (str_eq manifest.tax_year "2025")
    || not (str_eq header.form_type_cd "1099-NEC")

is_miscounted : SubmissionHeaderXml → List FilingRecordXml → Bool
unfolding counts
is_miscounted header records =
    ltb (length records) 1
    || ltb 100 (length records)
    || not (counts header.reported_recipient_cnt (length records))

unfoldable pub checked :
    ManifestXml → SubmissionHeaderXml → List FilingRecordXml → Option Transmission
unfolding transmission_of lacks_names is_other_form is_miscounted
checked manifest header records =
    if lacks_names manifest header
    then none
    else if is_other_form manifest header
    then none
    else if not (is_utid manifest.transmitter_control_cd manifest.unique_transmission_id)
    then none
    else if is_miscounted header records
    then none
    else transmission_of manifest header (decode_records [] records)

-- One manifest, one submission, and one header of it.
of_headers : ManifestXml → List FilingRecordXml → List SubmissionHeaderXml → Option Transmission
of_headers manifest records (header ∷ []) = checked manifest header records
of_headers manifest records _ = none

of_parts : List ManifestXml → List SubmissionXml → Option Transmission
of_parts (manifest ∷ []) (submission ∷ []) =
    of_headers manifest submission.records submission.headers
of_parts _ _ = none

unfoldable pub of_document : Option TransmissionXml → Option Transmission
unfolding of_headers of_parts
of_document none = none
of_document (some document) = of_parts document.manifests document.submissions

-- The request, where it has what it needs.
unfoldable pub of_request : Option StatusRequestXml → Option StatusRequestXml
of_request none = none
of_request (some request) =
    if str_eq request.transmitter_control_cd "" || str_eq request.search_parameter_text ""
    then none
    else some request

module _ (xml : RequestXml) where
  is_valid : String → List String → Bytes → Bool
  is_valid root allowed payload =
      (xml.tokens payload).1 && valid_elements root allowed 0 false (xml.tokens payload).0

  unfoldable pub decode_transmission : Bytes → Option Transmission
  unfolding is_valid
  decode_transmission payload =
      if is_valid "IRTransmission"
        ("IRTransmission" ∷ "IRTransmissionManifest" ∷ "UniqueTransmissionId"
          ∷ "TransmitterControlCd" ∷ "TransmissionTypeCd" ∷ "TaxYr" ∷ "IRSubmission1Grp"
          ∷ "IRSubmission1Header" ∷ "SubmissionId" ∷ "ClientId" ∷ "FormTypeCd"
          ∷ "ReportedRcpntFormCnt" ∷ "Form1099NECDetail" ∷ "RecordId" ∷ "RecipientNm"
          ∷ "RecipientTIN" ∷ "NonemployeeCompensationAmt" ∷ "FederalIncomeTaxWithheldAmt" ∷ [])
        payload
      then of_document (xml.transmission payload)
      else none

  unfoldable pub decode_status_request : Bytes → Option StatusRequestXml
  unfolding is_valid
  decode_status_request payload =
      if is_valid "TransStatusOrAckRequest"
        ("TransStatusOrAckRequest" ∷ "TransmitterControlCd" ∷ "SearchParameterTypeCd"
          ∷ "SearchParameterTxt" ∷ [])
        payload
      then of_request (xml.status_request payload)
      else none
