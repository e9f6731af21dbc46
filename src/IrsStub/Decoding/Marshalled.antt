-- ===== src/IrsStub/Decoding/Marshalled.antt =====
-- What the decoder of irs/internal/stub/server.go reads of what `canonicalXML` of
-- postgres/internal/store/identity.go has marshalled: its tokens and its values.
use soraban.Shared.{
  ℕ, suc, Bool, true, false, String, str_eq, as_text, some, List, [], ◌∷◌, ◌++◌, ◌-◌, ◌==◌, map,
  ◌≡◌, refl, ◌∙◌, ap, arith, All, Bool-cases, inl, inr, if◌then◌else◌,
}
use soraban.Shared.Int.{pos}
use soraban.Lifecycle.{Bytes}
use soraban.Store.Plan.Writing.{Detail}
use soraban.Store.Identity.Money.{decimal}
use soraban.Store.Identity.Xml.{XmlManifest, XmlHeader, XmlGroup, XmlTransmission}
use soraban.IrsClient.{Token, start_element, end_element, char_data, other_token}
use soraban.IrsStub.Model.{contains}
use soraban.IrsStub.Decoding.{
  ManifestXml, SubmissionHeaderXml, FilingRecordXml, TransmissionXml, RequestXml, valid_elements,
}

text : String → List Token
text s = if str_eq s "" then [] else char_data s ∷ []

element : String → List Token → List Token
element name content = start_element name true ∷ (content ++ (end_element ∷ []))

leaf : String → String → List Token
unfolding text element
leaf name s = element name (text s)

abbrev Leaf : Type 0
Leaf = String × String

leaves : List Leaf → List Token
unfolding leaf
leaves [] = []
leaves ((name, s) ∷ ls) = leaf name s ++ leaves ls

abbrev manifest_leaves : XmlManifest → List Leaf
manifest_leaves m =
    ("UniqueTransmissionId", m.utid)
    ∷ ("TransmitterControlCd", m.transmitter)
    ∷ ("TransmissionTypeCd", m.transmission_type)
    ∷ ("TaxYr", as_text (decimal m.tax_year))
    ∷ []

abbrev header_leaves : XmlHeader → List Leaf
header_leaves h =
    ("SubmissionId", h.submission_id)
    ∷ ("ClientId", h.client_id)
    ∷ ("FormTypeCd", h.form_type)
    ∷ ("ReportedRcpntFormCnt", as_text (decimal h.count))
    ∷ []

abbrev detail_leaves : Detail → List Leaf
detail_leaves d =
    ("RecordId", d.record_id)
    ∷ ("RecipientNm", d.recipient_name)
    ∷ ("RecipientTIN", d.recipient_tin)
    ∷ ("NonemployeeCompensationAmt", d.compensation)
    ∷ ("FederalIncomeTaxWithheldAmt", d.withholding)
    ∷ []

details_tokens : List Detail → List Token
unfolding element leaves
details_tokens [] = []
details_tokens (d ∷ ds) =
    element "Form1099NECDetail" (leaves (detail_leaves d)) ++ details_tokens ds

group_tokens : XmlGroup → List Token
unfolding element leaves details_tokens
group_tokens g =
    element "IRSubmission1Header" (leaves (header_leaves g.header)) ++ details_tokens g.details

-- The header of the file, its line end, and the elements in the order of the struct's fields.
unfoldable pub tokens_of : XmlTransmission → List Token
unfolding element leaves details_tokens group_tokens
tokens_of t =
    other_token
    ∷ char_data "\n"
    ∷ element "IRTransmission" (
        element "IRTransmissionManifest" (leaves (manifest_leaves t.manifest))
        ++ element "IRSubmission1Grp" (group_tokens t.group))

unfoldable pub record_xml : Detail → FilingRecordXml
record_xml d = record {
  record_id = d.record_id;
  recipient_name = d.recipient_name;
  recipient_tin = d.recipient_tin;
  nonemployee_compensation_amount = d.compensation;
  federal_income_tax_withheld_amount = d.withholding;
}

unfoldable pub manifest_xml : XmlManifest → ManifestXml
manifest_xml m = record {
  unique_transmission_id = m.utid;
  transmitter_control_cd = m.transmitter;
  transmission_type_cd = m.transmission_type;
  tax_year = as_text (decimal m.tax_year);
}

unfoldable pub header_xml : XmlHeader → SubmissionHeaderXml
header_xml h = record {
  submission_id = h.submission_id;
  client_id = h.client_id;
  form_type_cd = h.form_type;
  reported_recipient_cnt = pos h.count;
}

unfoldable pub document_of : XmlTransmission → TransmissionXml
unfolding record_xml manifest_xml header_xml
document_of t = record {
  manifests = manifest_xml t.manifest ∷ [];
  submissions =
      record { headers = header_xml t.group.header ∷ []; records = map record_xml t.group.details }
      ∷ [];
}

-- The decoder reads the payload as the transmission that it was marshalled from.
pub record Read (xml : RequestXml) (t : XmlTransmission) (payload : Bytes) : Type 0 where
  pub tokens : xml.tokens payload ≡ (tokens_of t, true)
  pub transmission : xml.transmission payload ≡ some (document_of t)

-- The elements that `decodeTransmission` knows.
abbrev pub known_elements : List String
known_elements =
    "IRTransmission" ∷ "IRTransmissionManifest" ∷ "UniqueTransmissionId" ∷ "TransmitterControlCd"
    ∷ "TransmissionTypeCd" ∷ "TaxYr" ∷ "IRSubmission1Grp" ∷ "IRSubmission1Header" ∷ "SubmissionId"
    ∷ "ClientId" ∷ "FormTypeCd" ∷ "ReportedRcpntFormCnt" ∷ "Form1099NECDetail" ∷ "RecordId"
    ∷ "RecipientNm" ∷ "RecipientTIN" ∷ "NonemployeeCompensationAmt" ∷ "FederalIncomeTaxWithheldAmt"
    ∷ []

abbrev valid : ℕ → Bool → List Token → Bool
valid = valid_elements "IRTransmission" known_elements

-- Tokens inside an element that are let through and leave the depth as it was.
abbrev Neutral : List Token → Type 0
Neutral ts =
    (depth : ℕ) (rest : List Token)
    → valid (suc depth) true (ts ++ rest) ≡ valid (suc depth) true rest

append_assoc : (a b c : List Token) → (a ++ b) ++ c ≡ a ++ (b ++ c)
append_assoc [] b c = refl
append_assoc (t ∷ a) b c = rw (append_assoc a b c) refl

append-Neutral : (a b : List Token) → Neutral a → Neutral b → Neutral (a ++ b)
append-Neutral a b h k depth rest = rw (append_assoc a b rest) (h depth (b ++ rest) ∙ k depth rest)

inside : (depth : ℕ) → (suc depth == 0) ≡ false
inside depth = ground arith

text-Neutral : (s : String) → Neutral (text s)
unfolding text valid_elements
text-Neutral s depth rest = elim (Bool-cases (str_eq s "")) [
  | inl e ↦ rw e refl
  | inr e ↦ rw (e, inside depth) refl
]

element-Neutral :
    (name : String) (content : List Token)
    → contains name known_elements ≡ true
    → Neutral content
    → Neutral (element name content)
unfolding element valid_elements
element-Neutral name content h k depth rest =
    let less : suc (suc depth) - 1 ≡ suc depth = omega arith in
    let out : valid (suc (suc depth)) true (end_element ∷ rest) ≡ valid (suc depth) true rest =
      ap (λ d. valid d true rest) less in
    rw (append_assoc content (end_element ∷ []) rest, h, inside depth)
      (k (suc depth) (end_element ∷ rest) ∙ out)

abbrev Known : Leaf → Type 0
Known l = contains l.0 known_elements ≡ true

leaves-Neutral : (ls : List Leaf) → All Known ls → Neutral (leaves ls)
unfolding leaves leaf
leaves-Neutral [] h = λ depth rest. refl
leaves-Neutral ((name, s) ∷ ls) h =
    append-Neutral (leaf name s) (leaves ls) (element-Neutral name (text s) h.0 (text-Neutral s))
      (leaves-Neutral ls h.1)

details_tokens-Neutral : (ds : List Detail) → Neutral (details_tokens ds)
unfolding details_tokens
details_tokens-Neutral [] = λ depth rest. refl
details_tokens-Neutral (d ∷ ds) =
    let one =
      element-Neutral "Form1099NECDetail" (leaves (detail_leaves d)) refl
        (leaves-Neutral (detail_leaves d) (refl, (refl, (refl, (refl, (refl, tt)))))) in
    append-Neutral (element "Form1099NECDetail" (leaves (detail_leaves d))) (details_tokens ds) one
      (details_tokens-Neutral ds)

group_tokens-Neutral : (g : XmlGroup) → Neutral (group_tokens g)
unfolding group_tokens
group_tokens-Neutral g =
    let header =
      element-Neutral "IRSubmission1Header" (leaves (header_leaves g.header)) refl
        (leaves-Neutral (header_leaves g.header) (refl, (refl, (refl, (refl, tt))))) in
    append-Neutral (element "IRSubmission1Header" (leaves (header_leaves g.header)))
      (details_tokens g.details) header (details_tokens-Neutral g.details)

-- The stub's test of the elements lets every transmission through that is marshalled.
pub valid_elements-tokens_of :
    (t : XmlTransmission)
    → valid_elements "IRTransmission" known_elements 0 false (tokens_of t) ≡ true
unfolding tokens_of valid_elements
valid_elements-tokens_of t =
    let manifest = element "IRTransmissionManifest" (leaves (manifest_leaves t.manifest)) in
    let group = element "IRSubmission1Grp" (group_tokens t.group) in
    let manifest_well =
      element-Neutral "IRTransmissionManifest" (leaves (manifest_leaves t.manifest)) refl
        (leaves-Neutral (manifest_leaves t.manifest) (refl, (refl, (refl, (refl, tt))))) in
    let group_well =
      element-Neutral "IRSubmission1Grp" (group_tokens t.group) refl
        (group_tokens-Neutral t.group) in
    let well = append-Neutral manifest group manifest_well group_well 0 (end_element ∷ []) in well
