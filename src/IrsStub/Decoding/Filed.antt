-- ===== src/IrsStub/Decoding/Filed.antt =====
-- postgres/internal/store/filing.go `PlanBatches` and irs/internal/stub/server.go
-- `decodeTransmission`: the IRS reads in a planned batch the filings that it was planned of.
pub mod Batch
use soraban.Shared.{
  ℕ, suc, ◌+◌, ◌≤◌, ◌==◌, Bool, true, false, not, ◌||◌, ltb, String, str_append, str_eq, as_text,
  codes, codes-str_append, Option, none, some, List, [], ◌∷◌, ◌++◌, map, length, length-map, All,
  ◌≡◌, refl, sym, ap, ◌∙◌, arith, Bool-cases, inl, inr, eq_iff, eq_refl, if◌then◌else◌,
}
use soraban.Lifecycle.{Bytes}
use soraban.Store.Tables.{Filing}
use soraban.Store.Plan.Writing.{Detail, Planning, PlannedBatch, plan_groups, plan_encoded}
use soraban.Store.Identity.Money.{decimal, digits}
use soraban.Store.Identity.Reference.{hex, slice, batch_identity}
use soraban.Store.Identity.Xml.{
  XmlTransmission, xml_header, upper, submission_id_of, xml_transmission, with_header,
  canonical_xml, identities,
}
use soraban.Shared.Int.{pos}
use soraban.IrsStub.Model.{FilingRecord, Transmission}
use soraban.IrsStub.Decoding.{
  ManifestXml, SubmissionHeaderXml, FilingRecordXml, is_utid, is_valid, decode_records,
  the_transmission, transmission_of, lacks_names, is_other_form, counts, is_miscounted, checked,
  of_headers, of_parts, of_document, decode_transmission, utid_pattern, uuid_pattern, hexes,
  matches,
}
use soraban.IrsStub.Decoding.Utid.{Octets, batch_identity-is_utid}
use soraban.IrsStub.Decoding.Marshalled.{
  record_xml, manifest_xml, header_xml, document_of, Read, valid_elements-tokens_of,
}
use soraban.IrsStub.Decoding.Planned.{
  Fit, DistinctKeys, Unseen, filed_record, detail, empty_text, decode_records-filed,
}

submission_id_of-named : (digest : Bytes) → str_eq (submission_id_of digest) "" ≡ false
unfolding submission_id_of
submission_id_of-named digest = elim (Bool-cases (str_eq (submission_id_of digest) "")) [
  | inl e ↦
      let nothing = empty_text (submission_id_of digest) e in
      let written = codes-str_append "SUB-" (as_text (upper (hex (slice 0 12 digest)))) in
      absurd (cc (nothing, written))
  | inr e ↦ e
]

nothing_matches : (firm : String) (utid : String) → codes utid ≡ [] → is_utid firm utid ≡ false
unfolding is_utid utid_pattern uuid_pattern hexes matches
nothing_matches firm utid h = rw h refl

is_utid-named : (firm utid : String) → is_utid firm utid ≡ true → str_eq utid "" ≡ false
is_utid-named firm utid h = elim (Bool-cases (str_eq utid "")) [
  | inl e ↦
      let none_of_it = nothing_matches firm utid (empty_text utid e) in absurd (cc (none_of_it, h))
  | inr e ↦ e
]

year_text : as_text (decimal 2025) ≡ "2025"
unfolding as_text decimal digits
year_text = refl

counted :
    (header : SubmissionHeaderXml) (rs : List FilingRecordXml) (n : ℕ)
    → header.reported_recipient_cnt ≡ pos n
    → length rs ≡ n
    → (1 ≤ n) × (n ≤ 100)
    → is_miscounted header rs ≡ false
unfolding is_miscounted counts
counted header rs n h k (low, high) = rw (h, k) (ground (arith, low, high))

-- What `checked` lets through.
checked-lets :
    (manifest : ManifestXml) (header : SubmissionHeaderXml) (rs : List FilingRecordXml)
    (records : List FilingRecord)
    → lacks_names manifest header ≡ false
    → is_other_form manifest header ≡ false
    → is_utid manifest.transmitter_control_cd manifest.unique_transmission_id ≡ true
    → is_miscounted header rs ≡ false
    → decode_records [] rs ≡ some records
    → checked manifest header rs ≡ some (the_transmission manifest header records)
unfolding checked transmission_of
checked-lets manifest header rs records a b c d e = rw (a, b, c, d, e) refl

is_other_form-of_2025 :
    (utid firm client : String) (year : ℕ) (details : List Detail) (digest : Bytes)
    → year ≡ 2025
    → is_other_form
        (manifest_xml (xml_transmission firm client year utid details digest).manifest)
        (header_xml (xml_transmission firm client year utid details digest).group.header)
      ≡ false
unfolding is_other_form manifest_xml header_xml xml_transmission
is_other_form-of_2025 utid firm client year details digest h = rw (h, year_text) refl

module _ (marshal : XmlTransmission → Option Bytes) (sha256 : Bytes → Bytes) (utf8 : String → Bytes)
    (text_before : String → String → Bool) where
  abbrev pub identity_of : String → Filing → List Filing → Bytes × String
  identity_of firm f fs =
      batch_identity sha256 utf8 firm f.client_id f.tax_year
        (map (λ (g : Filing). g.filing_key) (f ∷ fs))

  -- What is marshalled for a group of filings.
  abbrev pub planned_xml : String → Filing → List Filing → XmlTransmission
  planned_xml firm f fs =
      xml_transmission firm f.client_id f.tax_year (identity_of firm f fs).1
        (map (detail marshal sha256 utf8 text_before) (f ∷ fs)) (identity_of firm f fs).0

  -- What is filed with it.
  abbrev pub filed_transmission : String → Filing → List Filing → Transmission
  filed_transmission firm f fs = record {
    firm_id = firm;
    client_id = f.client_id;
    tax_year = "2025";
    utid = (identity_of firm f fs).1;
    submission_id = submission_id_of (identity_of firm f fs).0;
    records = map filed_record (f ∷ fs);
  }

  -- A group that the IRS takes: of a firm and a client with names, of 2025, at most 100 filings.
  pub record Fileable (firm : String) (f : Filing) (fs : List Filing) : Type 0 where
    pub has_firm : str_eq firm "" ≡ false
    pub has_client : str_eq f.client_id "" ≡ false
    pub of_2025 : f.tax_year ≡ 2025
    pub at_most_100 : length (f ∷ fs) ≤ 100
    pub all_fit : All Fit (f ∷ fs)
    pub distinct : DistinctKeys (f ∷ fs)

  none_seen : (fs : List Filing) → All (Unseen []) fs
  none_seen [] = tt
  none_seen (f ∷ fs) = (refl, none_seen fs)

  pub document-Filed :
      ((bs : Bytes) → (16 ≤ length (sha256 bs)) × Octets (sha256 bs))
      → (firm : String) (f : Filing) (fs : List Filing) → Fileable firm f fs
      → of_document (some (document_of (planned_xml firm f fs)))
        ≡ some (filed_transmission firm f fs)
  unfolding of_document of_parts of_headers document_of xml_transmission manifest_xml header_xml
      lacks_names the_transmission
  document-Filed hash firm f fs g =
      let digest = (identity_of firm f fs).0 in
      let utid = (identity_of firm f fs).1 in
      let details = map (detail marshal sha256 utf8 text_before) (f ∷ fs) in
      let shape =
        batch_identity-is_utid sha256 utf8 hash firm f.client_id f.tax_year
          (map (λ (h : Filing). h.filing_key) (f ∷ fs)) in
      let size = length-map (detail marshal sha256 utf8 text_before) (f ∷ fs) in
      let wire_size = length-map record_xml details in
      let t = xml_transmission firm f.client_id f.tax_year utid details digest in
      let lets =
        checked-lets (manifest_xml t.manifest) (header_xml t.group.header) (map record_xml details)
          (map filed_record (f ∷ fs))
          (rw
            (is_utid-named firm utid shape, g.has_firm, submission_id_of-named digest, g.has_client)
            refl)
          (is_other_form-of_2025 utid firm f.client_id f.tax_year details digest g.of_2025) shape
          (counted (header_xml t.group.header) (map record_xml details) (length details) refl
            wire_size (omega (arith, size), omega (arith, size, g.at_most_100)))
          (decode_records-filed marshal sha256 utf8 text_before [] (f ∷ fs) g.all_fit g.distinct
            (none_seen (f ∷ fs))) in
      let year : as_text (decimal f.tax_year) ≡ "2025" =
        ap (λ y. as_text (decimal y)) g.of_2025 ∙ year_text in
      lets ∙ ap (λ y. some (record (filed_transmission firm f fs) { tax_year = y })) year
