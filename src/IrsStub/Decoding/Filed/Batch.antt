-- ===== src/IrsStub/Decoding/Filed/Batch.antt =====
-- postgres/internal/store/filing.go `PlanBatches`: the batch of a group of filings, and what
-- `decodeTransmission` of irs/internal/stub/server.go reads in it.
use soraban.Shared.{◌≤◌, Bool, String, Option, some, List, ◌∷◌, ◌++◌, map, length, ◌≡◌, refl, ap}
use soraban.Lifecycle.{Bytes}
use soraban.Store.Tables.{Filing}
use soraban.Store.Plan.Writing.{Planning, PlannedBatch, plan_groups, plan_encoded}
use soraban.Store.Identity.Xml.{XmlTransmission, xml_header, with_header, canonical_xml, identities}
use soraban.IrsStub.Decoding.{RequestXml, is_valid, decode_transmission}
use soraban.IrsStub.Decoding.Utid.{Octets}
use soraban.IrsStub.Decoding.Marshalled.{Read, valid_elements-tokens_of}
use soraban.IrsStub.Decoding.Planned.{detail}
use soraban.IrsStub.Decoding.Filed.{
  identity_of, planned_xml, filed_transmission, Fileable, document-Filed,
}

module _ (marshal : XmlTransmission → Option Bytes) (sha256 : Bytes → Bytes) (utf8 : String → Bytes)
    (text_before : String → String → Bool) (xml : RequestXml) where
  decode-Filed :
      ((bs : Bytes) → (16 ≤ length (sha256 bs)) × Octets (sha256 bs))
      → (firm : String) (f : Filing) (fs : List Filing) (payload : Bytes)
      → Fileable marshal sha256 utf8 text_before firm f fs
      → Read xml (planned_xml marshal sha256 utf8 text_before firm f fs) payload
      → decode_transmission xml payload
        ≡ some (filed_transmission marshal sha256 utf8 text_before firm f fs)
  unfolding decode_transmission is_valid
  decode-Filed hash firm f fs payload g r =
      let known =
        valid_elements-tokens_of (planned_xml marshal sha256 utf8 text_before firm f fs) in
      rw (r.tokens, known, r.transmission)
        (document-Filed marshal sha256 utf8 text_before hash firm f fs g)

  -- The batch that planning makes first, and what the IRS reads in it.
  pub record FirstFiled (firm : String) (f : Filing) (fs : List Filing) (plan : Planning)
      : Type 0 where
    pub batch : PlannedBatch
    pub others : List PlannedBatch
    pub first : plan.0 ≡ batch ∷ others
    pub utid : batch.utid ≡ (identity_of marshal sha256 utf8 text_before firm f fs).1
    pub decoded :
        decode_transmission xml batch.canonical_xml
        ≡ some (filed_transmission marshal sha256 utf8 text_before firm f fs)

  encoded-Filed :
      ((bs : Bytes) → (16 ≤ length (sha256 bs)) × Octets (sha256 bs))
      → (firm : String) (f : Filing) (fs : List Filing) (encoded : Bytes)
      → Fileable marshal sha256 utf8 text_before firm f fs
      → Read xml (planned_xml marshal sha256 utf8 text_before firm f fs) (xml_header ++ encoded)
      → (rest : Planning)
      → (plan : Planning) × ((plan_encoded sha256
              (identities marshal sha256 utf8)
              text_before
              firm
              f
              fs
              (identity_of marshal sha256 utf8 text_before firm f fs).1
              (some (xml_header ++ encoded))
              (some rest)
            ≡ some plan)
          × FirstFiled firm f fs plan)
  unfolding plan_encoded
  encoded-Filed hash firm f fs encoded g r (batches, links) = (
    _,
    (
      refl,
      record {
        batch = record {
          client_id = f.client_id;
          tax_year = f.tax_year;
          utid = (identity_of marshal sha256 utf8 text_before firm f fs).1;
          canonical_xml = xml_header ++ encoded;
          payload_hash = sha256 (xml_header ++ encoded);
        };
        others = batches;
        first = refl;
        utid = refl;
        decoded = decode-Filed hash firm f fs (xml_header ++ encoded) g r;
      },
    ),
  )

  -- For a group of at most 100 filings of 2025 with distinct keys of bytes and amounts above the
  -- least int64, of a named firm and client, where the hash has 16 bytes, the encoding succeeds,
  -- the decoder reads the payload as what was encoded, and the groups after it are planned:
  -- planning succeeds, and the stub decodes the first batch to a transmission of that firm and
  -- client with the batch's UTID and, in order, the key, name, TIN and amounts of each filing.
  pub plan_groups-Filed :
      ((bs : Bytes) → (16 ≤ length (sha256 bs)) × Octets (sha256 bs))
      → (firm : String) (f : Filing) (fs : List Filing) (gs : List (List Filing)) (encoded : Bytes)
      → Fileable marshal sha256 utf8 text_before firm f fs
      → marshal (planned_xml marshal sha256 utf8 text_before firm f fs) ≡ some encoded
      → Read xml (planned_xml marshal sha256 utf8 text_before firm f fs) (xml_header ++ encoded)
      → (rest : Planning)
      → plan_groups sha256 (identities marshal sha256 utf8) text_before firm gs ≡ some rest
      → (plan : Planning) × ((plan_groups sha256
              (identities marshal sha256 utf8)
              text_before
              firm
              ((f ∷ fs) ∷ gs)
            ≡ some plan)
          × FirstFiled firm f fs plan)
  unfolding plan_groups canonical_xml with_header identities
  plan_groups-Filed hash firm f fs gs encoded g m r rest others =
      let (plan, (made, filed)) = encoded-Filed hash firm f fs encoded g r rest in
      let written : canonical_xml marshal firm f.client_id f.tax_year
            (identity_of marshal sha256 utf8 text_before firm f fs).1
            (map (detail marshal sha256 utf8 text_before) (f ∷ fs))
            (identity_of marshal sha256 utf8 text_before firm f fs).0
          ≡ some (xml_header ++ encoded) =
        ap with_header m in
      (plan, (rw (written, others) made, filed))
