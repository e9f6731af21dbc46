-- ===== src/Store/Identity/Xml.antt =====
-- postgres/internal/store/identity.go: `canonicalXML`, and the identities that planning uses.
use soraban.Shared.{
  ℕ, ◌-◌, ◌&&◌, leb, String, str_append, as_text, codes, Option, none, some, List, ◌++◌, map,
  length, if◌then◌else◌,
}
use soraban.Lifecycle.{Bytes}
use soraban.Store.Plan.Writing.{Detail, Identities}
use soraban.Store.Identity.Money.{format_cents}
use soraban.Store.Identity.Reference.{hex, slice, filing_key_string, batch_identity}

pub record XmlManifest : Type 0 where
  pub utid : String
  pub transmitter : String
  pub transmission_type : String
  pub tax_year : ℕ

pub record XmlHeader : Type 0 where
  pub submission_id : String
  pub client_id : String
  pub form_type : String
  pub count : ℕ

pub record XmlGroup : Type 0 where
  pub header : XmlHeader
  pub details : List Detail

pub record XmlTransmission : Type 0 where
  pub manifest : XmlManifest
  pub group : XmlGroup

-- `xml.Header`.
unfoldable pub xml_header : Bytes
xml_header = codes "<?xml version=\"1.0\" encoding=\"UTF-8\"?>\n"

-- `strings.ToUpper`, of ASCII.
unfoldable pub upper : Bytes → Bytes
upper bs = map (λ c. if leb b'a' c && leb c b'z' then c - 32 else c) bs

unfoldable pub submission_id_of : Bytes → String
submission_id_of digest = str_append "SUB-" (as_text (upper (hex (slice 0 12 digest))))

unfoldable pub xml_transmission :
    String → String → ℕ → String → List Detail → Bytes → XmlTransmission
xml_transmission firm client tax_year utid details digest = record {
  manifest = record {
    utid = utid;
    transmitter = firm;
    transmission_type = "O";
    tax_year = tax_year;
  };
  group = record {
    header = record {
      submission_id = submission_id_of digest;
      client_id = client;
      form_type = "1099-NEC";
      count = length details;
    };
    details = details;
  };
}

unfoldable pub with_header : Option Bytes → Option Bytes
with_header none = none
with_header (some encoded) = some (xml_header ++ encoded)

-- `marshal` is `xml.Marshal`, `utf8` are the bytes of a text.
module _ (marshal : XmlTransmission → Option Bytes) where
  unfoldable pub canonical_xml : String → String → ℕ → String → List Detail → Bytes → Option Bytes
  canonical_xml firm client tax_year utid details digest =
      with_header (marshal (xml_transmission firm client tax_year utid details digest))

  unfoldable pub identities : (Bytes → Bytes) → (String → Bytes) → Identities
  identities sha256 utf8 = record {
    filing_key_string = filing_key_string;
    format_cents = λ cents. as_text (format_cents cents);
    batch_identity = batch_identity sha256 utf8;
    canonical_xml = canonical_xml;
  }
