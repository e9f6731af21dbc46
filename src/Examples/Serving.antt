-- ===== src/Examples/Serving.antt =====
-- A request to the intake of the stub, and a question about it.
use soraban.Shared.{true, none, some, [], ◌∷◌, ◌≡◌, refl, arith, as_text, codes}
use soraban.Shared.Int.{pos}
use soraban.Lifecycle.{Bytes}
use soraban.IrsClient.{start_element, end_element, StatusResponse}
use soraban.Store.Identity.Reference.{hex, hex_digit, batch_identity}
use soraban.IrsStub.Money.{
  is_digit, is_amount, is_money, without_point, scan, parse_int, parse_cents,
}
use soraban.IrsStub.Model.{
  new_store, find_by_utid, original_key, any_known, is_nine_digits, starts_with_000, rejection,
  new_opaque_id, result_for,
}
use soraban.IrsStub.Intake.{
  results_for, stored, classify_intake_fault, availability, record_transmission,
}
use soraban.IrsStub.Decoding.{
  TransmissionXml, StatusRequestXml, RequestXml, valid_elements, matches, is_hex, literal, hexes,
  dashed, uuid_pattern, utid_pattern, is_utid, decode_records, checked, of_document,
  decode_transmission,
}
use soraban.IrsStub.Decoding.Utid.{batch_identity-is_utid}
use soraban.IrsStub.Decoding.WellFormed.{WellFormed, decode_transmission-WellFormed}
use soraban.IrsStub.Server.{
  Request, part, end_of_parts, succeed, status_body, refuse, read_multipart_xml, is_authorized,
  intake_reply, handle_intake, transmission_status, is_available, response_of, status_of,
}
use soraban.IrsStub.Server.Serving.{Served, idle, served, Sent}
use soraban.IrsStub.Server.Understanding.{Understood, status_of-Understood}
use soraban.Examples.Batches.{hash, digest}
use soraban.Examples.Stub.{percent, config, draws, utid, input, store}

abbrev document : TransmissionXml
document = record {
  manifests =
      record {
        unique_transmission_id = utid;
        transmitter_control_cd = "F001";
        transmission_type_cd = "O";
        tax_year = "2025";
      }
      ∷ [];
  submissions =
      record {
        headers =
            record {
              submission_id = "SUB-1";
              client_id = "C1";
              form_type_cd = "1099-NEC";
              reported_recipient_cnt = pos 2;
            }
            ∷ [];
        records =
            record {
              record_id = "k1";
              recipient_name = "Ann";
              recipient_tin = "123456789";
              nonemployee_compensation_amount = "600.00";
              federal_income_tax_withheld_amount = "0.00";
            }
            ∷ record {
              record_id = "k2";
              recipient_name = "Bob";
              recipient_tin = "000456789";
              nonemployee_compensation_amount = "700.00";
              federal_income_tax_withheld_amount = "0.00";
            }
            ∷ [];
      }
      ∷ [];
}

-- A decoder that knows one payload.
abbrev xml : RequestXml
xml = record {
  tokens = λ _. (start_element "IRTransmission" true ∷ end_element ∷ [], true);
  transmission = λ _. some document;
  status_request = λ _. none;
}

abbrev payload : Bytes
payload = 60 ∷ []

input_decoded : decode_transmission xml payload ≡ some input
unfolding decode_transmission valid_elements of_document checked is_utid utid_pattern uuid_pattern
    dashed literal hexes matches is_hex is_digit decode_records parse_cents is_money is_amount
    without_point parse_int scan
input_decoded = refl

decode_transmission-WellFormed_example : WellFormed input
decode_transmission-WellFormed_example =
    decode_transmission-WellFormed xml payload input input_decoded

abbrev request : Request
request = record {
  authorization = "Bearer secret";
  accept = "application/xml";
  media_type = "multipart/form-data";
  parts = some (
      part
        (record {
          form_name = "file";
          file_name = "t.xml";
          media_type = "text/xml";
          content = some payload;
        })
        end_of_parts);
  body = none;
}

-- The answer is a failure, but the transmission is recorded.
failed :
    handle_intake xml "secret" percent config draws new_store request
    ≡ some (refuse 503 "SERVICE_UNAVAILABLE", store)
unfolding handle_intake is_authorized read_multipart_xml intake_reply decode_transmission
    valid_elements of_document checked is_utid utid_pattern uuid_pattern dashed literal hexes
    matches is_hex is_digit decode_records parse_cents is_money is_amount without_point parse_int
    scan record_transmission find_by_utid any_known original_key classify_intake_fault new_store
    new_opaque_id results_for result_for rejection is_nine_digits starts_with_000 stored
    availability hex hex_digit as_text
failed = refl

abbrev search : StatusRequestXml
search = record {
  transmitter_control_cd = "F001";
  search_parameter_type = "UTID";
  search_parameter_text = utid;
}

abbrev response : StatusResponse
response = record {
  receipt_id = "rcpt_11";
  utid = utid;
  status = "PartiallyAccepted";
  results =
      record { filing_key = "k1"; status = "Accepted"; record_id = "irsrec_ab"; reason = "" }
      ∷ record { filing_key = "k2"; status = "Rejected"; record_id = ""; reason = "TIN_INVALID" }
      ∷ [];
}

partly_accepted : status_of 20000001000 store search ≡ succeed (status_body response)
unfolding status_of find_by_utid response_of transmission_status is_available
partly_accepted = refl

abbrev one_request : Served xml "secret" percent new_store store
one_request = served config draws request (refuse 503 "SERVICE_UNAVAILABLE") failed idle

status_of-Understood_example :
    Understood (λ t. Sent t one_request) 20000001000 store search response
status_of-Understood_example =
    status_of-Understood xml "secret" percent store 20000001000 search response one_request
      partly_accepted

batch_identity-is_utid_example :
    is_utid "F001" (batch_identity hash codes "F001" "C1" 2025 (digest ∷ [])).1 ≡ true
batch_identity-is_utid_example =
    batch_identity-is_utid hash codes (λ _. (omega arith, ground arith)) "F001" "C1" 2025
      (digest ∷ [])
