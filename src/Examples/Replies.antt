-- ===== src/Examples/Replies.antt =====
-- A status response of two results.
use soraban.Shared.{true, none, some, [], ◌∷◌, ◌≡◌, refl}
use soraban.Store.Acknowledge.{is_rejection_reason}
use soraban.Worker.Process.{answered, StatusResult}
use soraban.IrsClient.{
  start_element, end_element, char_data, StatusResponse, Xml, Response, status_reply, read_response,
  read_body, is_strict, check_status, valid_transmission_status, outcomes_of, is_accepted_result,
  is_rejected_result, outcome_of,
}
use soraban.IrsClient.Shapes.{Complete, status_reply-Complete}

abbrev response : StatusResponse
response = record {
  receipt_id = "R1";
  utid = "u";
  status = "PartiallyAccepted";
  results =
      record { filing_key = "k1"; status = "Accepted"; record_id = "I1"; reason = "" }
      ∷ record { filing_key = "k2"; status = "Rejected"; record_id = ""; reason = "TIN_INVALID" }
      ∷ [];
}

-- A decoder that knows one payload.
abbrev xml : Xml
xml = record {
  tokens = λ _. (
    start_element "TransStatusOrAckResponse" true
        ∷ start_element "ReceiptId" true
        ∷ char_data "R1"
        ∷ end_element
        ∷ end_element
        ∷ [],
    true,
  );
  receipt = λ _. none;
  status_response = λ _. some response;
  error_code = λ _. none;
}

abbrev reply : Response
reply = record { status_code = 200; is_xml = true; body = some (60 ∷ []) }

abbrev result : StatusResult
result = record {
  status_code = 200;
  error_code = "";
  receipt_id = "R1";
  utid = "u";
  status = "PartiallyAccepted";
  outcomes =
      record { filing_key = "k1"; irs_record_id = "I1"; rejection_reason = "" }
      ∷ record { filing_key = "k2"; irs_record_id = ""; rejection_reason = "TIN_INVALID" }
      ∷ [];
}

understood : status_reply xml "F001" "u" (some reply) ≡ answered result
unfolding status_reply read_response read_body is_strict check_status valid_transmission_status
    outcomes_of is_accepted_result is_rejected_result outcome_of is_rejection_reason
understood = refl

status_reply-Complete_example : Complete result
status_reply-Complete_example =
    status_reply-Complete xml "F001" "u" (some reply) result understood refl
