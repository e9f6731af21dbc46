-- ===== src/IrsClient.antt =====
-- service/internal/irsclient/client.go: what the client makes of the replies of the IRS.
pub mod Shapes
pub mod Accepting
use soraban.Shared.{
  ℕ, suc, zero, ◌+◌, ◌-◌, ◌==◌, Bool, true, false, not, ◌&&◌, ◌||◌, ltb, String, str_eq, Option,
  none, some, List, [], ◌∷◌, if◌then◌else◌, length, is_blank, map, is_some, find_where,
}
use soraban.Lifecycle.{Bytes, FilingOutcome}
use soraban.Store.Acknowledge.{is_rejection_reason}
use soraban.Worker.Process.{
  SearchType, Answer, answered, protocol_error, transport_error, SubmitResult, StatusResult,
}

abbrev pub max_response_bytes : ℕ
max_response_bytes = 1048576

-- The tokens of `encoding/xml` that matter: a start is plain where it has neither a name space nor
-- attributes.
pub data Token : Type 0 where
  start_element : String → Bool → Token
  end_element : Token
  char_data : String → Token
  other_token : Token

-- `wireResult`, `statusResponse`.
pub record WireResult : Type 0 where
  pub filing_key : String
  pub status : String
  pub record_id : String
  pub reason : String

pub record StatusResponse : Type 0 where
  pub receipt_id : String
  pub utid : String
  pub status : String
  pub results : List WireResult

-- What `encoding/xml` makes of a payload: its tokens, with whether they end without an error, and
-- the values that Unmarshal decodes.
pub record Xml : Type 0 where
  pub tokens : Bytes → List Token × Bool
  pub receipt : Bytes → Option String
  pub status_response : Bytes → Option StatusResponse
  pub error_code : Bytes → Option String

-- A reply of the server: whether its media type is application/xml, and its body, if it can be read.
pub record Response : Type 0 where
  pub status_code : ℕ
  pub is_xml : Bool
  pub body : Option Bytes

-- `readResponse`; of a longer body one byte more than the limit is read.
unfoldable pub read_body : Option Bytes → Answer Bytes
read_body none = transport_error
read_body (some payload) =
    if ltb max_response_bytes (length payload) then protocol_error else answered payload

unfoldable pub read_response : Response → Answer Bytes
read_response r = if r.is_xml then read_body r.body else protocol_error

unfoldable pub is_allowed : List String → String → Bool
is_allowed allowed name = is_some (find_where (λ a. str_eq a name) allowed)

-- The loop of `decodeStrict` over the tokens, and the test after it. The decoder itself reports an
-- end that has no start.
unfoldable pub is_strict : String → List String → ℕ → ℕ → List Token → Bool
unfolding is_allowed
is_strict root allowed depth roots [] = roots == 1 && depth == 0
is_strict root allowed depth roots (start_element name plain ∷ ts) =
    let inside = is_strict root allowed (suc depth) roots ts in
    let outermost = is_strict root allowed (suc depth) (suc roots) ts in
    plain
    && is_allowed allowed name
    && (if depth == 0 then str_eq name root && outermost else inside)
is_strict root allowed depth roots (end_element ∷ ts) = is_strict root allowed (depth - 1) roots ts
is_strict root allowed depth roots (char_data text ∷ ts) =
    let rest = is_strict root allowed depth roots ts in (not (depth == 0) || is_blank text) && rest
is_strict root allowed depth roots (other_token ∷ ts) = is_strict root allowed depth roots ts

unfoldable pub valid_transmission_status : String → Bool
valid_transmission_status status =
    str_eq status "Processing"
    || str_eq status "Accepted"
    || str_eq status "PartiallyAccepted"
    || str_eq status "Rejected"

-- `validReason` is the test of `isRejectionReason`.
unfoldable pub is_accepted_result : WireResult → Bool
is_accepted_result r =
    str_eq r.status "Accepted" && not (str_eq r.record_id "") && str_eq r.reason ""

unfoldable pub is_rejected_result : WireResult → Bool
is_rejected_result r =
    str_eq r.status "Rejected" && str_eq r.record_id "" && is_rejection_reason r.reason

unfoldable pub outcome_of : WireResult → FilingOutcome
outcome_of r = record {
  filing_key = r.filing_key;
  irs_record_id = r.record_id;
  rejection_reason = r.reason;
}

-- The loop over the results; `none` where one is invalid.
cons_outcome : WireResult → Option (List FilingOutcome) → Option (List FilingOutcome)
cons_outcome r none = none
cons_outcome r (some os) = some (outcome_of r ∷ os)

unfoldable pub outcomes_of : List WireResult → Option (List FilingOutcome)
unfolding cons_outcome
outcomes_of [] = some []
outcomes_of (r ∷ rs) =
    let rest = outcomes_of rs in
    if str_eq r.filing_key "" || (not (is_accepted_result r) && not (is_rejected_result r))
    then none
    else cons_outcome r rest

-- The last checks of `Status`.
with_outcomes : ℕ → StatusResponse → Option (List FilingOutcome) → Answer StatusResult
with_outcomes code r none = protocol_error
with_outcomes code r (some os) =
    if not (str_eq r.status "Processing") && length os == 0
    then protocol_error
    else answered (record {
      status_code = code;
      error_code = "";
      receipt_id = r.receipt_id;
      utid = r.utid;
      status = r.status;
      outcomes = os;
    })

unfoldable pub check_status : ℕ → StatusResponse → Answer StatusResult
unfolding with_outcomes
check_status code r =
    if str_eq r.receipt_id "" || str_eq r.utid "" || not (valid_transmission_status r.status)
    then protocol_error
    else if str_eq r.status "Processing" && not (length r.results == 0)
    then protocol_error
    else with_outcomes code r (outcomes_of r.results)

module _ (xml : Xml) where
  -- `decodeStrict`, `read` being what Unmarshal makes of the payload.
  decoded : {A : Type 0} → String → List String → (Bytes → Option A) → Bytes → Option A
  decoded root allowed read payload =
      if (xml.tokens payload).1 && is_strict root allowed 0 0 (xml.tokens payload).0
      then read payload
      else none

  error_of : Option String → Option String
  error_of none = none
  error_of (some code) = if str_eq code "" then none else some code

  -- `decodeError`.
  unfoldable pub decode_error : Bytes → Option String
  unfolding decoded error_of
  decode_error payload = error_of (
      decoded "ErrorResponse" ("ErrorResponse" ∷ "ErrorCd" ∷ "ErrorMessageTxt" ∷ []) xml.error_code
        payload)

  submit_refused : ℕ → Option String → Answer SubmitResult
  submit_refused code none = protocol_error
  submit_refused code (some e) =
      answered (record { status_code = code; error_code = e; receipt_id = "" })

  submit_received : ℕ → Option String → Answer SubmitResult
  submit_received code none = protocol_error
  submit_received code (some receipt) =
      if is_blank receipt
      then protocol_error
      else answered (record { status_code = code; error_code = ""; receipt_id = receipt })

  submit_payload : ℕ → Answer Bytes → Answer SubmitResult
  unfolding submit_refused submit_received decoded
  submit_payload code protocol_error = protocol_error
  submit_payload code transport_error = transport_error
  submit_payload code (answered payload) =
      if code == 200
      then submit_received code (decoded "ReceiptId" ("ReceiptId" ∷ []) xml.receipt payload)
      else submit_refused code (decode_error payload)

  -- `Submit` after the request, of which `none` is a failure.
  unfoldable pub submit_reply : Option Response → Answer SubmitResult
  unfolding submit_payload
  submit_reply none = transport_error
  submit_reply (some r) = submit_payload r.status_code (read_response r)

  status_refused : ℕ → Option String → Answer StatusResult
  status_refused code none = protocol_error
  status_refused code (some e) = answered (record {
    status_code = code;
    error_code = e;
    receipt_id = "";
    utid = "";
    status = "";
    outcomes = [];
  })

  status_received : ℕ → Option StatusResponse → Answer StatusResult
  status_received code none = protocol_error
  status_received code (some r) = check_status code r

  status_payload : ℕ → Answer Bytes → Answer StatusResult
  unfolding status_refused status_received decoded
  status_payload code protocol_error = protocol_error
  status_payload code transport_error = transport_error
  status_payload code (answered payload) =
      if code == 200
      then status_received code (
          decoded "TransStatusOrAckResponse"
            ("TransStatusOrAckResponse" ∷ "ReceiptId" ∷ "UniqueTransmissionId"
              ∷ "TransmissionStatusCd" ∷ "RecordResultGrp" ∷ "RecordId" ∷ "RecordStatusCd"
              ∷ "IRSRecordId" ∷ "ErrorReasonCd" ∷ [])
            xml.status_response payload)
      else status_refused code (decode_error payload)

  -- `Status`: a query that lacks the firm or the value is refused before anything is sent.
  unfoldable pub status_reply : String → String → Option Response → Answer StatusResult
  unfolding status_payload
  status_reply firm value none = transport_error
  status_reply firm value (some r) =
      if str_eq firm "" || str_eq value ""
      then transport_error
      else status_payload r.status_code (read_response r)
