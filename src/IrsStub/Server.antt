-- ===== src/IrsStub/Server.antt =====
-- irs/internal/stub/server.go: the handlers of the two operations. What net/http, mime and
-- mime/multipart make of a request is a part of it: a `media_type` is what `mediaType` returns of a
-- `Content-Type`, and a body is `none` where reading it fails. The texts of error messages are left
-- out of the replies, and the log too.
pub mod Serving
pub mod Understanding
pub mod Answers
use soraban.Shared.{
  ℕ, zero, suc, ◌+◌, ◌==◌, Bool, true, false, not, ◌&&◌, ◌||◌, leb, String, str_eq, str_append,
  Option, none, some, is_some, List, [], ◌∷◌, length, map, count_where, if◌then◌else◌,
}
use soraban.Lifecycle.{Bytes}
use soraban.IrsClient.{WireResult, StatusResponse}
use soraban.IrsStub.Model.{
  Float, Transmission, RecordResult, Submission, Refusal, duplicate_utid, duplicate_record, Intake,
  IntakeFault, intake_succeeded, fail_before_record, fail_after_record, refused, faulted, received,
  Store, find_by_utid, find_by_receipt_id,
}
use soraban.IrsStub.Intake.{Percentages, Draws, record_transmission}
use soraban.IrsStub.Decoding.{
  StatusRequestXml, RequestXml, decode_transmission, decode_status_request,
}

pub record Part : Type 0 where
  pub form_name : String
  pub file_name : String
  pub media_type : String
  pub content : Option Bytes

-- The results of `NextPart`, until the end or an error.
pub data Parts : Type 0 where
  end_of_parts broken : Parts
  part : Part → Parts → Parts

-- `parts` is `none` where `MultipartReader` fails, `body` are the bytes of the request.
pub record Request : Type 0 where
  pub authorization : String
  pub accept : String
  pub media_type : String
  pub parts : Option Parts
  pub body : Option Bytes

-- The payload of an upload, or which of the two kinds of error there is.
pub data Upload : Type 0 where
  unsupported invalid : Upload
  uploaded : Bytes → Upload

pub data ReplyBody : Type 0 where
  error_body : String → ReplyBody
  receipt_body : String → ReplyBody
  status_body : StatusResponse → ReplyBody

pub record Reply : Type 0 where
  pub status : ℕ
  pub body : ReplyBody

abbrev pub refuse : ℕ → String → Reply
refuse status code = record { status = status; body = error_body code }

abbrev pub succeed : ReplyBody → Reply
succeed body = record { status = 200; body = body }

only_payload : Bytes → Parts → Upload
only_payload [] rest = invalid
only_payload (b ∷ bs) end_of_parts = uploaded (b ∷ bs)
only_payload (b ∷ bs) _ = invalid

of_content : Option Bytes → Parts → Upload
unfolding only_payload
of_content none rest = invalid
of_content (some bytes) rest = only_payload bytes rest

of_multipart : Option Parts → Upload
unfolding of_content
of_multipart (some (part p rest)) =
    if not (str_eq p.form_name "file") || str_eq p.file_name ""
    then invalid
    else if not (str_eq p.media_type "text/xml") && not (str_eq p.media_type "application/xml")
    then unsupported
    else of_content p.content rest
of_multipart _ = invalid

unfoldable pub read_multipart_xml : Request → Upload
unfolding of_multipart
read_multipart_xml request =
    if str_eq request.media_type "multipart/form-data"
    then of_multipart request.parts
    else unsupported

unfoldable pub is_authorized : String → Request → Bool
is_authorized bearer request = str_eq request.authorization (str_append "Bearer " bearer)

unfoldable pub intake_reply : Intake → Reply
intake_reply (refused duplicate_utid) = refuse 409 "DUPLICATE_UTID"
intake_reply (refused duplicate_record) = refuse 409 "DUPLICATE_RECORD"
intake_reply (faulted _) = refuse 503 "SERVICE_UNAVAILABLE"
intake_reply (received receipt intake_succeeded) = succeed (receipt_body receipt)
intake_reply (received receipt fail_before_record) = refuse 503 "SERVICE_UNAVAILABLE"
intake_reply (received receipt fail_after_record) = refuse 503 "SERVICE_UNAVAILABLE"

pub wire_result : RecordResult → WireResult
wire_result r = record {
  filing_key = r.record_id;
  status = r.status;
  record_id = r.irs_record_id;
  reason = r.error_reason;
}

is_accepted_record : RecordResult → Bool
is_accepted_record r = str_eq r.status "Accepted"

unfoldable pub transmission_status : List RecordResult → String
unfolding is_accepted_record
transmission_status results =
    let accepted = count_where is_accepted_record results in
    if accepted == length results
    then "Accepted"
    else if accepted == 0
    then "Rejected"
    else "PartiallyAccepted"

-- Whether the acknowledgment is there at the time `now`.
unfoldable pub is_available : Option ℕ → ℕ → Bool
is_available none now = false
is_available (some t) now = leb t now

unfoldable pub response_of : ℕ → Submission → StatusResponse
unfolding wire_result
response_of now s =
    let available = is_available s.available_at now in
    record {
      receipt_id = s.receipt_id;
      utid = s.utid;
      status = if available then transmission_status s.results else "Processing";
      results = if available then map wire_result s.results else [];
    }

found_reply : ℕ → Option Submission → Reply
found_reply now none = refuse 404 "NOT_FOUND"
found_reply now (some s) = succeed (status_body (response_of now s))

unfoldable pub status_of : ℕ → Store → StatusRequestXml → Reply
unfolding found_reply
status_of now store search =
    if str_eq search.search_parameter_type "RECEIPTID"
    then found_reply now
        (find_by_receipt_id search.transmitter_control_cd search.search_parameter_text store)
    else if str_eq search.search_parameter_type "UTID"
    then found_reply now (
        find_by_utid search.transmitter_control_cd search.search_parameter_text
          store.by_firm_and_utid)
    else refuse 400 "INVALID_REQUEST"

status_decoded : ℕ → Store → Option StatusRequestXml → Reply
status_decoded now store none = refuse 400 "INVALID_REQUEST"
status_decoded now store (some search) = status_of now store search

module _ (xml : RequestXml) (bearer : String) where
  status_read : ℕ → Store → Option Bytes → Reply
  unfolding status_decoded
  status_read now store none = refuse 400 "INVALID_REQUEST"
  status_read now store (some bytes) = status_decoded now store (decode_status_request xml bytes)

  unfoldable pub handle_status : ℕ → Store → Request → Reply
  unfolding status_read
  handle_status now store request =
      if not (is_authorized bearer request)
      then refuse 401 "UNAUTHORIZED"
      else if not (str_eq request.accept "application/xml")
          || not (str_eq request.media_type "application/xml")
      then refuse 415 "UNSUPPORTED_MEDIA_TYPE"
      else status_read now store request.body

  module _ (F : Float) (config : Percentages F) (draws : Draws F) (store : Store) where
    replied : Option (Intake × Store) → Option (Reply × Store)
    replied none = none
    replied (some (intake, store')) = some (intake_reply intake, store')

    intake_decoded : Option Transmission → Option (Reply × Store)
    unfolding replied
    intake_decoded none = some (refuse 400 "INVALID_REQUEST", store)
    intake_decoded (some input) = replied (record_transmission F config draws input store)

    intake_upload : Upload → Option (Reply × Store)
    unfolding intake_decoded
    intake_upload unsupported = some (refuse 415 "UNSUPPORTED_MEDIA_TYPE", store)
    intake_upload invalid = some (refuse 400 "INVALID_REQUEST", store)
    intake_upload (uploaded bytes) = intake_decoded (decode_transmission xml bytes)

    -- `none` where `draws` has too few values.
    unfoldable pub handle_intake : Request → Option (Reply × Store)
    unfolding intake_upload
    handle_intake request =
        if not (is_authorized bearer request)
        then some (refuse 401 "UNAUTHORIZED", store)
        else if not (str_eq request.accept "application/xml")
        then some (refuse 415 "UNSUPPORTED_MEDIA_TYPE", store)
        else intake_upload (read_multipart_xml request)
