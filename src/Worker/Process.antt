-- ===== src/Worker/Process.antt =====
-- service/internal/filing/worker.go: `ProcessOne`, `submit`, `status` and what they call, over the
-- lifecycle and the IRS client that the worker is given.
pub mod Protocol
pub mod Submitting
pub mod Asking
pub mod Keeping
use soraban.Shared.{
  ℕ, ◌==◌, Bool, true, false, not, ◌&&◌, ◌||◌, leb, String, str_eq, Option, none, some, List,
  if◌then◌else◌, bytes_eq,
}
use soraban.Shared.Int.{ℤ, pos}
use soraban.Lifecycle.{
  Error, Result, ok, err, Bytes, Duration, BatchAction, lookup_by_utid, poll_status,
  ClaimBatchCommand, Claim, BatchWork, Receipt, RetrySchedule, FilingOutcome, CallOperation,
  CallOutcome, completed, ambiguous, retryable_error, terminal_error, AcquireCallCommand,
  CallResult,
}
use soraban.Store.Machine.{
  Event, submit_accepted, submit_unknown, reference_found, reference_not_found,
  acknowledgment_pending, status_unavailable, retry_exhausted, batch_invariant, acknowledgment,
}
use soraban.Worker.Backoff.{Backoff, delay}

pub data SearchType : Type 0 where
  by_utid by_receipt_id : SearchType

-- What a call of the IRS gives: a decoded response, a `ProtocolError`, or another error.
pub data Answer (A : Type 0) : Type 0 where
  answered : A → Answer A
  protocol_error : Answer A
  transport_error : Answer A

pub record SubmitResult : Type 0 where
  pub status_code : ℕ
  pub error_code : String
  pub receipt_id : String

pub record StatusResult : Type 0 where
  pub status_code : ℕ
  pub error_code : String
  pub receipt_id : String
  pub utid : String
  pub status : String
  pub outcomes : List FilingOutcome

-- What a worker does, as the calls it makes of the lifecycle, of the client and of a permit of type
-- `P`, each with what the worker does for every result of it. `close` stands for `Close`, of which
-- nobody reads the error, `hook` for `afterIRSCall`, and `records` for the calls that end a claim.
pub data Program (P R : Type 0) : Type 0 where
  done : R → Program P R
  claim : ClaimBatchCommand → (Result (Option BatchWork) → Program P R) → Program P R
  acquire : AcquireCallCommand → (Result P → Program P R) → Program P R
  submits : Bytes → (Answer SubmitResult → Program P R) → Program P R
  asks : String → SearchType → String → (Answer StatusResult → Program P R) → Program P R
  hook : Program P R → Program P R
  finish : P → CallResult → (Result (Unit {0}) → Program P R) → Program P R
  close : P → Program P R → Program P R
  records : Claim → Event → (Result (Unit {0}) → Program P R) → Program P R

pub record Worker : Type 0 where
  pub worker_id : String
  pub lease_duration : Duration
  pub backoff : Backoff
  pub has_hook : Bool

abbrev pub failure_or : String → String → String
failure_or code fallback = if str_eq code "" then fallback else code

-- `worker.delay`.
unfoldable pub poll_delay : Backoff → ℕ → Duration
poll_delay backoff attempt = elim (delay backoff attempt) [
  | none ↦ backoff.maximum
  | some d ↦ pos d
]

retry_after : Option ℕ → String → String → String → (RetrySchedule → Event) → Event
retry_after none code exhausted unclear event = retry_exhausted (failure_or code exhausted)
retry_after (some d) code exhausted unclear event =
    event (record { delay = pos d; failure_code = failure_or code unclear })

-- The events that `retrySubmit` and `retryStatus` record.
unfoldable pub retry_submit : Backoff → BatchWork → String → Event
unfolding retry_after
retry_submit backoff work code =
    retry_after (delay backoff work.attempt_count) code "SUBMIT_RETRY_EXHAUSTED" "SUBMIT_UNKNOWN"
      submit_unknown

unfoldable pub retry_status : Backoff → BatchWork → String → Event
unfolding retry_after
retry_status backoff work code =
    retry_after (delay backoff work.attempt_count) code "STATUS_RETRY_EXHAUSTED"
      "STATUS_UNAVAILABLE" status_unavailable

-- What `ProcessOne` returns: whether there was work, and the error.
abbrev pub Outcome : Type 0
Outcome = Bool × Result (Unit {0})

abbrev unreachable_code : CallOutcome → String → CallResult
unreachable_code outcome code = record { outcome = outcome; http_status = 0; error_code = code }

abbrev heard_code : CallOutcome → ℕ → String → CallResult
heard_code outcome status code = record {
  outcome = outcome;
  http_status = status;
  error_code = code;
}

module _ {P : Type 0} (worker : Worker) (work : BatchWork) (permit : P) where
  abbrev pub over : Result (Unit {0}) → Program P Outcome
  over r = done (true, r)

  abbrev close_after : Result (Unit {0}) → Program P Outcome
  close_after r = close permit (over r)

  recorded_after : Event → Result (Unit {0}) → Program P Outcome
  recorded_after event (err e) = close_after (err e)
  recorded_after event (ok x) = records work.claim event close_after

  -- `finishPermit`, and the event where it returns no error; the deferred `Close` comes last.
  unfoldable pub conclude : CallResult → Event → Program P Outcome
  unfolding recorded_after
  conclude result event = finish permit result (recorded_after event)

  abbrev pub is_unclear : ℕ → Bool
  is_unclear status = status == 429 || leb 500 status

  unfoldable pub submit_response : SubmitResult → Program P Outcome
  submit_response r =
      if r.status_code == 200 && not (str_eq r.receipt_id "")
      then conclude (heard_code completed r.status_code r.error_code) (
          submit_accepted (record {
            receipt_id = r.receipt_id;
            poll_delay = poll_delay worker.backoff work.attempt_count;
          }))
      else if r.status_code == 409 && str_eq r.error_code "DUPLICATE_UTID"
      then conclude (heard_code completed r.status_code r.error_code)
          (retry_submit worker.backoff work r.error_code)
      else if is_unclear r.status_code
      then conclude (heard_code ambiguous r.status_code r.error_code)
          (retry_submit worker.backoff work r.error_code)
      else conclude (heard_code terminal_error r.status_code r.error_code)
          (batch_invariant (failure_or r.error_code "SUBMIT_TERMINAL"))

  unfoldable pub submit_answer : Answer SubmitResult → Program P Outcome
  submit_answer protocol_error =
      conclude (unreachable_code terminal_error "MALFORMED_RESPONSE")
        (batch_invariant "MALFORMED_RESPONSE")
  submit_answer transport_error =
      conclude (unreachable_code ambiguous "TRANSPORT_ERROR")
        (retry_submit worker.backoff work "TRANSPORT_ERROR")
  submit_answer (answered r) = submit_response r

  unfoldable pub is_unknown : SearchType → StatusResult → Bool
  is_unknown by_receipt_id r = false
  is_unknown by_utid r = r.status_code == 404 && str_eq r.error_code "NOT_FOUND"

  schedule : String → RetrySchedule
  schedule code = record {
    delay = poll_delay worker.backoff work.attempt_count;
    failure_code = code;
  }

  refusal_event : SearchType → StatusResult → Event
  unfolding schedule
  refusal_event kind r =
      if is_unknown kind r
      then reference_not_found (schedule r.error_code)
      else batch_invariant (failure_or r.error_code "STATUS_TERMINAL")

  report_event : SearchType → StatusResult → Event
  unfolding schedule
  report_event by_utid r = reference_found (record {
    receipt_id = r.receipt_id;
    poll_delay = poll_delay worker.backoff work.attempt_count;
  })
  report_event by_receipt_id r =
      if str_eq r.status "Processing"
      then acknowledgment_pending (schedule "")
      else acknowledgment r.outcomes

  unfoldable pub is_other : StatusResult → Bool
  is_other r =
      not (str_eq r.utid work.utid)
      || (not (str_eq work.receipt_id "") && not (str_eq r.receipt_id work.receipt_id))

  unfoldable pub status_response : SearchType → StatusResult → Program P Outcome
  unfolding refusal_event report_event
  status_response kind r =
      if is_unclear r.status_code
      then conclude (heard_code retryable_error r.status_code r.error_code)
          (retry_status worker.backoff work (failure_or r.error_code "STATUS_UNAVAILABLE"))
      else if not (r.status_code == 200)
      then conclude (heard_code completed r.status_code r.error_code) (refusal_event kind r)
      else if is_other r
      then conclude (heard_code terminal_error r.status_code r.error_code)
          (batch_invariant "REMOTE_IDENTITY_MISMATCH")
      else conclude (heard_code completed r.status_code r.error_code) (report_event kind r)

  unfoldable pub status_answer : SearchType → Answer StatusResult → Program P Outcome
  status_answer kind protocol_error =
      conclude (unreachable_code terminal_error "MALFORMED_RESPONSE")
        (batch_invariant "MALFORMED_RESPONSE")
  status_answer kind transport_error =
      conclude (unreachable_code retryable_error "TRANSPORT_ERROR")
        (retry_status worker.backoff work "TRANSPORT_ERROR")
  status_answer kind (answered r) = status_response kind r

  unfoldable pub hooked : Program P Outcome → Program P Outcome
  hooked rest = if worker.has_hook then hook rest else rest

-- `sha256` is Go's `crypto/sha256`.
module _ {P : Type 0} (sha256 : Bytes → Bytes) (worker : Worker) where
  submit_permitted : BatchWork → Result P → Program P Outcome
  submit_permitted work (err e) = done (true, err e)
  submit_permitted work (ok p) =
      submits work.canonical_xml (λ a. hooked worker work p (submit_answer worker work p a))

  unfoldable pub submit : BatchWork → Program P Outcome
  unfolding submit_permitted
  submit work =
      acquire
        (record {
          firm_id = work.firm_id;
          batch_id = work.batch_id;
          operation = CallOperation.submit;
        })
        (submit_permitted work)

  status_permitted : BatchWork → SearchType → String → Result P → Program P Outcome
  status_permitted work kind value (err e) = done (true, err e)
  status_permitted work kind value (ok p) =
      asks work.firm_id kind value (λ a. hooked worker work p (status_answer worker work p kind a))

  unfoldable pub status : BatchWork → SearchType → String → Program P Outcome
  unfolding status_permitted
  status work kind value =
      acquire
        (record {
          firm_id = work.firm_id;
          batch_id = work.batch_id;
          operation = CallOperation.status;
        })
        (status_permitted work kind value)

  -- The action is one of the three by its type.
  unfoldable pub act : BatchAction → BatchWork → Program P Outcome
  act BatchAction.submit work = submit work
  act lookup_by_utid work = status work by_utid work.utid
  act poll_status work =
      if str_eq work.receipt_id ""
      then status work by_utid work.utid
      else status work by_receipt_id work.receipt_id

  claimed : Result (Option BatchWork) → Program P Outcome
  claimed (err e) = done (false, err e)
  claimed (ok none) = done (false, ok tt)
  claimed (ok (some work)) =
      if bytes_eq (sha256 work.canonical_xml) work.payload_sha256
      then act work.next_action work
      else records work.claim (batch_invariant "PAYLOAD_HASH_MISMATCH") (λ r. done (true, r))

  -- `ProcessOne`. A claim that fails finds nothing.
  unfoldable pub process_one : String → Program P Outcome
  unfolding claimed
  process_one firm =
      claim
        (record {
          firm_id = firm;
          worker_id = worker.worker_id;
          lease_duration = worker.lease_duration;
        })
        claimed
