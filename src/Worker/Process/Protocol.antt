-- ===== src/Worker/Process/Protocol.antt =====
-- service/internal/filing/worker.go: what a worker may do at each point, whatever it is answered.
use soraban.Shared.{ℕ, ◌≤◌, ◌<◌, true, false, String, none, some, ◌≡◌, ◌≢◌, ◌↔◌, ◌⊎◌, bytes_eq}
use soraban.Lifecycle.{
  Error, Result, ok, err, Bytes, BatchAction, lookup_by_utid, poll_status, BatchWork, CallOperation,
  ambiguous,
}
use soraban.Store.Machine.{
  Event, submit_accepted, submit_unknown, reference_found, reference_not_found,
  acknowledgment_pending, status_unavailable, retry_exhausted, batch_invariant, acknowledgment,
}
use soraban.Worker.Process.{
  SearchType, by_utid, by_receipt_id, Answer, answered, protocol_error, transport_error,
  SubmitResult, StatusResult, Program, done, claim, acquire, submits, asks, hook, finish, close,
  records,
}

-- What the worker has heard from the IRS.
pub data Heard : Type 0 where
  of_submit : Answer SubmitResult → Heard
  of_status : SearchType → Answer StatusResult → Heard

-- The IRS has or may have taken the submission, or cannot tell: 429, from 500 on, or no answer.
abbrev pub Unclear : ℕ → Type 0
Unclear status = (status ≡ 429) ⊎ (500 ≤ status)

-- The response is about the batch, and about its receipt where it has one.
abbrev pub Identified : BatchWork → StatusResult → Type 0
Identified work r =
    (r.status_code ≡ 200)
    × (r.utid ≡ work.utid)
    × ((work.receipt_id ≡ "") ⊎ (r.receipt_id ≡ work.receipt_id))

-- The answers on which an event may be recorded.
abbrev pub Justified : BatchWork → Heard → Event → Type 0
Justified work (of_submit (answered r)) (submit_accepted s) =
    (r.status_code ≡ 200) × (r.receipt_id ≢ "") × (s.receipt_id ≡ r.receipt_id)
Justified work (of_submit (answered r)) (submit_unknown s) =
    Unclear r.status_code ⊎ ((r.status_code ≡ 409) × (r.error_code ≡ "DUPLICATE_UTID"))
Justified work (of_submit (answered r)) (retry_exhausted c) =
    Unclear r.status_code ⊎ ((r.status_code ≡ 409) × (r.error_code ≡ "DUPLICATE_UTID"))
Justified work (of_submit transport_error) (submit_unknown s) = Unit
Justified work (of_submit transport_error) (retry_exhausted c) = Unit
Justified work (of_submit protocol_error) (batch_invariant c) = Unit
Justified work (of_submit (answered r)) (batch_invariant c) =
    (r.status_code ≢ 429) × (r.status_code < 500) × ((r.status_code ≢ 200) ⊎ (r.receipt_id ≡ ""))
Justified work (of_status kind (answered r)) (reference_found s) =
    (kind ≡ by_utid) × Identified work r × (s.receipt_id ≡ r.receipt_id)
Justified work (of_status kind (answered r)) (reference_not_found s) =
    (kind ≡ by_utid) × (r.status_code ≡ 404) × (r.error_code ≡ "NOT_FOUND")
Justified work (of_status kind (answered r)) (acknowledgment_pending s) =
    (kind ≡ by_receipt_id) × Identified work r × (r.status ≡ "Processing")
Justified work (of_status kind (answered r)) (acknowledgment os) =
    (kind ≡ by_receipt_id) × Identified work r × (r.status ≢ "Processing") × (os ≡ r.outcomes)
Justified work (of_status kind (answered r)) (status_unavailable s) = Unclear r.status_code
Justified work (of_status kind (answered r)) (retry_exhausted c) = Unclear r.status_code
Justified work (of_status kind (answered r)) (batch_invariant c) =
    (r.status_code ≢ 429) × (r.status_code < 500) × (Identified work r → ⊥)
Justified work (of_status kind transport_error) (status_unavailable s) = Unit
Justified work (of_status kind transport_error) (retry_exhausted c) = Unit
Justified work (of_status kind protocol_error) (batch_invariant c) = Unit
Justified work heard event = ⊥

-- The IRS may have taken the submission without its answer having come through.
abbrev pub Uncertain : Heard → Type 0
Uncertain (of_submit (answered r)) = Unclear r.status_code
Uncertain (of_submit transport_error) = Unit
Uncertain _ = ⊥

-- The status calls that fit the next action.
abbrev pub Asked : BatchWork → SearchType → String → Type 0
Asked work by_utid value =
    (value ≡ work.utid)
    × ((work.next_action ≡ lookup_by_utid)
        ⊎ ((work.next_action ≡ poll_status) × (work.receipt_id ≡ "")))
Asked work by_receipt_id value =
    (value ≡ work.receipt_id) × (work.next_action ≡ poll_status) × (work.receipt_id ≢ "")

abbrev pub operation_of : BatchAction → CallOperation
operation_of BatchAction.submit = CallOperation.submit
operation_of _ = CallOperation.status

-- How far the worker is.
pub data Phase (P : Type 0) : Type 0 where
  idle : Phase P
  holding : BatchWork → Phase P
  permitted : BatchWork → P → Phase P
  informed settled : BatchWork → P → Heard → Phase P
  leaving : P → Phase P
  gone : Phase P

module _ {P R : Type 0} (sha256 : Bytes → Bytes) where
  -- From the phase on the program keeps the protocol, whatever each call returns:
  --   a claim is the first call; without work nothing follows it;
  --   a permit is asked for the batch and the operation of its next action;
  --   the payload is submitted, unchanged, only where submitting is the next action and its hash
  --   is right, and the IRS is asked for what the next action says;
  --   the permit is finished, as ambiguous exactly where the submission is uncertain, before the
  --   event is recorded, one at most, under the claim of the work, and justified by the answer;
  --   the permit is closed last, on every path.
  abbrev pub Obeys : Phase P → Program P R → Type 0
  Obeys idle (claim command k) =
      ((e : Error) → Obeys gone (k (err e)))
      × Obeys gone (k (ok none))
      × ((work : BatchWork) → Obeys (holding work) (k (ok (some work))))
  Obeys (holding work) (acquire command k) =
      (command.firm_id ≡ work.firm_id)
      × (command.batch_id ≡ work.batch_id)
      × (command.operation ≡ operation_of work.next_action)
      × ((e : Error) → Obeys gone (k (err e)))
      × ((p : P) → Obeys (permitted work p) (k (ok p)))
  Obeys (holding work) (records c event k) =
      (c ≡ work.claim)
      × (event ≡ batch_invariant "PAYLOAD_HASH_MISMATCH")
      × (bytes_eq (sha256 work.canonical_xml) work.payload_sha256 ≡ false)
      × ((r : Result (Unit {0})) → Obeys gone (k r))
  Obeys (permitted work p) (submits xml k) =
      (xml ≡ work.canonical_xml)
      × (work.next_action ≡ BatchAction.submit)
      × (bytes_eq (sha256 xml) work.payload_sha256 ≡ true)
      × ((a : Answer SubmitResult) → Obeys (informed work p (of_submit a)) (k a))
  Obeys (permitted work p) (asks firm kind value k) =
      (firm ≡ work.firm_id)
      × Asked work kind value
      × ((a : Answer StatusResult) → Obeys (informed work p (of_status kind a)) (k a))
  Obeys (informed work p h) (hook rest) = Obeys (informed work p h) rest
  Obeys (informed work p h) (finish q result k) =
      (q ≡ p)
      × ((result.outcome ≡ ambiguous) ↔ Uncertain h)
      × ((e : Error) → Obeys (leaving p) (k (err e)))
      × Obeys (settled work p h) (k (ok tt))
  Obeys (settled work p h) (records c event k) =
      (c ≡ work.claim)
      × Justified work h event
      × ((r : Result (Unit {0})) → Obeys (leaving p) (k r))
  Obeys (leaving p) (close q rest) = (q ≡ p) × Obeys gone rest
  Obeys gone (done r) = Unit
  Obeys phase program = ⊥
