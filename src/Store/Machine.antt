-- ===== src/Store/Machine.antt =====
-- postgres/internal/app/lifecycle.go, `FilingLifecycle`: the calls of workers as one type, and
-- histories of such calls. Calls of several workers are transactions, one after the other.
pub mod Rows
pub mod Diagram
pub mod Fencing
pub mod Takeover
pub mod Histories
pub mod Submissions
use soraban.Shared.{ℕ, Bool, true, false, not, String, Option, List, [], ◌∷◌}
use soraban.Lifecycle.{
  Result, ok, err, Bytes, ClaimBatchCommand, BatchWork, Claim, Receipt, RetrySchedule,
  FilingOutcome,
}
use soraban.Store.Tables.{
  Batch, BatchState, planned, submitting, submitted, awaiting_ack, is_terminal, among, Db,
}
use soraban.Store.Transaction.{Environment}
use soraban.Store.Claims.{claim_next_batch}
use soraban.Store.Events.{
  to_submitted, retry_to, event_row, unavailable_row, terminal_row, record_submit_accepted,
  record_submit_unknown, record_reference_found, record_reference_not_found,
  record_acknowledgment_pending, record_status_unavailable, record_retry_exhausted,
  fail_batch_invariant,
}
use soraban.Store.Acknowledge.{acknowledged_row, complete_acknowledgment}

pub data Event : Type 0 where
  submit_accepted reference_found : Receipt → Event
  submit_unknown reference_not_found acknowledgment_pending status_unavailable :
      RetrySchedule → Event
  retry_exhausted batch_invariant : String → Event
  acknowledgment : List FilingOutcome → Event

pub data Call : Type 0 where
  claims : ClaimBatchCommand → Option String → Call
  records : Claim → Event → Call

-- The states from which an event may be recorded, and what it makes of the row.
abbrev pub states_of : Event → BatchState → Bool
states_of (submit_accepted r) s = among s (submitting ∷ [])
states_of (reference_found r) s = among s (BatchState.submit_unknown ∷ [])
states_of (submit_unknown r) s = among s (submitting ∷ [])
states_of (reference_not_found r) s = among s (BatchState.submit_unknown ∷ [])
states_of (acknowledgment_pending r) s = among s (submitted ∷ awaiting_ack ∷ [])
states_of (status_unavailable r) s = among s (BatchState.submit_unknown ∷ awaiting_ack ∷ [])
states_of (retry_exhausted c) s = not (is_terminal s)
states_of (batch_invariant c) s = not (is_terminal s)
states_of (acknowledgment os) s = among s (submitted ∷ awaiting_ack ∷ [])

abbrev pub row_of : ℕ → Event → Batch → Batch
row_of now (submit_accepted r) b = event_row now (to_submitted submitting r) b
row_of now (reference_found r) b = event_row now (to_submitted BatchState.submit_unknown r) b
row_of now (submit_unknown r) b =
    event_row now (retry_to (submitting ∷ []) BatchState.submit_unknown r) b
row_of now (reference_not_found r) b =
    event_row now (retry_to (BatchState.submit_unknown ∷ []) planned r) b
row_of now (acknowledgment_pending r) b =
    event_row now (retry_to (submitted ∷ awaiting_ack ∷ []) awaiting_ack r) b
row_of now (status_unavailable r) b = unavailable_row now r b
row_of now (retry_exhausted c) b = terminal_row now c true b
row_of now (batch_invariant c) b = terminal_row now c false b
row_of now (acknowledgment os) b = acknowledged_row now b

-- `sha256` is Go's `crypto/sha256`, `encode_hex` PostgreSQL's `encode(…, 'hex')`.
module _ (sha256 : Bytes → Bytes) (encode_hex : Bytes → String) where
  unfoldable pub record_event : Environment → Claim → Event → Db → Result (Unit {0}) × Db
  record_event env claim (submit_accepted r) db = record_submit_accepted env claim r db
  record_event env claim (reference_found r) db = record_reference_found env claim r db
  record_event env claim (submit_unknown r) db = record_submit_unknown env claim r db
  record_event env claim (reference_not_found r) db = record_reference_not_found env claim r db
  record_event env claim (acknowledgment_pending r) db =
      record_acknowledgment_pending env claim r db
  record_event env claim (status_unavailable r) db = record_status_unavailable env claim r db
  record_event env claim (retry_exhausted c) db = record_retry_exhausted env claim c db
  record_event env claim (batch_invariant c) db = fail_batch_invariant env claim c db
  record_event env claim (acknowledgment os) db = complete_acknowledgment encode_hex env claim os db

  -- The tables after a call.
  unfoldable pub after : Environment → Call → Db → Db
  after env (claims command token) db = (claim_next_batch sha256 env command token db).1
  after env (records claim e) db = (record_event env claim e db).1

  unfoldable pub history : List (Environment × Call) → Db → Db
  history [] db = db
  history ((env, call) ∷ rest) db = history rest (after env call db)
