-- ===== src/Store/Events.antt =====
-- postgres/internal/store/filing.go: what a worker records of a batch that it has claimed, from
-- `validDelay` to `RecordStatusUnavailable`, and the two terminal transitions.
pub mod Effect
use soraban.Shared.{
  ℕ, ◌+◌, Bool, true, false, ◌&&◌, ◌||◌, not, ◌==◌, ltb, leb, String, str_eq, Option, none, some,
  List, [], ◌∷◌, if◌then◌else◌, update_where, find_where, count_where, codes, byte_length, all_of,
}
use soraban.Shared.Int.{pos, negsuc}
use soraban.Lifecycle.{
  Error, conflict, not_found, invalid_transition, stale_claim, message, Result, ok, err, Duration,
  Claim, Receipt, RetrySchedule,
}
use soraban.Store.Tables.{
  Batch, BatchState, planned, submitting, submit_unknown, submitted, awaiting_ack, invariant_failed,
  is_terminal, among, Db,
}
use soraban.Store.Transaction.{Environment, Body, run_tx}
use soraban.Store.Claims.{micros, or_empty, set_batches}

-- 30 * 24 * time.Hour.
abbrev pub max_delay : ℕ
max_delay = 2592000000000000

unfoldable pub valid_delay : Duration → Bool
valid_delay (pos n) = leb n max_delay
valid_delay (negsuc _) = false

is_code_character : ℕ → Bool
is_code_character c =
    (leb b'A' c && leb c b'Z') || (leb b'0' c && leb c b'9') || c == b'_' || c == b'.' || c == b'-'

unfoldable pub valid_failure_code : String → Bool
unfolding is_code_character
valid_failure_code code =
    if ltb 64 (byte_length (codes code)) then false else all_of is_code_character (codes code)

-- NULLIF(text, '').
abbrev pub non_empty : String → Option String
non_empty s = if str_eq s "" then none else some s

-- COALESCE(lease_expires_at > now, false).
abbrev pub is_live : ℕ → Option ℕ → Bool
is_live now none = false
is_live now (some t) = ltb now t

-- `claim_token = token`, which a NULL does not satisfy.
abbrev pub holds_token : String → Option String → Bool
holds_token token none = false
holds_token token (some t) = str_eq t token

abbrev pub is_batch : Claim → Batch → Bool
is_batch claim b = b.id == claim.batch_id && str_eq b.firm_id claim.firm_id

-- The WHERE of every update under a claim; `states` is its condition on the state.
unfoldable pub owns : ℕ → Claim → (BatchState → Bool) → Batch → Bool
owns now claim states b =
    is_batch claim b
    && holds_token claim.token b.claim_token
    && is_live now b.lease_expires_at
    && states b.state

miss_of : ℕ → Claim → Option Batch → Error
miss_of now claim none = not_found
miss_of now claim (some b) =
    if not (str_eq (or_empty b.claim_token) claim.token) || not (is_live now b.lease_expires_at)
    then stale_claim
    else invalid_transition

unfoldable pub claim_miss : ℕ → Claim → List Batch → Error
unfolding miss_of
claim_miss now claim bs = miss_of now claim (find_where (is_batch claim) bs)

-- An UPDATE that is to affect one row, with `claimMiss` where it does not.
unfoldable pub update_owned : ℕ → Claim → (BatchState → Bool) → (Batch → Batch) → Body (Unit {0})
update_owned now claim states f db =
    if count_where (owns now claim states) db.submission_batches == 1
    then ok (tt, set_batches db (update_where (owns now claim states) f db.submission_batches))
    else err (claim_miss now claim db.submission_batches)

-- UNIQUE (receipt_id): another row has the receipt that the update writes.
receipt_taken : String → (Batch → Bool) → Batch → Bool
receipt_taken receipt mine b = holds_token receipt b.receipt_id && not (mine b)

unfoldable pub violates_receipt_uk : String → (Batch → Bool) → List Batch → Bool
unfolding receipt_taken
violates_receipt_uk receipt mine bs =
    not (str_eq receipt "")
    && ltb 0 (count_where mine bs)
    && ltb 0 (count_where (receipt_taken receipt mine) bs)

-- The columns of `eventTransition`.
pub record Transition : Type 0 where
  pub states : List BatchState
  pub new_state : BatchState
  pub delay : Duration
  pub receipt_id : String
  pub failure_code : String
  pub set_submitted : Bool

coalesce : Option ℕ → ℕ → Option ℕ
coalesce none now = some now
coalesce (some t) now = some t

unfoldable pub event_row : ℕ → Transition → Batch → Batch
unfolding coalesce
event_row now t b = record b {
  state = t.new_state;
  receipt_id = if str_eq t.receipt_id "" then b.receipt_id else some t.receipt_id;
  next_action_at = now + micros t.delay;
  submitted_at = if t.set_submitted then coalesce b.submitted_at now else b.submitted_at;
  last_error_code = non_empty t.failure_code;
  lease_owner = none;
  lease_expires_at = none;
  claim_token = none;
}

unfoldable pub event_body : ℕ → Claim → Transition → Body (Unit {0})
event_body now claim t db =
    if violates_receipt_uk t.receipt_id (owns now claim (λ s. among s t.states))
      db.submission_batches
    then err conflict
    else update_owned now claim (λ s. among s t.states) (event_row now t) db

unfoldable pub event_transition : Environment → Claim → Transition → Db → Result (Unit {0}) × Db
event_transition env claim t db =
    if claim.batch_id == 0
      || not (valid_delay t.delay)
      || not (valid_failure_code t.failure_code)
      || ltb 256 (byte_length (codes t.receipt_id))
    then (err (message "invalid transition event"), db)
    else run_tx env claim.firm_id (event_body env.now claim t) db

abbrev pub to_submitted : BatchState → Receipt → Transition
to_submitted from r = record {
  states = from ∷ [];
  new_state = submitted;
  delay = r.poll_delay;
  receipt_id = r.receipt_id;
  failure_code = "";
  set_submitted = true;
}

abbrev pub retry_to : List BatchState → BatchState → RetrySchedule → Transition
retry_to from to s = record {
  states = from;
  new_state = to;
  delay = s.delay;
  receipt_id = "";
  failure_code = s.failure_code;
  set_submitted = false;
}

unfoldable pub record_submit_accepted : Environment → Claim → Receipt → Db → Result (Unit {0}) × Db
record_submit_accepted env claim event db =
    if str_eq event.receipt_id ""
    then (err (message "missing receipt identity"), db)
    else event_transition env claim (to_submitted submitting event) db

unfoldable pub record_submit_unknown :
    Environment → Claim → RetrySchedule → Db → Result (Unit {0}) × Db
record_submit_unknown env claim schedule db =
    event_transition env claim (retry_to (submitting ∷ []) submit_unknown schedule) db

unfoldable pub record_reference_found : Environment → Claim → Receipt → Db → Result (Unit {0}) × Db
record_reference_found env claim event db =
    if str_eq event.receipt_id ""
    then (err (message "missing receipt identity"), db)
    else event_transition env claim (to_submitted submit_unknown event) db

unfoldable pub record_reference_not_found :
    Environment → Claim → RetrySchedule → Db → Result (Unit {0}) × Db
record_reference_not_found env claim schedule db =
    event_transition env claim (retry_to (submit_unknown ∷ []) planned schedule) db

unfoldable pub record_acknowledgment_pending :
    Environment → Claim → RetrySchedule → Db → Result (Unit {0}) × Db
record_acknowledgment_pending env claim schedule db =
    event_transition env claim (retry_to (submitted ∷ awaiting_ack ∷ []) awaiting_ack schedule) db

unfoldable pub unavailable_row : ℕ → RetrySchedule → Batch → Batch
unavailable_row now schedule b = record b {
  next_action_at = now + micros schedule.delay;
  last_error_code = non_empty schedule.failure_code;
  lease_owner = none;
  lease_expires_at = none;
  claim_token = none;
}

unfoldable pub record_status_unavailable :
    Environment → Claim → RetrySchedule → Db → Result (Unit {0}) × Db
record_status_unavailable env claim schedule db =
    if claim.batch_id == 0
      || not (valid_delay schedule.delay)
      || not (valid_failure_code schedule.failure_code)
    then (err (message "invalid status retry event"), db)
    else run_tx env claim.firm_id
        (update_owned env.now claim (λ s. among s (submit_unknown ∷ awaiting_ack ∷ []))
          (unavailable_row env.now schedule))
        db

unfoldable pub terminal_row : ℕ → String → Bool → Batch → Batch
terminal_row now code exhausted b = record b {
  state = invariant_failed;
  last_error_code = some code;
  retry_exhausted_at = if exhausted then some now else none;
  lease_owner = none;
  lease_expires_at = none;
  claim_token = none;
}

unfoldable pub terminal_transition :
    Environment → Claim → String → Bool → Db → Result (Unit {0}) × Db
terminal_transition env claim code exhausted db =
    if claim.batch_id == 0 || str_eq code "" || not (valid_failure_code code)
    then (err (message "invalid terminal event"), db)
    else run_tx env claim.firm_id
        (update_owned env.now claim (λ s. not (is_terminal s))
          (terminal_row env.now code exhausted))
        db

unfoldable pub record_retry_exhausted : Environment → Claim → String → Db → Result (Unit {0}) × Db
record_retry_exhausted env claim code db = terminal_transition env claim code true db

unfoldable pub fail_batch_invariant : Environment → Claim → String → Db → Result (Unit {0}) × Db
fail_batch_invariant env claim code db = terminal_transition env claim code false db
