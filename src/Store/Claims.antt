-- ===== src/Store/Claims.antt =====
-- postgres/internal/store/filing.go: `newClaimToken` and `ClaimNextBatch`.
pub mod Order
pub mod Effect
pub mod Handout
use soraban.Shared.{
  ℕ, ◌+◌, ◌/◌, Bool, true, ◌&&◌, ◌||◌, not, ◌==◌, ltb, leb, String, str_eq, Option, none, some,
  List, [], ◌∷◌, if◌then◌else◌, update_where, bytes_eq, length,
}
use soraban.Shared.Int.{pos, negsuc, is_positive}
use soraban.Lifecycle.{
  invariant, message, Result, ok, err, Bytes, Duration, BatchAction, submit, lookup_by_utid,
  poll_status, ClaimBatchCommand, BatchWork,
}
use soraban.Store.Tables.{
  Batch, BatchState, planned, submitting, submit_unknown, submitted, awaiting_ack, invariant_failed,
  is_terminal, Db,
}
use soraban.Store.Transaction.{Environment, Body, run_tx}

-- `Duration.Microseconds()`; only durations that are not negative come here.
abbrev pub micros : Duration → ℕ
micros (pos n) = n / 1000
micros (negsuc _) = 0

-- `lease_expires_at IS NULL OR lease_expires_at <= now`.
abbrev pub lease_over : ℕ → Option ℕ → Bool
lease_over now none = true
lease_over now (some t) = leb t now

-- The WHERE of the candidate, and `FOR UPDATE SKIP LOCKED`.
unfoldable pub is_due : Environment → String → Batch → Bool
is_due env firm b =
    str_eq b.firm_id firm
    && leb b.next_action_at env.now
    && not (is_terminal b.state)
    && lease_over env.now b.lease_expires_at
    && not (env.locked b.id)

-- `ORDER BY next_action_at, id`.
unfoldable pub is_before : Batch → Batch → Bool
is_before a b =
    ltb a.next_action_at b.next_action_at || (a.next_action_at == b.next_action_at && ltb a.id b.id)

earlier : Batch → Option Batch → Option Batch
earlier b none = some b
earlier b (some c) = if is_before c b then some c else some b

unfoldable pub candidate : Environment → String → List Batch → Option Batch
unfolding earlier
candidate env firm [] = none
candidate env firm (b ∷ bs) =
    let rest = candidate env firm bs in if is_due env firm b then earlier b rest else rest

abbrev pub claimed_state : BatchState → BatchState
claimed_state planned = submitting
claimed_state submitting = submit_unknown
claimed_state submitted = awaiting_ack
claimed_state s = s

unfoldable pub claim_row : ℕ → ClaimBatchCommand → String → Batch → Batch
claim_row now command token b = record b {
  state = claimed_state b.state;
  lease_owner = some command.worker_id;
  lease_expires_at = some (now + micros command.lease_duration);
  claim_token = some token;
  attempt_count = b.attempt_count + 1;
}

unfoldable pub fail_hash : Batch → Batch
fail_hash b = record b {
  state = invariant_failed;
  last_error_code = some "PAYLOAD_HASH_MISMATCH";
  lease_owner = none;
  lease_expires_at = none;
  claim_token = none;
}

-- The `switch` on the state that the UPDATE returned; `default` is `none`.
abbrev pub next_action : BatchState → Option BatchAction
next_action submitting = some submit
next_action submit_unknown = some lookup_by_utid
next_action submitted = some poll_status
next_action awaiting_ack = some poll_status
next_action _ = none

-- COALESCE(column, '').
abbrev pub or_empty : Option String → String
or_empty none = ""
or_empty (some s) = s

unfoldable pub work_of : Batch → String → BatchAction → BatchWork
work_of b token action = record {
  claim = record { batch_id = b.id; firm_id = b.firm_id; token = token };
  batch_id = b.id;
  firm_id = b.firm_id;
  client_id = b.client_id;
  tax_year = b.tax_year;
  attempt_count = b.attempt_count;
  next_action = action;
  utid = b.utid;
  canonical_xml = b.canonical_xml;
  payload_sha256 = b.payload_sha256;
  receipt_id = or_empty b.receipt_id;
}

-- What a committed claim has found: nothing, work, or a payload that has changed.
pub data Found : Type 0 where
  nothing corrupt : Found
  work : BatchWork → Found

abbrev pub set_batches : Db → List Batch → Db
set_batches db bs = record db { submission_batches = bs }

-- `SHA256` is Go's `crypto/sha256`.
module _ (sha256 : Bytes → Bytes) where
  -- What follows the UPDATE, on the row that it returned.
  inspect : Batch → String → String → Db → Result (Found × Db)
  inspect b firm token db =
      if not (length b.payload_sha256 == 32)
      then err invariant
      else if not (bytes_eq (sha256 b.canonical_xml) b.payload_sha256)
      then ok (
        corrupt,
        set_batches db (
            update_where (λ r. r.id == b.id && str_eq r.firm_id firm) fail_hash
              db.submission_batches),
      )
      else elim (next_action b.state) [
        | none ↦ err invariant
        | some action ↦ ok (work (work_of b token action), db)
      ]

  claim_found : Environment → ClaimBatchCommand → String → Option Batch → Body Found
  unfolding inspect
  claim_found env command token none db = ok (nothing, db)
  claim_found env command token (some c) db =
      inspect (claim_row env.now command token c) command.firm_id token (
        set_batches db (
          update_where (λ r. r.id == c.id) (claim_row env.now command token) db.submission_batches))

  unfoldable pub claim_body : Environment → ClaimBatchCommand → String → Body Found
  unfolding claim_found
  claim_body env command token db =
      claim_found env command token (candidate env command.firm_id db.submission_batches) db

  -- `found` is that there is a `BatchWork`. A mismatch is committed, and then reported.
  settle : Result Found × Db → Result (Option BatchWork) × Db
  settle (ok nothing, db) = (ok none, db)
  settle (ok corrupt, db) = (err invariant, db)
  settle (ok (work w), db) = (ok (some w), db)
  settle (err e, db) = (err e, db)

  claim_with : Environment → ClaimBatchCommand → Option String → Db → Result (Option BatchWork) × Db
  unfolding settle
  claim_with env command none db = (err (message "create claim token"), db)
  claim_with env command (some token) db =
      settle (run_tx env command.firm_id (claim_body env command token) db)

  -- The token is 16 bytes of `crypto/rand` in hexadecimal, or `none` if that fails.
  unfoldable pub claim_next_batch :
      Environment → ClaimBatchCommand → Option String → Db → Result (Option BatchWork) × Db
  unfolding claim_with
  claim_next_batch env command token db =
      if str_eq command.worker_id "" || not (is_positive command.lease_duration)
      then (err (message "invalid claim command"), db)
      else claim_with env command token db
