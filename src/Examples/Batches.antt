-- ===== src/Examples/Batches.antt =====
-- Batches of one firm in the hands of two workers.
use soraban.Shared.{
  ℕ, ◌+◌, ◌≤◌, false, String, eq_iff, none, some, List, [], ◌∷◌, ◌≡◌, ◌≢◌, refl, arith, Related,
}
use soraban.Shared.Int.{pos}
use soraban.Lifecycle.{
  Bytes, ok, err, stale_claim, BatchAction, ClaimBatchCommand, BatchWork, Claim,
}
use soraban.Store.Tables.{Batch, BatchState, planned, invariant_failed, Db}
use soraban.Store.Transaction.{Environment, calm, run_tx, validate_firm_id}
use soraban.Store.Claims.{
  claim_next_batch, claim_body, candidate, is_due, is_before, claim_row, work_of,
}
use soraban.Store.Events.{
  event_transition, event_body, update_owned, owns, valid_delay, valid_failure_code, event_row,
  violates_receipt_uk, record_reference_not_found, record_retry_exhausted, terminal_transition,
  claim_miss,
}
use soraban.Store.Machine.{
  Event, reference_not_found, Call, claims, records, record_event, after, history,
}
use soraban.Store.Machine.Histories.{Enduring, history-Enduring}
use soraban.Store.Machine.Fencing.{Fenced, after-Fenced}
use soraban.Store.Machine.Submissions.{submissions, not_founds, planned_rows, submissions-le}
use soraban.Store.Claims.Handout.{Handout, claim_next_batch-Handout}
use soraban.Store.Machine.Takeover.{lease_excludes, superseded_claim_refused}

abbrev pub digest : Bytes
digest =
    0 ∷ 0 ∷ 0 ∷ 0 ∷ 0 ∷ 0 ∷ 0 ∷ 0 ∷ 0 ∷ 0 ∷ 0 ∷ 0 ∷ 0 ∷ 0 ∷ 0 ∷ 0 ∷ 0 ∷ 0 ∷ 0 ∷ 0 ∷ 0 ∷ 0 ∷ 0 ∷ 0
    ∷ 0 ∷ 0 ∷ 0 ∷ 0 ∷ 0 ∷ 0 ∷ 0 ∷ 0 ∷ []

-- A stand-in for the hash: a constant of 32 bytes.
abbrev pub hash : Bytes → Bytes
hash _ = digest

abbrev hex : Bytes → String
hex _ = "00"

abbrev pub batch : ℕ → BatchState → Batch
batch id state = record {
  id = id;
  firm_id = "F001";
  client_id = "C1";
  tax_year = 2025;
  utid = "u";
  canonical_xml = 60 ∷ [];
  payload_sha256 = digest;
  state = state;
  receipt_id = none;
  next_action_at = id;
  attempt_count = 0;
  lease_owner = none;
  lease_expires_at = none;
  claim_token = none;
  submitted_at = none;
  acknowledged_at = none;
  retry_exhausted_at = none;
  last_error_code = none;
}

abbrev pub db : Db
db = record {
  firms = [];
  clients = [];
  datasets = [];
  payments = [];
  determinations = [];
  filings = [];
  submission_batches = batch 1 planned ∷ batch 2 planned ∷ batch 3 invariant_failed ∷ [];
  batch_filings = [];
  rate_gates = [];
  api_call_log = [];
}

abbrev pub at : ℕ → Environment
at t = record { now = t; locked = λ _. false; trouble = calm }

-- A lease of 90 seconds.
abbrev claim_by : String → ClaimBatchCommand
claim_by worker = record { firm_id = "F001"; worker_id = worker; lease_duration = pos 90000000000 }

abbrev pub work : ℕ → String → BatchWork
work id token = record {
  claim = record { batch_id = id; firm_id = "F001"; token = token };
  batch_id = id;
  firm_id = "F001";
  client_id = "C1";
  tax_year = 2025;
  attempt_count = 1;
  next_action = BatchAction.submit;
  utid = "u";
  canonical_xml = 60 ∷ [];
  payload_sha256 = digest;
  receipt_id = "";
}

abbrev db1 : Db
db1 = (claim_next_batch hash (at 10) (claim_by "w1") (some "t1") db).1

claims_first :
    (claim_next_batch hash (at 10) (claim_by "w1") (some "t1") db).0 ≡ ok (some (work 1 "t1"))
unfolding claim_next_batch run_tx validate_firm_id claim_body candidate is_due is_before claim_row
    work_of
claims_first = refl

claims_second :
    (claim_next_batch hash (at 20) (claim_by "w2") (some "t2") db1).0 ≡ ok (some (work 2 "t2"))
unfolding claim_next_batch run_tx validate_firm_id claim_body candidate is_due is_before claim_row
    work_of
claims_second = refl

claim_next_batch-Handout_example : Handout (at 10) (claim_by "w1") db (work 1 "t1")
claim_next_batch-Handout_example =
    claim_next_batch-Handout hash (at 10) (claim_by "w1") (some "t1") db (work 1 "t1") claims_first

lease_excludes_example : ◌≢◌ {A = ℕ} 2 1
lease_excludes_example =
    lease_excludes hash (at 10) (at 20) (claim_by "w1") (claim_by "w2") (some "t1") (some "t2") db
      (work 1 "t1") (work 2 "t2") claims_first claims_second (omega arith)

abbrev old_claim : Claim
old_claim = record { batch_id = 1; firm_id = "F001"; token = "t0" }

other_token : ◌≢◌ {A = String} "t0" "t1"
other_token = ground (arith, eq_iff "t0" "t1")

superseded_claim_refused_example :
    ((record_event hash hex (at 30) old_claim (Event.retry_exhausted "X") db1).0 ≢ ok tt)
    × ((record_event hash hex (at 30) old_claim (Event.retry_exhausted "X") db1).1 ≡ db1)
superseded_claim_refused_example =
    superseded_claim_refused hash hex (at 10) (at 30) (claim_by "w1") (some "t1") db (work 1 "t1")
      old_claim (Event.retry_exhausted "X") claims_first refl other_token

stale_refused :
    (record_event hash hex (at 30) old_claim (Event.retry_exhausted "X") db1).0 ≡ err stale_claim
unfolding record_event record_retry_exhausted terminal_transition valid_failure_code run_tx
    validate_firm_id update_owned owns claim_miss claim_next_batch claim_body candidate is_due
    is_before claim_row work_of
stale_refused = refl

abbrev first_claim : Claim
first_claim = record { batch_id = 1; firm_id = "F001"; token = "t1" }

-- The first worker hears nothing, and the batch is looked up, reset and handed out again.
abbrev calls : List (Environment × Call)
calls =
    (at 10, claims (claim_by "w1") (some "t1"))
    ∷ (at 90000020, claims (claim_by "w2") (some "t2"))
    ∷ (
      at 90000030,
      records (record first_claim { token = "t2" })
          (reference_not_found (record { delay = pos 0; failure_code = "NOT_FOUND" })),
    )
    ∷ (at 90000050, claims (claim_by "w1") (some "t3"))
    ∷ (at 90000060, claims (claim_by "w2") (some "t4"))
    ∷ []

history-Enduring_example :
    Related Enduring db.submission_batches (history hash hex calls db).submission_batches
history-Enduring_example = history-Enduring hash hex calls db (omega arith)

submissions-le_example :
    submissions hash hex 1 calls db + planned_rows 1 (history hash hex calls db)
    ≤ not_founds 1 calls + planned_rows 1 db
submissions-le_example = submissions-le hash hex 1 calls db (omega arith)

after-Fenced_example :
    Related
      (Fenced (at 20) (claims (claim_by "w2") (some "t2")))
      db1.submission_batches
      (after hash hex (at 20) (claims (claim_by "w2") (some "t2")) db1).submission_batches
unfolding claim_next_batch run_tx validate_firm_id claim_body candidate is_due is_before claim_row
after-Fenced_example =
    after-Fenced hash hex (at 20) (claims (claim_by "w2") (some "t2")) db1 (omega arith)

handed_out_twice : submissions hash hex 1 calls db ≡ 2
unfolding submissions after claim_next_batch run_tx validate_firm_id claim_body candidate is_due
    is_before claim_row work_of record_event record_reference_not_found event_transition event_body
    update_owned owns valid_delay valid_failure_code event_row violates_receipt_uk
handed_out_twice = refl
