-- ===== src/Store/Tables.antt =====
-- The tables of postgres/db/migrations/000001_initial.sql that the adapter reads and writes, as
-- lists of rows. A nullable column is an `Option`, a `timestamptz` a number of microseconds.
use soraban.Shared.{
  ℕ, ◌==◌, Bool, true, false, not, ◌&&◌, ◌||◌, String, Option, List, [], ◌∷◌, is_none, is_some,
}
use soraban.Shared.Int.{ℤ}
use soraban.Lifecycle.{Bytes, CallOperation, CallOutcome}

pub data FilingState : Type 0 where
  blocked_preflight ready batched accepted rejected : FilingState

pub data BatchState : Type 0 where
  planned submitting submit_unknown submitted awaiting_ack acknowledged invariant_failed :
      BatchState

abbrev rank : BatchState → ℕ
rank planned = 0
rank submitting = 1
rank submit_unknown = 2
rank submitted = 3
rank awaiting_ack = 4
rank acknowledged = 5
rank invariant_failed = 6

abbrev pub state_eq : BatchState → BatchState → Bool
state_eq s t = rank s == rank t

-- SQL's `state = ANY(states)`.
abbrev pub among : BatchState → List BatchState → Bool
among s [] = false
among s (t ∷ ts) = state_eq s t || among s ts

-- `state IN ('acknowledged', 'invariant_failed')`.
abbrev pub is_terminal : BatchState → Bool
is_terminal acknowledged = true
is_terminal invariant_failed = true
is_terminal _ = false

pub record Filing : Type 0 where
  pub id : ℕ
  pub firm_id : String
  pub client_id : String
  pub determination_id : ℕ
  pub tax_year : ℕ
  pub vendor_identity : String
  pub vendor_display_name : String
  pub recipient_tin : Option String
  pub filing_key : Bytes
  pub reportable_cents : ℤ
  pub withholding_cents : ℤ
  pub state : FilingState
  pub preflight_reason : Option String
  pub irs_record_id : Option String
  pub rejection_reason : Option String
  pub acknowledged_at : Option ℕ

-- `submission_batches`.
pub record Batch : Type 0 where
  pub id : ℕ
  pub firm_id : String
  pub client_id : String
  pub tax_year : ℕ
  pub utid : String
  pub canonical_xml : Bytes
  pub payload_sha256 : Bytes
  pub state : BatchState
  pub receipt_id : Option String
  pub next_action_at : ℕ
  pub attempt_count : ℕ
  pub lease_owner : Option String
  pub lease_expires_at : Option ℕ
  pub claim_token : Option String
  pub submitted_at : Option ℕ
  pub acknowledged_at : Option ℕ
  pub retry_exhausted_at : Option ℕ
  pub last_error_code : Option String

-- `batch_filings`.
pub record BatchFiling : Type 0 where
  pub batch_id : ℕ
  pub filing_id : ℕ
  pub firm_id : String
  pub client_id : String
  pub slot : ℕ

-- `rate_gates`; -infinity is 0.
pub record RateGate : Type 0 where
  pub firm_id : String
  pub next_call_at : ℕ
  pub crash_fence_until : ℕ

pub record ApiCall : Type 0 where
  pub id : ℕ
  pub firm_id : String
  pub batch_id : ℕ
  pub operation : CallOperation
  pub started_at : ℕ
  pub completed_at : Option ℕ
  pub outcome : Option CallOutcome
  pub http_status : Option ℕ
  pub error_code : Option String

-- `clients`.
pub record Client : Type 0 where
  pub firm_id : String
  pub id : String

pub record Dataset : Type 0 where
  pub id : ℕ
  pub firm_id : String
  pub tax_year : ℕ
  pub content_sha256 : Bytes
  pub source_row_count : ℕ

-- `payments`; a date is its text.
pub record Payment : Type 0 where
  pub dataset_id : ℕ
  pub source_row_number : ℕ
  pub firm_id : String
  pub client_id : String
  pub vendor_name : String
  pub vendor_tin : Option String
  pub vendor_identity : String
  pub payment_date : String
  pub amount_cents : ℤ
  pub payment_method : String
  pub backup_withholding_cents : ℤ
  pub memo : String

pub record Determination : Type 0 where
  pub id : ℕ
  pub dataset_id : ℕ
  pub firm_id : String
  pub ruleset_version : String

pub record Db : Type 0 where
  pub firms : List String
  pub clients : List Client
  pub datasets : List Dataset
  pub payments : List Payment
  pub determinations : List Determination
  pub filings : List Filing
  pub submission_batches : List Batch
  pub batch_filings : List BatchFiling
  pub rate_gates : List RateGate
  pub api_call_log : List ApiCall

abbrev same : Bool → Bool → Bool
same true b = b
same false b = not b

-- The CHECK constraints of `submission_batches` on the columns that updates write.
unfoldable pub check_batch : Batch → Bool
check_batch b =
    same (is_none b.lease_owner) (is_none b.lease_expires_at)
    && same (is_none b.lease_owner) (is_none b.claim_token)
    && (is_none b.receipt_id
        || among b.state (submitted ∷ awaiting_ack ∷ acknowledged ∷ invariant_failed ∷ []))
    && same (state_eq b.state acknowledged) (is_some b.acknowledged_at)
    && (is_none b.retry_exhausted_at || state_eq b.state invariant_failed)
