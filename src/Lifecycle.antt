-- ===== src/Lifecycle.antt =====
-- postgres/internal/app/lifecycle.go: the contract between the service and the database adapter.
-- A Go `error` is a value of `Error`, and a pair of a result and an error is a `Result`. Durations
-- are nanoseconds in ℤ; identities of rows are numbers, of which the code accepts those above 0.
use soraban.Shared.{ℕ, String, List}
use soraban.Shared.Int.{ℤ}

-- The sentinel errors, an error of the context, `errors.New`, and what `mapError` wraps.
pub data Error : Type 0 where
  schema_version conflict not_found invalid_transition stale_claim invariant canceled : Error
  message : String → Error
  database : String → Error

pub data Result {ℓ} (A : Type ℓ) : Type ℓ where
  ok : A → Result A
  err : Error → Result A

abbrev pub Bytes : Type 0
Bytes = List ℕ

abbrev pub Duration : Type 0
Duration = ℤ

pub data BatchAction : Type 0 where
  submit lookup_by_utid poll_status : BatchAction

pub data CallOperation : Type 0 where
  submit status : CallOperation

pub data CallOutcome : Type 0 where
  completed ambiguous retryable_error terminal_error : CallOutcome

pub data HeadlineState : Type 0 where
  needs_attention awaiting_the_irs fully_filed partially_filed : HeadlineState

pub record ClaimBatchCommand : Type 0 where
  pub firm_id : String
  pub worker_id : String
  pub lease_duration : Duration

pub record Claim : Type 0 where
  pub batch_id : ℕ
  pub firm_id : String
  pub token : String

pub record BatchWork : Type 0 where
  pub claim : Claim
  pub batch_id : ℕ
  pub firm_id : String
  pub client_id : String
  pub tax_year : ℕ
  pub attempt_count : ℕ
  pub next_action : BatchAction
  pub utid : String
  pub canonical_xml : Bytes
  pub payload_sha256 : Bytes
  pub receipt_id : String

-- `SubmitAccepted` and `ReferenceFound` have the same fields.
pub record Receipt : Type 0 where
  pub receipt_id : String
  pub poll_delay : Duration

pub record RetrySchedule : Type 0 where
  pub delay : Duration
  pub failure_code : String

pub record FilingOutcome : Type 0 where
  pub filing_key : String
  pub irs_record_id : String
  pub rejection_reason : String

pub record AcquireCallCommand : Type 0 where
  pub firm_id : String
  pub batch_id : ℕ
  pub operation : CallOperation

pub record CallResult : Type 0 where
  pub outcome : CallOutcome
  pub http_status : ℕ
  pub error_code : String

pub record StatusCounts : Type 0 where
  pub required : ℕ
  pub blocked : ℕ
  pub ready : ℕ
  pub pending : ℕ
  pub accepted : ℕ
  pub rejected : ℕ

pub record ClientStatus : Type 0 where
  pub firm_id : String
  pub client_id : String
  pub counts : StatusCounts
  pub headline : HeadlineState

pub record FirmStatus : Type 0 where
  pub firm_id : String
  pub counts : StatusCounts
  pub headline : HeadlineState
  pub clients : List ClientStatus
