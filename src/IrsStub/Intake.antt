-- ===== src/IrsStub/Intake.antt =====
-- irs/internal/stub/model.go: `record` and `classifyIntakeFault`.
pub mod Outcomes
pub mod Registry
use soraban.Shared.{
  ℕ, ◌+◌, Bool, true, false, String, Option, none, some, is_some, List, [], ◌∷◌, ◌++◌, map,
  if◌then◌else◌,
}
use soraban.Lifecycle.{Bytes}
use soraban.IrsStub.Model.{
  Float, Transmission, FilingRecord, RecordResult, Submission, IntakeFault, intake_succeeded,
  fail_before_record, fail_after_record, duplicate_utid, duplicate_record, Intake, refused, faulted,
  received, Store, find_by_utid, original_key, any_known, Generated, new_opaque_id, result_for,
}

cons_result : RecordResult → Generated (List RecordResult) → Generated (List RecordResult)
cons_result r none = none
cons_result r (some (rs, ids, known)) = some (r ∷ rs, ids, known)

-- The loop over the records.
unfoldable pub results_for :
    List FilingRecord → List Bytes → List String → Generated (List RecordResult)
unfolding cons_result
results_for [] ids known = some ([], ids, known)
results_for (r ∷ rs) ids known = elim (result_for r ids known) [
  | none ↦ none
  | some (result, ids', known') ↦ cons_result result (results_for rs ids' known')
]

submission_of : Transmission → String → Option ℕ → List RecordResult → Submission
submission_of input receipt available results = record {
  receipt_id = receipt;
  utid = input.utid;
  firm_id = input.firm_id;
  client_id = input.client_id;
  tax_year = input.tax_year;
  submission_id = input.submission_id;
  available_at = available;
  results = results;
}

unfoldable pub stored : Transmission → Submission → List String → Store → Store
stored input s known store = record {
  by_firm_and_utid = (input.firm_id, input.utid, s) ∷ store.by_firm_and_utid;
  by_receipt_id = (s.receipt_id, s) ∷ store.by_receipt_id;
  original_records = map (original_key input) input.records ++ store.original_records;
  generated_ids = known;
}

module _ (F : Float) where
  -- `Config`, of which the percentages concern the store.
  pub record Percentages : Type 0 where
    pub fail_before_record : F.Number
    pub fail_after_record : F.Number
    pub never_ack : F.Number

  -- What a call draws, and the clock. The delay is not drawn where the submission is never
  -- acknowledged.
  pub record Draws : Type 0 where
    pub fault : F.Number
    pub never : F.Number
    pub delay : F.Number
    pub ids : List Bytes
    pub now : ℕ

  unfoldable pub classify_intake_fault : F.Number → F.Number → F.Number → IntakeFault
  classify_intake_fault draw before after =
      if F.less draw before
      then fail_before_record
      else if F.less draw (F.plus before after)
      then fail_after_record
      else intake_succeeded

  -- `ackDelayMinimum` is 10 seconds; the field `nanoseconds` is the product with `ackDelayRange`.
  unfoldable pub availability : Percentages → Draws → Option ℕ
  availability config draws =
      if F.less (F.times_100 draws.never) config.never_ack
      then none
      else some (draws.now + (10000000000 + F.nanoseconds draws.delay))

  recorded_with :
      Percentages
      → Draws
      → IntakeFault
      → Transmission
      → Store
      → Generated String
      → Option (Intake × Store)
  recorded_with config draws fault input store none = none
  recorded_with config draws fault input store (some (receipt, ids, known)) =
      elim (results_for input.records ids known) [
        | none ↦ none
        | some (results, _, known') ↦ some (
          received receipt fault,
          stored input (submission_of input receipt (availability config draws) results) known'
              store,
        )
      ]

  drawn : Percentages → Draws → Transmission → Store → IntakeFault → Option (Intake × Store)
  drawn config draws input store fail_before_record = some (faulted fail_before_record, store)
  drawn config draws input store fault =
      recorded_with config draws fault input store
        (new_opaque_id "rcpt_" draws.ids store.generated_ids)

  -- `record`; `none` where `draws` has too few values.
  unfoldable pub record_transmission :
      Percentages → Draws → Transmission → Store → Option (Intake × Store)
  unfolding submission_of recorded_with drawn
  record_transmission config draws input store =
      if is_some (find_by_utid input.firm_id input.utid store.by_firm_and_utid)
      then some (refused duplicate_utid, store)
      else if any_known store.original_records (map (original_key input) input.records)
      then some (refused duplicate_record, store)
      else drawn config draws input store (
          classify_intake_fault (F.times_100 draws.fault) config.fail_before_record
            config.fail_after_record)
