-- ===== src/IrsStub/Server/Answers.antt =====
-- irs/internal/stub/server.go `handleStatus` and service/internal/irsclient/client.go `Status`: the
-- client understands what the stub says.
use soraban.Shared.{
  ◌==◌, Bool, true, false, String, str_eq, str_append, eq_iff, is_none, none, some, List, [], ◌∷◌,
  length, map, count_where, All, ◌≡◌, refl, subst, ◌⊎◌, inl, inr, Bool-cases, arith, if◌then◌else◌,
  ap, codes, codes-str_append,
}
use soraban.Lifecycle.{FilingOutcome}
use soraban.Store.Acknowledge.{is_rejection_reason}
use soraban.IrsClient.{
  outcome_of, is_accepted_result, is_rejected_result, valid_transmission_status,
}
use soraban.IrsClient.Accepting.{Fine}
use soraban.IrsStub.Model.{FilingRecord, RecordResult, rejection}
use soraban.IrsStub.Model.Identifiers.{Judged}
use soraban.IrsStub.Intake.Outcomes.{Judgements}
use soraban.IrsStub.Decoding.WellFormed.{Named}
use soraban.IrsStub.Server.{wire_result, is_accepted_record, transmission_status}

-- What is reported of a record.
pub Reported : FilingRecord → FilingOutcome → Type 0
Reported r o =
    (o.filing_key ≡ r.record_id)
    × (((rejection r ≡ none) × (str_eq o.irs_record_id "" ≡ false) × (o.rejection_reason ≡ ""))
        ⊎ ((rejection r ≡ some o.rejection_reason) × (o.irs_record_id ≡ "")))

pub AllReported : List FilingRecord → List FilingOutcome → Type 0
AllReported [] [] = Unit
AllReported (r ∷ rs) (o ∷ os) = Reported r o × AllReported rs os
AllReported [] (o ∷ os) = ⊥
AllReported (r ∷ rs) [] = ⊥

first_reason :
    (a b c d : Bool) (reason : String)
    → (if a
        then some "TIN_MISSING"
        else if b
        then some "TIN_MALFORMED"
        else if c
        then some "TIN_INVALID"
        else if d
        then some "AMOUNT_INVALID"
        else none)
      ≡ some reason
    → is_rejection_reason reason ≡ true
unfolding is_rejection_reason
first_reason true b c d reason h =
    let e : "TIN_MISSING" ≡ reason = cc h in subst (λ s. is_rejection_reason s ≡ true) e refl
first_reason false true c d reason h =
    let e : "TIN_MALFORMED" ≡ reason = cc h in subst (λ s. is_rejection_reason s ≡ true) e refl
first_reason false false true d reason h =
    let e : "TIN_INVALID" ≡ reason = cc h in subst (λ s. is_rejection_reason s ≡ true) e refl
first_reason false false false true reason h =
    let e : "AMOUNT_INVALID" ≡ reason = cc h in subst (λ s. is_rejection_reason s ≡ true) e refl
first_reason false false false false reason h = absurd (cc h)

rejection-is_rejection_reason :
    (r : FilingRecord) (reason : String)
    → rejection r ≡ some reason
    → is_rejection_reason reason ≡ true
unfolding rejection
rejection-is_rejection_reason r reason h = first_reason _ _ _ _ reason h

irsrec_nonempty : (s : String) → str_eq (str_append "irsrec_" s) "" ≡ false
irsrec_nonempty s = elim (Bool-cases (str_eq (str_append "irsrec_" s) "")) [
  | inr e ↦ e
  | inl e ↦
      let same : str_append "irsrec_" s ≡ "" = (eq_iff (str_append "irsrec_" s) "").0 e in
      let shape = codes-str_append "irsrec_" s in absurd (cc (ap codes same, shape))
]

wire_result-Fine :
    (r : FilingRecord) (x : RecordResult)
    → Named r
    → Judged r x
    → Fine (wire_result x) × Reported r (outcome_of (wire_result x))
unfolding Judged wire_result is_accepted_result is_rejected_result Reported outcome_of
wire_result-Fine r x named (same, inl (e, status, reason, (s, id))) =
    let given : str_eq x.irs_record_id "" ≡ false = cc (irsrec_nonempty s, id) in
    ((cc (named, same), rw (status, reason, given) refl), (same, inl (e, given, reason)))
wire_result-Fine r x named (same, inr (e, status, id)) =
    let valid = rejection-is_rejection_reason r x.error_reason e in
    ((cc (named, same), rw (status, id, valid) refl), (same, inr (e, id)))

pub wire_results-Fine :
    (rs : List FilingRecord) (xs : List RecordResult)
    → All Named rs
    → Judgements rs xs
    → All Fine (map wire_result xs) × AllReported rs (map outcome_of (map wire_result xs))
unfolding Judgements AllReported
wire_results-Fine [] [] n j = (tt, tt)
wire_results-Fine [] (x ∷ xs) n j = absurd j
wire_results-Fine (r ∷ rs) [] n j = absurd j
wire_results-Fine (r ∷ rs) (x ∷ xs) n j =
    let (a, b) = wire_result-Fine r x n.0 j.0 in
    let (c, d) = wire_results-Fine rs xs n.1 j.1 in ((a, c), (b, d))

-- What the status of a batch should be, by its records.
abbrev passes : FilingRecord → Bool
passes r = is_none (rejection r)

pub verdict : List FilingRecord → String
verdict rs =
    let passed = count_where passes rs in
    if passed == length rs
    then "Accepted"
    else if passed == 0
    then "Rejected"
    else "PartiallyAccepted"

count-passes :
    (rs : List FilingRecord) (xs : List RecordResult)
    → Judgements rs xs
    → (count_where is_accepted_record xs ≡ count_where passes rs) × (length xs ≡ length rs)
unfolding Judgements Judged is_accepted_record
count-passes [] [] j = (refl, refl)
count-passes [] (x ∷ xs) j = absurd j
count-passes (r ∷ rs) [] j = absurd j
count-passes (r ∷ rs) (x ∷ xs) ((_, inl (e, status, _, _)), j) =
    let (a, b) = count-passes rs xs j in (rw (e, status) (omega (arith, a)), omega (arith, b))
count-passes (r ∷ rs) (x ∷ xs) ((_, inr (e, status, _)), j) =
    let (a, b) = count-passes rs xs j in (rw (e, status) (omega (arith, a)), omega (arith, b))

pub transmission_status-verdict :
    (rs : List FilingRecord) (xs : List RecordResult)
    → Judgements rs xs
    → transmission_status xs ≡ verdict rs
unfolding transmission_status verdict
transmission_status-verdict rs xs j = let (a, b) = count-passes rs xs j in rw (a, b) refl

pub valid-verdict :
    (rs : List FilingRecord)
    → (valid_transmission_status (verdict rs) ≡ true) × (str_eq (verdict rs) "Processing" ≡ false)
unfolding valid_transmission_status verdict
valid-verdict rs = elim (Bool-cases (count_where passes rs == length rs)) [
  | inl e ↦ rw e (refl, refl)
  | inr e ↦ elim (Bool-cases (count_where passes rs == 0)) [
    | inl f ↦ rw (e, f) (refl, refl)
    | inr f ↦ rw (e, f) (refl, refl)
  ]
]
