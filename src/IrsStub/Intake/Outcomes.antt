-- ===== src/IrsStub/Intake/Outcomes.antt =====
-- irs/internal/stub/model.go, `record`: what each of its outcomes tells.
use soraban.Shared.{
  Bool, true, false, String, some, is_some, List, [], ◌∷◌, map, ◌≡◌, refl, subst, ◌⊎◌, str_append,
  inl, inr, Bool-cases, Option-cases,
}
use soraban.Lifecycle.{Bytes}
use soraban.IrsStub.Model.{
  Float, Transmission, FilingRecord, RecordResult, Submission, IntakeFault, intake_succeeded,
  fail_before_record, fail_after_record, duplicate_utid, duplicate_record, Intake, refused, faulted,
  received, Store, find_by_utid, original_key, any_known, contains, new_opaque_id, result_for,
}
use soraban.IrsStub.Model.Identifiers.{
  Extends, Judged, result_for-Judged, new_opaque_id-new, new_opaque_id-Extends, new_opaque_id-shape,
}
use soraban.IrsStub.Intake.{
  Percentages, Draws, results_for, cons_result, stored, record_transmission, submission_of,
  recorded_with, drawn, classify_intake_fault, availability,
}

-- A result for each record, in order.
unfoldable pub Judgements : List FilingRecord → List RecordResult → Type 0
Judgements [] [] = Unit
Judgements (r ∷ rs) (x ∷ xs) = Judged r x × Judgements rs xs
Judgements [] (x ∷ xs) = ⊥
Judgements (r ∷ rs) [] = ⊥

pub results_for-Judgements :
    (rs : List FilingRecord) (ids : List Bytes) (known : List String) (results : List RecordResult)
    (ids' : List Bytes) (known' : List String)
    → results_for rs ids known ≡ some (results, ids', known')
    → Extends known known' × Judgements rs results
unfolding results_for cons_result Judgements
results_for-Judgements [] ids known results ids' known' h =
    let a : [] ≡ results = cc h in
    let b : known ≡ known' = cc h in
    (subst (Extends known) b (λ s c. c), subst (Judgements []) a tt)
results_for-Judgements (r ∷ rs) ids known results ids' known' h =
    elim (Option-cases (result_for r ids known)) [
      | inl e ↦ absurd (cc (h, e))
      | inr ((x, left, grown), e) ↦ elim (Option-cases (results_for rs left grown)) [
        | inl f ↦ absurd (cc (h, e, f))
        | inr ((xs, left', grown'), f) ↦
            let (more, judged) = result_for-Judged r ids known x left grown e in
            let (rest, others) = results_for-Judgements rs left grown xs left' grown' f in
            let a : (x ∷ xs) ≡ results = cc (h, e, f) in
            let b : grown' ≡ known' = cc (h, e, f) in
            (
              subst (Extends known) b (λ s c. rest s (more s c)),
              subst (Judgements (r ∷ rs)) a (judged, others),
            )
      ]
    ]

-- A submission that is new to the store.
pub record Registration (input : Transmission) (store : Store) (s : Submission)
    (known : List String) : Type 0 where
  pub same_firm : s.firm_id ≡ input.firm_id
  pub same_utid : s.utid ≡ input.utid
  pub new_receipt : contains s.receipt_id store.generated_ids ≡ false
  pub known_receipt : contains s.receipt_id known ≡ true
  pub keeps : Extends store.generated_ids known
  pub judged : Judgements input.records s.results
  pub shape : (t : String) × (s.receipt_id ≡ str_append "rcpt_" t)

abbrev pub is_found : Transmission → Store → Bool
is_found input store = is_some (find_by_utid input.firm_id input.utid store.by_firm_and_utid)

abbrev pub is_old : Transmission → Store → Bool
is_old input store = any_known store.original_records (map (original_key input) input.records)

pub data IntakeOutcome (input : Transmission) (store : Store) (reply : Intake) (store' : Store)
    : Type 0 where
  again :
      is_found input store ≡ true
      → reply ≡ refused duplicate_utid
      → store' ≡ store
      → IntakeOutcome input store reply store'
  other_utid :
      is_found input store ≡ false
      → is_old input store ≡ true
      → reply ≡ refused duplicate_record
      → store' ≡ store
      → IntakeOutcome input store reply store'
  lost :
      is_found input store ≡ false
      → is_old input store ≡ false
      → reply ≡ faulted fail_before_record
      → store' ≡ store
      → IntakeOutcome input store reply store'
  registered :
      (s : Submission) (known : List String)
      → is_found input store ≡ false
      → is_old input store ≡ false
      → Registration input store s known
      → ((reply ≡ received s.receipt_id intake_succeeded)
          ⊎ (reply ≡ received s.receipt_id fail_after_record))
      → store' ≡ stored input s known store
      → IntakeOutcome input store reply store'

module _ (F : Float) (config : Percentages F) (draws : Draws F) (input : Transmission)
    (store : Store) (reply : Intake) (store' : Store) (new : is_found input store ≡ false)
    (unseen : is_old input store ≡ false) where
  named :
      {receipt : String} {fault : IntakeFault}
      → (fault ≡ intake_succeeded) ⊎ (fault ≡ fail_after_record)
      → received receipt fault ≡ reply
      → (reply ≡ received receipt intake_succeeded) ⊎ (reply ≡ received receipt fail_after_record)
  named (inl e) a = inl (cc (e, a))
  named (inr e) a = inr (cc (e, a))

  recorded_with-IntakeOutcome :
      (fault : IntakeFault)
      → (fault ≡ intake_succeeded) ⊎ (fault ≡ fail_after_record)
      → recorded_with F config draws fault input store
          (new_opaque_id "rcpt_" draws.ids store.generated_ids)
        ≡ some (reply, store')
      → IntakeOutcome input store reply store'
  unfolding recorded_with submission_of
  recorded_with-IntakeOutcome fault kind h =
      elim (Option-cases (new_opaque_id "rcpt_" draws.ids store.generated_ids)) [
        | inl e ↦ absurd (cc (h, e))
        | inr ((receipt, ids, known), e) ↦
            elim (Option-cases (results_for input.records ids known)) [
              | inl f ↦ absurd (cc (h, e, f))
              | inr ((results, left, known'), f) ↦
                  let (fresh, _) =
                    new_opaque_id-new "rcpt_" draws.ids store.generated_ids receipt ids known e in
                  let (more, inside) =
                    new_opaque_id-Extends "rcpt_" draws.ids store.generated_ids receipt ids known
                      e in
                  let (rest, judged) =
                    results_for-Judgements input.records ids known results left known' f in
                  let s = submission_of input receipt (availability F config draws) results in
                  let answer : received receipt fault ≡ reply = cc (h, e, f) in
                  registered s known' new unseen
                    (record {
                      same_firm = refl;
                      same_utid = refl;
                      new_receipt = fresh;
                      known_receipt = rest receipt inside;
                      keeps = λ t c. rest t (more t c);
                      judged = judged;
                      shape =
                          new_opaque_id-shape "rcpt_" draws.ids store.generated_ids receipt ids
                            known e;
                    })
                    (named kind answer) (cc (h, e, f))
            ]
      ]

  drawn-IntakeOutcome :
      (fault : IntakeFault)
      → drawn F config draws input store fault ≡ some (reply, store')
      → IntakeOutcome input store reply store'
  unfolding drawn
  drawn-IntakeOutcome intake_succeeded h = recorded_with-IntakeOutcome intake_succeeded (inl refl) h
  drawn-IntakeOutcome fail_after_record h =
      recorded_with-IntakeOutcome fail_after_record (inr refl) h
  drawn-IntakeOutcome fail_before_record h = lost new unseen (cc h) (cc h)

pub record_transmission-IntakeOutcome :
    (F : Float) (config : Percentages F) (draws : Draws F) (input : Transmission) (store : Store)
    (reply : Intake) (store' : Store)
    → record_transmission F config draws input store ≡ some (reply, store')
    → IntakeOutcome input store reply store'
unfolding record_transmission
record_transmission-IntakeOutcome F config draws input store reply store' h =
    elim (Bool-cases (is_found input store)) [
      | inl e ↦ again e (cc (h, e)) (cc (h, e))
      | inr e ↦ elim (Bool-cases (is_old input store)) [
        | inl f ↦ other_utid e f (cc (h, e, f)) (cc (h, e, f))
        | inr f ↦
            drawn-IntakeOutcome F config draws input store reply store' e f
              (classify_intake_fault F (F.times_100 draws.fault) config.fail_before_record
                config.fail_after_record)
              (cc (h, e, f))
      ]
    ]
