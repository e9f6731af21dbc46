-- ===== src/IrsStub/Server/Understanding.antt =====
-- irs/internal/stub/server.go and service/internal/irsclient/client.go: whatever the stub has taken,
-- the client understands what it says of it.
use soraban.Shared.{
  ℕ, ◌==◌, true, false, ◌&&◌, String, str_eq, str_append, eq_iff, Option, none, some, List, [], ◌∷◌,
  length, map, ◌≡◌, refl, sym, subst, ◌⊎◌, inl, inr, Bool-cases, arith, ap, codes, codes-str_append,
}
use soraban.Worker.Process.{answered, StatusResult}
use soraban.IrsClient.{StatusResponse, check_status, valid_transmission_status}
use soraban.IrsClient.Accepting.{understood, check_status-understood}
use soraban.IrsStub.Model.{
  Float, FilingRecord, RecordResult, Transmission, Submission, Intake, Store, new_store,
  find_by_utid, find_by_receipt_id, find_receipt, only_firm,
}
use soraban.IrsStub.Intake.{stored}
use soraban.IrsStub.Intake.Outcomes.{
  Judgements, IntakeOutcome, again, other_utid, lost, registered, record_transmission-IntakeOutcome,
}
use soraban.IrsStub.Intake.Registry.{Steps, stay, step, store-Consistent}
use soraban.IrsStub.Decoding.{RequestXml, StatusRequestXml}
use soraban.IrsStub.Decoding.WellFormed.{WellFormed}
use soraban.IrsStub.Server.{
  succeed, status_body, wire_result, is_available, response_of, status_of, found_reply,
}
use soraban.IrsStub.Server.Answers.{
  AllReported, wire_results-Fine, verdict, transmission_status-verdict, valid-verdict,
}
use soraban.IrsStub.Server.Serving.{
  turned_away, passed, handle_intake-Handling, Served, idle, served, Uploads, Sent,
}

-- A submission as it comes of a well-formed transmission that is known.
pub record Sound (Known : Transmission → Type 0) (s : Submission) : Type 0 where
  pub input : Transmission
  pub known : Known input
  pub same_firm : s.firm_id ≡ input.firm_id
  pub well_formed : WellFormed input
  pub same_utid : s.utid ≡ input.utid
  pub judged : Judgements input.records s.results
  pub shape : (t : String) × (s.receipt_id ≡ str_append "rcpt_" t)

abbrev AllSound : (Transmission → Type 0) → Store → Type 0
AllSound Known store =
    (firm utid : String) (s : Submission)
    → find_by_utid firm utid store.by_firm_and_utid ≡ some s
    → Sound Known s

more_known :
    (K L : Transmission → Type 0) (store : Store)
    → ((t : Transmission) → K t → L t)
    → AllSound K store
    → AllSound L store
more_known K L store h c firm utid s f =
    let sound = c firm utid s f in
    record {
      input = sound.input;
      known = h sound.input sound.known;
      same_firm = sound.same_firm;
      well_formed = sound.well_formed;
      same_utid = sound.same_utid;
      judged = sound.judged;
      shape = sound.shape;
    }

rcpt_nonempty : (s : String) → str_eq (str_append "rcpt_" s) "" ≡ false
rcpt_nonempty s = elim (Bool-cases (str_eq (str_append "rcpt_" s) "")) [
  | inr e ↦ e
  | inl e ↦
      let same : str_append "rcpt_" s ≡ "" = (eq_iff (str_append "rcpt_" s) "").0 e in
      let shape = codes-str_append "rcpt_" s in absurd (cc (ap codes same, shape))
]

IntakeOutcome-AllSound :
    {Known : Transmission → Type 0} {input : Transmission} {store : Store} {reply : Intake}
    {store' : Store}
    → Known input
    → WellFormed input
    → IntakeOutcome input store reply store'
    → AllSound Known store
    → AllSound Known store'
unfolding stored find_by_utid
IntakeOutcome-AllSound k w (again _ _ e) c = rw e c
IntakeOutcome-AllSound k w (other_utid _ _ _ e) c = rw e c
IntakeOutcome-AllSound k w (lost _ _ _ e) c = rw e c
IntakeOutcome-AllSound {Known} {input} {store} k w (registered s known _ _ new _ e) c =
    subst (AllSound Known) (sym e) λ firm utid t h.
      elim (Bool-cases (str_eq input.firm_id firm && str_eq input.utid utid)) [
        | inl f ↦
            let same : s ≡ t = cc (h, f) in
            subst (Sound Known) same (record {
              input = input;
              known = k;
              same_firm = new.same_firm;
              well_formed = w;
              same_utid = new.same_utid;
              judged = new.judged;
              shape = new.shape;
            })
        | inr f ↦ c firm utid t (cc (h, f))
      ]

-- Every submission comes of a transmission that was known before, or sent since.
Served-AllSound :
    {xml : RequestXml} {bearer : String} {F : Float} {store after : Store}
    (Known : Transmission → Type 0) (history : Served xml bearer F store after)
    → AllSound Known store
    → AllSound (λ t. Known t ⊎ Sent t history) after
unfolding Sent
Served-AllSound {store = store} Known idle c = more_known Known _ store (λ t k. inl k) c
Served-AllSound {xml} {bearer} {F} {store} {after} Known
      (served {store' = store'} config draws request reply h more) c =
    let Now : Transmission → Type 0 = λ t. Known t ⊎ Uploads xml request t in
    let wider = more_known Known Now store (λ t k. inl k) c in
    let next : AllSound Now store' =
      elim (handle_intake-Handling xml bearer F config draws store reply store' request h) [
        | turned_away status code e f ↦ subst (AllSound Now) (sym f) wider
        | passed input intake up w r e ↦
            IntakeOutcome-AllSound {Known = Now} (inr up) w
              (record_transmission-IntakeOutcome F config draws input store intake store' r) wider
      ] in
    more_known _ _ after
      (λ t k. elim k [
        | inl now ↦ elim now [ inl old ↦ inl old | inr up ↦ inr (inl up) ]
        | inr later ↦ inr (inr later)
      ])
      (Served-AllSound Now more next)

pub Served-Steps :
    {xml : RequestXml} {bearer : String} {F : Float} {store after : Store}
    → Served xml bearer F store after
    → Steps F store after
Served-Steps idle = stay
Served-Steps {xml} {bearer} {F} {store} {after}
      (served {store' = store'} config draws request reply h more) =
    elim (handle_intake-Handling xml bearer F config draws store reply store' request h) [
      | turned_away status code e f ↦ subst (λ s. Steps F s after) f (Served-Steps more)
      | passed input intake _ w r e ↦ step config draws input intake r (Served-Steps more)
    ]

valid_processing : valid_transmission_status "Processing" ≡ true
unfolding valid_transmission_status
valid_processing = refl

length-wire :
    (rs : List FilingRecord) (xs : List RecordResult)
    → Judgements rs xs
    → length (map wire_result xs) ≡ length rs
unfolding Judgements
length-wire [] [] j = refl
length-wire [] (x ∷ xs) j = absurd j
length-wire (r ∷ rs) [] j = absurd j
length-wire (r ∷ rs) (x ∷ xs) j = omega (arith, length-wire rs xs j.1)

some_results :
    (input : Transmission) (s : Submission)
    → WellFormed input
    → Judgements input.records s.results
    → (length (map wire_result s.results) == 0) ≡ false
some_results input s w j = ground (arith, length-wire input.records s.results j, w.some_records)

-- What the client makes of what the stub says of a submission.
pub record Report (Known : Transmission → Type 0) (now : ℕ) (s : Submission) (r : StatusResult)
    : Type 0 where
  pub input : Transmission
  pub known : Known input
  pub of_firm : input.firm_id ≡ s.firm_id
  pub of_utid : input.utid ≡ s.utid
  pub judged : Judgements input.records s.results
  pub receipt : r.receipt_id ≡ s.receipt_id
  pub utid : r.utid ≡ s.utid
  pub early :
      is_available s.available_at now ≡ false → (r.status ≡ "Processing") × (r.outcomes ≡ [])
  pub late :
      is_available s.available_at now ≡ true
      → (r.status ≡ verdict input.records) × AllReported input.records r.outcomes

response_of-understood :
    (Known : Transmission → Type 0) (now : ℕ) (s : Submission)
    → Sound Known s
    → check_status 200 (response_of now s) ≡ answered (understood 200 (response_of now s))
unfolding response_of
response_of-understood Known now s sound =
    let (t, receipt) = sound.shape in
    let named : str_eq s.receipt_id "" ≡ false = cc (rcpt_nonempty t, receipt) in
    let referred : str_eq s.utid "" ≡ false = cc (sound.well_formed.has_utid, sound.same_utid) in
    elim (Bool-cases (is_available s.available_at now)) [
      | inr e ↦
          check_status-understood 200 (response_of now s) named referred (rw e valid_processing)
            (rw e refl) (rw e tt)
      | inl e ↦
          let status = transmission_status-verdict sound.input.records s.results sound.judged in
          let (valid, not_processing) = valid-verdict sound.input.records in
          let fine =
            wire_results-Fine sound.input.records s.results sound.well_formed.named sound.judged in
          check_status-understood 200 (response_of now s) named referred (rw (e, status) valid)
            (rw (e, status, not_processing)
              (some_results sound.input s sound.well_formed sound.judged))
            (rw e fine.0)
    ]

response_of-Report :
    (Known : Transmission → Type 0) (now : ℕ) (s : Submission)
    → Sound Known s
    → Report Known now s (understood 200 (response_of now s))
unfolding response_of
response_of-Report Known now s sound =
    let status = transmission_status-verdict sound.input.records s.results sound.judged in
    let fine =
      wire_results-Fine sound.input.records s.results sound.well_formed.named sound.judged in
    record {
      input = sound.input;
      known = sound.known;
      of_firm = sym sound.same_firm;
      of_utid = sym sound.same_utid;
      judged = sound.judged;
      receipt = refl;
      utid = refl;
      early = λ e. rw e (refl, refl);
      late = λ e. rw e (status, fine.1);
    }

-- The submission that is stored for the firm that asks, under the name that it asks for.
pub Asked : Store → StatusRequestXml → Submission → Type 0
Asked store search s =
    (s.firm_id ≡ search.transmitter_control_cd)
    × (find_by_utid search.transmitter_control_cd s.utid store.by_firm_and_utid ≡ some s)
    × ((s.receipt_id ≡ search.search_parameter_text) ⊎ (s.utid ≡ search.search_parameter_text))

pub record Understood (Known : Transmission → Type 0) (now : ℕ) (store : Store)
    (search : StatusRequestXml) (r : StatusResponse) : Type 0 where
  pub submission : Submission
  pub asked : Asked store search submission
  pub result : StatusResult
  pub taken : check_status 200 r ≡ answered result
  pub report : Report Known now submission result

reply-Understood :
    (Known : Transmission → Type 0) (now : ℕ) (store : Store) (search : StatusRequestXml)
    (found : Option Submission) (r : StatusResponse)
    → ((s : Submission) → found ≡ some s → Sound Known s × Asked store search s)
    → found_reply now found ≡ succeed (status_body r)
    → Understood Known now store search r
unfolding found_reply
reply-Understood Known now store search none r sound h = absurd (cc h)
reply-Understood Known now store search (some s) r sound h =
    let same : response_of now s ≡ r = cc h in
    let (fine, asked) = sound s refl in
    subst (Understood Known now store search) same (record {
      submission = s;
      asked = asked;
      result = understood 200 (response_of now s);
      taken = response_of-understood Known now s fine;
      report = response_of-Report Known now s fine;
    })

only_firm-some :
    (firm : String) (found : Option Submission) (s : Submission)
    → only_firm firm found ≡ some s
    → (found ≡ some s) × (s.firm_id ≡ firm)
unfolding only_firm
only_firm-some firm none s h = absurd (cc h)
only_firm-some firm (some t) s h = elim (Bool-cases (str_eq t.firm_id firm)) [
  | inr e ↦ absurd (cc (h, e))
  | inl e ↦
      let same : t ≡ s = cc (h, e) in
      let firms : t.firm_id ≡ firm = (eq_iff t.firm_id firm).0 e in (cc same, cc (firms, same))
]

new_store-AllSound : AllSound (λ _. ⊥) new_store
unfolding new_store find_by_utid
new_store-AllSound firm utid s h = absurd (cc h)

-- Whatever requests the stub has served since it was new, each status response that it gives is of
-- the submission that is stored for the firm that asks, under the receipt or the UTID that it asks
-- for, and the checks of the client take it: with its receipt and its UTID, as processing and
-- without outcomes before the acknowledgment is available, and afterwards with one outcome for each
-- record of a transmission that one of the requests uploaded, of the same firm and UTID, accepted
-- or rejected for the reason that its TIN and amount give, and with the status accepted, rejected
-- or partially accepted that these make.
pub status_of-Understood :
    (xml : RequestXml) (bearer : String) (F : Float) (store : Store) (now : ℕ)
    (search : StatusRequestXml) (r : StatusResponse) (history : Served xml bearer F new_store store)
    → status_of now store search ≡ succeed (status_body r)
    → Understood (λ t. Sent t history) now store search r
unfolding status_of find_by_receipt_id Asked
status_of-Understood xml bearer F store now search r history h =
    let sound =
      more_known _ (λ t. Sent t history) store
        (λ t k. elim k [ inl never ↦ absurd never | inr sent ↦ sent ])
        (Served-AllSound (λ _. ⊥) history new_store-AllSound) in
    let c = store-Consistent (Served-Steps history) in
    let firm = search.transmitter_control_cd in
    let value = search.search_parameter_text in
    elim (Bool-cases (str_eq search.search_parameter_type "RECEIPTID")) [
      | inl e ↦
          reply-Understood _ now store search (find_by_receipt_id firm value store) r
            (λ s f.
              let (listed, owner) =
                only_firm-some firm (find_receipt value store.by_receipt_id) s f in
              let (receipt, found, _) = c.by_receipt value s listed in
              let own =
                subst (λ x. find_by_utid x s.utid store.by_firm_and_utid ≡ some s) owner found in
              (sound s.firm_id s.utid s found, (owner, own, inl receipt)))
            (cc (h, e))
      | inr e ↦ elim (Bool-cases (str_eq search.search_parameter_type "UTID")) [
        | inl g ↦
            reply-Understood _ now store search (find_by_utid firm value store.by_firm_and_utid) r
              (λ s f.
                let (owner, utid, _) = c.by_utid firm value s f in
                let own =
                  subst (λ x. find_by_utid firm x store.by_firm_and_utid ≡ some s) (sym utid) f in
                (sound firm value s f, (owner, own, inr utid)))
              (cc (h, e, g))
        | inr g ↦ absurd (cc (h, e, g))
      ]
    ]
