-- ===== src/IrsClient/Shapes.antt =====
-- service/internal/irsclient/client.go: the shape of what passes the checks.
use soraban.Shared.{
  ℕ, ◌==◌, true, false, not, ◌&&◌, ◌||◌, String, str_eq, Option, none, some, List, [], ◌∷◌, ◌≡◌,
  ◌≢◌, refl, ◌⊎◌, inl, inr, arith, Bool-cases, Option-cases, All, length, eq_iff, subst, sym, ◌∙◌,
}
use soraban.Lifecycle.{Bytes, FilingOutcome}
use soraban.Store.Acknowledge.{is_accepted, is_rejected}
use soraban.Worker.Process.{Answer, answered, protocol_error, transport_error, StatusResult}
use soraban.IrsClient.{
  WireResult, StatusResponse, Xml, Response, is_accepted_result, is_rejected_result, outcome_of,
  cons_outcome, outcomes_of, with_outcomes, check_status, valid_transmission_status, status_refused,
  status_received, status_payload, status_reply, read_response,
}

-- An outcome names its filing, and passes one of the two tests of `CompleteAcknowledgment`.
abbrev pub Shaped : FilingOutcome → Type 0
Shaped o = (o.filing_key ≢ "") × ((is_accepted o ≡ true) ⊎ (is_rejected o ≡ true))

outcome_of-Shaped :
    (r : WireResult)
    → (str_eq r.filing_key "" || (not (is_accepted_result r) && not (is_rejected_result r))) ≡ false
    → Shaped (outcome_of r)
unfolding outcome_of is_accepted_result is_rejected_result is_accepted is_rejected
outcome_of-Shaped r h = (
  (λ q. absurd (ground (arith, eq_iff r.filing_key ""))),
  elim (Bool-cases (str_eq r.record_id "")) [
    | inl without ↦ inr (ground arith)
    | inr given ↦ inl (ground arith)
  ],
)

outcomes_of-Shaped :
    (rs : List WireResult) (os : List FilingOutcome) → outcomes_of rs ≡ some os → All Shaped os
unfolding outcomes_of cons_outcome
outcomes_of-Shaped [] os h = let q : [] ≡ os = ground arith in subst (All Shaped) q tt
outcomes_of-Shaped (r ∷ rs) os h =
    elim (Bool-cases
      (str_eq r.filing_key "" || (not (is_accepted_result r) && not (is_rejected_result r)))) [
        | inl bad ↦ absurd (ground arith)
        | inr good ↦ elim (Option-cases (outcomes_of rs)) [
          | inl n ↦ absurd (ground arith)
          | inr (rest, m) ↦
              let q : outcome_of r ∷ rest ≡ os = ground arith in
              subst (All Shaped) q (outcome_of-Shaped r good, outcomes_of-Shaped rs rest m)
        ]
      ]

-- What the worker may rely on in a status response.
pub record Complete (r : StatusResult) : Type 0 where
  pub shaped : All Shaped r.outcomes
  pub receipt : r.receipt_id ≢ ""
  pub utid : r.utid ≢ ""
  pub results : (r.status ≡ "Processing") ⊎ (length r.outcomes ≢ 0)

with_outcomes-Complete :
    (code : ℕ) (w : StatusResponse) (o : Option (List FilingOutcome)) (r : StatusResult)
    → w.receipt_id ≢ ""
    → w.utid ≢ ""
    → ((os : List FilingOutcome) → o ≡ some os → All Shaped os)
    → with_outcomes code w o ≡ answered r
    → Complete r
unfolding with_outcomes
with_outcomes-Complete code w none r a b s h = cc
with_outcomes-Complete code w (some os) r a b s h =
    elim (Bool-cases (not (str_eq w.status "Processing") && length os == 0)) [
      | inl missing ↦ absurd (ground arith)
      | inr present ↦
          let k = rw present at h in
          let same_outcomes : os ≡ r.outcomes = ground arith in
          let same_status : w.status ≡ r.status = ground arith in
          let same_receipt : w.receipt_id ≡ r.receipt_id = ground arith in
          let same_utid : w.utid ≡ r.utid = ground arith in
          record {
            shaped = subst (All Shaped) same_outcomes (s os refl);
            receipt = subst (λ (t : String). t ≢ "") same_receipt a;
            utid = subst (λ (t : String). t ≢ "") same_utid b;
            results = elim (Bool-cases (str_eq w.status "Processing")) [
              | inl pending ↦ inl (sym same_status ∙ processing w.status pending)
              | inr over ↦ inr (λ q. absurd (ground (arith, same_outcomes)))
            ];
          }
    ]
  where
    processing : (t : String) → str_eq t "Processing" ≡ true → t ≡ "Processing"
    processing t e = ground (arith, eq_iff t "Processing")

check_status-Complete :
    (code : ℕ) (w : StatusResponse) (r : StatusResult)
    → check_status code w ≡ answered r
    → Complete r
unfolding check_status
check_status-Complete code w r h =
    elim (Bool-cases
      (str_eq w.receipt_id "" || str_eq w.utid "" || not (valid_transmission_status w.status))) [
        | inl bad ↦ absurd (ground arith)
        | inr good ↦
            elim (Bool-cases (str_eq w.status "Processing" && not (length w.results == 0))) [
              | inl early ↦ absurd (ground arith)
              | inr right ↦
                  with_outcomes-Complete code w (outcomes_of w.results) r
                    (λ q. absurd (ground (arith, eq_iff w.receipt_id "")))
                    (λ q. absurd (ground (arith, eq_iff w.utid "")))
                    (λ os e. outcomes_of-Shaped w.results os e) (rw (good, right) at h)
            ]
      ]

module _ (xml : Xml) where
  status_refused-code :
      (code : ℕ) (o : Option String) (r : StatusResult)
      → status_refused xml code o ≡ answered r
      → r.status_code ≡ code
  unfolding status_refused
  status_refused-code code none r h = cc
  status_refused-code code (some e) r h = ground arith

  status_received-Complete :
      (code : ℕ) (o : Option StatusResponse) (r : StatusResult)
      → status_received xml code o ≡ answered r
      → Complete r
  unfolding status_received
  status_received-Complete code none r h = cc
  status_received-Complete code (some w) r h = check_status-Complete code w r h

  status_payload-Complete :
      (code : ℕ) (a : Answer Bytes) (r : StatusResult)
      → status_payload xml code a ≡ answered r
      → r.status_code ≡ 200
      → Complete r
  unfolding status_payload
  status_payload-Complete code protocol_error r h k = cc
  status_payload-Complete code transport_error r h k = cc
  status_payload-Complete code (answered payload) r h k = elim (Bool-cases (code == 200)) [
    | inl fine ↦ status_received-Complete code _ r (rw fine at h)
    | inr bad ↦
        let same = status_refused-code code _ r (rw bad at h) in absurd (ground (arith, same))
  ]

  -- A status response that the client passes on with code 200 has a receipt and a UTID, has results
  -- unless it is still processing, and each result names its filing and passes one of the two tests
  -- of CompleteAcknowledgment on outcomes.
  pub status_reply-Complete :
      (firm value : String) (reply : Option Response) (r : StatusResult)
      → status_reply xml firm value reply ≡ answered r
      → r.status_code ≡ 200
      → Complete r
  unfolding status_reply
  status_reply-Complete firm value none r h k = cc
  status_reply-Complete firm value (some s) r h k =
      elim (Bool-cases (str_eq firm "" || str_eq value "")) [
        | inl bad ↦ absurd (ground arith)
        | inr good ↦ status_payload-Complete s.status_code (read_response s) r (rw good at h) k
      ]
