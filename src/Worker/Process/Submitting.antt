-- ===== src/Worker/Process/Submitting.antt =====
-- service/internal/filing/worker.go, `submit`: what follows the answer to a submission.
use soraban.Shared.{
  ℕ, ◌==◌, true, false, not, ◌&&◌, ◌||◌, leb, String, str_eq, Option, none, some, ◌≡◌, ◌≢◌, ◌↔◌,
  refl, ◌⊎◌, inl, inr, arith, Bool-cases, eq_iff,
}
use soraban.Lifecycle.{
  Bytes, BatchWork, CallResult, CallOutcome, completed, ambiguous, terminal_error, RetrySchedule,
}
use soraban.Store.Machine.{Event, submit_unknown, status_unavailable, retry_exhausted}
use soraban.Worker.Backoff.{delay}
use soraban.Worker.Process.{
  SearchType, Answer, answered, protocol_error, transport_error, SubmitResult, StatusResult, Worker,
  retry_after, retry_submit, retry_status, recorded_after, conclude, submit_response, submit_answer,
}
use soraban.Worker.Process.Protocol.{
  Heard, of_submit, of_status, Unclear, Justified, Uncertain, informed, Obeys,
}

retry_after_cases :
    (o : Option ℕ) (code exhausted unclear : String) (event : RetrySchedule → Event)
    → ((c : String) × (retry_after o code exhausted unclear event ≡ retry_exhausted c))
      ⊎ ((s : RetrySchedule) × (retry_after o code exhausted unclear event ≡ event s))
unfolding retry_after
retry_after_cases none code exhausted unclear event = inl (_, refl)
retry_after_cases (some d) code exhausted unclear event = inr (_, refl)

pub Unclear-of : (n : ℕ) → (n == 429 || leb 500 n) ≡ true → Unclear n
Unclear-of n h = elim (Bool-cases (n == 429)) [
  | inl same ↦ inl (ground arith)
  | inr other ↦ inr (ground arith)
]

pub Unclear-clash : (n : ℕ) → (n == 429 || leb 500 n) ≡ false → Unclear n → ⊥
Unclear-clash n h (inl u) = absurd (ground arith)
Unclear-clash n h (inr u) = absurd (ground arith)

module _ {P : Type 0} (sha256 : Bytes → Bytes) (worker : Worker) (work : BatchWork) (p : P) where
  pub conclude-Obeys :
      (h : Heard) (result : CallResult) (event : Event)
      → ((result.outcome ≡ ambiguous) ↔ Uncertain h)
      → Justified work h event
      → Obeys sha256 (informed work p h) (conclude worker work p result event)
  unfolding conclude recorded_after
  conclude-Obeys h result event unclear justified =
      (refl, unclear, λ e. (refl, tt), (refl, justified, λ r. (refl, tt)))

  retry_submit-Justified :
      (a : Answer SubmitResult) (code : String)
      → ((s : RetrySchedule) → Justified work (of_submit a) (submit_unknown s))
      → ((c : String) → Justified work (of_submit a) (retry_exhausted c))
      → Justified work (of_submit a) (retry_submit worker.backoff work code)
  unfolding retry_submit
  retry_submit-Justified a code later never =
      elim (retry_after_cases (delay worker.backoff work.attempt_count) code
        "SUBMIT_RETRY_EXHAUSTED" "SUBMIT_UNKNOWN" submit_unknown) [
          | inl (c, q) ↦ rw q (never c)
          | inr (s, q) ↦ rw q (later s)
        ]

  pub retry_status-Justified :
      (kind : SearchType) (a : Answer StatusResult) (code : String)
      → ((s : RetrySchedule) → Justified work (of_status kind a) (status_unavailable s))
      → ((c : String) → Justified work (of_status kind a) (retry_exhausted c))
      → Justified work (of_status kind a) (retry_status worker.backoff work code)
  unfolding retry_status
  retry_status-Justified kind a code later never =
      elim (retry_after_cases (delay worker.backoff work.attempt_count) code
        "STATUS_RETRY_EXHAUSTED" "STATUS_UNAVAILABLE" status_unavailable) [
          | inl (c, q) ↦ rw q (never c)
          | inr (s, q) ↦ rw q (later s)
        ]

  -- Neither side of the condition on an outcome holds.
  pub unclear_neither :
      (outcome : CallOutcome) (h : Heard)
      → outcome ≢ ambiguous
      → (Uncertain h → ⊥)
      → (outcome ≡ ambiguous) ↔ Uncertain h
  unclear_neither outcome h a b = (λ q. absurd (a q), λ u. absurd (b u))

  submit_response-Obeys :
      (r : SubmitResult)
      → Obeys sha256 (informed work p (of_submit (answered r))) (submit_response worker work p r)
  unfolding submit_response
  submit_response-Obeys r =
      let h = of_submit (answered r) in
      elim (Bool-cases (r.status_code == 200 && not (str_eq r.receipt_id ""))) [
        | inl accepted ↦ rw accepted (
            conclude-Obeys h _ _
              (unclear_neither completed h (λ q. cc)
                (λ u. elim u [ inl v ↦ absurd (ground arith) | inr v ↦ absurd (ground arith) ]))
              (ground arith, (λ q. absurd (ground (arith, eq_iff r.receipt_id ""))), refl))
        | inr refused ↦
            elim (Bool-cases (r.status_code == 409 && str_eq r.error_code "DUPLICATE_UTID")) [
              | inl duplicate ↦
                  let known : (r.status_code ≡ 409) × (r.error_code ≡ "DUPLICATE_UTID") =
                    ground (arith, eq_iff r.error_code "DUPLICATE_UTID") in
                  rw (refused, duplicate)
                    (conclude-Obeys h _ _
                      (unclear_neither completed h (λ q. cc)
                        (λ u. elim u [
                          | inl v ↦ absurd (ground arith)
                          | inr v ↦ absurd (ground arith)
                        ]))
                      (retry_submit-Justified (answered r) r.error_code (λ s. inr known)
                        (λ c. inr known)))
              | inr other ↦ elim (Bool-cases (r.status_code == 429 || leb 500 r.status_code)) [
                | inl unclear ↦
                    let u = Unclear-of r.status_code unclear in
                    rw (refused, other, unclear)
                      (conclude-Obeys h _ _ (λ q. u, λ v. refl)
                        (retry_submit-Justified (answered r) r.error_code (λ s. inl u)
                          (λ c. inl u)))
                | inr clear ↦
                    rw (refused, other, clear)
                      (conclude-Obeys h _ _
                        (unclear_neither terminal_error h (λ q. cc)
                          (Unclear-clash r.status_code clear))
                        (
                          ground arith,
                          ground arith,
                          elim (Bool-cases (r.status_code == 200)) [
                            | inl fine ↦ inr (ground (arith, eq_iff r.receipt_id ""))
                            | inr bad ↦ inl (λ q. absurd (ground arith))
                          ],
                        ))
              ]
            ]
      ]

  pub submit_answer-Obeys :
      (a : Answer SubmitResult)
      → Obeys sha256 (informed work p (of_submit a)) (submit_answer worker work p a)
  unfolding submit_answer
  submit_answer-Obeys protocol_error =
      conclude-Obeys (of_submit protocol_error) _ _
        (unclear_neither terminal_error (of_submit protocol_error) (λ q. cc) (λ u. u)) tt
  submit_answer-Obeys transport_error =
      conclude-Obeys (of_submit transport_error) _ _ (λ q. tt, λ u. refl)
        (retry_submit-Justified transport_error "TRANSPORT_ERROR" (λ s. tt) (λ c. tt))
  submit_answer-Obeys (answered r) = submit_response-Obeys r
