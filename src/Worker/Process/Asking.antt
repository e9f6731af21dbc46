-- ===== src/Worker/Process/Asking.antt =====
-- service/internal/filing/worker.go, `status`: what follows the answer to a status query.
use soraban.Shared.{
  ◌==◌, true, false, ◌&&◌, ◌||◌, leb, str_eq, ◌≡◌, refl, inl, inr, arith, Bool-cases, eq_iff,
}
use soraban.Lifecycle.{Bytes, BatchWork, completed, retryable_error, terminal_error}
use soraban.Worker.Process.{
  SearchType, by_utid, by_receipt_id, Answer, answered, protocol_error, transport_error,
  StatusResult, Worker, is_unknown, refusal_event, report_event, is_other, status_response,
  status_answer,
}
use soraban.Worker.Process.Protocol.{of_status, Identified, Justified, informed, Obeys}
use soraban.Worker.Process.Submitting.{
  Unclear-of, conclude-Obeys, unclear_neither, retry_status-Justified,
}

module _ {P : Type 0} (sha256 : Bytes → Bytes) (worker : Worker) (work : BatchWork) (p : P) where
  refusal_event-Justified :
      (kind : SearchType) (r : StatusResult)
      → (r.status_code == 429 || leb 500 r.status_code) ≡ false
      → r.status_code == 200 ≡ false
      → Justified work (of_status kind (answered r)) (refusal_event worker work p kind r)
  unfolding refusal_event is_unknown
  refusal_event-Justified by_receipt_id r clear bad =
      (ground arith, ground arith, λ i. absurd (ground arith))
  refusal_event-Justified by_utid r clear bad =
      elim (Bool-cases (r.status_code == 404 && str_eq r.error_code "NOT_FOUND")) [
        | inl unknown ↦
            rw unknown (refl, ground arith, ground (arith, eq_iff r.error_code "NOT_FOUND"))
        | inr known ↦ rw known (ground arith, ground arith, λ i. absurd (ground arith))
      ]

  is_other-Identified :
      (r : StatusResult)
      → r.status_code == 200 ≡ true
      → is_other worker work p r ≡ false
      → Identified work r
  unfolding is_other
  is_other-Identified r fine same = (
    ground arith,
    ground (arith, eq_iff r.utid work.utid),
    elim (Bool-cases (str_eq work.receipt_id "")) [
      | inl first ↦ inl (ground (arith, eq_iff work.receipt_id ""))
      | inr later ↦ inr (ground (arith, eq_iff r.receipt_id work.receipt_id))
    ],
  )

  is_other-clash : (r : StatusResult) → is_other worker work p r ≡ true → Identified work r → ⊥
  unfolding is_other
  is_other-clash r other (code, utid, inl first) =
      absurd (ground (arith, other, eq_iff r.utid work.utid, eq_iff work.receipt_id ""))
  is_other-clash r other (code, utid, inr receipt) =
      absurd (ground (arith, other, eq_iff r.utid work.utid, eq_iff r.receipt_id work.receipt_id))

  report_event-Justified :
      (kind : SearchType) (r : StatusResult)
      → Identified work r
      → Justified work (of_status kind (answered r)) (report_event worker work p kind r)
  unfolding report_event
  report_event-Justified by_utid r i = (refl, i, refl)
  report_event-Justified by_receipt_id r i = elim (Bool-cases (str_eq r.status "Processing")) [
    | inl pending ↦ rw pending (refl, i, ground (arith, eq_iff r.status "Processing"))
    | inr over ↦
        rw over (refl, i, (λ q. absurd (ground (arith, eq_iff r.status "Processing"))), refl)
  ]

  status_response-Obeys :
      (kind : SearchType) (r : StatusResult)
      → Obeys sha256
          (informed work p (of_status kind (answered r)))
          (status_response worker work p kind r)
  unfolding status_response
  status_response-Obeys kind r =
      let h = of_status kind (answered r) in
      elim (Bool-cases (r.status_code == 429 || leb 500 r.status_code)) [
        | inl unclear ↦
            let u = Unclear-of r.status_code unclear in
            rw unclear (
              conclude-Obeys sha256 worker work p h _ _
                (unclear_neither sha256 worker work p retryable_error h (λ q. cc) (λ v. v))
                (retry_status-Justified sha256 worker work p kind (answered r) _ (λ s. u) (λ c. u)))
        | inr clear ↦ elim (Bool-cases (r.status_code == 200)) [
          | inr bad ↦
              rw (clear, bad)
                (conclude-Obeys sha256 worker work p h _ _
                  (unclear_neither sha256 worker work p completed h (λ q. cc) (λ v. v))
                  (refusal_event-Justified kind r clear bad))
          | inl fine ↦ elim (Bool-cases (is_other worker work p r)) [
            | inl other ↦
                rw (clear, fine, other)
                  (conclude-Obeys sha256 worker work p h _ _
                    (unclear_neither sha256 worker work p terminal_error h (λ q. cc) (λ v. v))
                    (ground arith, ground arith, is_other-clash r other))
            | inr same ↦
                rw (clear, fine, same)
                  (conclude-Obeys sha256 worker work p h _ _
                    (unclear_neither sha256 worker work p completed h (λ q. cc) (λ v. v))
                    (report_event-Justified kind r (is_other-Identified r fine same)))
          ]
        ]
      ]

  pub status_answer-Obeys :
      (kind : SearchType) (a : Answer StatusResult)
      → Obeys sha256 (informed work p (of_status kind a)) (status_answer worker work p kind a)
  unfolding status_answer
  status_answer-Obeys kind protocol_error =
      conclude-Obeys sha256 worker work p (of_status kind protocol_error) _ _
        (unclear_neither sha256 worker work p terminal_error (of_status kind protocol_error)
          (λ q. cc) (λ u. u))
        tt
  status_answer-Obeys kind transport_error =
      conclude-Obeys sha256 worker work p (of_status kind transport_error) _ _
        (unclear_neither sha256 worker work p retryable_error (of_status kind transport_error)
          (λ q. cc) (λ u. u))
        (retry_status-Justified sha256 worker work p kind transport_error "TRANSPORT_ERROR"
          (λ s. tt) (λ c. tt))
  status_answer-Obeys kind (answered r) = status_response-Obeys kind r
