-- ===== src/Worker/Process/Keeping.antt =====
-- service/internal/filing/worker.go: `ProcessOne` keeps the protocol.
use soraban.Shared.{
  true, String, str_eq, some, ◌≡◌, refl, inl, inr, arith, Bool-cases, bytes_eq, eq_iff, sym, ap,
}
use soraban.Lifecycle.{
  ok, Bytes, BatchAction, lookup_by_utid, poll_status, BatchWork, CallOperation,
}
use soraban.Worker.Process.{
  SearchType, by_utid, by_receipt_id, Program, Worker, Outcome, hooked, submit_permitted, submit,
  status_permitted, status, act, claimed, process_one,
}
use soraban.Worker.Process.Protocol.{
  Heard, of_submit, of_status, Asked, operation_of, idle, holding, permitted, informed, Obeys,
}
use soraban.Worker.Process.Submitting.{submit_answer-Obeys}
use soraban.Worker.Process.Asking.{status_answer-Obeys}

module _ {P : Type 0} (sha256 : Bytes → Bytes) (worker : Worker) (work : BatchWork) (p : P) where
  hooked-Obeys :
      (h : Heard) (rest : Program P Outcome)
      → Obeys sha256 (informed work p h) rest
      → Obeys sha256 (informed work p h) (hooked worker work p rest)
  unfolding hooked
  hooked-Obeys h rest o = elim (Bool-cases worker.has_hook) [
    | inl present ↦ rw present o
    | inr without ↦ rw without o
  ]

  submit_permitted-Obeys :
      work.next_action ≡ BatchAction.submit
      → bytes_eq (sha256 work.canonical_xml) work.payload_sha256 ≡ true
      → Obeys sha256 (permitted work p) (submit_permitted sha256 worker work (ok p))
  unfolding submit_permitted
  submit_permitted-Obeys action intact = (
    refl,
    action,
    intact,
    λ a. hooked-Obeys (of_submit a) _ (submit_answer-Obeys sha256 worker work p a),
  )

  status_permitted-Obeys :
      (kind : SearchType) (value : String)
      → Asked work kind value
      → Obeys sha256 (permitted work p) (status_permitted sha256 worker work kind value (ok p))
  unfolding status_permitted
  status_permitted-Obeys kind value asked = (
    refl,
    asked,
    λ a. hooked-Obeys (of_status kind a) _ (status_answer-Obeys sha256 worker work p kind a),
  )

module _ (P : Type 0) (sha256 : Bytes → Bytes) (worker : Worker) (work : BatchWork) where
  status-Obeys :
      (kind : SearchType) (value : String)
      → operation_of work.next_action ≡ CallOperation.status
      → Asked work kind value
      → Obeys {P = P} sha256 (holding work) (status sha256 worker work kind value)
  unfolding status
  status-Obeys kind value operation asked = (
    refl,
    refl,
    sym operation,
    (λ e. tt),
    λ p. status_permitted-Obeys sha256 worker work p kind value asked,
  )

  act-Obeys :
      (action : BatchAction)
      → work.next_action ≡ action
      → bytes_eq (sha256 work.canonical_xml) work.payload_sha256 ≡ true
      → Obeys {P = P} sha256 (holding work) (act sha256 worker action work)
  unfolding act submit
  act-Obeys BatchAction.submit q intact = (
    refl,
    refl,
    ap (λ a. operation_of a) (sym q),
    (λ e. tt),
    λ p. submit_permitted-Obeys sha256 worker work p q intact,
  )
  act-Obeys lookup_by_utid q intact =
      status-Obeys by_utid work.utid (ap (λ a. operation_of a) q) (refl, inl q)
  act-Obeys poll_status q intact = elim (Bool-cases (str_eq work.receipt_id "")) [
    | inl first ↦ rw first (
        status-Obeys by_utid work.utid (ap (λ a. operation_of a) q)
          (refl, inr (q, ground (arith, eq_iff work.receipt_id ""))))
    | inr later ↦ rw later (
        status-Obeys by_receipt_id work.receipt_id (ap (λ a. operation_of a) q)
          (refl, q, λ none. absurd (ground (arith, eq_iff work.receipt_id ""))))
  ]

  claimed-Obeys : Obeys {P = P} sha256 (holding work) (claimed sha256 worker (ok (some work)))
  unfolding claimed
  claimed-Obeys = elim (Bool-cases (bytes_eq (sha256 work.canonical_xml) work.payload_sha256)) [
    | inl intact ↦ rw intact (act-Obeys work.next_action refl intact)
    | inr changed ↦ rw changed (refl, refl, changed, λ r. tt)
  ]

-- Whatever the database and the IRS answer, ProcessOne calls the IRS only under a permit, submits
-- only the unchanged payload of work that is to be submitted and whose hash is right, finishes the
-- permit before it records the event, as ambiguous exactly where the submission is uncertain,
-- records at most one event, under the claim of the work and justified by the answer (as not known
-- to the IRS only after a 404 NOT_FOUND to a query by UTID), and closes the permit on every path.
pub process_one-Obeys :
    (P : Type 0) (sha256 : Bytes → Bytes) (worker : Worker) (firm : String)
    → Obeys {P = P} sha256 idle (process_one sha256 worker firm)
unfolding process_one claimed
process_one-Obeys P sha256 worker firm = ((λ e. tt), tt, λ work. claimed-Obeys P sha256 worker work)
