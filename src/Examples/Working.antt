-- ===== src/Examples/Working.antt =====
-- A worker with work to submit, and what it does on some answers.
use soraban.Shared.{ℕ, ◌*◌, false, none, some, List, [], ◌∷◌, ◌≡◌, refl}
use soraban.Shared.Int.{pos}
use soraban.Lifecycle.{ok, CallResult, completed, ambiguous}
use soraban.Store.Machine.{Event, submit_accepted, submit_unknown}
use soraban.Worker.Backoff.{second, delay, positive_or, doubled, with_jitter}
use soraban.Worker.Process.{
  Answer, answered, transport_error, SubmitResult, Program, done, claim, acquire, submits, asks,
  hook, finish, close, records, Worker, Outcome, process_one, submit, act, submit_answer,
  submit_response, retry_submit, conclude, hooked, poll_delay,
}
use soraban.Worker.Process.Protocol.{idle, Obeys}
use soraban.Worker.Process.Keeping.{process_one-Obeys}
use soraban.Examples.Batches.{hash, work}

abbrev worker : Worker
worker = record {
  worker_id = "w1";
  lease_duration = pos 90000000000;
  backoff = record {
    initial = pos second;
    maximum = pos (60 * second);
    max_attempts = 5;
    jitter = none;
  };
  has_hook = false;
}

process_one-Obeys_example : Obeys {P = ℕ} hash idle (process_one hash worker "F001")
process_one-Obeys_example = process_one-Obeys ℕ hash worker "F001"

-- What a program finishes, records and closes where every call but the submission is answered
-- without an error, the claim with the work of the first batch.
data Trace : Type 0 where
  finished : CallResult → Trace
  recorded : Event → Trace
  closed : ℕ → Trace

follow : Answer SubmitResult → Program ℕ Outcome → List Trace
follow a (done r) = []
follow a (claim command k) = follow a (k (ok (some (work 1 "t1"))))
follow a (acquire command k) = follow a (k (ok 7))
follow a (submits xml k) = follow a (k a)
follow a (asks firm kind value k) = follow a (k transport_error)
follow a (hook rest) = follow a rest
follow a (finish p result k) = finished result ∷ follow a (k (ok tt))
follow a (close p rest) = closed p ∷ follow a rest
follow a (records c event k) = recorded event ∷ follow a (k (ok tt))

accepted_run :
    follow
      (answered (record { status_code = 200; error_code = ""; receipt_id = "R1" }))
      (process_one hash worker "F001")
    ≡ finished (record { outcome = completed; http_status = 200; error_code = "" })
      ∷ recorded (submit_accepted (record { receipt_id = "R1"; poll_delay = pos second }))
      ∷ closed 7
      ∷ []
unfolding follow process_one act submit submit_answer submit_response conclude hooked poll_delay
    delay positive_or doubled with_jitter
accepted_run = refl

lost_answer_run :
    follow transport_error (process_one hash worker "F001")
    ≡ finished (record { outcome = ambiguous; http_status = 0; error_code = "TRANSPORT_ERROR" })
      ∷ recorded (submit_unknown (record { delay = pos second; failure_code = "TRANSPORT_ERROR" }))
      ∷ closed 7
      ∷ []
unfolding follow process_one act submit submit_answer retry_submit conclude hooked delay positive_or
    doubled with_jitter
lost_answer_run = refl
