-- ===== src/IrsClient/Accepting.antt =====
-- service/internal/irsclient/client.go, `Status`: the responses that pass its checks.
use soraban.Shared.{
  length-map, ℕ, ◌==◌, true, false, not, ◌&&◌, ◌||◌, str_eq, some, List, [], ◌∷◌, length, map, All,
  ◌≡◌, refl, arith, Bool-cases, inl, inr,
}
use soraban.Worker.Process.{answered, StatusResult}
use soraban.IrsClient.{
  WireResult, StatusResponse, check_status, outcome_of, outcomes_of, cons_outcome, with_outcomes,
  is_accepted_result, is_rejected_result, valid_transmission_status,
}

-- A result that the client takes.
abbrev pub Fine : WireResult → Type 0
Fine w = (str_eq w.filing_key "" ≡ false) × ((is_accepted_result w || is_rejected_result w) ≡ true)

outcomes_of-Fine : (ws : List WireResult) → All Fine ws → outcomes_of ws ≡ some (map outcome_of ws)
unfolding outcomes_of cons_outcome
outcomes_of-Fine [] h = refl
outcomes_of-Fine (w ∷ ws) h =
    let guard : (str_eq w.filing_key ""
          || (not (is_accepted_result w) && not (is_rejected_result w)))
        ≡ false =
      ground (arith, h.0) in
    rw (outcomes_of-Fine ws h.1, guard) refl

abbrev pub understood : ℕ → StatusResponse → StatusResult
understood code r = record {
  status_code = code;
  error_code = "";
  receipt_id = r.receipt_id;
  utid = r.utid;
  status = r.status;
  outcomes = map outcome_of r.results;
}

pub check_status-understood :
    (code : ℕ) (r : StatusResponse)
    → (str_eq r.receipt_id "" ≡ false)
    → (str_eq r.utid "" ≡ false)
    → (valid_transmission_status r.status ≡ true)
    → (length r.results == 0) ≡ str_eq r.status "Processing"
    → All Fine r.results
    → check_status code r ≡ answered (understood code r)
unfolding check_status with_outcomes
check_status-understood code r receipt utid status shape fine =
    rw (receipt, utid, status, outcomes_of-Fine r.results fine, length-map outcome_of r.results)
      (rw shape (elim (Bool-cases (str_eq r.status "Processing")) [
        | inl e ↦ rw e refl
        | inr e ↦ rw e refl
      ]))
