-- ===== src/Examples/Permits.antt =====
-- Permits for calls of the IRS for one firm.
use soraban.Shared.{ℕ, ◌+◌, ◌≤◌, false, true, none, List, [], ◌∷◌, ◌≡◌, refl}
use soraban.Lifecycle.{ok, AcquireCallCommand, CallOperation, CallResult, ambiguous}
use soraban.Store.Tables.{Db}
use soraban.Store.Transaction.{calm, validate_firm_id}
use soraban.Store.Events.{valid_failure_code}
use soraban.Store.Rate.{
  Permit, AcquireEnvironment, acquire_call_permit, run_on_conn, look_body, insert_gate, allowed_at,
  enter_body, fence_gate, finish_permit, finish_body, reopen_gate, crash_fence, call_spacing,
  is_ambiguous,
}
use soraban.Store.Rate.Spacing.{
  RateCall, acquires, rate_after, rate_history, start_of, is_quiet, calls_fenced, calls_spaced,
}
use soraban.Examples.Batches.{db}

abbrev at : ℕ → ℕ → AcquireEnvironment
at t id = record {
  connected = true;
  lock = none;
  looked_at = t;
  looking = calm;
  wait_canceled = false;
  late = 5;
  entering = calm;
  log_id = id;
}

abbrev command : AcquireCallCommand
command = record { firm_id = "F001"; batch_id = 1; operation = CallOperation.submit }

abbrev permit : Permit
permit = record { firm_id = "F001"; log_id = 7; finished = false; released = false }

acquired : (acquire_call_permit (at 100 7) command db).0 ≡ ok permit
unfolding acquire_call_permit validate_firm_id run_on_conn look_body insert_gate allowed_at
    enter_body
acquired = refl

-- A call for another firm in between.
abbrev elsewhere : List RateCall
elsewhere = acquires (at 150 8) (record command { firm_id = "F002" }) ∷ []

calls_fenced_example :
    start_of (at 100 7) command db + crash_fence
    ≤ start_of
        (at 200 9)
        command
        (rate_history elsewhere (acquire_call_permit (at 100 7) command db).1)
unfolding is_quiet
calls_fenced_example =
    calls_fenced (at 100 7) (at 200 9) command command permit elsewhere db acquired refl refl

abbrev unclear : CallResult
unclear = record { outcome = ambiguous; http_status = 503; error_code = "BUSY" }

finished :
    (finish_permit 1000 calm permit unclear
      (rate_history elsewhere (acquire_call_permit (at 100 7) command db).1)).0
    ≡ ok tt
unfolding acquire_call_permit validate_firm_id run_on_conn look_body insert_gate allowed_at
    enter_body fence_gate finish_permit finish_body reopen_gate rate_after rate_history
    valid_failure_code
finished = refl

abbrev reopened : Db
reopened =
    (finish_permit 1000 calm permit unclear
      (rate_history elsewhere (acquire_call_permit (at 100 7) command db).1)).2

calls_spaced_example :
    (1000 + call_spacing ≤ start_of (at 2000 9) command (rate_history [] reopened))
    × (is_ambiguous unclear.outcome ≡ true
        → 1000 + crash_fence ≤ start_of (at 2000 9) command (rate_history [] reopened))
unfolding is_quiet
calls_spaced_example =
    calls_spaced (at 100 7) (at 2000 9) command command permit elsewhere [] 1000 calm unclear db
      acquired finished refl refl
