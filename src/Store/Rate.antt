-- ===== src/Store/Rate.antt =====
-- postgres/internal/store/rate.go: permits for calls of the IRS, one at a time for a firm.
pub mod Gate
pub mod Acquire
pub mod Finish
pub mod Spacing
use Prim.Native.Nat.{max}
use soraban.Shared.{
  ℕ, ◌+◌, ◌-◌, ◌==◌, Bool, true, false, not, ◌&&◌, ◌||◌, ltb, String, str_eq, Option, none, some,
  List, [], ◌∷◌, ◌++◌, if◌then◌else◌, update_where, count_where, is_none,
}
use soraban.Lifecycle.{
  Error, not_found, invalid_transition, invariant, canceled, message, Result, ok, err,
  CallOperation, CallOutcome, ambiguous, AcquireCallCommand, CallResult,
}
use soraban.Store.Tables.{Batch, RateGate, ApiCall, Db}
use soraban.Store.Transaction.{
  DriverError, Trouble, calm, begin_fails, context_not_set, statement_fails, commit_fails, Body,
  finish, map_error, validate_firm_id,
}
use soraban.Store.Events.{valid_failure_code, non_empty}

abbrev pub call_spacing : ℕ
call_spacing = 3100000

abbrev pub crash_fence : ℕ
crash_fence = 60000000

-- `logID` of `callPermit` and the flags that its methods change.
pub record Permit : Type 0 where
  pub firm_id : String
  pub log_id : ℕ
  pub finished : Bool
  pub released : Bool

-- What happens during one `AcquireCallPermit`: whether there is a connection, what becomes of the
-- statement that takes the advisory lock, the two transactions with their clocks, and whether the
-- context ends during the wait between them. The second transaction stands `late` microseconds
-- after the end of the wait. `log_id` is the identity that the log row gets.
pub record AcquireEnvironment : Type 0 where
  pub connected : Bool
  pub lock : Option DriverError
  pub looked_at : ℕ
  pub looking : Trouble
  pub wait_canceled : Bool
  pub late : ℕ
  pub entering : Trouble
  pub log_id : ℕ

module _ {A : Type 0} where
  -- `beginFirmOnConn`, the statements, and Commit or Rollback.
  unfoldable pub run_on_conn : Trouble → Body A → Db → Result A × Db
  unfolding finish
  run_on_conn begin_fails body db = (err (message "begin rate transaction"), db)
  run_on_conn context_not_set body db = (err (message "set rate firm context"), db)
  run_on_conn (statement_fails e) body db = (err (map_error e), db)
  run_on_conn calm body db = finish calm (body db) db
  run_on_conn (commit_fails e applied) body db = finish (commit_fails e applied) (body db) db

abbrev pub of_firm : String → RateGate → Bool
of_firm firm g = str_eq g.firm_id firm

-- `INSERT INTO rate_gates … ON CONFLICT DO NOTHING`.
unfoldable pub insert_gate : String → List RateGate → List RateGate
insert_gate firm gates =
    if count_where (of_firm firm) gates == 0
    then gates ++ (record { firm_id = firm; next_call_at = 0; crash_fence_until = 0 } ∷ [])
    else gates

-- `GREATEST(next_call_at, crash_fence_until, epoch)` of the firm's row.
unfoldable pub allowed_at : String → List RateGate → ℕ
allowed_at firm [] = 0
allowed_at firm (g ∷ gs) =
    let rest = allowed_at firm gs in
    if of_firm firm g then max g.next_call_at g.crash_fence_until else rest

-- The first transaction.
unfoldable pub look_body : String → Body ℕ
look_body firm db =
    let gates = insert_gate firm db.rate_gates in
    ok (allowed_at firm gates, record db { rate_gates = gates })

unfoldable pub fence_gate : ℕ → RateGate → RateGate
fence_gate now g = record g { crash_fence_until = now + crash_fence }

is_batch_of : String → ℕ → Batch → Bool
is_batch_of firm id b = b.id == id && str_eq b.firm_id firm

started : AcquireCallCommand → ℕ → ℕ → ApiCall
started command id now = record {
  id = id;
  firm_id = command.firm_id;
  batch_id = command.batch_id;
  operation = command.operation;
  started_at = now;
  completed_at = none;
  outcome = none;
  http_status = none;
  error_code = none;
}

-- The second transaction: the row of the log, and the fence against a crash.
unfoldable pub enter_body : ℕ → ℕ → AcquireCallCommand → Body ℕ
unfolding is_batch_of started
enter_body now id command db =
    if count_where (is_batch_of command.firm_id command.batch_id) db.submission_batches == 0
    then err not_found
    else ok (
      id,
      record db {
        api_call_log = started command id now ∷ db.api_call_log;
        rate_gates = update_where (of_firm command.firm_id) (fence_gate now) db.rate_gates;
      },
    )

permit_of : String → ℕ → Permit
permit_of firm id = record { firm_id = firm; log_id = id; finished = false; released = false }

-- When the second transaction runs, `allowed` being what the first has read.
abbrev pub entered_at : AcquireEnvironment → ℕ → ℕ
entered_at env allowed = env.looked_at + (allowed - env.looked_at) + env.late

granted : String → Result ℕ × Db → Result Permit × Db
unfolding permit_of
granted firm (ok id, db) = (ok (permit_of firm id), db)
granted firm (err e, db) = (err e, db)

-- After the first transaction: the wait, and the second transaction.
enter : AcquireEnvironment → AcquireCallCommand → Result ℕ × Db → Result Permit × Db
unfolding granted
enter env command (err e, db) = (err e, db)
enter env command (ok allowed, db) =
    if ltb env.looked_at allowed && env.wait_canceled
    then (err canceled, db)
    else granted command.firm_id
        (run_on_conn env.entering (enter_body (entered_at env allowed) env.log_id command) db)

with_lock : AcquireEnvironment → AcquireCallCommand → Option DriverError → Db → Result Permit × Db
unfolding enter
with_lock env command (some e) db = (err (map_error e), db)
with_lock env command none db =
    enter env command (run_on_conn env.looking (look_body command.firm_id) db)

-- The operation of a command is one of the two by its type. The statement for the advisory lock
-- returns when no other session holds the firm's.
unfoldable pub acquire_call_permit :
    AcquireEnvironment → AcquireCallCommand → Db → Result Permit × Db
unfolding with_lock
acquire_call_permit env command db =
    if not (validate_firm_id command.firm_id) || command.batch_id == 0
    then (err (message "invalid call permit command"), db)
    else if not env.connected
    then (err (message "acquire rate connection"), db)
    else with_lock env command env.lock db

is_open_call : Permit → ApiCall → Bool
is_open_call permit c =
    c.id == permit.log_id && str_eq c.firm_id permit.firm_id && is_none c.completed_at

completed_call : ℕ → CallResult → ApiCall → ApiCall
completed_call now result c = record c {
  completed_at = some now;
  outcome = some result.outcome;
  http_status = if result.http_status == 0 then none else some result.http_status;
  error_code = non_empty result.error_code;
}

abbrev pub is_ambiguous : CallOutcome → Bool
is_ambiguous ambiguous = true
is_ambiguous _ = false

unfoldable pub reopen_gate : ℕ → Bool → RateGate → RateGate
reopen_gate now unclear g = record g {
  next_call_at = now + call_spacing;
  crash_fence_until = if unclear then now + crash_fence else 0;
}

-- `api_call_log_http_status_ck`: NULL, or 100 to 599.
violates_http_status_ck : ℕ → Bool
violates_http_status_ck status = not (status == 0) && (ltb status 100 || ltb 599 status)

unfoldable pub finish_body : ℕ → Permit → CallResult → Body (Unit {0})
unfolding is_open_call completed_call violates_http_status_ck
finish_body now permit result db =
    if violates_http_status_ck result.http_status
      && ltb 0 (count_where (is_open_call permit) db.api_call_log)
    then err invariant
    else if count_where (is_open_call permit) db.api_call_log == 1
    then ok (
      tt,
      record db {
        api_call_log =
            update_where (is_open_call permit) (completed_call now result) db.api_call_log;
        rate_gates =
            update_where (of_firm permit.firm_id) (reopen_gate now (is_ambiguous result.outcome))
              db.rate_gates;
      },
    )
    else err invalid_transition

finished_permit : Permit → Result (Unit {0}) × Db → Result (Unit {0}) × Permit × Db
finished_permit permit (ok x, db) = (ok x, record permit { finished = true; released = true }, db)
finished_permit permit (err e, db) = (err e, permit, db)

-- `Finish`: the outcome is one of the four by its type.
unfoldable pub finish_permit :
    ℕ → Trouble → Permit → CallResult → Db → Result (Unit {0}) × Permit × Db
unfolding finished_permit
finish_permit now trouble permit result db =
    if permit.finished || permit.released
    then (err invalid_transition, permit, db)
    else if ltb 599 result.http_status || not (valid_failure_code result.error_code)
    then (err (message "invalid call result"), permit, db)
    else finished_permit permit (run_on_conn trouble (finish_body now permit result) db)

-- `Close`.
unfoldable pub close_permit : Permit → Permit
close_permit permit = record permit { released = true }
