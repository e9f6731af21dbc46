-- ===== src/Store/Transaction.antt =====
-- postgres/internal/store/store.go: transactions of one firm and the mapping of database errors.
-- What the database and the connection do during one call is an `Environment`.
pub mod Laws
use soraban.Shared.{
  ℕ, Bool, true, false, ◌||◌, ◌==◌, ltb, String, str_eq, List, [], ◌∷◌, ◌≡◌, ◌⊎◌, inl, inr, ◌≢◌,
  refl, arith, if◌then◌else◌, codes, byte_length, is_blank, not, all_of, Bool-cases,
}
use soraban.Lifecycle.{
  Error, conflict, not_found, invariant, canceled, message, database, Result, ok, err,
}
use soraban.Store.Tables.{Db}

-- An error of the driver: the context's, one of PostgreSQL with its code, or another.
pub data DriverError : Type 0 where
  context_error : DriverError
  pg_error : String → DriverError
  other_error : String → DriverError

-- What goes wrong below the adapter during a call. A failed COMMIT says whether the transaction
-- took effect all the same.
pub data Trouble : Type 0 where
  calm : Trouble
  begin_fails : Trouble
  context_not_set : Trouble
  statement_fails : DriverError → Trouble
  commit_fails : DriverError → Bool → Trouble

-- `now` is `clock_timestamp()` in microseconds, `locked` tells the batches whose rows another
-- transaction has locked.
pub record Environment : Type 0 where
  pub now : ℕ
  pub locked : ℕ → Bool
  pub trouble : Trouble

-- `strings.ContainsAny(firmID, "\x00\r\n")`.
is_forbidden : ℕ → Bool
is_forbidden c = c == 0 || c == 13 || c == 10

unfoldable pub validate_firm_id : String → Bool
unfolding is_forbidden
validate_firm_id firm = not (
    is_blank firm
    || ltb 128 (byte_length (codes firm))
    || not (all_of (λ c. not (is_forbidden c)) (codes firm)))

map_code : String → Error
map_code code =
    if str_eq code "23505"
    then conflict
    else if str_eq code "23503"
    then not_found
    else if str_eq code "23514"
        || str_eq code "22000"
        || str_eq code "22001"
        || str_eq code "22003"
        || str_eq code "22007"
        || str_eq code "22P02"
        || str_eq code "55000"
    then invariant
    else database code

unfoldable pub map_error : DriverError → Error
unfolding map_code
map_error context_error = canceled
map_error (pg_error code) = map_code code
map_error (other_error text) = database text

-- The body of a transaction: its result with the tables that a COMMIT makes durable, or an error,
-- after which the deferred Rollback discards what it wrote.
abbrev pub Body : Type 0 → Type 0
Body A = Db → Result (A × Db)

module _ {A : Type 0} where
  unfoldable pub finish : Trouble → Result (A × Db) → Db → Result A × Db
  finish _ (err e) db = (err e, db)
  finish (commit_fails e true) (ok (a, db')) db = (err (map_error e), db')
  finish (commit_fails e false) (ok (a, db')) db = (err (map_error e), db)
  finish _ (ok (a, db')) db = (ok a, db')

  attempt : Trouble → Body A → Db → Result A × Db
  unfolding finish
  attempt begin_fails body db = (err (message "begin database transaction"), db)
  attempt context_not_set body db = (err (message "set firm context"), db)
  attempt (statement_fails e) body db = (err (map_error e), db)
  attempt calm body db = finish calm (body db) db
  attempt (commit_fails e applied) body db = finish (commit_fails e applied) (body db) db

  -- `beginFirm`, the statements, and `commit` or the deferred Rollback. A statement that fails
  -- aborts the call wherever it stands, so that it is immaterial which one it was.
  unfoldable pub run_tx : Environment → String → Body A → Db → Result A × Db
  unfolding attempt
  run_tx env firm body db =
      if validate_firm_id firm
      then attempt env.trouble body db
      else (err (message "invalid firm identity"), db)
