-- ===== src/Store/Transaction/Laws.antt =====
-- postgres/internal/store/store.go: what a transaction does to the tables, on every outcome.
use soraban.Shared.{true, false, String, ◌≡◌, ◌⊎◌, inl, inr, refl, Bool-cases}
use soraban.Lifecycle.{Error, Result, ok, err}
use soraban.Store.Tables.{Db}
use soraban.Store.Transaction.{
  DriverError, calm, begin_fails, context_not_set, statement_fails, commit_fails, Trouble,
  Environment, validate_firm_id, Body, finish, attempt, run_tx,
}

module _ {A : Type 0} where
  abbrev Ran : Body A → Db → Result A × Db → Type 0
  Ran body db r = (a : A) × (db' : Db) × (body db ≡ ok (a, db')) × (r.1 ≡ db')

  pub finish-Ran :
      (t : Trouble) (b : Result (A × Db)) (db : Db)
      → ((finish t b db).1 ≡ db)
        ⊎ ((a : A) × (db' : Db) × (b ≡ ok (a, db')) × ((finish t b db).1 ≡ db'))
  unfolding finish
  finish-Ran t (err e) db = inl refl
  finish-Ran (commit_fails e true) (ok (a, db')) db = inr (a, db', refl, refl)
  finish-Ran (commit_fails e false) (ok (a, db')) db = inl refl
  finish-Ran t (ok (a, db')) db = inr (a, db', refl, refl)

  attempt-Ran :
      (t : Trouble) (body : Body A) (db : Db)
      → ((attempt t body db).1 ≡ db) ⊎ Ran body db (attempt t body db)
  unfolding attempt
  attempt-Ran begin_fails body db = inl refl
  attempt-Ran context_not_set body db = inl refl
  attempt-Ran (statement_fails e) body db = inl refl
  attempt-Ran calm body db = finish-Ran calm (body db) db
  attempt-Ran (commit_fails e applied) body db = finish-Ran (commit_fails e applied) (body db) db

  -- The tables are as before, or as a successful body leaves them.
  pub run_tx-Ran :
      (env : Environment) (firm : String) (body : Body A) (db : Db)
      → ((run_tx env firm body db).1 ≡ db)
        ⊎ ((a : A) × (db' : Db) × (body db ≡ ok (a, db')) × ((run_tx env firm body db).1 ≡ db'))
  unfolding run_tx
  run_tx-Ran env firm body db = elim (Bool-cases (validate_firm_id firm)) [
    | inl e ↦ rw e (attempt-Ran env.trouble body db)
    | inr e ↦ rw e (inl refl)
  ]

  -- What a successful body keeps, the transaction keeps.
  pub run_tx-keeps :
      (P : Db → Type 0) (env : Environment) (firm : String) (body : Body A) (db : Db)
      → P db
      → ((a : A) (db' : Db) → body db ≡ ok (a, db') → P db')
      → P (run_tx env firm body db).1
  run_tx-keeps P env firm body db h k = elim (run_tx-Ran env firm body db) [
    | inl e ↦ rw e h
    | inr (a, db', ran, e) ↦ rw e (k a db' ran)
  ]

  pub finish-ok :
      (t : Trouble) (b : Result (A × Db)) (db : Db) {a : A}
      → (finish t b db).0 ≡ ok a
      → b ≡ ok (a, (finish t b db).1)
  unfolding finish
  finish-ok t (err e) db h = cc
  finish-ok (commit_fails e true) (ok (a, db')) db h = cc
  finish-ok (commit_fails e false) (ok (a, db')) db h = cc
  finish-ok t (ok (a, db')) db h = cc

  attempt-ok :
      (t : Trouble) (body : Body A) (db : Db) {a : A}
      → (attempt t body db).0 ≡ ok a
      → body db ≡ ok (a, (attempt t body db).1)
  unfolding attempt
  attempt-ok begin_fails body db h = cc
  attempt-ok context_not_set body db h = cc
  attempt-ok (statement_fails e) body db h = cc
  attempt-ok calm body db h = finish-ok calm (body db) db h
  attempt-ok (commit_fails e applied) body db h = finish-ok (commit_fails e applied) (body db) db h

  -- A call that returns no error has run its body, and committed.
  pub run_tx-ok :
      (env : Environment) (firm : String) (body : Body A) (db : Db) {a : A}
      → (run_tx env firm body db).0 ≡ ok a
      → body db ≡ ok (a, (run_tx env firm body db).1)
  unfolding run_tx
  run_tx-ok env firm body db h = elim (Bool-cases (validate_firm_id firm)) [
    | inl e ↦ rw e (attempt-ok env.trouble body db (rw (e, run_tx) at h))
    | inr e ↦ cc (e, h)
  ]

  finish-err :
      (t : Trouble) (b : Result (A × Db)) (db : Db) {e : Error}
      → (finish t b db).0 ≡ err e
      → ((finish t b db).1 ≡ db) ⊎ ((x : DriverError) × (t ≡ commit_fails x true))
  unfolding finish
  finish-err t (err e) db h = inl refl
  finish-err (commit_fails x true) (ok (a, db')) db h = inr (x, refl)
  finish-err (commit_fails x false) (ok (a, db')) db h = inl refl
  finish-err t (ok (a, db')) db h = cc

  attempt-err :
      (t : Trouble) (body : Body A) (db : Db) {e : Error}
      → (attempt t body db).0 ≡ err e
      → ((attempt t body db).1 ≡ db) ⊎ ((x : DriverError) × (t ≡ commit_fails x true))
  unfolding attempt
  attempt-err begin_fails body db h = inl refl
  attempt-err context_not_set body db h = inl refl
  attempt-err (statement_fails e) body db h = inl refl
  attempt-err calm body db h = finish-err calm (body db) db h
  attempt-err (commit_fails e applied) body db h =
      finish-err (commit_fails e applied) (body db) db h

  -- A call that returns an error has changed nothing, but for a COMMIT whose answer was lost.
  pub run_tx-err :
      (env : Environment) (firm : String) (body : Body A) (db : Db) {e : Error}
      → (run_tx env firm body db).0 ≡ err e
      → ((run_tx env firm body db).1 ≡ db)
        ⊎ ((x : DriverError) × (env.trouble ≡ commit_fails x true))
  unfolding run_tx
  run_tx-err env firm body db h = elim (Bool-cases (validate_firm_id firm)) [
    | inl e ↦ rw e (attempt-err env.trouble body db (rw e at h))
    | inr e ↦ rw e (inl refl)
  ]

  -- With nothing in the way the call returns what its body does.
  pub run_tx_commits :
      (env : Environment) (firm : String) (body : Body A) (db db' : Db) (a : A)
      → validate_firm_id firm ≡ true
      → env.trouble ≡ calm
      → body db ≡ ok (a, db')
      → run_tx env firm body db ≡ (ok a, db')
  unfolding run_tx finish
  run_tx_commits env firm body db db' a v c b = rw (v, c, b)

  pub run_tx_rolls_back :
      (env : Environment) (firm : String) (body : Body A) (db : Db) (e : Error)
      → validate_firm_id firm ≡ true
      → env.trouble ≡ calm
      → body db ≡ err e
      → run_tx env firm body db ≡ (err e, db)
  unfolding run_tx finish
  run_tx_rolls_back env firm body db e v c b = rw (v, c, b)
