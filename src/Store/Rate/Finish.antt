-- ===== src/Store/Rate/Finish.antt =====
-- postgres/internal/store/rate.go, `Finish`: what it makes of the gate of its firm.
use soraban.Shared.{ℕ, ltb, not, ◌||◌, ◌≡◌, refl, ◌⊎◌, inl, inr, arith, Bool-cases, update_where}
use soraban.Lifecycle.{Result, ok, err, CallResult}
use soraban.Store.Tables.{Db}
use soraban.Store.Transaction.{Trouble}
use soraban.Store.Events.{valid_failure_code}
use soraban.Store.Rate.{
  Permit, of_firm, reopen_gate, run_on_conn, finish_body, finished_permit, finish_permit,
  is_ambiguous,
}
use soraban.Store.Rate.Gate.{run_on_conn-Ran, run_on_conn-ok}

finish_body-gates :
    (now : ℕ) (permit : Permit) (result : CallResult) (db db' : Db) (a : Unit {0})
    → finish_body now permit result db ≡ ok (a, db')
    → db'.rate_gates
      ≡ update_where
          (of_firm permit.firm_id)
          (reopen_gate now (is_ambiguous result.outcome))
          db.rate_gates
unfolding finish_body
finish_body-gates now permit result db db' a h = ground arith

finished_tables :
    (permit : Permit) (r : Result (Unit {0}) × Db) → (finished_permit permit r).2 ≡ r.1
unfolding finished_permit
finished_tables permit (ok x, db) = refl
finished_tables permit (err e, db) = refl

finished-ok :
    (permit : Permit) (r : Result (Unit {0}) × Db)
    → (finished_permit permit r).0 ≡ ok tt
    → r.0 ≡ ok tt
unfolding finished_permit
finished-ok permit (ok x, db) h = cc
finished-ok permit (err e, db) h = cc

-- The gates after a `Finish`: as before, or those of a success.
pub finish_permit-gates :
    (now : ℕ) (trouble : Trouble) (permit : Permit) (result : CallResult) (db : Db)
    → ((finish_permit now trouble permit result db).2.rate_gates ≡ db.rate_gates)
      ⊎ ((finish_permit now trouble permit result db).2.rate_gates
          ≡ update_where
              (of_firm permit.firm_id)
              (reopen_gate now (is_ambiguous result.outcome))
              db.rate_gates)
unfolding finish_permit
finish_permit-gates now trouble permit result db =
    elim (Bool-cases (permit.finished || permit.released)) [
      | inl over ↦ rw over (inl refl)
      | inr usable ↦
          elim (Bool-cases
            (ltb 599 result.http_status || not (valid_failure_code result.error_code))) [
              | inl bad ↦ rw (usable, bad) (inl refl)
              | inr good ↦
                  let body = finish_body now permit result in
                  let tables = finished_tables permit (run_on_conn trouble body db) in
                  rw (usable, good)
                    (elim (run_on_conn-Ran body db trouble) [
                      | inl same ↦ inl (cc (tables, same))
                      | inr (a, db', ran, e) ↦
                          inr (cc (tables, e, finish_body-gates now permit result db db' a ran))
                    ])
            ]
    ]

-- The gates after a `Finish` that returns no error.
pub finish_permit-ok :
    (now : ℕ) (trouble : Trouble) (permit : Permit) (result : CallResult) (db : Db)
    → (finish_permit now trouble permit result db).0 ≡ ok tt
    → (finish_permit now trouble permit result db).2.rate_gates
      ≡ update_where
          (of_firm permit.firm_id)
          (reopen_gate now (is_ambiguous result.outcome))
          db.rate_gates
unfolding finish_permit
finish_permit-ok now trouble permit result db h =
    elim (Bool-cases (permit.finished || permit.released)) [
      | inl over ↦ absurd (ground arith)
      | inr usable ↦
          elim (Bool-cases
            (ltb 599 result.http_status || not (valid_failure_code result.error_code))) [
              | inl bad ↦ absurd (ground arith)
              | inr good ↦
                  let body = finish_body now permit result in
                  let tables = finished_tables permit (run_on_conn trouble body db) in
                  let ran =
                    run_on_conn-ok body db trouble
                      (finished-ok permit (run_on_conn trouble body db) (rw (usable, good) at h)) in
                  rw (usable, good) (cc (tables, finish_body-gates now permit result db _ tt ran))
            ]
    ]
