-- ===== src/Store/Rate/Acquire.antt =====
-- postgres/internal/store/rate.go, `AcquireCallPermit`: what it makes of the gate of its firm.
use soraban.Shared.{
  ℕ, ◌==◌, ltb, not, ◌&&◌, ◌||◌, Option, none, some, List, ◌≡◌, refl, ◌⊎◌, inl, inr, arith,
  Bool-cases, update_where, ap,
}
use soraban.Lifecycle.{AcquireCallCommand, Result, ok, err}
use soraban.Store.Tables.{RateGate, Db}
use soraban.Store.Transaction.{DriverError, validate_firm_id}
use soraban.Store.Rate.{
  Permit, AcquireEnvironment, of_firm, insert_gate, allowed_at, fence_gate, run_on_conn, look_body,
  enter_body, entered_at, granted, enter, with_lock, acquire_call_permit, permit_of,
}
use soraban.Store.Rate.Gate.{allowed-insert, run_on_conn-Ran, run_on_conn-ok}

module _ (env : AcquireEnvironment) (command : AcquireCallCommand) where
  -- What an acquisition may make of the gates, its second transaction standing at `t`.
  pub data Acquired (gates gates' : List RateGate) : Type 0 where
    untouched : gates' ≡ gates → Acquired gates gates'
    looked : gates' ≡ insert_gate command.firm_id gates → Acquired gates gates'
    entered :
        gates'
          ≡ update_where
              (of_firm command.firm_id)
              (fence_gate (entered_at env (allowed_at command.firm_id gates)))
              (insert_gate command.firm_id gates)
        → Acquired gates gates'

  enter_body-gates :
      (t : ℕ) (db db' : Db) (a : ℕ)
      → enter_body t env.log_id command db ≡ ok (a, db')
      → db'.rate_gates ≡ update_where (of_firm command.firm_id) (fence_gate t) db.rate_gates
  unfolding enter_body
  enter_body-gates t db db' a h = ground arith

  granted_tables : (r : Result ℕ × Db) → (granted command.firm_id r).1 ≡ r.1
  unfolding granted
  granted_tables (ok id, db) = refl
  granted_tables (err e, db) = refl

  granted-ok :
      (r : Result ℕ × Db) (p : Permit)
      → (granted command.firm_id r).0 ≡ ok p
      → (id : ℕ) × (r.0 ≡ ok id) × (p.firm_id ≡ command.firm_id)
  unfolding granted permit_of
  granted-ok (ok id, db) p h = (id, refl, ground arith)
  granted-ok (err e, db) p h = cc

  entering-Acquired :
      (t : ℕ) (gates : List RateGate) (db : Db)
      → db.rate_gates ≡ insert_gate command.firm_id gates
      → t ≡ entered_at env (allowed_at command.firm_id gates)
      → Acquired gates
          (granted command.firm_id
            (run_on_conn env.entering (enter_body t env.log_id command) db)).1.rate_gates
  entering-Acquired t gates db inserted at_t =
      let tables = granted_tables (run_on_conn env.entering (enter_body t env.log_id command) db) in
      elim (run_on_conn-Ran (enter_body t env.log_id command) db env.entering) [
        | inl same ↦ looked (cc (tables, same, inserted))
        | inr (a, db', ran, e) ↦
            let fenced = enter_body-gates t db db' a ran in
            entered (cc (tables, e, fenced, inserted, at_t))
      ]

  enter-Acquired :
      (r : Result ℕ × Db) (gates : List RateGate)
      → ((a : ℕ)
          → r.0 ≡ ok a
          → (a ≡ allowed_at command.firm_id gates)
            × (r.1.rate_gates ≡ insert_gate command.firm_id gates))
      → ((r.1.rate_gates ≡ gates) ⊎ (r.1.rate_gates ≡ insert_gate command.firm_id gates))
      → Acquired gates (enter env command r).1.rate_gates
  unfolding enter
  enter-Acquired (err e, db) gates h (inl same) = untouched same
  enter-Acquired (err e, db) gates h (inr inserted) = looked inserted
  enter-Acquired (ok a, db) gates h k =
      let (q, inserted) = h a refl in
      elim (Bool-cases (ltb env.looked_at a && env.wait_canceled)) [
        | inl ended ↦ rw ended (looked inserted)
        | inr waited ↦
            rw waited
              (entering-Acquired (entered_at env a) gates db inserted (ap (entered_at env) q))
      ]

  look_body-gates :
      (db db' : Db) (a : ℕ)
      → look_body command.firm_id db ≡ ok (a, db')
      → (a ≡ allowed_at command.firm_id db.rate_gates)
        × (db'.rate_gates ≡ insert_gate command.firm_id db.rate_gates)
  unfolding look_body
  look_body-gates db db' a h =
      let same = allowed-insert command.firm_id command.firm_id db.rate_gates in ground arith

  with_lock-Acquired :
      (lock : Option DriverError) (db : Db)
      → Acquired db.rate_gates (with_lock env command lock db).1.rate_gates
  unfolding with_lock
  with_lock-Acquired (some e) db = untouched refl
  with_lock-Acquired none db =
      let body = look_body command.firm_id in
      enter-Acquired (run_on_conn env.looking body db) db.rate_gates
        (λ a h. look_body-gates db _ a (run_on_conn-ok body db env.looking h))
        (elim (run_on_conn-Ran body db env.looking) [
          | inl same ↦ inl (cc same)
          | inr (a, db', ran, e) ↦
              let (_, inserted) = look_body-gates db db' a ran in inr (cc (e, inserted))
        ])

  -- Whatever becomes of an acquisition, its firm's gate is inserted or fenced at most.
  pub acquire_call_permit-Acquired :
      (db : Db) → Acquired db.rate_gates (acquire_call_permit env command db).1.rate_gates
  unfolding acquire_call_permit
  acquire_call_permit-Acquired db =
      elim (Bool-cases (not (validate_firm_id command.firm_id) || command.batch_id == 0)) [
        | inl bad ↦ rw bad (untouched refl)
        | inr good ↦ elim (Bool-cases (not env.connected)) [
          | inl off ↦ rw (good, off) (untouched refl)
          | inr on ↦ rw (good, on) (with_lock-Acquired env.lock db)
        ]
      ]

  -- What a permit that was granted has left: its gate fenced at the time of the second transaction.
  abbrev pub Entered : List RateGate → Permit → List RateGate → Type 0
  Entered gates permit gates' =
      (permit.firm_id ≡ command.firm_id)
      × (gates'
          ≡ update_where (of_firm command.firm_id)
              (fence_gate (entered_at env (allowed_at command.firm_id gates)))
              (insert_gate command.firm_id gates))

  enter-Entered :
      (r : Result ℕ × Db) (gates : List RateGate) (p : Permit)
      → ((a : ℕ)
          → r.0 ≡ ok a
          → (a ≡ allowed_at command.firm_id gates)
            × (r.1.rate_gates ≡ insert_gate command.firm_id gates))
      → (enter env command r).0 ≡ ok p
      → Entered gates p (enter env command r).1.rate_gates
  unfolding enter
  enter-Entered (err e, db) gates p h k = cc
  enter-Entered (ok a, db) gates p h k =
      let (q, inserted) = h a refl in
      elim (Bool-cases (ltb env.looked_at a && env.wait_canceled)) [
        | inl ended ↦ absurd (ground arith)
        | inr waited ↦
            let body = enter_body (entered_at env a) env.log_id command in
            let (id, ran, firm) =
              granted-ok (run_on_conn env.entering body db) p (rw waited at k) in
            let fenced =
              enter_body-gates (entered_at env a) db _ id
                (run_on_conn-ok body db env.entering ran) in
            rw waited
              (firm, cc (granted_tables (run_on_conn env.entering body db), fenced, inserted, q))
      ]

  with_lock-Entered :
      (lock : Option DriverError) (db : Db) (p : Permit)
      → (with_lock env command lock db).0 ≡ ok p
      → Entered db.rate_gates p (with_lock env command lock db).1.rate_gates
  unfolding with_lock
  with_lock-Entered (some e) db p h = cc
  with_lock-Entered none db p h =
      let body = look_body command.firm_id in
      enter-Entered (run_on_conn env.looking body db) db.rate_gates p
        (λ a h. look_body-gates db _ a (run_on_conn-ok body db env.looking h)) h

  -- A permit is granted no earlier than its gate allows, and its gate is fenced from then on.
  pub acquire_call_permit-Entered :
      (db : Db) (p : Permit)
      → (acquire_call_permit env command db).0 ≡ ok p
      → Entered db.rate_gates p (acquire_call_permit env command db).1.rate_gates
  unfolding acquire_call_permit
  acquire_call_permit-Entered db p h =
      elim (Bool-cases (not (validate_firm_id command.firm_id) || command.batch_id == 0)) [
        | inl bad ↦ absurd (ground arith)
        | inr good ↦ elim (Bool-cases (not env.connected)) [
          | inl off ↦ absurd (ground arith)
          | inr on ↦ rw (good, on) (with_lock-Entered env.lock db p (rw (good, on) at h))
        ]
      ]
