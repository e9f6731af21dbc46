-- ===== src/Store/Events/Effect.antt =====
-- postgres/internal/store/filing.go: an event is written to the rows that the claim owns, or not.
use soraban.Shared.{
  ℕ, ◌==◌, Bool, true, false, ◌||◌, not, ltb, List, ◌≡◌, refl, ◌⊎◌, inl, inr, arith, update_where,
  count_where, codes, byte_length, Bool-cases, if◌then◌else◌,
}
use soraban.Lifecycle.{Error, Result, ok, err, Claim}
use soraban.Store.Tables.{Batch, BatchState, among, Db}
use soraban.Store.Transaction.{Environment, run_tx}
use soraban.Store.Transaction.Laws.{run_tx-Ran, run_tx-ok}
use soraban.Store.Events.{
  Transition, owns, update_owned, event_row, event_body, event_transition, valid_delay,
  valid_failure_code, violates_receipt_uk,
}

module _ (now : ℕ) (claim : Claim) (states : BatchState → Bool) (f : Batch → Batch) (db : Db) where
  abbrev pub written : List Batch
  written = update_where (owns now claim states) f db.submission_batches

  -- The tables are as they were, or one row was the claim's, and it is written.
  abbrev pub Wrote : Db → Type 0
  Wrote db' =
      (db' ≡ db)
      ⊎ ((count_where (owns now claim states) db.submission_batches ≡ 1)
          × (db'.submission_batches ≡ written))

  -- One row was the claim's, and it is written.
  abbrev pub WroteOne : Db → Type 0
  WroteOne db' =
      (count_where (owns now claim states) db.submission_batches ≡ 1)
      × (db'.submission_batches ≡ written)
      × (db'.filings ≡ db.filings)

  pub update_owned-WroteOne :
      {a : Unit {0}} {db' : Db} → update_owned now claim states f db ≡ ok (a, db') → WroteOne db'
  unfolding update_owned
  update_owned-WroteOne h = ground arith

module _ (env : Environment) (claim : Claim) (db : Db) where
  event_body-WroteOne :
      (t : Transition) {a : Unit {0}} {db' : Db}
      → event_body env.now claim t db ≡ ok (a, db')
      → WroteOne env.now claim (λ s. among s t.states) (event_row env.now t) db db'
  unfolding event_body
  event_body-WroteOne t h =
      elim (Bool-cases (
        violates_receipt_uk t.receipt_id (owns env.now claim (λ s. among s t.states))
          db.submission_batches)) [
            | inl taken ↦ absurd (ground arith)
            | inr fresh ↦
                update_owned-WroteOne env.now claim (λ s. among s t.states) (event_row env.now t) db
                  (rw fresh at h)
          ]

  pub event_transition-Wrote :
      (t : Transition)
      → Wrote env.now claim
          (λ s. among s t.states)
          (event_row env.now t)
          db
          (event_transition env claim t db).1
  unfolding event_transition
  event_transition-Wrote t =
      elim (Bool-cases (
        claim.batch_id == 0
        || not (valid_delay t.delay)
        || not (valid_failure_code t.failure_code)
        || ltb 256 (byte_length (codes t.receipt_id)))) [
          | inl bad ↦ rw bad (inl refl)
          | inr good ↦ elim (run_tx-Ran env claim.firm_id (event_body env.now claim t) db) [
            | inl e ↦ inl (rw (good, e))
            | inr (a, db', ran, e) ↦
                let (one, wrote, _) = event_body-WroteOne t ran in inr (one, rw (good, e) wrote)
          ]
        ]

  pub event_transition-WroteOne :
      (t : Transition)
      → (event_transition env claim t db).0 ≡ ok tt
      → WroteOne env.now claim
          (λ s. among s t.states)
          (event_row env.now t)
          db
          (event_transition env claim t db).1
  unfolding event_transition
  event_transition-WroteOne t h =
      elim (Bool-cases (
        claim.batch_id == 0
        || not (valid_delay t.delay)
        || not (valid_failure_code t.failure_code)
        || ltb 256 (byte_length (codes t.receipt_id)))) [
          | inl bad ↦ absurd (ground arith)
          | inr good ↦ rw good (
              event_body-WroteOne t
                (run_tx-ok env claim.firm_id (event_body env.now claim t) db (rw good at h)))
        ]

  pub guarded-Wrote :
      (bad : Bool) (e : Error) (states : BatchState → Bool) (f : Batch → Batch)
      → Wrote env.now claim states f db
          (if bad
            then (err e, db)
            else run_tx env claim.firm_id (update_owned env.now claim states f) db).1
  guarded-Wrote true e states f = inl refl
  guarded-Wrote false e states f =
      elim (run_tx-Ran env claim.firm_id (update_owned env.now claim states f) db) [
        | inl same ↦ inl (rw same)
        | inr (a, db', ran, after) ↦
            let (one, wrote, _) = update_owned-WroteOne env.now claim states f db ran in
            inr (one, rw after wrote)
      ]

  pub guarded-WroteOne :
      (bad : Bool) (e : Error) (states : BatchState → Bool) (f : Batch → Batch)
      → let r : Result (Unit {0}) × Db =
          if bad
          then (err e, db)
          else run_tx env claim.firm_id (update_owned env.now claim states f) db in
        r.0 ≡ ok tt → WroteOne env.now claim states f db r.1
  guarded-WroteOne true e states f h = cc
  guarded-WroteOne false e states f h =
      update_owned-WroteOne env.now claim states f db
        (run_tx-ok env claim.firm_id (update_owned env.now claim states f) db h)
