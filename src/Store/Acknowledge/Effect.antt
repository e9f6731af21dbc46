-- ===== src/Store/Acknowledge/Effect.antt =====
-- postgres/internal/store/filing.go, `CompleteAcknowledgment`: what a success has written.
use soraban.Shared.{
  ℕ, ◌==◌, ◌||◌, String, List, [], ◌∷◌, ◌≡◌, refl, ◌⊎◌, inl, inr, arith, count_where, length,
  Bool-cases,
}
use soraban.Lifecycle.{Bytes, Result, ok, err, Claim, FilingOutcome}
use soraban.Store.Tables.{Filing, submitted, awaiting_ack, among, Db}
use soraban.Store.Transaction.{Environment}
use soraban.Store.Transaction.Laws.{run_tx-Ran, run_tx-ok}
use soraban.Store.Events.{owns}
use soraban.Store.Events.Effect.{written, update_owned-WroteOne}
use soraban.Store.Acknowledge.{
  acknowledged_row, acknowledge_filings, acknowledge_body, complete_acknowledgment, apply_outcomes,
  expected_of, next,
}

pub next-eq-ok :
    {A B : Type 0} (r : Result A) (f : A → Result B) {b : B}
    → next r f ≡ ok b
    → (a : A) × (r ≡ ok a) × (f a ≡ ok b)
unfolding next
next-eq-ok (ok a) f h = (a, refl, h)
next-eq-ok (err e) f h = cc

module _ (encode_hex : Bytes → String) (now : ℕ) (claim : Claim) (os : List FilingOutcome)
    (db : Db) where
  -- The outcomes fit the filings of the batch, and both tables are written.
  pub record Acknowledged (db' : Db) : Type 0 where
    pub known :
        length (expected_of encode_hex claim.batch_id claim.firm_id db.filings [] db.batch_filings)
        ≡ length os
    pub applied :
        apply_outcomes now claim.firm_id
          (expected_of encode_hex claim.batch_id claim.firm_id db.filings [] db.batch_filings)
          []
          os
          db.filings
        ≡ ok db'.filings
    pub owned :
        count_where
          (owns now claim (λ s. among s (submitted ∷ awaiting_ack ∷ [])))
          db.submission_batches
        ≡ 1
    pub batches :
        db'.submission_batches
        ≡ written now claim (λ s. among s (submitted ∷ awaiting_ack ∷ [])) (acknowledged_row now) db

  filings-known :
      (fs : List Filing)
      → acknowledge_filings encode_hex now claim os db ≡ ok fs
      → (length (expected_of encode_hex claim.batch_id claim.firm_id db.filings [] db.batch_filings)
          ≡ length os)
        × (apply_outcomes now claim.firm_id
              (expected_of encode_hex claim.batch_id claim.firm_id db.filings [] db.batch_filings)
              []
              os
              db.filings
            ≡ ok fs)
  unfolding acknowledge_filings
  filings-known fs h = ground arith

  pub acknowledge_body-Acknowledged :
      {a : Unit {0}} {db' : Db}
      → acknowledge_body encode_hex now claim os db ≡ ok (a, db')
      → Acknowledged db'
  unfolding acknowledge_body
  acknowledge_body-Acknowledged {a} {db'} h =
      let (fs, applied, wrote) = next-eq-ok (acknowledge_filings encode_hex now claim os db) _ h in
      let (known, outcomes) = filings-known fs applied in
      let (one, batches, filings) =
        update_owned-WroteOne now claim (λ s. among s (submitted ∷ awaiting_ack ∷ []))
          (acknowledged_row now) (record db { filings = fs }) wrote in
      record { known = known; applied = rw filings outcomes; owned = one; batches = batches }

module _ (encode_hex : Bytes → String) (env : Environment) (claim : Claim) (os : List FilingOutcome)
    (db : Db) where
  -- The tables are as before, or those of a success.
  pub complete_acknowledgment_cases :
      ((complete_acknowledgment encode_hex env claim os db).1 ≡ db)
      ⊎ Acknowledged encode_hex env.now claim os db
          (complete_acknowledgment encode_hex env claim os db).1
  unfolding complete_acknowledgment
  complete_acknowledgment_cases = elim (Bool-cases (claim.batch_id == 0 || length os == 0)) [
    | inl bad ↦ rw bad (inl refl)
    | inr good ↦
        elim (run_tx-Ran env claim.firm_id (acknowledge_body encode_hex env.now claim os) db) [
          | inl same ↦ inl (rw (good, same))
          | inr (a, db', ran, e) ↦
              inr (rw (good, e) (acknowledge_body-Acknowledged encode_hex env.now claim os db ran))
        ]
  ]

  pub complete_acknowledgment-Acknowledged :
      (complete_acknowledgment encode_hex env claim os db).0 ≡ ok tt
      → Acknowledged encode_hex env.now claim os db
          (complete_acknowledgment encode_hex env claim os db).1
  unfolding complete_acknowledgment
  complete_acknowledgment-Acknowledged h =
      elim (Bool-cases (claim.batch_id == 0 || length os == 0)) [
        | inl bad ↦ absurd (ground arith)
        | inr good ↦ rw good (
            acknowledge_body-Acknowledged encode_hex env.now claim os db (
              run_tx-ok env claim.firm_id (acknowledge_body encode_hex env.now claim os) db
                (rw good at h)))
      ]
