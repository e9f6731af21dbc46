-- ===== src/Store/Claims/Effect.antt =====
-- postgres/internal/store/filing.go, `ClaimNextBatch`: the three ways in which a claim succeeds.
use soraban.Shared.{
  ◌==◌, Bool, ◌&&◌, ◌||◌, not, String, str_eq, Option, none, some, ◌≡◌, refl, sym, subst, ◌∙◌, ◌⊎◌,
  inl, inr, arith, update_where, length, bytes_eq, Bool-cases, Option-cases,
}
use soraban.Shared.Int.{is_positive}
use soraban.Lifecycle.{Bytes, Result, ok, err, BatchAction, ClaimBatchCommand, BatchWork}
use soraban.Store.Tables.{Batch, Db}
use soraban.Store.Transaction.{Environment}
use soraban.Store.Transaction.Laws.{run_tx-ok, run_tx-Ran}
use soraban.Store.Claims.{
  candidate, claim_row, fail_hash, next_action, set_batches, work_of, Found, nothing, corrupt, work,
  inspect, claim_found, claim_body, settle, claim_with, claim_next_batch,
}

module _ (env : Environment) (command : ClaimBatchCommand) (token : String) (db : Db) where
  -- The tables after the UPDATE of the candidate `c`.
  abbrev pub taken_rows : Batch → Db
  taken_rows c =
      set_batches db
        (update_where (λ r. r.id == c.id) (claim_row env.now command token) db.submission_batches)

  abbrev pub is_mismatch : Batch → Batch → Bool
  is_mismatch c r =
      r.id == (claim_row env.now command token c).id && str_eq r.firm_id command.firm_id

  pub data Claiming (f : Found) (db' : Db) : Type 0 where
    idle :
        candidate env command.firm_id db.submission_batches ≡ none
        → f ≡ nothing
        → db' ≡ db
        → Claiming f db'
    taken :
        (c : Batch) (action : BatchAction)
        → candidate env command.firm_id db.submission_batches ≡ some c
        → next_action (claim_row env.now command token c).state ≡ some action
        → f ≡ work (work_of (claim_row env.now command token c) token action)
        → db' ≡ taken_rows c
        → Claiming f db'
    spoiled :
        (c : Batch)
        → candidate env command.firm_id db.submission_batches ≡ some c
        → f ≡ corrupt
        → db'
          ≡ set_batches db
              (update_where (is_mismatch c) fail_hash (taken_rows c).submission_batches)
        → Claiming f db'

module _ (sha256 : Bytes → Bytes) (env : Environment) (command : ClaimBatchCommand) (token : String)
    (db : Db) where
  inspect-Claiming :
      (c : Batch) (f : Found) (db' : Db)
      → candidate env command.firm_id db.submission_batches ≡ some c
      → inspect sha256
          (claim_row env.now command token c)
          command.firm_id
          token
          (taken_rows env command token db c)
        ≡ ok (f, db')
      → Claiming env command token db f db'
  unfolding inspect
  inspect-Claiming c f db' e h =
      elim (Bool-cases (length (claim_row env.now command token c).payload_sha256 == 32)) [
        | inl long ↦
            elim (Bool-cases (
              bytes_eq (sha256 (claim_row env.now command token c).canonical_xml)
                (claim_row env.now command token c).payload_sha256)) [
                  | inl intact ↦
                      elim (Option-cases (next_action (claim_row env.now command token c).state)) [
                        | inl no_action ↦ absurd (ground arith)
                        | inr (action, acts) ↦ taken c action e acts (ground arith) (ground arith)
                      ]
                  | inr changed ↦ spoiled c e (ground arith) (ground arith)
                ]
        | inr short ↦ absurd (ground arith)
      ]

  claim_found-Claiming :
      (o : Option Batch) (f : Found) (db' : Db)
      → candidate env command.firm_id db.submission_batches ≡ o
      → claim_found sha256 env command token o db ≡ ok (f, db')
      → Claiming env command token db f db'
  unfolding claim_found
  claim_found-Claiming none f db' e h = idle e (ground arith) (ground arith)
  claim_found-Claiming (some c) f db' e h = inspect-Claiming c f db' e h

  -- The body of a claim finds nothing, hands the candidate out, or gives it up as changed.
  pub claim_body-Claiming :
      (f : Found) (db' : Db)
      → claim_body sha256 env command token db ≡ ok (f, db')
      → Claiming env command token db f db'
  unfolding claim_body
  claim_body-Claiming f db' h = claim_found-Claiming _ f db' refl h

  settle_tables : (r : Result Found × Db) → (settle sha256 r).1 ≡ r.1
  unfolding settle
  settle_tables (ok nothing, d) = refl
  settle_tables (ok corrupt, d) = refl
  settle_tables (ok (work w), d) = refl
  settle_tables (err e, d) = refl

  settle-work :
      (r : Result Found × Db) (w : BatchWork)
      → (settle sha256 r).0 ≡ ok (some w)
      → r.0 ≡ ok (work w)
  unfolding settle
  settle-work (ok nothing, d) w h = absurd (ground arith)
  settle-work (ok corrupt, d) w h = cc
  settle-work (ok (work v), d) w h = ground arith
  settle-work (err e, d) w h = cc

module _ (sha256 : Bytes → Bytes) (env : Environment) (command : ClaimBatchCommand) (db : Db) where
  abbrev Attempted : Option String → Result (Option BatchWork) × Db → Type 0
  Attempted token r =
      (t : String) × (f : Found) × (token ≡ some t) × Claiming env command t db f r.1

  claim_with-Claiming :
      (token : Option String)
      → ((claim_with sha256 env command token db).1 ≡ db)
        ⊎ Attempted token (claim_with sha256 env command token db)
  unfolding claim_with
  claim_with-Claiming none = inl refl
  claim_with-Claiming (some t) =
      elim (run_tx-Ran env command.firm_id (claim_body sha256 env command t) db) [
        | inl e ↦ inl (settle_tables sha256 env command t db _ ∙ e)
        | inr (f, db', ran, e) ↦ inr (
          t,
          f,
          refl,
          subst (Claiming env command t db f) (sym (settle_tables sha256 env command t db _ ∙ e))
              (claim_body-Claiming sha256 env command t db f db' ran),
        )
      ]

  -- The tables after a claim are those before it, or those of a success.
  pub claim_next_batch-Claiming :
      (token : Option String)
      → ((claim_next_batch sha256 env command token db).1 ≡ db)
        ⊎ Attempted token (claim_next_batch sha256 env command token db)
  unfolding claim_next_batch
  claim_next_batch-Claiming token =
      elim (Bool-cases (str_eq command.worker_id "" || not (is_positive command.lease_duration))) [
        | inl bad ↦ rw bad (inl refl)
        | inr good ↦ rw good (claim_with-Claiming token)
      ]

  claim_with-work :
      (token : Option String) (w : BatchWork)
      → (claim_with sha256 env command token db).0 ≡ ok (some w)
      → (t : String) × (token ≡ some t)
        × Claiming env command t db (work w) (claim_with sha256 env command token db).1
  unfolding claim_with
  claim_with-work none w h = cc
  claim_with-work (some t) w h = (
    t,
    refl,
    subst (Claiming env command t db (work w)) (sym (settle_tables sha256 env command t db _)) (
        claim_body-Claiming sha256 env command t db _ _ (
          run_tx-ok env command.firm_id (claim_body sha256 env command t) db
            (settle-work sha256 env command t db _ w h))),
  )

  -- Work that is handed out is the candidate, and the tables are those after its UPDATE.
  pub claim_next_batch-work :
      (token : Option String) (w : BatchWork)
      → (claim_next_batch sha256 env command token db).0 ≡ ok (some w)
      → (t : String) × (token ≡ some t)
        × Claiming env command t db (work w) (claim_next_batch sha256 env command token db).1
  unfolding claim_next_batch
  claim_next_batch-work token w h =
      elim (Bool-cases (str_eq command.worker_id "" || not (is_positive command.lease_duration))) [
        | inl bad ↦ absurd (ground arith)
        | inr good ↦ rw good (claim_with-work token w (rw good at h))
      ]
