-- ===== src/Store/Machine/Takeover.antt =====
-- postgres/internal/store/filing.go: a batch in the hands of one worker, and its takeover by another.
use soraban.Shared.{
  ℕ, ◌+◌, ◌<◌, ◌==◌, true, false, ◌&&◌, String, eq_iff, Option, some, List, [], ◌∷◌, ◌≡◌, ◌≢◌, refl,
  ◌∙◌, arith, inl, inr, All, All-In, In, update_where, Bool-cases,
}
use soraban.Lifecycle.{Bytes, ok, ClaimBatchCommand, BatchWork, Claim}
use soraban.Store.Tables.{Batch, Db}
use soraban.Store.Transaction.{Environment}
use soraban.Store.Claims.{micros, claim_row, work_of, is_due, work, claim_next_batch}
use soraban.Store.Claims.Order.{candidate-In}
use soraban.Store.Claims.Effect.{Claiming, idle, taken, spoiled, claim_next_batch-work}
use soraban.Store.Events.{is_batch, holds_token, is_live}
use soraban.Store.Machine.{Event, record_event}
use soraban.Store.Machine.Fencing.{record_event-Stale}

module _ (env : Environment) (command : ClaimBatchCommand) (token : String) where
  -- Every row of the batch that was taken has the lease and the token of the claim.
  abbrev Held : ℕ → Batch → Type 0
  Held id b =
      b.id ≡ id
      → (b.lease_expires_at ≡ some (env.now + micros command.lease_duration))
        × (b.claim_token ≡ some token)

  taken-Held :
      (id : ℕ) (bs : List Batch)
      → All (Held id) (update_where (λ r. r.id == id) (claim_row env.now command token) bs)
  unfolding claim_row
  taken-Held id [] = tt
  taken-Held id (b ∷ bs) = (
    elim (Bool-cases (b.id == id)) [
      | inl e ↦ rw e (λ _. (refl, refl))
      | inr e ↦ rw e (λ same. absurd (ground arith))
    ],
    taken-Held id bs,
  )

  Claiming-Held :
      (db db' : Db) (w : BatchWork)
      → Claiming env command token db (work w) db'
      → All (Held w.batch_id) db'.submission_batches × (w.claim.token ≡ token)
  unfolding work_of claim_row
  Claiming-Held db db' w (idle _ e _) = absurd (ground arith)
  Claiming-Held db db' w (spoiled _ _ e _) = absurd (ground arith)
  Claiming-Held db db' w (taken c action _ _ f e) =
      let same : w.batch_id ≡ c.id = ground arith in
      (rw (same, e) (taken-Held c.id db.submission_batches), ground arith)

module _ (sha256 : Bytes → Bytes) where
  claim-Held :
      (env : Environment) (command : ClaimBatchCommand) (token : Option String) (db : Db)
      (w : BatchWork)
      → (claim_next_batch sha256 env command token db).0 ≡ ok (some w)
      → All
          (λ b.
            b.id ≡ w.batch_id
            → (b.lease_expires_at ≡ some (env.now + micros command.lease_duration))
              × (b.claim_token ≡ some w.claim.token))
          (claim_next_batch sha256 env command token db).1.submission_batches
  claim-Held env command token db w h =
      let (t, _, c) = claim_next_batch-work sha256 env command db token w h in
      let (held, same) = Claiming-Held env command t db _ w c in rw same held

  Claiming-due :
      (env : Environment) (command : ClaimBatchCommand) (token : String) (db db' : Db)
      (w : BatchWork)
      → Claiming env command token db (work w) db'
      → (c : Batch) × In c db.submission_batches
        × (is_due env command.firm_id c ≡ true)
        × (c.id ≡ w.batch_id)
  unfolding work_of claim_row
  Claiming-due env command token db db' w (idle _ e _) = absurd (ground arith)
  Claiming-due env command token db db' w (spoiled _ _ e _) = absurd (ground arith)
  Claiming-due env command token db db' w (taken c action is _ f e) =
      let (i, due) = candidate-In env command.firm_id db.submission_batches c is in
      (c, i, due, ground arith)

  due_after :
      (env : Environment) (firm : String) (b : Batch) (t : ℕ)
      → is_due env firm b ≡ true
      → b.lease_expires_at ≡ some t
      → env.now < t
      → ⊥
  unfolding is_due
  due_after env firm b t h e l = absurd (ground arith)

  -- If a claim hands out work and the next claim, by anybody, comes before the lease of the first
  -- is over, then what it hands out is another batch.
  pub lease_excludes :
      (env env' : Environment) (command command' : ClaimBatchCommand) (token token' : Option String)
      (db : Db) (w w' : BatchWork)
      → (claim_next_batch sha256 env command token db).0 ≡ ok (some w)
      → (claim_next_batch sha256 env' command' token'
          (claim_next_batch sha256 env command token db).1).0
        ≡ ok (some w')
      → env'.now < env.now + micros command.lease_duration
      → w'.batch_id ≢ w.batch_id
  lease_excludes env env' command command' token token' db w w' h h' within same =
      let db1 = (claim_next_batch sha256 env command token db).1 in
      let (t, _, c) = claim_next_batch-work sha256 env' command' db1 token' w' h' in
      let (b, i, due, id) = Claiming-due env' command' t db1 _ w' c in
      let held = All-In _ b db1.submission_batches (claim-Held env command token db w h) i in
      due_after env' command'.firm_id b _ due (held (id ∙ same)).0 within

  Held-Stale :
      (now : ℕ) (claim : Claim) (w : BatchWork) (t : ℕ) (bs : List Batch)
      → claim.batch_id ≡ w.batch_id
      → claim.token ≢ w.claim.token
      → All
          (λ b.
            b.id ≡ w.batch_id
            → (b.lease_expires_at ≡ some t) × (b.claim_token ≡ some w.claim.token))
          bs
      → All
          (λ b.
            is_batch claim b ≡ true
            → (holds_token claim.token b.claim_token && is_live now b.lease_expires_at) ≡ false)
          bs
  Held-Stale now claim w t [] same other h = tt
  Held-Stale now claim w t (b ∷ bs) same other h = (
    (λ mine.
        let id : b.id ≡ w.batch_id = ground arith in
        let token = (h.0 id).1 in ground (arith, token, eq_iff w.claim.token claim.token)),
    Held-Stale now claim w t bs same other h.1,
  )

  -- On the tables right after a claim has handed out a batch, an event that is recorded for it
  -- under a claim with another token is refused and changes nothing, at any instant and whatever
  -- the event is.
  pub superseded_claim_refused :
      (encode_hex : Bytes → String) (env env' : Environment) (command : ClaimBatchCommand)
      (token : Option String) (db : Db) (w : BatchWork) (old : Claim) (e : Event)
      → (claim_next_batch sha256 env command token db).0 ≡ ok (some w)
      → old.batch_id ≡ w.batch_id
      → old.token ≢ w.claim.token
      → let db' = (claim_next_batch sha256 env command token db).1 in
        ((record_event sha256 encode_hex env' old e db').0 ≢ ok tt)
        × ((record_event sha256 encode_hex env' old e db').1 ≡ db')
  superseded_claim_refused encode_hex env env' command token db w old e h same other =
      record_event-Stale sha256 encode_hex env' old e _
        (Held-Stale env'.now old w _ _ same other (claim-Held env command token db w h))
