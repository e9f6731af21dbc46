-- ===== src/Store/Claims/Handout.antt =====
-- postgres/internal/store/filing.go, `ClaimNextBatch`: the work that a claim hands out.
use soraban.Shared.{
  ℕ, suc, ◌≤◌, ◌<◌, true, false, String, str_eq, eq_iff, Option, none, some, List, [], ◌∷◌, ◌≡◌,
  ◌≢◌, refl, ◌⊎◌, inl, inr, arith, All, In, Bool-cases, ltb,
}
use soraban.Lifecycle.{
  Bytes, ok, BatchAction, submit, lookup_by_utid, poll_status, ClaimBatchCommand, BatchWork,
}
use soraban.Store.Tables.{
  Batch, BatchState, planned, submitting, submit_unknown, submitted, awaiting_ack, acknowledged,
  invariant_failed, is_terminal, Db,
}
use soraban.Store.Transaction.{Environment}
use soraban.Store.Claims.{
  lease_over, is_due, is_before, claim_row, claimed_state, next_action, or_empty, work_of, work,
  claim_next_batch,
}
use soraban.Store.Claims.Order.{candidate-In, NoneBefore, candidate-NoneBefore}
use soraban.Store.Claims.Effect.{Claiming, idle, taken, spoiled, claim_next_batch-work}

-- A batch of the firm whose time has come, that is not settled, that nobody holds a lease of and
-- that is not locked.
pub record Waiting (env : Environment) (firm : String) (b : Batch) : Type 0 where
  pub of_firm : b.firm_id ≡ firm
  pub time : b.next_action_at ≤ env.now
  pub not_acknowledged : b.state ≢ acknowledged
  pub not_failed : b.state ≢ invariant_failed
  pub free : (b.lease_expires_at ≡ none) ⊎ ((t : ℕ) × (b.lease_expires_at ≡ some t) × (t ≤ env.now))
  pub unlocked : env.locked b.id ≡ false

-- The action for the state in which a batch is claimed.
pub data Acts : BatchState → BatchAction → Type 0 where
  first_submit : Acts planned submit
  lost_submit : Acts submitting lookup_by_utid
  unknown_submit : Acts submit_unknown lookup_by_utid
  first_poll : Acts submitted poll_status
  next_poll : Acts awaiting_ack poll_status

-- By the next action, and then by the id.
abbrev pub NotAfter : Batch → Batch → Type 0
NotAfter a b =
    (a.next_action_at < b.next_action_at) ⊎ ((a.next_action_at ≡ b.next_action_at) × (a.id ≤ b.id))

Acts-next_action :
    (s : BatchState) (action : BatchAction)
    → next_action (claimed_state s) ≡ some action
    → Acts s action
Acts-next_action planned submit h = first_submit
Acts-next_action planned lookup_by_utid h = absurd (cc h)
Acts-next_action planned poll_status h = absurd (cc h)
Acts-next_action submitting submit h = absurd (cc h)
Acts-next_action submitting lookup_by_utid h = lost_submit
Acts-next_action submitting poll_status h = absurd (cc h)
Acts-next_action submit_unknown submit h = absurd (cc h)
Acts-next_action submit_unknown lookup_by_utid h = unknown_submit
Acts-next_action submit_unknown poll_status h = absurd (cc h)
Acts-next_action submitted submit h = absurd (cc h)
Acts-next_action submitted lookup_by_utid h = absurd (cc h)
Acts-next_action submitted poll_status h = first_poll
Acts-next_action awaiting_ack submit h = absurd (cc h)
Acts-next_action awaiting_ack lookup_by_utid h = absurd (cc h)
Acts-next_action awaiting_ack poll_status h = next_poll
Acts-next_action acknowledged action h = absurd (cc h)
Acts-next_action invariant_failed action h = absurd (cc h)

no_lease :
    (now : ℕ) (lease : Option ℕ)
    → lease_over now lease ≡ true
    → (lease ≡ none) ⊎ ((t : ℕ) × (lease ≡ some t) × (t ≤ now))
no_lease now none h = inl refl
no_lease now (some t) h = inr (t, refl, ground (arith, h))

lease_gone :
    (now : ℕ) (lease : Option ℕ)
    → (lease ≡ none) ⊎ ((t : ℕ) × (lease ≡ some t) × (t ≤ now))
    → lease_over now lease ≡ true
lease_gone now none h = refl
lease_gone now (some t) (inl e) = absurd (cc e)
lease_gone now (some t) (inr (u, e, le)) = let same : t ≡ u = cc e in ground (arith, same, le)

not_settled : (s : BatchState) → is_terminal s ≡ false → (s ≢ acknowledged) × (s ≢ invariant_failed)
not_settled planned h = (λ e. absurd (cc e), λ e. absurd (cc e))
not_settled submitting h = (λ e. absurd (cc e), λ e. absurd (cc e))
not_settled submit_unknown h = (λ e. absurd (cc e), λ e. absurd (cc e))
not_settled submitted h = (λ e. absurd (cc e), λ e. absurd (cc e))
not_settled awaiting_ack h = (λ e. absurd (cc e), λ e. absurd (cc e))
not_settled acknowledged h = absurd (cc h)
not_settled invariant_failed h = absurd (cc h)

still_open : (s : BatchState) → s ≢ acknowledged → s ≢ invariant_failed → is_terminal s ≡ false
still_open planned h k = refl
still_open submitting h k = refl
still_open submit_unknown h k = refl
still_open submitted h k = refl
still_open awaiting_ack h k = refl
still_open acknowledged h k = absurd (h refl)
still_open invariant_failed h k = absurd (k refl)

is_due-Waiting :
    (env : Environment) (firm : String) (b : Batch) → is_due env firm b ≡ true → Waiting env firm b
unfolding is_due
is_due-Waiting env firm b h =
    let open_still : is_terminal b.state ≡ false = ground (arith, h) in
    let (a, i) = not_settled b.state open_still in
    record {
      of_firm = (eq_iff b.firm_id firm).0 (ground (arith, h));
      time = ground (arith, h);
      not_acknowledged = a;
      not_failed = i;
      free = no_lease env.now b.lease_expires_at (ground (arith, h));
      unlocked = ground (arith, h);
    }

Waiting-is_due :
    (env : Environment) (firm : String) (b : Batch) → Waiting env firm b → is_due env firm b ≡ true
unfolding is_due
Waiting-is_due env firm b w =
    let same : str_eq b.firm_id firm ≡ true = (eq_iff b.firm_id firm).1 w.of_firm in
    let open_still = still_open b.state w.not_acknowledged w.not_failed in
    let over = lease_gone env.now b.lease_expires_at w.free in
    let time = w.time in
    let unlocked = w.unlocked in rw (same, open_still, over, unlocked) (ground (arith, time))

is_before-NotAfter : (x c : Batch) → is_before x c ≡ false → NotAfter c x
unfolding is_before
is_before-NotAfter x c h = elim (Bool-cases (ltb c.next_action_at x.next_action_at)) [
  | inl e ↦ inl (ground (arith, e))
  | inr e ↦ inr (ground (arith, e, h), ground (arith, e, h))
]

module _ (env : Environment) (command : ClaimBatchCommand) (db : Db) where
  NoneBefore-NotAfter :
      (c : Batch) (bs : List Batch)
      → NoneBefore env command.firm_id c bs
      → All (λ x. Waiting env command.firm_id x → NotAfter c x) bs
  NoneBefore-NotAfter c [] h = tt
  NoneBefore-NotAfter c (b ∷ bs) h = (
    λ w. is_before-NotAfter b c (h.0 (Waiting-is_due env command.firm_id b w)),
    NoneBefore-NotAfter c bs h.1,
  )

  -- The work is that of a waiting batch, after which every waiting batch comes, and has one attempt
  -- more.
  pub record Handout (w : BatchWork) : Type 0 where
    pub row : Batch
    pub listed : In row db.submission_batches
    pub waiting : Waiting env command.firm_id row
    pub earliest : All (λ x. Waiting env command.firm_id x → NotAfter row x) db.submission_batches
    pub batch_id : w.batch_id ≡ row.id
    pub firm_id : w.firm_id ≡ row.firm_id
    pub client_id : w.client_id ≡ row.client_id
    pub tax_year : w.tax_year ≡ row.tax_year
    pub utid : w.utid ≡ row.utid
    pub payload : w.canonical_xml ≡ row.canonical_xml
    pub payload_sha256 : w.payload_sha256 ≡ row.payload_sha256
    pub receipt :
        (row.receipt_id ≡ some w.receipt_id) ⊎ ((row.receipt_id ≡ none) × (w.receipt_id ≡ ""))
    pub counted : w.attempt_count ≡ suc row.attempt_count
    pub action : Acts row.state w.next_action
    pub claim : (w.claim.batch_id ≡ row.id) × (w.claim.firm_id ≡ row.firm_id)

  receipt_of :
      (r : Option String) (s : String) → s ≡ or_empty r → (r ≡ some s) ⊎ ((r ≡ none) × (s ≡ ""))
  receipt_of none s h = inr (refl, h)
  receipt_of (some t) s h = inl (cc h)

  Claiming-Handout :
      (token : String) (db' : Db) (w : BatchWork)
      → Claiming env command token db (work w) db'
      → Handout w
  unfolding claim_row work_of
  Claiming-Handout token db' w (idle e q s) = cc
  Claiming-Handout token db' w (taken c action e acts q s) =
      let (i, due) = candidate-In env command.firm_id db.submission_batches c e in
      record {
        row = c;
        listed = i;
        waiting = is_due-Waiting env command.firm_id c due;
        earliest =
            NoneBefore-NotAfter c db.submission_batches
              (candidate-NoneBefore env command.firm_id db.submission_batches c e);
        batch_id = ground arith;
        firm_id = ground arith;
        client_id = ground arith;
        tax_year = ground arith;
        utid = ground arith;
        payload = ground arith;
        payload_sha256 = ground arith;
        receipt = receipt_of c.receipt_id w.receipt_id (ground arith);
        counted = ground arith;
        action = Acts-next_action c.state w.next_action (ground arith);
        claim = (ground arith, ground arith);
      }
  Claiming-Handout token db' w (spoiled c e q s) = cc

module _ (sha256 : Bytes → Bytes) where
  -- Work that a claim hands out is that of a listed batch of the firm whose time has come, that is
  -- not settled, has no lease that is not over and is not locked; every such batch comes after it,
  -- by next action and then by id, or is it; the work has its id, firm, client, tax year, UTID,
  -- payload, hash and receipt, and one attempt more; and its action is to submit a planned batch,
  -- to look up one whose submission is uncertain, and to poll a submitted one.
  pub claim_next_batch-Handout :
      (env : Environment) (command : ClaimBatchCommand) (token : Option String) (db : Db)
      (w : BatchWork)
      → (claim_next_batch sha256 env command token db).0 ≡ ok (some w)
      → Handout env command db w
  claim_next_batch-Handout env command token db w h =
      let (t, is, c) = claim_next_batch-work sha256 env command db token w h in
      Claiming-Handout env command db t _ w c
