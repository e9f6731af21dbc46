-- ===== src/Store/Machine/Rows.antt =====
-- postgres/internal/store/filing.go: what one call may make of each row of `submission_batches`.
use soraban.Shared.{
  ◌==◌, Bool, true, false, ◌&&◌, String, str_eq, some, List, [], ◌∷◌, ◌≡◌, ◌≢◌, refl, sym, inl, inr,
  arith, if◌then◌else◌, All, In, Related, Related-refl, Related-update, Related-update_twice,
  All-weaken, All-In, updated, Bool-cases,
}
use soraban.Lifecycle.{Bytes, Error, err, ClaimBatchCommand, Claim}
use soraban.Store.Tables.{Batch, BatchState, submitting, among, Db}
use soraban.Store.Transaction.{Environment}
use soraban.Store.Claims.{is_due, claim_row, fail_hash, Found}
use soraban.Store.Claims.Order.{candidate-In}
use soraban.Store.Claims.Effect.{Claiming, idle, taken, spoiled, claim_next_batch-Claiming}
use soraban.Store.Events.{
  Transition, owns, event_row, to_submitted, event_transition, terminal_transition,
  record_submit_accepted, record_submit_unknown, record_reference_found, record_reference_not_found,
  record_acknowledgment_pending, record_status_unavailable, record_retry_exhausted,
  fail_batch_invariant,
}
use soraban.Store.Events.Effect.{Wrote, event_transition-Wrote, guarded-Wrote}
use soraban.Store.Acknowledge.Effect.{complete_acknowledgment_cases}
use soraban.Store.Machine.{
  Event, Call, claims, records, submit_accepted, reference_found, submit_unknown,
  reference_not_found, acknowledgment_pending, status_unavailable, retry_exhausted, batch_invariant,
  acknowledgment, states_of, row_of, record_event, after,
}

-- Identities are distinct: the primary key.
abbrev pub Distinct : List Batch → Type 0
Distinct [] = Unit
Distinct (b ∷ bs) = All (λ c. b.id ≢ c.id) bs × Distinct bs

pub data RowStep (env : Environment) (call : Call) (b b' : Batch) : Type 0 where
  untouched : b' ≡ b → RowStep env call b b'
  claimed :
      (command : ClaimBatchCommand) (token : String)
      → call ≡ claims command (some token)
      → is_due env command.firm_id b ≡ true
      → b' ≡ claim_row env.now command token b
      → RowStep env call b b'
  corrupted :
      (command : ClaimBatchCommand) (token : String)
      → call ≡ claims command (some token)
      → is_due env command.firm_id b ≡ true
      → b' ≡ fail_hash (claim_row env.now command token b)
      → RowStep env call b b'
  recorded :
      (claim : Claim) (e : Event)
      → call ≡ records claim e
      → owns env.now claim (states_of e) b ≡ true
      → b' ≡ row_of env.now e b
      → RowStep env call b b'

-- Under distinct identities a row is the only one with its identity.
pub Distinct-same :
    (bs : List Batch) (c : Batch) → Distinct bs → In c bs → All (λ x. x.id ≡ c.id → x ≡ c) bs
Distinct-same [] c d i = tt
Distinct-same (b ∷ bs) c d (inl e) =
    (λ _. sym e, All-weaken _ _ (λ x ne same. absurd (ne (cc (e, same)))) bs d.0)
Distinct-same (b ∷ bs) c d (inr i) =
    (λ same. absurd (All-In (λ x. b.id ≢ x.id) c bs d.0 i same), Distinct-same bs c d.1 i)

module _ (env : Environment) (command : ClaimBatchCommand) (token : String) where
  abbrev claim_call : Call
  claim_call = claims command (some token)

  abbrev is_row : Batch → Batch → Bool
  is_row c r = r.id == c.id

  -- The UPDATE of a claim touches the candidate and nothing else.
  claim_row-step :
      (bs : List Batch) (c : Batch)
      → is_due env command.firm_id c ≡ true
      → All (λ x. x.id ≡ c.id → x ≡ c) bs
      → All
          (λ x. RowStep env claim_call x (updated (is_row c) (claim_row env.now command token) x))
          bs
  claim_row-step [] c due same = tt
  claim_row-step (x ∷ bs) c due same = (
    elim (Bool-cases (is_row c x)) [
      | inl e ↦ claimed command token refl (ground (arith, same.0)) (rw e)
      | inr e ↦ untouched (rw e)
    ],
    claim_row-step bs c due same.1,
  )

  due_firm :
      (x : Batch) → is_due env command.firm_id x ≡ true → str_eq x.firm_id command.firm_id ≡ true
  unfolding is_due
  due_firm x h = ground arith

  corrupt-step :
      (bs : List Batch) (c : Batch)
      → is_due env command.firm_id c ≡ true
      → All (λ x. x.id ≡ c.id → x ≡ c) bs
      → All
          (λ x. RowStep env claim_call x (
            updated
              (λ r.
                r.id == (claim_row env.now command token c).id && str_eq r.firm_id command.firm_id)
              fail_hash
              (updated (is_row c) (claim_row env.now command token) x)))
          bs
  unfolding claim_row
  corrupt-step [] c due same = tt
  corrupt-step (x ∷ bs) c due same = (
    elim (Bool-cases (is_row c x)) [
      | inl e ↦ rw e (
          corrupted command token refl (ground (arith, same.0))
            (rw (e, due_firm x (ground (arith, same.0)))))
      | inr e ↦ rw e (untouched (rw e))
    ],
    corrupt-step bs c due same.1,
  )

module _ (sha256 : Bytes → Bytes) (encode_hex : Bytes → String) where
  abbrev Steps : Environment → Call → Db → Db → Type 0
  Steps env call db db' = Related (RowStep env call) db.submission_batches db'.submission_batches

  Steps-refl : (env : Environment) (call : Call) (db : Db) → Steps env call db db
  Steps-refl env call db =
      Related-refl (RowStep env call) (λ b. untouched refl) db.submission_batches

  claim-Steps :
      (env : Environment) (command : ClaimBatchCommand) (t : String) (f : Found) (db db' : Db)
      → Distinct db.submission_batches
      → Claiming env command t db f db'
      → Steps env (claims command (some t)) db db'
  claim-Steps env command t f db db' d (idle _ _ e) =
      rw e (Steps-refl env (claims command (some t)) db)
  claim-Steps env command t f db db' d (taken c action is _ _ e) =
      let (i, due) = candidate-In env command.firm_id db.submission_batches c is in
      rw e (
        Related-update (RowStep env (claims command (some t))) (λ r. r.id == c.id)
          (claim_row env.now command t) db.submission_batches
          (claim_row-step env command t db.submission_batches c due
            (Distinct-same db.submission_batches c d i)))
  claim-Steps env command t f db db' d (spoiled c is _ e) =
      let (i, due) = candidate-In env command.firm_id db.submission_batches c is in
      rw e (
        Related-update_twice (RowStep env (claims command (some t))) (λ r. r.id == c.id)
          (λ r. r.id == (claim_row env.now command t c).id && str_eq r.firm_id command.firm_id)
          (claim_row env.now command t) fail_hash db.submission_batches
          (corrupt-step env command t db.submission_batches c due
            (Distinct-same db.submission_batches c d i)))

  event-step :
      (env : Environment) (claim : Claim) (e : Event) (bs : List Batch)
      → All
          (λ x.
            RowStep env
              (records claim e)
              x
              (updated (owns env.now claim (states_of e)) (row_of env.now e) x))
          bs
  event-step env claim e [] = tt
  event-step env claim e (x ∷ bs) = (
    elim (Bool-cases (owns env.now claim (states_of e) x)) [
      | inl mine ↦ rw mine (recorded claim e refl mine refl)
      | inr other ↦ rw other (untouched refl)
    ],
    event-step env claim e bs,
  )

  receipt_guard-Wrote :
      (env : Environment) (claim : Claim) (db : Db) (bad : Bool) (e : Error) (t : Transition)
      → Wrote env.now claim
          (λ s. among s t.states)
          (event_row env.now t)
          db
          (if bad then (err e, db) else event_transition env claim t db).1
  receipt_guard-Wrote env claim db true e t = inl refl
  receipt_guard-Wrote env claim db false e t = event_transition-Wrote env claim db t

  pub record_event-Wrote :
      (env : Environment) (claim : Claim) (e : Event) (db : Db)
      → Wrote env.now claim
          (states_of e)
          (row_of env.now e)
          db
          (record_event sha256 encode_hex env claim e db).1
  unfolding record_event record_submit_accepted record_submit_unknown record_reference_found
      record_reference_not_found record_acknowledgment_pending record_status_unavailable
      record_retry_exhausted fail_batch_invariant terminal_transition
  record_event-Wrote env claim (submit_accepted r) db =
      receipt_guard-Wrote env claim db (str_eq r.receipt_id "") _ (to_submitted submitting r)
  record_event-Wrote env claim (reference_found r) db =
      receipt_guard-Wrote env claim db (str_eq r.receipt_id "") _
        (to_submitted BatchState.submit_unknown r)
  record_event-Wrote env claim (submit_unknown r) db = event_transition-Wrote env claim db _
  record_event-Wrote env claim (reference_not_found r) db = event_transition-Wrote env claim db _
  record_event-Wrote env claim (acknowledgment_pending r) db = event_transition-Wrote env claim db _
  record_event-Wrote env claim (status_unavailable r) db =
      guarded-Wrote env claim db _ _ (states_of (status_unavailable r))
        (row_of env.now (status_unavailable r))
  record_event-Wrote env claim (retry_exhausted c) db =
      guarded-Wrote env claim db _ _ (states_of (retry_exhausted c))
        (row_of env.now (retry_exhausted c))
  record_event-Wrote env claim (batch_invariant c) db =
      guarded-Wrote env claim db _ _ (states_of (batch_invariant c))
        (row_of env.now (batch_invariant c))
  record_event-Wrote env claim (acknowledgment os) db =
      elim (complete_acknowledgment_cases encode_hex env claim os db) [
        | inl same ↦ inl same
        | inr done ↦ inr (done.owned, done.batches)
      ]

  -- A call makes of each row what `RowStep` allows.
  pub after-Steps :
      (env : Environment) (call : Call) (db : Db)
      → Distinct db.submission_batches
      → Related
          (RowStep env call)
          db.submission_batches
          (after sha256 encode_hex env call db).submission_batches
  unfolding after
  after-Steps env (claims command token) db d =
      elim (claim_next_batch-Claiming sha256 env command db token) [
        | inl e ↦ rw e (Steps-refl env (claims command token) db)
        | inr (t, f, is, c) ↦ rw is (claim-Steps env command t f db _ d (rw is at c))
      ]
  after-Steps env (records claim e) db d = elim (record_event-Wrote env claim e db) [
    | inl same ↦ rw same (Steps-refl env (records claim e) db)
    | inr (_, wrote) ↦ rw wrote (
        Related-update (RowStep env (records claim e)) (owns env.now claim (states_of e))
          (row_of env.now e) db.submission_batches (event-step env claim e db.submission_batches))
  ]
