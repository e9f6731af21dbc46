-- ===== src/Store/Machine/Fencing.antt =====
-- postgres/internal/store/filing.go: leases and claim tokens keep workers apart.
use soraban.Shared.{
  ℕ, Bool, true, false, ◌&&◌, String, str_eq, eq_iff, Option, none, some, List, [], ◌∷◌, ◌≡◌, ◌≢◌,
  refl, ap, ◌⊎◌, inl, inr, arith, if◌then◌else◌, All, Related, Related-weaken, count_where,
}
use soraban.Lifecycle.{Bytes, Error, ok, err, Claim}
use soraban.Store.Tables.{Batch, BatchState, submitting, among, Db}
use soraban.Store.Transaction.{Environment}
use soraban.Store.Claims.{is_due}
use soraban.Store.Events.{
  Transition, owns, is_batch, holds_token, is_live, to_submitted, event_transition,
  terminal_transition, record_submit_accepted, record_submit_unknown, record_reference_found,
  record_reference_not_found, record_acknowledgment_pending, record_status_unavailable,
  record_retry_exhausted, fail_batch_invariant,
}
use soraban.Store.Events.Effect.{event_transition-WroteOne, guarded-WroteOne}
use soraban.Store.Acknowledge.Effect.{complete_acknowledgment-Acknowledged}
use soraban.Store.Machine.{
  Event, Call, records, submit_accepted, reference_found, submit_unknown, reference_not_found,
  acknowledgment_pending, status_unavailable, retry_exhausted, batch_invariant, acknowledgment,
  states_of, row_of, record_event, after,
}
use soraban.Store.Machine.Rows.{
  RowStep, untouched, claimed, corrupted, recorded, Distinct, after-Steps, record_event-Wrote,
}

-- A row under a live lease changes only by an event that its holder records with its token.
abbrev pub Fenced : Environment → Call → Batch → Batch → Type 0
Fenced env call b b' =
    is_live env.now b.lease_expires_at ≡ true
    → (b' ≡ b)
      ⊎ ((claim : Claim) × (e : Event) × (call ≡ records claim e)
          × (claim.batch_id ≡ b.id)
          × (b.claim_token ≡ some claim.token)
          × (states_of e b.state ≡ true))

due_over :
    (env : Environment) (firm : String) (b : Batch)
    → is_due env firm b ≡ true
    → is_live env.now b.lease_expires_at ≡ false
unfolding is_due
due_over env firm b h = ground arith

holds_token_eq : (t : String) (o : Option String) → holds_token t o ≡ true → o ≡ some t
holds_token_eq t none h = cc
holds_token_eq t (some s) h = ap some ((eq_iff s t).0 h)

owns-holds :
    (now : ℕ) (claim : Claim) (states : BatchState → Bool) (b : Batch)
    → owns now claim states b ≡ true
    → (claim.batch_id ≡ b.id) × (b.claim_token ≡ some claim.token) × (states b.state ≡ true)
unfolding owns
owns-holds now claim states b h =
    (ground arith, holds_token_eq claim.token b.claim_token (ground arith), ground arith)

RowStep-Fenced :
    (env : Environment) (call : Call) (b b' : Batch) → RowStep env call b b' → Fenced env call b b'
RowStep-Fenced env call b b' (untouched e) live = inl e
RowStep-Fenced env call b b' (claimed command token _ due _) live =
    absurd (cc (live, due_over env command.firm_id b due))
RowStep-Fenced env call b b' (corrupted command token _ due _) live =
    absurd (cc (live, due_over env command.firm_id b due))
RowStep-Fenced env call b b' (recorded claim e is mine _) live =
    let (same, holds, from) = owns-holds env.now claim (states_of e) b mine in
    inr (claim, e, is, same, holds, from)

-- A claim that no row honours: the token is another, or the lease is over.
abbrev pub Stale : ℕ → Claim → Db → Type 0
Stale now claim db =
    All
      (λ b.
        is_batch claim b ≡ true
        → (holds_token claim.token b.claim_token && is_live now b.lease_expires_at) ≡ false)
      db.submission_batches

count_owned-Stale :
    (now : ℕ) (claim : Claim) (states : BatchState → Bool) (bs : List Batch)
    → All
        (λ b.
          is_batch claim b ≡ true
          → (holds_token claim.token b.claim_token && is_live now b.lease_expires_at) ≡ false)
        bs
    → count_where (owns now claim states) bs ≡ 0
unfolding owns
count_owned-Stale now claim states [] h = refl
count_owned-Stale now claim states (b ∷ bs) h =
    let rest = count_owned-Stale now claim states bs h.1 in ground (arith, h.0)

module _ (sha256 : Bytes → Bytes) (encode_hex : Bytes → String) where
  -- With distinct batch ids, a row under a live lease is changed by no call but an event that is
  -- recorded under its token from a state that the event allows.
  pub after-Fenced :
      (env : Environment) (call : Call) (db : Db)
      → Distinct db.submission_batches
      → Related
          (Fenced env call)
          db.submission_batches
          (after sha256 encode_hex env call db).submission_batches
  after-Fenced env call db d =
      Related-weaken (RowStep env call) (Fenced env call) (RowStep-Fenced env call) _ _
        (after-Steps sha256 encode_hex env call db d)

  receipt_guard-one :
      (env : Environment) (claim : Claim) (db : Db) (bad : Bool) (e : Error) (t : Transition)
      → (if bad then (err e, db) else event_transition env claim t db).0 ≡ ok tt
      → count_where (owns env.now claim (λ s. among s t.states)) db.submission_batches ≡ 1
  receipt_guard-one env claim db true e t h = cc
  receipt_guard-one env claim db false e t h = (event_transition-WroteOne env claim db t h).0

  record_event-one :
      (env : Environment) (claim : Claim) (e : Event) (db : Db)
      → (record_event sha256 encode_hex env claim e db).0 ≡ ok tt
      → count_where (owns env.now claim (states_of e)) db.submission_batches ≡ 1
  unfolding record_event record_submit_accepted record_submit_unknown record_reference_found
      record_reference_not_found record_acknowledgment_pending record_status_unavailable
      record_retry_exhausted fail_batch_invariant terminal_transition
  record_event-one env claim (submit_accepted r) db h =
      receipt_guard-one env claim db (str_eq r.receipt_id "") _ (to_submitted submitting r) h
  record_event-one env claim (reference_found r) db h =
      receipt_guard-one env claim db (str_eq r.receipt_id "") _
        (to_submitted BatchState.submit_unknown r) h
  record_event-one env claim (submit_unknown r) db h =
      (event_transition-WroteOne env claim db _ h).0
  record_event-one env claim (reference_not_found r) db h =
      (event_transition-WroteOne env claim db _ h).0
  record_event-one env claim (acknowledgment_pending r) db h =
      (event_transition-WroteOne env claim db _ h).0
  record_event-one env claim (status_unavailable r) db h =
      (guarded-WroteOne env claim db _ _ (states_of (status_unavailable r))
        (row_of env.now (status_unavailable r)) h).0
  record_event-one env claim (retry_exhausted c) db h =
      (guarded-WroteOne env claim db _ _ (states_of (retry_exhausted c))
        (row_of env.now (retry_exhausted c)) h).0
  record_event-one env claim (batch_invariant c) db h =
      (guarded-WroteOne env claim db _ _ (states_of (batch_invariant c))
        (row_of env.now (batch_invariant c)) h).0
  record_event-one env claim (acknowledgment os) db h =
      (complete_acknowledgment-Acknowledged encode_hex env claim os db h).owned

  -- What is recorded under a stale claim is refused, and changes nothing at all.
  pub record_event-Stale :
      (env : Environment) (claim : Claim) (e : Event) (db : Db)
      → Stale env.now claim db
      → ((record_event sha256 encode_hex env claim e db).0 ≢ ok tt)
        × ((record_event sha256 encode_hex env claim e db).1 ≡ db)
  record_event-Stale env claim e db s =
      let zero_owned = count_owned-Stale env.now claim (states_of e) db.submission_batches s in
      (
        λ h. absurd (omega (arith, zero_owned, record_event-one env claim e db h)),
        elim (record_event-Wrote sha256 encode_hex env claim e db) [
          | inl same ↦ same
          | inr (one, _) ↦ absurd (omega (arith, zero_owned, one))
        ],
      )
