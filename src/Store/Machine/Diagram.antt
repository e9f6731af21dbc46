-- ===== src/Store/Machine/Diagram.antt =====
-- postgres/internal/store/filing.go and the constraints and triggers of
-- postgres/db/migrations/000001_initial.sql: the life of a batch under the calls of workers.
use soraban.Shared.{
  ℕ, ◌≤◌, true, false, String, List, [], ◌∷◌, ◌≡◌, ◌≢◌, refl, arith, Related, Related-weaken,
  All-Related, All-weaken,
}
use soraban.Lifecycle.{Bytes, Claim, ClaimBatchCommand}
use soraban.Store.Tables.{
  Batch, BatchState, planned, submitting, submit_unknown, submitted, awaiting_ack, acknowledged,
  invariant_failed, is_terminal, check_batch, Db,
}
use soraban.Store.Transaction.{Environment}
use soraban.Store.Claims.{is_due, claim_row, fail_hash}
use soraban.Store.Events.{owns, event_row, unavailable_row, terminal_row}
use soraban.Store.Acknowledge.{acknowledged_row}
use soraban.Store.Machine.{Event, Call, submit_accepted, states_of, row_of, after}
use soraban.Store.Machine.Rows.{
  RowStep, untouched, claimed, corrupted, recorded, Distinct, after-Steps,
}

-- The diagram of the states.
pub data Moves : BatchState → BatchState → Type 0 where
  stay : {s : BatchState} → Moves s s
  begin : Moves planned submitting
  doubt : Moves submitting submit_unknown
  accept : Moves submitting submitted
  find : Moves submit_unknown submitted
  retry : Moves submit_unknown planned
  poll : Moves submitted awaiting_ack
  confirm_early : Moves submitted acknowledged
  confirm : Moves awaiting_ack acknowledged
  give_up : {s : BatchState} → is_terminal s ≡ false → Moves s invariant_failed

ruleset moves = (stay, begin, doubt, accept, find, retry, poll, confirm_early, confirm, give_up)

-- What no update changes.
pub record SameIdentity (b b' : Batch) : Type 0 where
  pub id : b'.id ≡ b.id
  pub firm_id : b'.firm_id ≡ b.firm_id
  pub client_id : b'.client_id ≡ b.client_id
  pub tax_year : b'.tax_year ≡ b.tax_year
  pub utid : b'.utid ≡ b.utid
  pub canonical_xml : b'.canonical_xml ≡ b.canonical_xml
  pub payload_sha256 : b'.payload_sha256 ≡ b.payload_sha256

pub record Evolves (b b' : Batch) : Type 0 where
  pub identity : SameIdentity b b'
  pub state : Moves b.state b'.state
  pub frozen : is_terminal b.state ≡ true → b' ≡ b
  pub attempts : b.attempt_count ≤ b'.attempt_count
  pub checked : check_batch b ≡ true → check_batch b' ≡ true

event-identity : (now : ℕ) (e : Event) (b : Batch) → SameIdentity b (row_of now e b)
unfolding event_row unavailable_row terminal_row acknowledged_row
event-identity now (submit_accepted r) b = ground arith
event-identity now _ b = ground arith

event-Moves :
    (env : Environment) (claim : Claim) (e : Event) (b : Batch)
    → owns env.now claim (states_of e) b ≡ true
    → Moves b.state (row_of env.now e b).state
unfolding owns event_row unavailable_row terminal_row acknowledged_row
event-Moves env claim (submit_accepted r) b h = grind (arith, moves)
event-Moves env claim _ b h = grind (arith, moves)

event-frozen :
    (env : Environment) (claim : Claim) (e : Event) (b : Batch)
    → owns env.now claim (states_of e) b ≡ true
    → is_terminal b.state ≡ false
unfolding owns
event-frozen env claim (submit_accepted r) b h = ground arith
event-frozen env claim _ b h = ground arith

event-checked :
    (env : Environment) (claim : Claim) (e : Event) (b : Batch)
    → owns env.now claim (states_of e) b ≡ true
    → check_batch b ≡ true
    → check_batch (row_of env.now e b) ≡ true
unfolding owns event_row unavailable_row terminal_row acknowledged_row check_batch
event-checked env claim (submit_accepted r) b h k = ground arith
event-checked env claim _ b h k = ground arith

claimed_row-Evolves :
    (env : Environment) (command : ClaimBatchCommand) (token : String) (b : Batch)
    → is_due env command.firm_id b ≡ true
    → Evolves b (claim_row env.now command token b)
unfolding is_due claim_row check_batch
claimed_row-Evolves env command token b h = record {
  identity = ground arith;
  state = grind (arith, moves);
  frozen = ground arith;
  attempts = omega arith;
  checked = ground arith;
}

corrupted_row-Evolves :
    (env : Environment) (command : ClaimBatchCommand) (token : String) (b : Batch)
    → is_due env command.firm_id b ≡ true
    → Evolves b (fail_hash (claim_row env.now command token b))
unfolding is_due claim_row fail_hash check_batch
corrupted_row-Evolves env command token b h = record {
  identity = ground arith;
  state = give_up (ground arith);
  frozen = ground arith;
  attempts = omega arith;
  checked = ground arith;
}

event-attempts :
    (now : ℕ) (e : Event) (b : Batch) → (row_of now e b).attempt_count ≡ b.attempt_count
unfolding event_row unavailable_row terminal_row acknowledged_row
event-attempts now (submit_accepted r) b = refl
event-attempts now _ b = refl

recorded_row-Evolves :
    (env : Environment) (claim : Claim) (e : Event) (b : Batch)
    → owns env.now claim (states_of e) b ≡ true
    → Evolves b (row_of env.now e b)
recorded_row-Evolves env claim e b h = record {
  identity = event-identity env.now e b;
  state = event-Moves env claim e b h;
  frozen = λ t. absurd (cc (t, event-frozen env claim e b h));
  attempts = omega (arith, event-attempts env.now e b);
  checked = event-checked env claim e b h;
}

Evolves-refl : (b : Batch) → Evolves b b
Evolves-refl b = record {
  identity = ground arith;
  state = stay;
  frozen = λ t. refl;
  attempts = omega arith;
  checked = λ k. k;
}

RowStep-Evolves :
    (env : Environment) (call : Call) (b b' : Batch) → RowStep env call b b' → Evolves b b'
RowStep-Evolves env call b b' (untouched e) = rw e (Evolves-refl b)
RowStep-Evolves env call b b' (claimed command token _ due e) =
    rw e (claimed_row-Evolves env command token b due)
RowStep-Evolves env call b b' (corrupted command token _ due e) =
    rw e (corrupted_row-Evolves env command token b due)
RowStep-Evolves env call b b' (recorded claim e _ mine q) =
    rw q (recorded_row-Evolves env claim e b mine)

Evolves-other_id : (k : ℕ) (b b' : Batch) → Evolves b b' → k ≢ b.id → k ≢ b'.id
Evolves-other_id k b b' e ne = rw (e.identity.id) ne

pub Distinct-Evolves : (bs cs : List Batch) → Related Evolves bs cs → Distinct bs → Distinct cs
Distinct-Evolves [] [] r d = tt
Distinct-Evolves (b ∷ bs) (c ∷ cs) r d = (
  All-weaken (λ x. b.id ≢ x.id) (λ x. c.id ≢ x.id) (λ x ne. rw (r.0.identity.id) ne) cs
      (All-Related Evolves (λ x. b.id ≢ x.id) (Evolves-other_id b.id) bs cs r.1 d.0),
  Distinct-Evolves bs cs r.1 d.1,
)
Distinct-Evolves [] (c ∷ cs) r d = absurd r
Distinct-Evolves (b ∷ bs) [] r d = absurd r

module _ (sha256 : Bytes → Bytes) (encode_hex : Bytes → String) where
  -- Whatever a worker calls, and whatever goes wrong below the adapter, each batch keeps its
  -- identity, its payload and its hash, moves along the diagram, stays as it is once its state is
  -- terminal, and still satisfies the CHECK constraints if it did.
  pub after-Evolves :
      (env : Environment) (call : Call) (db : Db)
      → Distinct db.submission_batches
      → Related Evolves db.submission_batches
          (after sha256 encode_hex env call db).submission_batches
  after-Evolves env call db d =
      Related-weaken (RowStep env call) Evolves (RowStep-Evolves env call) _ _
        (after-Steps sha256 encode_hex env call db d)
