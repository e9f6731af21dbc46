-- ===== src/Store/Machine/Histories.antt =====
-- postgres/internal/store/filing.go: what holds of the batches over any history of calls, by any
-- number of workers, whatever goes wrong below the adapter.
use soraban.Shared.{
  ◌≤◌, true, String, List, [], ◌∷◌, ◌≡◌, refl, ◌∙◌, arith, Related, Related-weaken, Related-refl,
  Related-trans,
}
use soraban.Lifecycle.{Bytes}
use soraban.Store.Tables.{Batch, BatchState, is_terminal, check_batch, Db}
use soraban.Store.Transaction.{Environment}
use soraban.Store.Machine.{Call, after, history}
use soraban.Store.Machine.Rows.{Distinct}
use soraban.Store.Machine.Diagram.{Moves, SameIdentity, Evolves, Distinct-Evolves, after-Evolves}

pub data Reaches : BatchState → BatchState → Type 0 where
  here : {s : BatchState} → Reaches s s
  then : {s t u : BatchState} → Moves s t → Reaches t u → Reaches s u

Reaches-trans : {s t u : BatchState} → Reaches s t → Reaches t u → Reaches s u
Reaches-trans here r = r
Reaches-trans (then m q) r = then m (Reaches-trans q r)

-- What a row may have become: its identity and payload are as they were, its state was reached
-- along the diagram, its attempts have not fallen, and if it was terminal it is the same row.
pub record Enduring (b b' : Batch) : Type 0 where
  pub identity : SameIdentity b b'
  pub state : Reaches b.state b'.state
  pub frozen : is_terminal b.state ≡ true → b' ≡ b
  pub attempts : b.attempt_count ≤ b'.attempt_count
  pub checked : check_batch b ≡ true → check_batch b' ≡ true

Evolves-Enduring : (b b' : Batch) → Evolves b b' → Enduring b b'
Evolves-Enduring b b' e = record {
  identity = e.identity;
  state = then e.state here;
  frozen = e.frozen;
  attempts = e.attempts;
  checked = e.checked;
}

Enduring-refl : (b : Batch) → Enduring b b
Enduring-refl b = record {
  identity = ground arith;
  state = here;
  frozen = λ t. refl;
  attempts = omega arith;
  checked = λ k. k;
}

SameIdentity-trans : (a b c : Batch) → SameIdentity a b → SameIdentity b c → SameIdentity a c
SameIdentity-trans a b c p q = ground arith

Enduring-trans : (a b c : Batch) → Enduring a b → Enduring b c → Enduring a c
Enduring-trans a b c p q = record {
  identity = SameIdentity-trans a b c p.identity q.identity;
  state = Reaches-trans p.state q.state;
  frozen = λ t. let e = p.frozen t in q.frozen (rw e t) ∙ e;
  attempts = omega (arith, p.attempts, q.attempts);
  checked = λ k. q.checked (p.checked k);
}

module _ (sha256 : Bytes → Bytes) (encode_hex : Bytes → String) where
  pub after-Distinct :
      (env : Environment) (call : Call) (db : Db)
      → Distinct db.submission_batches
      → Distinct (after sha256 encode_hex env call db).submission_batches
  after-Distinct env call db d =
      Distinct-Evolves _ _ (after-Evolves sha256 encode_hex env call db d) d

  -- From distinct batch ids and over any history of claims and events, each batch keeps its
  -- identity, payload and hash, moves along the state diagram only, never changes again once
  -- terminal, never loses attempts, and satisfies the CHECK constraints wherever it did before.
  pub history-Enduring :
      (calls : List (Environment × Call)) (db : Db)
      → Distinct db.submission_batches
      → Related Enduring db.submission_batches
          (history sha256 encode_hex calls db).submission_batches
  unfolding history
  history-Enduring [] db d = Related-refl Enduring Enduring-refl db.submission_batches
  history-Enduring ((env, call) ∷ calls) db d =
      Related-trans Enduring Enduring-trans _ _ _
        (Related-weaken Evolves Enduring Evolves-Enduring _ _
          (after-Evolves sha256 encode_hex env call db d))
        (history-Enduring calls (after sha256 encode_hex env call db)
          (after-Distinct env call db d))
