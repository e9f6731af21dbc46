-- ===== src/Store/Acknowledge.antt =====
-- postgres/internal/store/filing.go: `CompleteAcknowledgment` and `isRejectionReason`.
pub mod Effect
pub mod Settled
use soraban.Shared.{
  ℕ, Bool, true, false, ◌&&◌, ◌||◌, not, ◌==◌, String, str_eq, Option, none, some, List, [], ◌∷◌,
  if◌then◌else◌, update_where, count_where, length,
}
use soraban.Lifecycle.{invariant, Result, ok, err, Bytes, Claim, FilingOutcome}
use soraban.Store.Tables.{
  Filing, FilingState, batched, accepted, rejected, Batch, BatchFiling, submitted, awaiting_ack,
  acknowledged, among, Db,
}
use soraban.Store.Transaction.{Environment, Body, run_tx}
use soraban.Store.Events.{update_owned}

unfoldable pub is_rejection_reason : String → Bool
is_rejection_reason r =
    str_eq r "TIN_MISSING"
    || str_eq r "TIN_MALFORMED"
    || str_eq r "TIN_INVALID"
    || str_eq r "AMOUNT_INVALID"

-- The map `expected`: filings by the hexadecimal of their key.
abbrev pub Expected : Type 0
Expected = List (String × ℕ)

unfoldable pub lookup_key : String → Expected → Option ℕ
lookup_key k [] = none
lookup_key k ((j, v) ∷ m) = if str_eq j k then some v else lookup_key k m

-- `expected[key] = filingID`
unfoldable pub put_key : String → ℕ → Expected → Expected
put_key k v [] = (k, v) ∷ []
put_key k v ((j, w) ∷ m) = if str_eq j k then (j, v) ∷ m else (j, w) ∷ put_key k v m

unfoldable pub seen_key : String → List String → Bool
seen_key k [] = false
seen_key k (s ∷ ss) = str_eq s k || seen_key k ss

abbrev pub is_filing : ℕ → String → Filing → Bool
is_filing id firm f = f.id == id && str_eq f.firm_id firm

unfoldable pub is_batched : FilingState → Bool
is_batched batched = true
is_batched _ = false

-- WHERE id=$4 AND firm_id=$5 AND state='batched'.
unfoldable pub awaits : ℕ → String → Filing → Bool
unfolding is_batched
awaits id firm f = is_filing id firm f && is_batched f.state

unfoldable pub is_accepted : FilingOutcome → Bool
is_accepted o = not (str_eq o.irs_record_id "") && str_eq o.rejection_reason ""

unfoldable pub is_rejected : FilingOutcome → Bool
is_rejected o = str_eq o.irs_record_id "" && is_rejection_reason o.rejection_reason

unfoldable pub outcome_row : ℕ → FilingOutcome → Filing → Filing
outcome_row now o f =
    if is_rejected o
    then record f {
      state = rejected;
      irs_record_id = none;
      rejection_reason = some o.rejection_reason;
      acknowledged_at = some now;
    }
    else record f {
      state = accepted;
      irs_record_id = some o.irs_record_id;
      rejection_reason = none;
      acknowledged_at = some now;
    }

-- One round of the loop over the outcomes, once the key has its filing.
unfoldable pub apply_outcome : ℕ → String → FilingOutcome → ℕ → List Filing → Result (List Filing)
apply_outcome now firm o id fs =
    if not (is_accepted o) && not (is_rejected o)
    then err invariant
    else if count_where (awaits id firm) fs == 1
    then ok (update_where (awaits id firm) (outcome_row now o) fs)
    else err invariant

apply_known :
    ℕ → String → FilingOutcome → List String → Option ℕ → List Filing → Result (List Filing)
apply_known now firm o seen none fs = err invariant
apply_known now firm o seen (some id) fs =
    if seen_key o.filing_key seen then err invariant else apply_outcome now firm o id fs

pub next {ℓ κ} : {A : Type ℓ} {B : Type κ} → Result A → (A → Result B) → Result B
next (ok a) f = f a
next (err e) f = err e

unfoldable pub apply_outcomes :
    ℕ → String → Expected → List String → List FilingOutcome → List Filing → Result (List Filing)
unfolding apply_known next
apply_outcomes now firm expected seen [] fs = ok fs
apply_outcomes now firm expected seen (o ∷ os) fs =
    next (apply_known now firm o seen (lookup_key o.filing_key expected) fs)
      (apply_outcomes now firm expected (o.filing_key ∷ seen) os)

-- SET state='acknowledged'.
unfoldable pub acknowledged_row : ℕ → Batch → Batch
acknowledged_row now b = record b {
  state = acknowledged;
  acknowledged_at = some now;
  lease_owner = none;
  lease_expires_at = none;
  claim_token = none;
  last_error_code = none;
}

-- `encode(filing_key, 'hex')` is PostgreSQL's.
module _ (encode_hex : Bytes → String) where
  key_of : ℕ → String → List Filing → Option String
  key_of id firm [] = none
  key_of id firm (f ∷ fs) =
      if is_filing id firm f then some (encode_hex f.filing_key) else key_of id firm fs

  expect : Option String → ℕ → Expected → Expected
  expect none id m = m
  expect (some k) id m = put_key k id m

  -- The loop over the rows of batch_filings joined with their filings, in the order of the slots.
  unfoldable pub expected_of : ℕ → String → List Filing → Expected → List BatchFiling → Expected
  unfolding key_of expect
  expected_of batch firm fs m [] = m
  expected_of batch firm fs m (l ∷ ls) =
      expected_of batch firm fs
        (if l.batch_id == batch && str_eq l.firm_id firm
          then expect (key_of l.filing_id firm fs) l.filing_id m
          else m)
        ls

  acknowledge_filings : ℕ → Claim → List FilingOutcome → Db → Result (List Filing)
  acknowledge_filings now claim outcomes db =
      let expected = expected_of claim.batch_id claim.firm_id db.filings [] db.batch_filings in
      if length expected == length outcomes
      then apply_outcomes now claim.firm_id expected [] outcomes db.filings
      else err invariant

  unfoldable pub acknowledge_body : ℕ → Claim → List FilingOutcome → Body (Unit {0})
  unfolding acknowledge_filings next
  acknowledge_body now claim outcomes db = next (acknowledge_filings now claim outcomes db) (λ fs.
      update_owned now claim (λ s. among s (submitted ∷ awaiting_ack ∷ [])) (acknowledged_row now)
        (record db { filings = fs }))

  unfoldable pub complete_acknowledgment :
      Environment → Claim → List FilingOutcome → Db → Result (Unit {0}) × Db
  complete_acknowledgment env claim outcomes db =
      if claim.batch_id == 0 || length outcomes == 0
      then (err invariant, db)
      else run_tx env claim.firm_id (acknowledge_body env.now claim outcomes) db
