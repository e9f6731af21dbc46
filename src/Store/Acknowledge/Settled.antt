-- ===== src/Store/Acknowledge/Settled.antt =====
-- postgres/internal/store/filing.go, `CompleteAcknowledgment`: what becomes of the filings.
use soraban.Shared.{
  ℕ, ◌+◌, ◌<◌, false, String, str_eq, In, none, some, List, [], ◌∷◌, ◌≡◌, ◌⊎◌, Related, count_where,
  length,
}
use soraban.Lifecycle.{Bytes, Claim, FilingOutcome}
use soraban.Store.Tables.{
  Filing, batched, accepted, rejected, Batch, submitted, awaiting_ack, among, Db,
}
use soraban.Store.Transaction.{Environment}
use soraban.Store.Events.{owns}
use soraban.Store.Events.Effect.{written}
use soraban.Store.Acknowledge.{Expected, lookup_key, is_batched, expected_of, acknowledged_row}

-- The IRS has rejected the filing for one of its four reasons.
abbrev pub Refused : FilingOutcome → Filing → Type 0
Refused o f' =
    (o.irs_record_id ≡ "")
    × ((o.rejection_reason ≡ "TIN_MISSING")
        ⊎ ((o.rejection_reason ≡ "TIN_MALFORMED")
            ⊎ ((o.rejection_reason ≡ "TIN_INVALID") ⊎ (o.rejection_reason ≡ "AMOUNT_INVALID"))))
    × (f'.state ≡ rejected)
    × (f'.irs_record_id ≡ none)
    × (f'.rejection_reason ≡ some o.rejection_reason)

-- The IRS has accepted the filing under a record of its own.
abbrev pub Taken : FilingOutcome → Filing → Type 0
Taken o f' =
    (str_eq o.irs_record_id "" ≡ false)
    × (o.rejection_reason ≡ "")
    × (f'.state ≡ accepted)
    × (f'.irs_record_id ≡ some o.irs_record_id)
    × (f'.rejection_reason ≡ none)

-- The filing was batched, and one of the outcomes, whose key is that of the filing, has decided it.
pub record Decided (now : ℕ) (expected : Expected) (all : List FilingOutcome) (f f' : Filing)
    : Type 0 where
  pub outcome : FilingOutcome
  pub listed : In outcome all
  pub known : lookup_key outcome.filing_key expected ≡ some f.id
  pub was : f.state ≡ batched
  pub same_id : f'.id ≡ f.id
  pub same_key : f'.filing_key ≡ f.filing_key
  pub at_instant : f'.acknowledged_at ≡ some now
  pub decision : Taken outcome f' ⊎ Refused outcome f'

module _ (now : ℕ) (firm : String) (expected : Expected) (all : List FilingOutcome) where
  abbrev Settles : Filing → Filing → Type 0
  Settles f f' = (f' ≡ f) ⊎ Decided now expected all f f'

abbrev pub batched_count : List Filing → ℕ
batched_count fs = count_where (λ (f : Filing). is_batched f.state) fs

module _ (now : ℕ) (firm : String) (expected : Expected) (all : List FilingOutcome) where
  record Round (fs fs' : List Filing) : Type 0 where
    settles : Related (Settles now firm expected all) fs fs'
    one : batched_count fs' + 1 ≡ batched_count fs

  record Rounds (n : ℕ) (fs fs' : List Filing) : Type 0 where
    settles : Related (Settles now firm expected all) fs fs'
    all_of_them : batched_count fs' + n ≡ batched_count fs

module _ (encode_hex : Bytes → String) (env : Environment) (claim : Claim) (os : List FilingOutcome)
    (db : Db) where
  -- The batch that the claim holds.
  pub record Owned : Type 0 where
    pub batch : Batch
    pub listed : In batch db.submission_batches
    pub same_id : batch.id ≡ claim.batch_id
    pub same_firm : batch.firm_id ≡ claim.firm_id
    pub token : batch.claim_token ≡ some claim.token
    pub lease : (t : ℕ) × (batch.lease_expires_at ≡ some t) × (env.now < t)
    pub state : (batch.state ≡ submitted) ⊎ (batch.state ≡ awaiting_ack)

  -- What a success has done to the filings and to the batch.
  abbrev pub keys : Expected
  keys = expected_of encode_hex claim.batch_id claim.firm_id db.filings [] db.batch_filings

  pub record Settlement (db' : Db) : Type 0 where
    pub filings : Related (λ f f'. (f' ≡ f) ⊎ Decided env.now keys os f f') db.filings db'.filings
    pub each_once : batched_count db'.filings + length os ≡ batched_count db.filings
    pub complete : length keys ≡ length os
    pub owned : Owned
    pub only_one :
        count_where
          (owns env.now claim (λ s. among s (submitted ∷ awaiting_ack ∷ [])))
          db.submission_batches
        ≡ 1
    pub batches :
        db'.submission_batches
        ≡ written env.now claim
            (λ s. among s (submitted ∷ awaiting_ack ∷ []))
            (acknowledged_row env.now)
            db
