-- ===== src/Examples/Acknowledged.antt =====
-- A batch of two filings, of which the IRS accepts one and rejects the other.
use soraban.Shared.{ℕ, some, String, List, [], ◌∷◌, if◌then◌else◌, ◌==◌}
use soraban.Lifecycle.{Bytes, Claim, FilingOutcome}
use soraban.Store.Tables.{Filing, batched, awaiting_ack, BatchFiling, Db}
use soraban.Examples.Batches.{db, batch}
use soraban.Examples.Reports.{filing}

abbrev head_or_zero : Bytes → ℕ
head_or_zero [] = 0
head_or_zero (x ∷ xs) = x

-- A stand-in for the encoding, which tells the two keys apart.
abbrev hex : Bytes → String
hex key = if head_or_zero key == 1 then "k1" else "k2"

abbrev sent : ℕ → Filing
sent id = record (filing id "C1" batched) { filing_key = id ∷ [] }

abbrev link : ℕ → BatchFiling
link id = record { batch_id = 1; filing_id = id; firm_id = "F001"; client_id = "C1"; slot = id }

abbrev waiting : Db
waiting = record db {
  filings = sent 1 ∷ sent 2 ∷ [];
  batch_filings = link 1 ∷ link 2 ∷ [];
  submission_batches =
      record (batch 1 awaiting_ack) {
        lease_owner = some "w1";
        lease_expires_at = some 100;
        claim_token = some "t1";
        receipt_id = some "R1";
      }
      ∷ [];
}

abbrev claim : Claim
claim = record { batch_id = 1; firm_id = "F001"; token = "t1" }

abbrev outcomes : List FilingOutcome
outcomes =
    record { filing_key = "k2"; irs_record_id = ""; rejection_reason = "TIN_INVALID" }
    ∷ record { filing_key = "k1"; irs_record_id = "I1"; rejection_reason = "" }
    ∷ []
