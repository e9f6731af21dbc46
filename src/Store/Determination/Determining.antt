-- ===== src/Store/Determination/Determining.antt =====
-- postgres/internal/store/determination.go: `DetermineDataset`.
pub mod Groups
pub mod Rules
pub mod Filed
use soraban.Shared.{
  ℕ, zero, suc, ◌+◌, ◌==◌, Bool, true, false, not, ◌&&◌, ◌||◌, String, str_eq, Option, none, some,
  is_some, List, [], ◌∷◌, ◌++◌, map, length, if◌then◌else◌, count_where, find_where, select_where,
  bytes_eq,
}
use soraban.Shared.Int.{ℤ, pos}
use soraban.Lifecycle.{Bytes, Error, conflict, invariant, not_found, message, Result, ok, err}
use soraban.Store.Tables.{
  Filing, FilingState, blocked_preflight, ready, Dataset, Payment, Determination, Db,
}
use soraban.Store.Transaction.{Environment, Body, run_tx}
use soraban.Store.Plan.Writing.{is_ready}
use soraban.Store.Determination.{
  Vendor, classified, vendors, qualifies, fits_bigint, reportable, withheld, filings_of_vendors,
}

pub record DetermineDatasetCommand : Type 0 where
  pub firm_id : String
  pub dataset_id : ℕ
  pub ruleset_version : String

pub record DeterminationResult : Type 0 where
  pub determination_id : ℕ
  pub ready_count : ℕ
  pub blocked_count : ℕ
  pub existing : Bool

abbrev pub nec_2025_v1 : String
nec_2025_v1 = "nec-2025-v1"

unfoldable pub is_determination : DetermineDatasetCommand → Determination → Bool
is_determination command d =
    str_eq d.firm_id command.firm_id
    && d.dataset_id == command.dataset_id
    && str_eq d.ruleset_version command.ruleset_version

is_blocked : FilingState → Bool
is_blocked blocked_preflight = true
is_blocked _ = false

unfoldable pub count_state : (FilingState → Bool) → List Filing → ℕ
count_state test fs = count_where (λ (f : Filing). test f.state) fs

-- The filings of the join of a determination.
unfoldable pub determined : Determination → List Filing → List Filing
determined d fs =
    select_where (λ (f : Filing). f.determination_id == d.id && str_eq f.firm_id d.firm_id) fs

result_of : ℕ → Bool → List Filing → DeterminationResult
unfolding is_blocked
result_of id existing fs = record {
  determination_id = id;
  ready_count = count_state is_ready fs;
  blocked_count = count_state is_blocked fs;
  existing = existing;
}

-- `filings_key_uk` and `filings_business_identity_uk`.
clashes : Filing → Filing → Bool
clashes f g =
    bytes_eq f.filing_key g.filing_key
    || (str_eq f.firm_id g.firm_id
        && str_eq f.client_id g.client_id
        && f.tax_year == g.tax_year
        && str_eq f.vendor_identity g.vendor_identity)

unfoldable pub violates_filings_uk : List Filing → List Filing → Bool
unfolding clashes
violates_filings_uk known [] = false
violates_filings_uk known (f ∷ fs) =
    let rest = violates_filings_uk (f ∷ known) fs in is_some (find_where (clashes f) known) || rest

-- A vendor of which a sum is no bigint.
overflows : List Payment → Vendor → Bool
overflows ps v = not (fits_bigint (reportable v ps)) || not (fits_bigint (withheld v ps))

module _ (sha256 : Bytes → Bytes) (utf8 : String → Bytes) (decimal : ℕ → Bytes)
    (text_before : String → String → Bool) where
  -- The two INSERTs, with the identities that they give out.
  unfoldable pub insert_filings :
      ℕ → ℕ → DetermineDatasetCommand → Dataset → Body DeterminationResult
  unfolding overflows result_of fits_bigint
  insert_filings next_id next_filing command dataset db =
      let ps = classified command.dataset_id command.firm_id db.payments in
      let vs = select_where (qualifies ps) (vendors [] ps) in
      let rows =
        filings_of_vendors sha256 utf8 decimal text_before next_filing next_id command.firm_id
          dataset.tax_year ps vs in
      if is_some (find_where (overflows ps) vs)
      then err invariant
      else if violates_filings_uk db.filings rows
      then err conflict
      else ok (
        result_of next_id false rows,
        record db {
          determinations =
              record {
                id = next_id;
                dataset_id = command.dataset_id;
                firm_id = command.firm_id;
                ruleset_version = command.ruleset_version;
              }
              ∷ db.determinations;
          filings = db.filings ++ rows;
        },
      )

  of_dataset : ℕ → ℕ → DetermineDatasetCommand → Option Dataset → Body DeterminationResult
  of_dataset next_id next_filing command none db = err not_found
  of_dataset next_id next_filing command (some dataset) db =
      insert_filings next_id next_filing command dataset db

  is_dataset : DetermineDatasetCommand → Dataset → Bool
  is_dataset command d = d.id == command.dataset_id && str_eq d.firm_id command.firm_id

  of_determination :
      ℕ → ℕ → DetermineDatasetCommand → Option Determination → Body DeterminationResult
  unfolding of_dataset is_dataset result_of
  of_determination next_id next_filing command (some d) db =
      ok (result_of d.id true (determined d db.filings), db)
  of_determination next_id next_filing command none db =
      of_dataset next_id next_filing command (find_where (is_dataset command) db.datasets) db

  unfoldable pub determine_body : ℕ → ℕ → DetermineDatasetCommand → Body DeterminationResult
  unfolding of_determination
  determine_body next_id next_filing command db =
      of_determination next_id next_filing command
        (find_where (is_determination command) db.determinations) db

  unfoldable pub determine_dataset :
      Environment → ℕ → ℕ → DetermineDatasetCommand → Db → Result DeterminationResult × Db
  determine_dataset env next_id next_filing command db =
      if command.dataset_id == 0 || not (str_eq command.ruleset_version nec_2025_v1)
      then (err (message "invalid determination command"), db)
      else run_tx env command.firm_id (determine_body next_id next_filing command) db
