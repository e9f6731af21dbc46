-- ===== src/Examples/Reports.antt =====
-- Filings of one client, planned and reported.
use soraban.Shared.{ℕ, Bool, String, str_eq, ◌&&◌, none, some, List, [], ◌∷◌, ◌≡◌, refl}
use soraban.Shared.Int.{pos}
use soraban.Lifecycle.{ok, fully_filed, FirmStatus}
use soraban.Store.Tables.{Client, Filing, FilingState, ready, accepted, Db}
use soraban.Store.Transaction.{run_tx, validate_firm_id}
use soraban.Store.Plan.{groups}
use soraban.Store.Plan.Groups.{Grouped, groups-Grouped}
use soraban.Store.Plan.Writing.{PlanBatchesCommand, BatchPlanResult, Identities}
use soraban.Store.Status.{
  gather, empty_status, statuses, firm_status, firm_status_body, client_status, facts_of, row_facts,
  headline, counts_of, is_overdue, firm_clients, read_client_status, client_status_body,
}
use soraban.Store.Status.Laws.{
  row_facts-facts_of, fully_filed-accepted, firm_status-sums, urgency, most_urgent, sum_of,
}
use soraban.Examples.Batches.{digest, at, db}

abbrev pub filing : ℕ → String → FilingState → Filing
filing id client state = record {
  id = id;
  firm_id = "F001";
  client_id = client;
  determination_id = 5;
  tax_year = 2025;
  vendor_identity = "v";
  vendor_display_name = "Vendor";
  recipient_tin = some "123456789";
  filing_key = digest;
  reportable_cents = pos 60000;
  withholding_cents = pos 0;
  state = state;
  preflight_reason = none;
  irs_record_id = none;
  rejection_reason = none;
  acknowledged_at = none;
}

-- A stand-in for the identities: the UTID is the client.
abbrev ids : Identities
ids = record {
  filing_key_string = λ _. "key";
  format_cents = λ _. "600.00";
  batch_identity = λ _ client _ _. (digest, client);
  canonical_xml = λ _ _ _ _ _ _. some (60 ∷ []);
}

abbrev before : String → String → Bool
before s t = str_eq s "C1" && str_eq t "C2"

abbrev three : List Filing
three = filing 1 "C2" ready ∷ filing 2 "C1" ready ∷ filing 3 "C1" ready ∷ []

groups-Grouped_example : Grouped three (groups three)
groups-Grouped_example = groups-Grouped three

abbrev before_planning : Db
before_planning = record db { filings = three }

abbrev command : PlanBatchesCommand
command = record { firm_id = "F001"; determination_id = 5 }

abbrev result : BatchPlanResult
result = record { existing_batch_count = 0; created_batch_count = 2 }

abbrev client : Client
client = record { firm_id = "F001"; id = "C3" }

abbrev done : Db
done = record db { filings = filing 4 "C3" accepted ∷ three }

row_facts-facts_of_example :
    client_status "F001" (row_facts 10 "F001" done client)
    ≡ client_status "F001" (facts_of 10 "F001" done client)
row_facts-facts_of_example = row_facts-facts_of 10 "F001" done client

reported : (client_status "F001" (facts_of 10 "F001" done client)).headline ≡ fully_filed
unfolding client_status facts_of headline counts_of is_overdue
reported = refl

fully_filed-accepted_example :
    (client_status "F001" (facts_of 10 "F001" done client)).counts.accepted
    ≡ (client_status "F001" (facts_of 10 "F001" done client)).counts.required
fully_filed-accepted_example = fully_filed-accepted 10 "F001" done client reported

abbrev report : FirmStatus
report = gather (empty_status "F001") (statuses 10 "F001" (client ∷ []) done)

reports : (firm_status (at 10) "F001" (client ∷ []) done).0 ≡ ok report
unfolding firm_status firm_status_body run_tx validate_firm_id
reports = refl

-- The client of the table, whose name comes last.
abbrev two_clients : Db
two_clients = record done { clients = record client { id = "C9" } ∷ client ∷ [] }

in_order :
    firm_clients (λ s t. str_eq s "C3" && str_eq t "C9") "F001" two_clients
    ≡ client ∷ record client { id = "C9" } ∷ []
unfolding firm_clients
in_order = refl

asked_by_name :
    (read_client_status (at 10) "F001" "C3" two_clients).0
    ≡ ok (client_status "F001" (facts_of 10 "F001" two_clients client))
unfolding read_client_status client_status_body run_tx validate_firm_id
asked_by_name = refl

firm_status-sums_example :
    (report.clients ≡ statuses 10 "F001" (client ∷ []) done)
    × (urgency report.headline ≡ most_urgent (statuses 10 "F001" (client ∷ []) done))
    × (report.counts.required ≡ sum_of (λ k. k.required) (statuses 10 "F001" (client ∷ []) done))
    × (report.counts.accepted ≡ sum_of (λ k. k.accepted) (statuses 10 "F001" (client ∷ []) done))
firm_status-sums_example = firm_status-sums (at 10) "F001" (client ∷ []) done report reports
