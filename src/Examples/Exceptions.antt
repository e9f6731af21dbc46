-- ===== src/Examples/Exceptions.antt =====
-- The exceptions of a client with two rejected filings and a blocked one.
use soraban.Shared.{ℕ, Bool, true, false, String, some, List, [], ◌∷◌, ◌↔◌, ◌≡◌, refl, length}
use soraban.Lifecycle.{ok}
use soraban.Store.Tables.{Client, Filing, blocked_preflight, rejected, accepted, Db}
use soraban.Store.Transaction.{run_tx, validate_firm_id}
use soraban.Store.Status.{facts_of, is_overdue}
use soraban.Store.Exceptions.{
  ExceptionItem, ExceptionGroup, ExceptionRow, blocked_row, rejected_row, failed_row, overdue_row,
  filing_item, batch_item, exception_rows, scan_rows, add_item, group_rows, insert_exception,
  order_rows, insert_group, order_groups, groups_of, exceptions_body, exceptions,
}
use soraban.Store.Exceptions.Attention.{exceptions-Attention}
use soraban.Examples.Batches.{at, db}
use soraban.Examples.Reports.{filing}

abbrev no_order : ExceptionRow → ExceptionRow → Bool
no_order _ _ = false

abbrev reverse_order : String → String → Bool
reverse_order _ _ = true

abbrev client : Client
client = record { firm_id = "F001"; id = "C1" }

abbrev refused : Filing
refused = record (filing 2 "C1" rejected) { rejection_reason = some "TIN_INVALID" }

abbrev troubled : Db
troubled = record db {
  submission_batches = [];
  batch_filings = [];
  filings =
      record (filing 1 "C1" blocked_preflight) { preflight_reason = some "TIN_MISSING" }
      ∷ refused
      ∷ record refused { id = 3 }
      ∷ filing 4 "C2" accepted
      ∷ [];
}

abbrev item : ℕ → String → ExceptionItem
item id code = record {
  client_id = "C1";
  filing_id = id;
  batch_id = 0;
  vendor_display_name = "Vendor";
  failure_code = code;
}

abbrev expected : List ExceptionGroup
expected =
    record {
      exception_type = "FILING_REJECTED_TIN_INVALID";
      count = 2;
      items = item 2 "TIN_INVALID" ∷ item 3 "TIN_INVALID" ∷ [];
    }
    ∷ record { exception_type = "MISSING_TIN"; count = 1; items = item 1 "TIN_MISSING" ∷ [] }
    ∷ []

excepted :
    (exceptions no_order reverse_order
      (at 10)
      (record { firm_id = "F001"; client_id = "C1" })
      troubled).0
    ≡ ok expected
unfolding blocked_row rejected_row failed_row overdue_row filing_item batch_item exception_rows
    scan_rows add_item group_rows insert_exception order_rows insert_group order_groups groups_of
    exceptions_body exceptions run_tx validate_firm_id is_overdue
excepted = refl

exceptions-Attention_example :
    (length expected ≡ 0) ↔ ((facts_of 10 "F001" troubled client).attention ≡ false)
exceptions-Attention_example =
    exceptions-Attention no_order reverse_order (at 10) "F001" client troubled expected refl
      excepted
