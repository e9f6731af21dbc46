-- ===== src/Examples/Imports.antt =====
-- An export of two payments, copied and imported.
use soraban.Shared.{
  ℕ, true, false, Bool, String, as_text, codes, none, some, List, [], ◌∷◌, ◌≡◌, refl, ◌==◌,
}
use soraban.Shared.Int.{pos, negsuc}
use soraban.Lifecycle.{Bytes, ok}
use soraban.Importer.{
  PaymentRow, fields, Source, Encoding, valid_utf8, read_row, size_of, next_row, copy_rows,
}
use soraban.Importer.Rows.{Ends, copy_rows-Ends}
use soraban.Store.Transaction.{run_tx, validate_firm_id, finish}
use soraban.Store.Vendors.{btrim, is_like}
use soraban.Store.Import.{
  ImportDatasetCommand, DatasetResult, unsigned_cents, amount_cents, withholding_cents,
  is_valid_row, valid_rows, insert_dataset, is_of_year, import_rows, import_body, import_dataset,
}
use soraban.Store.Import.Again.{Imported, answer_again, import_dataset_again}
use soraban.Examples.Batches.{db, at, hash, digest}

abbrev encoding : Encoding
encoding = record { valid = λ _. true; text = as_text; sha256 = hash }

abbrev line : String → String → List Bytes
line vendor amount =
    codes "C1"
    ∷ codes vendor
    ∷ codes ""
    ∷ codes "2025-01-02"
    ∷ codes amount
    ∷ codes "check"
    ∷ codes "0"
    ∷ codes ""
    ∷ []

abbrev source : Source
source = record {
  readings = fields (line "Ann" "10.5") ∷ fields (line "Bob" "-3") ∷ [];
  content = [];
  row_number = 0;
  exhausted = false;
  closed = false;
}

abbrev calm_context : ℕ → Bool
calm_context _ = false

copy_rows-Ends_example : Ends encoding calm_context source 3
copy_rows-Ends_example = copy_rows-Ends encoding calm_context source refl refl

abbrev payment_row : ℕ → String → String → PaymentRow
payment_row number vendor amount = record {
  source_row_number = number;
  client_id = "C1";
  vendor_name = vendor;
  vendor_tin = "";
  payment_date = "2025-01-02";
  amount = amount;
  payment_method = "check";
  backup_withholding = "0";
  memo = "";
}

abbrev rows : List PaymentRow
rows = payment_row 1 "Ann" "10.5" ∷ payment_row 2 "Bob" "-3" ∷ []

two_rows_copied :
    copy_rows encoding calm_context 3 source
    ≡ some (ok rows, record source { readings = []; row_number = 2; exhausted = true })
unfolding copy_rows next_row read_row valid_utf8 size_of as_text
two_rows_copied = refl

amounts :
    (amount_cents "10.5" ≡ some (pos 1050))
    × (amount_cents "-3" ≡ some (negsuc 299))
    × (amount_cents "01" ≡ none)
    × (amount_cents "1.234" ≡ none)
unfolding amount_cents unsigned_cents
amounts = (refl, refl, refl, refl)

abbrev command : ImportDatasetCommand
command = record { firm_id = "F001"; tax_year = 2025 }

abbrev white : ℕ → Bool
white c = c == 32

abbrev result : DatasetResult
result = record { dataset_id = 5; content_sha256 = digest; row_count = 2; existing = false }

imported :
    (import_dataset white (λ _. true) (at 0) 5 command (ok rows) (ok digest) db).0 ≡ ok result
unfolding import_dataset run_tx validate_firm_id finish import_body import_rows valid_rows
    is_valid_row btrim is_like amount_cents withholding_cents unsigned_cents is_of_year
    insert_dataset
imported = refl

valid : (valid_rows white (λ _. true) rows ≡ true) × (validate_firm_id "F001" ≡ true)
unfolding valid_rows is_valid_row btrim is_like amount_cents withholding_cents unsigned_cents
    validate_firm_id
valid = (refl, refl)

import_dataset_again_example :
    Imported white
      (λ _. true)
      command
      rows
      digest
      db
      result
      (import_dataset white (λ _. true) (at 0) 5 command (ok rows) (ok digest) db).1
    × (import_dataset white
          (λ _. true)
          (at 1)
          6
          command
          (ok rows)
          (ok digest)
          (import_dataset white (λ _. true) (at 0) 5 command (ok rows) (ok digest) db).1
        ≡ (
          answer_again white (λ _. true) result rows digest rows digest,
          (import_dataset white (λ _. true) (at 0) 5 command (ok rows) (ok digest) db).1,
        ))
import_dataset_again_example =
    import_dataset_again white (λ _. true) (at 0) (at 1) 5 6 command rows rows digest digest db
      result imported refl valid.1 refl refl refl valid.0
