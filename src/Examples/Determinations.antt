-- ===== src/Examples/Determinations.antt =====
-- Four payments of two vendors, determined and explained.
use soraban.Shared.{
  find_where, Bool, ℕ, true, false, String, codes, none, some, List, [], ◌∷◌, ◌≡◌, refl, arith,
  if◌then◌else◌, ◌==◌,
}
use soraban.Shared.Int.{ℤ, pos, negsuc, wrap_int64}
use soraban.Lifecycle.{ok}
use soraban.Store.Tables.{Payment, Db}
use soraban.Store.Transaction.{run_tx, validate_firm_id, finish}
use soraban.Store.Identity.{filing_key}
use soraban.Store.Identity.Money.{decimal}
use soraban.Store.Vendors.{
  is_like, after_characters, tin_of, preflight_reason, vendor_identity, btrim, without_separators,
  is_tin,
}
use soraban.Store.Determination.{
  reportable, withheld, is_counted, exclusion_reason, sum_where, is_of, vendors, qualifies,
  classified, fits_bigint, filing_of, filings_of_vendors, sql_filing_key,
}
use soraban.Store.Determination.Determining.{
  DetermineDatasetCommand, DeterminationResult, is_determination, count_state, violates_filings_uk,
  insert_filings, determine_body, determine_dataset,
}
use soraban.Store.Determination.Determining.Filed.{Determined, determine_dataset-Determined}
use soraban.Store.Determination.Explaining.{
  PaymentExplanationQuery, ExplainedPayment, PaymentExplanation, gather_payments, explanation_body,
  payment_explanation, is_asked,
}
use soraban.Store.Determination.Explaining.Agreement.{Explains, payment_explanation-Explains}
use soraban.Store.Determination.Keys.{sql_filing_key-filing_key}
use soraban.IrsStub.Model.{rejection}
use soraban.IrsStub.Preflight.{preflight_reason-rejection}
use soraban.Examples.Batches.{db, at, hash, digest}
use soraban.Examples.Stub.{good}

abbrev payment : ℕ → String → String → ℤ → Payment
payment row vendor method cents = record {
  dataset_id = 5;
  source_row_number = row;
  firm_id = "F001";
  client_id = "C1";
  vendor_name = "Ann";
  vendor_tin = none;
  vendor_identity = vendor;
  payment_date = "2025-01-02";
  amount_cents = cents;
  payment_method = method;
  backup_withholding_cents = pos 0;
  memo = "";
}

abbrev filled : Db
filled = record db {
  datasets =
      record {
        id = 5;
        firm_id = "F001";
        tax_year = 2025;
        content_sha256 = digest;
        source_row_count = 4;
      }
      ∷ [];
  payments =
      payment 1 "tin:123456789" "check" (pos 70000)
      ∷ payment 2 "tin:123456789" "paypal" (pos 90000)
      ∷ payment 3 "tin:987654321" "ach" (pos 100)
      ∷ payment 4 "tin:123456789" "ach" (negsuc 4999)
      ∷ [];
}

abbrev command : DetermineDatasetCommand
command = record { firm_id = "F001"; dataset_id = 5; ruleset_version = "nec-2025-v1" }

abbrev result : DeterminationResult
result = record { determination_id = 9; ready_count = 1; blocked_count = 0; existing = false }

-- One vendor is filed, with 650.00: what PayPal paid does not count.
determined_once :
    (determine_dataset hash codes decimal (λ _ _. true) (at 0) 9 1 command filled).0 ≡ ok result
unfolding determine_dataset run_tx validate_firm_id finish determine_body is_determination
    insert_filings classified vendors is_of qualifies sum_where is_counted filings_of_vendors
    filing_of sql_filing_key tin_of preflight_reason is_like after_characters fits_bigint
    violates_filings_uk count_state soraban.Shared.Int.◌+ℤ◌
determined_once = refl

determine_dataset-Determined_example :
    Determined hash codes decimal command filled result
      (determine_dataset hash codes decimal (λ _ _. true) (at 0) 9 1 command filled).1
determine_dataset-Determined_example =
    determine_dataset-Determined hash codes decimal (λ _ _. true) (at 0) 9 1 command filled result
      determined_once refl

abbrev known : Db
known = record filled {
  determinations =
      record { id = 9; dataset_id = 5; firm_id = "F001"; ruleset_version = "nec-2025-v1" } ∷ [];
}

abbrev query : PaymentExplanationQuery
query = record {
  firm_id = "F001";
  determination_id = 9;
  client_id = "C1";
  vendor_identity = "tin:123456789";
}

abbrev row : ℕ → String → ℤ → Bool → String → ExplainedPayment
row number method cents counted reason = record {
  source_row_number = number;
  vendor_name = "Ann";
  payment_date = "2025-01-02";
  amount_cents = cents;
  payment_method = method;
  withholding_cents = pos 0;
  counted = counted;
  exclusion_reason = reason;
}

abbrev explanation : PaymentExplanation
explanation = record {
  payments =
      row 1 "check" (pos 70000) true ""
      ∷ row 2 "paypal" (pos 90000) false "THIRD_PARTY_NETWORK_REPORTED"
      ∷ row 4 "ach" (negsuc 4999) true ""
      ∷ [];
  reportable_cents = pos 65000;
  withholding_cents = pos 0;
}

explained_once : (payment_explanation (at 0) query known).0 ≡ ok explanation
unfolding payment_explanation run_tx validate_firm_id finish explanation_body is_asked classified
    is_of is_counted exclusion_reason gather_payments wrap_int64 soraban.Shared.Int.◌+ℤ◌
explained_once = refl

fits : fits_bigint (pos 65000) ≡ true
unfolding fits_bigint
fits = refl

summed :
    (fits_bigint (reportable ("C1", "tin:123456789") (classified 5 "F001" known.payments)) ≡ true)
    × (fits_bigint (withheld ("C1", "tin:123456789") (classified 5 "F001" known.payments)) ≡ true)
    × (find_where (is_asked query) known.determinations
        ≡ some
            (record { id = 9; dataset_id = 5; firm_id = "F001"; ruleset_version = "nec-2025-v1" }))
unfolding fits_bigint sum_where classified is_of is_counted is_asked soraban.Shared.Int.◌+ℤ◌
summed = (refl, refl, refl)

payment_explanation-Explains_example :
    Explains
      (filing_of hash codes decimal
        (λ _ _. true)
        1
        9
        "F001"
        2025
        (classified 5 "F001" known.payments)
        ("C1", "tin:123456789"))
      explanation
    × (known ≡ (payment_explanation (at 0) query known).1)
payment_explanation-Explains_example =
    payment_explanation-Explains hash codes decimal (λ _ _. true) (at 0) query known
      (record { id = 9; dataset_id = 5; firm_id = "F001"; ruleset_version = "nec-2025-v1" }) 1 2025
      explanation summed.2 summed.0 summed.1 explained_once

sql_filing_key-filing_key_example :
    sql_filing_key hash codes decimal (λ _ _. true) "F001" "C1" 2025 "tin:123456789"
    ≡ filing_key hash codes decimal "F001" "C1" 2025 "tin:123456789"
sql_filing_key-filing_key_example =
    sql_filing_key-filing_key hash codes decimal (λ _ _. true) "F001" "C1" 2025 "tin:123456789"

abbrev white : ℕ → Bool
white c = c == 32

normalized : tin_of (vendor_identity white "Ann" "123-45 6789") ≡ some "123456789"
unfolding tin_of vendor_identity btrim without_separators is_tin is_like after_characters
normalized = refl

preflight_reason-rejection_example :
    preflight_reason (vendor_identity white "Ann" "123-45 6789") (some "123456789") (pos 60000)
    ≡ rejection good
preflight_reason-rejection_example =
    preflight_reason-rejection white "Ann" "123-45 6789" "123456789" good normalized refl
