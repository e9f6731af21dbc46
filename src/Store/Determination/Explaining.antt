-- ===== src/Store/Determination/Explaining.antt =====
-- postgres/internal/store/determination.go: `PaymentExplanation`.
pub mod Agreement
use soraban.Shared.{
  ℕ, ◌==◌, ltb, leb, Bool, true, false, ◌&&◌, ◌||◌, String, str_eq, Option, none, some, List, [],
  ◌∷◌, ◌++◌, map, length, if◌then◌else◌, find_where, select_where,
}
use soraban.Shared.Int.{ℤ, pos, ◌+ℤ◌, wrap_int64}
use soraban.Lifecycle.{Error, not_found, message, Result, ok, err}
use soraban.Store.Tables.{Payment, Determination, Db}
use soraban.Store.Transaction.{Environment, Body, run_tx}
use soraban.Store.Determination.{is_counted, exclusion_reason, is_of, classified}

pub record PaymentExplanationQuery : Type 0 where
  pub firm_id : String
  pub determination_id : ℕ
  pub client_id : String
  pub vendor_identity : String

pub record ExplainedPayment : Type 0 where
  pub source_row_number : ℕ
  pub vendor_name : String
  pub payment_date : String
  pub amount_cents : ℤ
  pub payment_method : String
  pub withholding_cents : ℤ
  pub counted : Bool
  pub exclusion_reason : String

pub record PaymentExplanation : Type 0 where
  pub payments : List ExplainedPayment
  pub reportable_cents : ℤ
  pub withholding_cents : ℤ

explained : Payment → ExplainedPayment
explained p = record {
  source_row_number = p.source_row_number;
  vendor_name = p.vendor_name;
  payment_date = p.payment_date;
  amount_cents = p.amount_cents;
  payment_method = p.payment_method;
  withholding_cents = p.backup_withholding_cents;
  counted = is_counted p;
  exclusion_reason = exclusion_reason p;
}

-- `ORDER BY p.source_row_number`.
insert_row : ExplainedPayment → List ExplainedPayment → List ExplainedPayment
insert_row p [] = p ∷ []
insert_row p (q ∷ qs) =
    let rest = insert_row p qs in
    if leb p.source_row_number q.source_row_number then p ∷ q ∷ qs else q ∷ rest

ordered_rows : List ExplainedPayment → List ExplainedPayment
unfolding insert_row
ordered_rows [] = []
ordered_rows (p ∷ ps) = insert_row p (ordered_rows ps)

-- The join with the payments of the determination's dataset.
rows_of : PaymentExplanationQuery → Option Determination → List Payment → List ExplainedPayment
unfolding explained ordered_rows
rows_of query none ps = []
rows_of query (some d) ps = ordered_rows (
    map explained (
      select_where (is_of (query.client_id, query.vendor_identity))
        (classified d.dataset_id query.firm_id ps)))

-- The loop over the rows; the sums are of int64.
unfoldable pub gather_payments : PaymentExplanation → List ExplainedPayment → PaymentExplanation
gather_payments so_far [] = so_far
gather_payments so_far (p ∷ ps) =
    gather_payments
      (record {
        payments = so_far.payments ++ (p ∷ []);
        reportable_cents =
            if p.counted
            then wrap_int64 (so_far.reportable_cents +ℤ p.amount_cents)
            else so_far.reportable_cents;
        withholding_cents = wrap_int64 (so_far.withholding_cents +ℤ p.withholding_cents);
      })
      ps

no_payments : PaymentExplanation
no_payments = record { payments = []; reportable_cents = pos 0; withholding_cents = pos 0 }

-- What the loop leaves, where there was a row.
of_rows : List ExplainedPayment → Body PaymentExplanation
of_rows [] db = err not_found
of_rows (p ∷ ps) db = ok (gather_payments no_payments (p ∷ ps), db)

unfoldable pub is_asked : PaymentExplanationQuery → Determination → Bool
is_asked query d = d.id == query.determination_id && str_eq d.firm_id query.firm_id

unfoldable pub explanation_body : PaymentExplanationQuery → Body PaymentExplanation
unfolding no_payments of_rows is_asked rows_of
explanation_body query db =
    of_rows (rows_of query (find_where (is_asked query) db.determinations) db.payments) db

unfoldable pub payment_explanation :
    Environment → PaymentExplanationQuery → Db → Result PaymentExplanation × Db
payment_explanation env query db =
    if query.determination_id == 0 || str_eq query.client_id "" || str_eq query.vendor_identity ""
    then (err (message "invalid explanation query"), db)
    else run_tx env query.firm_id (explanation_body query) db
