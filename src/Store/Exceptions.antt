-- ===== src/Store/Exceptions.antt =====
-- postgres/internal/store/status.go: `Exceptions`.
pub mod Attention
use soraban.Shared.{
  ℕ, suc, ◌+◌, ◌==◌, Bool, true, false, ◌&&◌, ◌||◌, ltb, String, str_append, str_eq, Option, none,
  some, List, [], ◌∷◌, ◌++◌, map, if◌then◌else◌, select_where, find_where,
}
use soraban.Lifecycle.{message, Result, ok, err}
use soraban.Store.Tables.{
  Filing, blocked_preflight, rejected, Batch, BatchFiling, invariant_failed, state_eq, Db,
}
use soraban.Store.Transaction.{Environment, Body, run_tx}
use soraban.Store.Claims.{or_empty}
use soraban.Store.Status.{is_filing_in, is_failed, is_overdue}

pub record ExceptionsQuery : Type 0 where
  pub firm_id : String
  pub client_id : String

pub record ExceptionItem : Type 0 where
  pub client_id : String
  pub filing_id : ℕ
  pub batch_id : ℕ
  pub vendor_display_name : String
  pub failure_code : String

pub record ExceptionGroup : Type 0 where
  pub exception_type : String
  pub count : ℕ
  pub items : List ExceptionItem

-- A row of the query; its type may be NULL.
pub record ExceptionRow : Type 0 where
  pub exception_type : Option String
  pub item : ExceptionItem

blocked_type : Option String → Option String
blocked_type none = none
blocked_type (some reason) =
    if str_eq reason "TIN_MISSING"
    then some "MISSING_TIN"
    else if str_eq reason "TIN_MALFORMED" || str_eq reason "TIN_INVALID"
    then some "INVALID_TIN"
    else if str_eq reason "AMOUNT_INVALID"
    then some "INVALID_AMOUNT"
    else none

rejected_type : Option String → Option String
rejected_type none = none
rejected_type (some reason) = some (str_append "FILING_REJECTED_" reason)

-- COALESCE(bf.batch_id, 0); a filing is in one batch at most.
batch_or_0 : Option BatchFiling → ℕ
batch_or_0 none = 0
batch_or_0 (some l) = l.batch_id

unfoldable pub filing_item : Filing → ℕ → Option String → ExceptionItem
filing_item f batch code = record {
  client_id = f.client_id;
  filing_id = f.id;
  batch_id = batch;
  vendor_display_name = f.vendor_display_name;
  failure_code = or_empty code;
}

unfoldable pub batch_item : Batch → String → ExceptionItem
batch_item b code = record {
  client_id = b.client_id;
  filing_id = 0;
  batch_id = b.id;
  vendor_display_name = "";
  failure_code = code;
}

unfoldable pub blocked_row : Filing → ExceptionRow
unfolding blocked_type filing_item
blocked_row f = record {
  exception_type = blocked_type f.preflight_reason;
  item = filing_item f 0 f.preflight_reason;
}

unfoldable pub rejected_row : List BatchFiling → Filing → ExceptionRow
unfolding rejected_type batch_or_0 filing_item
rejected_row links f = record {
  exception_type = rejected_type f.rejection_reason;
  item =
      filing_item f (batch_or_0 (find_where (λ (l : BatchFiling). l.filing_id == f.id) links))
        f.rejection_reason;
}

failed_type : Option ℕ → String
failed_type none = "INVARIANT_FAILURE"
failed_type (some _) = "RETRY_EXHAUSTED"

code_or_invariant : Option String → String
code_or_invariant none = "INVARIANT"
code_or_invariant (some code) = code

unfoldable pub failed_row : Batch → ExceptionRow
unfolding failed_type code_or_invariant batch_item
failed_row b = record {
  exception_type = some (failed_type b.retry_exhausted_at);
  item = batch_item b (code_or_invariant b.last_error_code);
}

unfoldable pub overdue_row : Batch → ExceptionRow
unfolding batch_item
overdue_row b = record {
  exception_type = some "SUBMISSION_UNACKNOWLEDGED";
  item = batch_item b "ACK_DELAY";
}

-- The WHERE of the parts of the UNION, and of the whole.
abbrev pub filing_of_firm : String → (Filing → Bool) → Filing → Bool
filing_of_firm firm test f = str_eq f.firm_id firm && test f

abbrev pub batch_of_firm : String → (Batch → Bool) → Batch → Bool
batch_of_firm firm test b = str_eq b.firm_id firm && test b

abbrev pub is_queried : String → ExceptionRow → Bool
is_queried client r = str_eq client "" || str_eq r.item.client_id client

unfoldable pub exception_rows : ℕ → String → Db → List ExceptionRow
exception_rows now firm db =
    map blocked_row (select_where (filing_of_firm firm (is_filing_in blocked_preflight)) db.filings)
    ++ (map (rejected_row db.batch_filings)
          (select_where (filing_of_firm firm (is_filing_in rejected)) db.filings)
        ++ (map failed_row (select_where (batch_of_firm firm is_failed) db.submission_batches)
            ++ map overdue_row
                (select_where (batch_of_firm firm (is_overdue now)) db.submission_batches)))

-- The rows as they are scanned; a type that is NULL is an error.
abbrev pub Scanned : Type 0
Scanned = String × ExceptionItem

cons_scanned : Option String → ExceptionItem → Option (List Scanned) → Option (List Scanned)
cons_scanned (some t) item (some rows) = some ((t, item) ∷ rows)
cons_scanned _ _ _ = none

unfoldable pub scan_rows : List ExceptionRow → Option (List Scanned)
unfolding cons_scanned
scan_rows [] = some []
scan_rows (r ∷ rs) = cons_scanned r.exception_type r.item (scan_rows rs)

-- The map of the groups with `order` is the list of the groups by their first rows.
unfoldable pub add_item : Scanned → List ExceptionGroup → List ExceptionGroup
add_item (t, item) [] = record { exception_type = t; count = 1; items = item ∷ [] } ∷ []
add_item (t, item) (g ∷ gs) =
    let rest = add_item (t, item) gs in
    if str_eq g.exception_type t
    then record g { count = suc g.count; items = g.items ++ (item ∷ []) } ∷ gs
    else g ∷ rest

unfoldable pub group_rows : List ExceptionGroup → List Scanned → List ExceptionGroup
group_rows groups [] = groups
group_rows groups (r ∷ rs) = group_rows (add_item r groups) rs

-- `row_before` is the order of the query, `type_before` that of `sort.Strings`.
module _ (row_before : ExceptionRow → ExceptionRow → Bool)
    (type_before : String → String → Bool) where
  unfoldable pub insert_exception : ExceptionRow → List ExceptionRow → List ExceptionRow
  insert_exception r [] = r ∷ []
  insert_exception r (q ∷ qs) =
      let rest = insert_exception r qs in if row_before q r then q ∷ rest else r ∷ q ∷ qs

  unfoldable pub order_rows : List ExceptionRow → List ExceptionRow
  order_rows [] = []
  order_rows (r ∷ rs) = insert_exception r (order_rows rs)

  unfoldable pub insert_group : ExceptionGroup → List ExceptionGroup → List ExceptionGroup
  insert_group g [] = g ∷ []
  insert_group g (h ∷ hs) =
      let rest = insert_group g hs in
      if type_before h.exception_type g.exception_type then h ∷ rest else g ∷ h ∷ hs

  unfoldable pub order_groups : List ExceptionGroup → List ExceptionGroup
  order_groups [] = []
  order_groups (g ∷ gs) = insert_group g (order_groups gs)

  unfoldable pub groups_of : Option (List Scanned) → Body (List ExceptionGroup)
  groups_of none db = err (message "cannot scan NULL")
  groups_of (some rows) db = ok (order_groups (group_rows [] rows), db)

  unfoldable pub exceptions_body : ℕ → ExceptionsQuery → Body (List ExceptionGroup)
  exceptions_body now query db =
      groups_of
        (scan_rows (
          order_rows
            (select_where (is_queried query.client_id) (exception_rows now query.firm_id db))))
        db

  unfoldable pub exceptions : Environment → ExceptionsQuery → Db → Result (List ExceptionGroup) × Db
  exceptions env query db = run_tx env query.firm_id (exceptions_body env.now query) db
