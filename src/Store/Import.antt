-- ===== src/Store/Import.antt =====
-- postgres/internal/store/import.go: `ImportDataset`. `valid_date` is PostgreSQL's test of a date,
-- `is_white` its class of white space. An error of a row leaves out which row and field it names.
pub mod Again
use soraban.Shared.{
  ℕ, zero, suc, ◌+◌, ◌-◌, ◌*◌, ◌==◌, Bool, true, false, not, ◌&&◌, ◌||◌, leb, ltb, String, str_eq,
  codes, Option, none, some, is_none, is_some, List, [], ◌∷◌, ◌++◌, map, length, if◌then◌else◌,
  find_where, bytes_eq,
}
use soraban.Shared.Int.{ℤ, pos, negsuc}
use soraban.Lifecycle.{Bytes, Error, conflict, invariant, message, Result, ok, err}
use soraban.Importer.{PaymentRow}
use soraban.Store.Tables.{Client, Dataset, Payment, Db}
use soraban.Store.Transaction.{Environment, Body, run_tx}
use soraban.Store.Vendors.{btrim, vendor_identity, is_like}

pub record ImportDatasetCommand : Type 0 where
  pub firm_id : String
  pub tax_year : ℕ

pub record DatasetResult : Type 0 where
  pub dataset_id : ℕ
  pub content_sha256 : Bytes
  pub row_count : ℕ
  pub existing : Bool

is_digit : ℕ → Bool
is_digit c = leb b'0' c && leb c b'9'

-- `(\.[0-9]{1,2})?$` after a point, and the hundredths.
fraction : ℕ → List ℕ → Option ℕ
unfolding is_digit
fraction n (a ∷ []) = if is_digit a then some (n * 100 + (a - b'0') * 10) else none
fraction n (a ∷ b ∷ []) =
    if is_digit a && is_digit b then some (n * 100 + (a - b'0') * 10 + (b - b'0')) else none
fraction n _ = none

whole_cents : ℕ → List ℕ → Option ℕ
unfolding fraction is_digit
whole_cents n [] = some (n * 100)
whole_cents n (c ∷ cs) =
    let rest = whole_cents (n * 10 + (c - b'0')) cs in
    if c == b'.' then fraction n cs else if is_digit c then rest else none

after_zero : List ℕ → Option ℕ
unfolding fraction
after_zero [] = some 0
after_zero (c ∷ cs) = if c == b'.' then fraction 0 cs else none

-- `^(0|[1-9][0-9]*)(\.[0-9]{1,2})?$`, with the product by 100.
unfoldable pub unsigned_cents : List ℕ → Option ℕ
unfolding after_zero whole_cents is_digit
unsigned_cents [] = none
unsigned_cents (c ∷ cs) =
    if c == b'0' then after_zero cs else if is_digit c then whole_cents (c - b'0') cs else none

minus : ℕ → ℤ
minus zero = pos 0
minus (suc n) = negsuc n

-- A bound of int64 on the amount, in cents.
bounded : (ℕ → ℤ) → Option ℕ → Option ℤ
bounded sign none = none
bounded sign (some n) = if ltb 9223372036854775807 n then none else some (sign n)

unfoldable pub amount_cents : String → Option ℤ
unfolding bounded minus
amount_cents s = of_codes (codes s)
  where
    of_codes : List ℕ → Option ℤ
    of_codes [] = none
    of_codes (c ∷ cs) =
        if c == b'-'
        then bounded minus (unsigned_cents cs)
        else bounded pos (unsigned_cents (c ∷ cs))

unfoldable pub withholding_cents : String → Option ℤ
unfolding bounded
withholding_cents s = bounded pos (unsigned_cents (codes s))

is_method : String → Bool
is_method m =
    str_eq m "check"
    || str_eq m "ach"
    || str_eq m "wire"
    || str_eq m "cash"
    || str_eq m "credit_card"
    || str_eq m "paypal"

-- `^2025-[0-9]{2}-[0-9]{2}$`.
is_2025 : List ℕ → Bool
unfolding is_digit
is_2025 (y ∷ e ∷ a ∷ r ∷ d ∷ m ∷ n ∷ s ∷ x ∷ z ∷ []) =
    is_like (codes "2025-") (y ∷ e ∷ a ∷ r ∷ d ∷ [])
    && is_digit m
    && is_digit n
    && s == b'-'
    && is_digit x
    && is_digit z
is_2025 _ = false

or_none : Option ℤ → ℤ
or_none none = pos 0
or_none (some z) = z

null_if_empty : String → Option String
null_if_empty s = if str_eq s "" then none else some s

module _ (is_white : ℕ → Bool) (valid_date : String → Bool) where
  -- The CASE of the rows that are invalid.
  unfoldable pub is_valid_row : PaymentRow → Bool
  unfolding is_2025 is_method
  is_valid_row r =
      ltb 0 r.source_row_number
      && not (str_eq (btrim r.client_id) "")
      && not (str_eq (btrim r.vendor_name) "")
      && is_2025 (codes r.payment_date)
      && valid_date r.payment_date
      && is_some (amount_cents r.amount)
      && is_method r.payment_method
      && is_some (withholding_cents r.backup_withholding)

  -- No row is invalid, and none has the number of another.
  unfoldable pub valid_rows : List PaymentRow → Bool
  valid_rows [] = true
  valid_rows (r ∷ rs) =
      let rest = valid_rows rs in
      is_valid_row r
      && is_none (find_where (λ (q : PaymentRow). q.source_row_number == r.source_row_number) rs)
      && rest

  unfoldable pub payment_of : ℕ → String → PaymentRow → Payment
  unfolding or_none null_if_empty
  payment_of dataset firm r = record {
    dataset_id = dataset;
    source_row_number = r.source_row_number;
    firm_id = firm;
    client_id = r.client_id;
    vendor_name = btrim r.vendor_name;
    vendor_tin = null_if_empty (btrim r.vendor_tin);
    vendor_identity = vendor_identity is_white r.vendor_name r.vendor_tin;
    payment_date = r.payment_date;
    amount_cents = or_none (amount_cents r.amount);
    payment_method = r.payment_method;
    backup_withholding_cents = or_none (withholding_cents r.backup_withholding);
    memo = r.memo;
  }

  -- `INSERT … ON CONFLICT DO NOTHING`, of one firm and of the distinct clients.
  with_firm : String → List String → List String
  with_firm firm firms =
      if is_some (find_where (λ f. str_eq f firm) firms) then firms else firms ++ (firm ∷ [])

  with_client : String → String → List Client → List Client
  with_client firm client cs =
      if is_some (find_where (λ (c : Client). str_eq c.firm_id firm && str_eq c.id client) cs)
      then cs
      else cs ++ (record { firm_id = firm; id = client } ∷ [])

  unfoldable pub with_clients : String → List PaymentRow → List Client → List Client
  unfolding with_client
  with_clients firm [] cs = cs
  with_clients firm (r ∷ rs) cs = with_clients firm rs (with_client firm r.client_id cs)

  -- `datasets_firm_hash_uk`.
  has_content : String → Bytes → Dataset → Bool
  has_content firm hash d = str_eq d.firm_id firm && bytes_eq d.content_sha256 hash

  unfoldable pub insert_dataset :
      ℕ → ImportDatasetCommand → List PaymentRow → Bytes → Body DatasetResult
  unfolding with_firm has_content
  insert_dataset next_id command rows hash db =
      if is_some (find_where (has_content command.firm_id hash) db.datasets)
      then err conflict
      else ok (
        record {
          dataset_id = next_id;
          content_sha256 = hash;
          row_count = length rows;
          existing = false;
        },
        record db {
          firms = with_firm command.firm_id db.firms;
          clients = with_clients command.firm_id rows db.clients;
          datasets =
              record {
                id = next_id;
                firm_id = command.firm_id;
                tax_year = command.tax_year;
                content_sha256 = hash;
                source_row_count = length rows;
              }
              ∷ db.datasets;
          payments = db.payments ++ map (payment_of next_id command.firm_id) rows;
        },
      )

  unfoldable pub is_of_year : ImportDatasetCommand → Dataset → Bool
  is_of_year command d = str_eq d.firm_id command.firm_id && d.tax_year == command.tax_year

  unfoldable pub known_dataset : Dataset → ℕ → Bytes → Body DatasetResult
  known_dataset d count hash db =
      if not (length d.content_sha256 == 32)
      then err invariant
      else if not (bytes_eq d.content_sha256 hash) || not (d.source_row_count == count)
      then err conflict
      else ok (
        record {
          dataset_id = d.id;
          content_sha256 = d.content_sha256;
          row_count = d.source_row_count;
          existing = true;
        },
        db,
      )

  of_year : ℕ → ImportDatasetCommand → List PaymentRow → Bytes → Option Dataset → Body DatasetResult
  of_year next_id command rows hash (some d) db = known_dataset d (length rows) hash db
  of_year next_id command rows hash none db = insert_dataset next_id command rows hash db

  -- After the rows and their hash are there.
  unfoldable pub import_rows :
      ℕ → ImportDatasetCommand → List PaymentRow → Bytes → Body DatasetResult
  unfolding of_year
  import_rows next_id command rows hash db =
      if length rows == 0
      then err (message "empty dataset")
      else if not (valid_rows rows)
      then err (message "source row: invalid field")
      else of_year next_id command rows hash (find_where (is_of_year command) db.datasets) db

  with_hash : ℕ → ImportDatasetCommand → List PaymentRow → Result Bytes → Body DatasetResult
  with_hash next_id command rows (err e) db = err e
  with_hash next_id command rows (ok hash) db = import_rows next_id command rows hash db

  -- What copying the rows gave, and what `SHA256` then gives.
  unfoldable pub import_body :
      ℕ → ImportDatasetCommand → Result (List PaymentRow) → Result Bytes → Body DatasetResult
  unfolding with_hash
  import_body next_id command (err e) hash db = err e
  import_body next_id command (ok rows) hash db = with_hash next_id command rows hash db

  unfoldable pub import_dataset :
      Environment
      → ℕ
      → ImportDatasetCommand
      → Result (List PaymentRow)
      → Result Bytes
      → Db
      → Result DatasetResult × Db
  import_dataset env next_id command rows hash db =
      if not (command.tax_year == 2025)
      then (err (message "invalid import command"), db)
      else run_tx env command.firm_id (import_body next_id command rows hash) db
