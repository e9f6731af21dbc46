-- ===== src/Importer.antt =====
-- service/internal/importer/source.go: the payments of an export. What the CSV reader gives, record
-- after record, is a list; after it comes the end of the file. A field is its bytes.
pub mod Rows
use soraban.Shared.{
  ℕ, zero, suc, ◌+◌, ◌==◌, Bool, true, false, not, ◌&&◌, ◌||◌, ltb, String, Option, none, some,
  List, [], ◌∷◌, ◌++◌, length, if◌then◌else◌, bytes_eq,
}
use soraban.Lifecycle.{Bytes, Error, canceled, message, Result, ok, err}

abbrev pub max_record_bytes : ℕ
max_record_bytes = 1048576

pub record PaymentRow : Type 0 where
  pub source_row_number : ℕ
  pub client_id : String
  pub vendor_name : String
  pub vendor_tin : String
  pub payment_date : String
  pub amount : String
  pub payment_method : String
  pub backup_withholding : String
  pub memo : String

-- One result of `csv.Read` before the end: a record, or an error.
pub data Reading : Type 0 where
  fields : List Bytes → Reading
  read_error : Reading

-- `content` are the decompressed bytes, all of which the reader has read at its end.
pub record Source : Type 0 where
  pub readings : List Reading
  pub content : Bytes
  pub row_number : ℕ
  pub exhausted : Bool
  pub closed : Bool

unfoldable pub size_of : List Bytes → ℕ
size_of [] = 0
size_of (f ∷ fs) = length f + size_of fs

-- `utf8.ValidString`, the text of valid bytes, and SHA-256.
pub record Encoding : Type 0 where
  pub valid : Bytes → Bool
  pub text : Bytes → String
  pub sha256 : Bytes → Bytes

all_equal : List Bytes → List Bytes → Bool
all_equal [] [] = true
all_equal (x ∷ xs) (y ∷ ys) = let rest = all_equal xs ys in bytes_eq x y && rest
all_equal _ _ = false

module _ (encoding : Encoding) where
  unfoldable pub valid_utf8 : List Bytes → Bool
  valid_utf8 [] = true
  valid_utf8 (f ∷ fs) = let rest = valid_utf8 fs in encoding.valid f && rest

  -- `Open` after the files are there; `header` is the required one.
  unfoldable pub open_source : List Bytes → List Reading → Bytes → Option Source
  unfolding all_equal
  open_source header (fields h ∷ readings) content =
      if not (valid_utf8 h) || not (all_equal h header)
      then none
      else some (record {
        readings = readings;
        content = content;
        row_number = 0;
        exhausted = false;
        closed = false;
      })
  open_source header _ content = none

  payment_row_of : ℕ → List Bytes → Option PaymentRow
  payment_row_of number (a ∷ b ∷ c ∷ d ∷ e ∷ f ∷ g ∷ h ∷ []) = some (record {
    source_row_number = number;
    client_id = encoding.text a;
    vendor_name = encoding.text b;
    vendor_tin = encoding.text c;
    payment_date = encoding.text d;
    amount = encoding.text e;
    payment_method = encoding.text f;
    backup_withholding = encoding.text g;
    memo = encoding.text h;
  })
  payment_row_of number _ = none

  -- A record of another number of fields is an error of the reader.
  checked_row : ℕ → List Bytes → Option PaymentRow → Result (Option PaymentRow)
  checked_row number fs none = err (message "source record")
  checked_row number fs (some row) =
      if not (valid_utf8 fs)
      then err (message "source record: invalid UTF-8")
      else if ltb max_record_bytes (size_of fs)
      then err (message "source record: exceeds 1048576 bytes")
      else ok (some row)

  unfoldable pub read_row : ℕ → Reading → Result (Option PaymentRow)
  unfolding checked_row payment_row_of
  read_row number read_error = err (message "source record")
  read_row number (fields fs) = checked_row number fs (payment_row_of number fs)

  next_reading : List Reading → Source → Result (Option PaymentRow) × Source
  next_reading [] source = (ok none, record source { exhausted = true })
  next_reading (r ∷ rs) source =
      let number = suc source.row_number in
      (read_row number r, record source { readings = rs; row_number = number })

  -- `Next`; `is_canceled` is whether the context has an error.
  unfoldable pub next_row : Bool → Source → Result (Option PaymentRow) × Source
  unfolding next_reading
  next_row is_canceled source =
      if source.closed
      then (err (message "payment source is closed"), source)
      else if source.exhausted
      then (ok none, source)
      else if is_canceled
      then (err canceled, source)
      else next_reading source.readings source

  unfoldable pub source_sha256 : Source → Result Bytes
  source_sha256 source =
      if source.exhausted
      then ok (encoding.sha256 source.content)
      else err (message "decompressed SHA-256 is unavailable before EOF")

  -- postgres/internal/store/import.go, `paymentCopySource` under `CopyFrom`: the rows until there is
  -- none or an error, by the rounds that are left. `canceled_at` is whether the context has an error
  -- when so many records have been read.
  copied_after :
      PaymentRow
      → Option (Result (List PaymentRow) × Source)
      → Option (Result (List PaymentRow) × Source)
  copied_after row none = none
  copied_after row (some (err e, source)) = some (err e, source)
  copied_after row (some (ok rows, source)) = some (ok (row ∷ rows), source)

  copied :
      Result (Option PaymentRow)
      → Source
      → Option (Result (List PaymentRow) × Source)
      → Option (Result (List PaymentRow) × Source)
  unfolding copied_after
  copied (err e) source rest = some (err e, source)
  copied (ok none) source rest = some (ok [], source)
  copied (ok (some row)) source rest = copied_after row rest

  unfoldable pub copy_rows : (ℕ → Bool) → ℕ → Source → Option (Result (List PaymentRow) × Source)
  unfolding copied
  copy_rows canceled_at zero source = none
  copy_rows canceled_at (suc rounds) source =
      let (result, source') = next_row (canceled_at source.row_number) source in
      let rest = copy_rows canceled_at rounds source' in copied result source' rest

unfoldable pub close_source : Source → Source
close_source source = if source.closed then source else record source { closed = true }
