-- ===== src/IrsStub/Model.antt =====
-- irs/internal/stub/model.go: `Store` and its operations. A submission is never changed once it is
-- stored, so the two maps hold it by value; a map is a list of entries, the latest first. What is
-- random is an argument: `ids` are the values that `rand.Read` gives, the next one first.
pub mod Identifiers
use soraban.Shared.{
  ℕ, zero, suc, ◌+◌, ◌==◌, Bool, true, false, not, ◌&&◌, ltb, leb, String, str_eq, str_append,
  as_text, codes, byte_length, all_of, is_blank, Option, none, some, is_some, List, [], ◌∷◌, ◌++◌,
  map, if◌then◌else◌, find_where,
}
use soraban.Shared.Int.{ℤ, is_positive}
use soraban.Lifecycle.{Bytes}
use soraban.Store.Identity.Reference.{hex}
use soraban.IrsStub.Money.{is_digit}

-- float64, as far as it is used.
pub record Float : Type 1 where
  pub Number : Type 0
  pub less : Number → Number → Bool
  pub plus : Number → Number → Number
  pub times_100 : Number → Number
  pub nanoseconds : Number → ℕ

pub record OriginalRecordKey : Type 0 where
  pub firm_id : String
  pub client_id : String
  pub tax_year : String
  pub record_id : String

pub record FilingRecord : Type 0 where
  pub record_id : String
  pub recipient_name : String
  pub recipient_tin : String
  pub amount_cents : ℤ
  pub withholding_cents : ℤ

pub record Transmission : Type 0 where
  pub firm_id : String
  pub client_id : String
  pub tax_year : String
  pub utid : String
  pub submission_id : String
  pub records : List FilingRecord

pub record RecordResult : Type 0 where
  pub record_id : String
  pub status : String
  pub irs_record_id : String
  pub error_reason : String

-- `available_at` is `none` where the submission is never acknowledged.
pub record Submission : Type 0 where
  pub receipt_id : String
  pub utid : String
  pub firm_id : String
  pub client_id : String
  pub tax_year : String
  pub submission_id : String
  pub available_at : Option ℕ
  pub results : List RecordResult

pub data IntakeFault : Type 0 where
  intake_succeeded fail_before_record fail_after_record : IntakeFault

pub data Refusal : Type 0 where
  duplicate_utid duplicate_record : Refusal

-- What `record` returns.
pub data Intake : Type 0 where
  refused : Refusal → Intake
  faulted : IntakeFault → Intake
  received : String → IntakeFault → Intake

pub record Store : Type 0 where
  pub by_firm_and_utid : List (String × String × Submission)
  pub by_receipt_id : List (String × Submission)
  pub original_records : List OriginalRecordKey
  pub generated_ids : List String

unfoldable pub new_store : Store
new_store = record {
  by_firm_and_utid = [];
  by_receipt_id = [];
  original_records = [];
  generated_ids = [];
}

unfoldable pub find_by_utid :
    String → String → List (String × String × Submission) → Option Submission
find_by_utid firm utid [] = none
find_by_utid firm utid ((f, u, s) ∷ entries) =
    let rest = find_by_utid firm utid entries in
    if str_eq f firm && str_eq u utid then some s else rest

unfoldable pub find_receipt : String → List (String × Submission) → Option Submission
find_receipt receipt [] = none
find_receipt receipt ((r, s) ∷ entries) =
    let rest = find_receipt receipt entries in if str_eq r receipt then some s else rest

unfoldable pub only_firm : String → Option Submission → Option Submission
only_firm firm none = none
only_firm firm (some s) = if str_eq s.firm_id firm then some s else none

unfoldable pub find_by_receipt_id : String → String → Store → Option Submission
unfolding only_firm
find_by_receipt_id firm receipt store = only_firm firm (find_receipt receipt store.by_receipt_id)

unfoldable pub key_eq : OriginalRecordKey → OriginalRecordKey → Bool
key_eq k l =
    str_eq k.firm_id l.firm_id
    && str_eq k.client_id l.client_id
    && str_eq k.tax_year l.tax_year
    && str_eq k.record_id l.record_id

unfoldable pub original_key : Transmission → FilingRecord → OriginalRecordKey
original_key input r = record {
  firm_id = input.firm_id;
  client_id = input.client_id;
  tax_year = input.tax_year;
  record_id = r.record_id;
}

unfoldable pub any_known : List OriginalRecordKey → List OriginalRecordKey → Bool
any_known known [] = false
any_known known (k ∷ ks) =
    let rest = any_known known ks in if is_some (find_where (key_eq k) known) then true else rest

-- `isNineASCIIDigits`; the bytes of a text that is not ASCII are no digits.
unfoldable pub is_nine_digits : String → Bool
is_nine_digits tin = byte_length (codes tin) == 9 && all_of is_digit (codes tin)

-- `strings.HasPrefix(tin, "000")`.
unfoldable pub starts_with_000 : List ℕ → Bool
starts_with_000 (a ∷ b ∷ c ∷ _) = a == b'0' && b == b'0' && c == b'0'
starts_with_000 _ = false

-- The cases of `resultFor`; `none` is the default.
unfoldable pub rejection : FilingRecord → Option String
rejection r =
    if is_blank r.recipient_tin
    then some "TIN_MISSING"
    else if not (is_nine_digits r.recipient_tin)
    then some "TIN_MALFORMED"
    else if starts_with_000 (codes r.recipient_tin)
    then some "TIN_INVALID"
    else if not (is_positive r.amount_cents)
    then some "AMOUNT_INVALID"
    else none

abbrev pub contains : String → List String → Bool
contains s ids = is_some (find_where (λ t. str_eq t s) ids)

-- The identifier, the values that are left, and the identifiers that were generated; `none` where
-- the values that are given are used up.
abbrev pub Generated : Type 0 → Type 0
Generated A = Option (A × List Bytes × List String)

unfoldable pub new_opaque_id : String → List Bytes → List String → Generated String
new_opaque_id start [] known = none
new_opaque_id start (b ∷ ids) known =
    let rest = new_opaque_id start ids known in
    let identifier = str_append start (as_text (hex b)) in
    if contains identifier known then rest else some (identifier, ids, identifier ∷ known)

rejected_result : FilingRecord → String → RecordResult
rejected_result r reason = record {
  record_id = r.record_id;
  status = "Rejected";
  irs_record_id = "";
  error_reason = reason;
}

accepted_result : FilingRecord → Generated String → Generated RecordResult
accepted_result r none = none
accepted_result r (some (identifier, ids, known)) = some (
  record {
    record_id = r.record_id;
    status = "Accepted";
    irs_record_id = identifier;
    error_reason = "";
  },
  ids,
  known,
)

unfoldable pub result_for : FilingRecord → List Bytes → List String → Generated RecordResult
unfolding rejected_result accepted_result
result_for r ids known = elim (rejection r) [
  | some reason ↦ some (rejected_result r reason, ids, known)
  | none ↦ accepted_result r (new_opaque_id "irsrec_" ids known)
]
