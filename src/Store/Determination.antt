-- ===== src/Store/Determination.antt =====
-- postgres/internal/store/determination.go, with the view `payment_classification_nec_2025_v1`: what
-- the payments of a dataset make of its vendors. The order in which SQL makes groups is open; here it is
-- that of their first payments.
pub mod Determining
pub mod Explaining
pub mod Keys
use soraban.Shared.{
  ℕ, zero, suc, ◌+◌, ◌==◌, Bool, true, false, not, ◌&&◌, ◌||◌, ltb, leb, String, str_eq, Option,
  none, some, is_some, List, [], ◌∷◌, ◌++◌, map, length, if◌then◌else◌, count_where, find_where,
  select_where, bytes_eq, is_none,
}
use soraban.Shared.Int.{ℤ, pos, negsuc, ◌+ℤ◌, leb_ℤ, is_positive}
use soraban.Lifecycle.{Bytes, Error, conflict, invariant, not_found, message, Result, ok, err}
use soraban.Store.Tables.{
  Filing, FilingState, blocked_preflight, ready, Dataset, Payment, Determination, Db,
}
use soraban.Store.Transaction.{Environment, Body, run_tx}
use soraban.Store.Plan.Writing.{is_ready}
use soraban.Store.Vendors.{tin_of, preflight_reason}
use soraban.Store.Identity.{put_uint32}

-- The columns that the view adds.
unfoldable pub is_counted : Payment → Bool
is_counted p =
    str_eq p.payment_method "check"
    || str_eq p.payment_method "ach"
    || str_eq p.payment_method "wire"
    || str_eq p.payment_method "cash"

unfoldable pub exclusion_reason : Payment → String
exclusion_reason p =
    if str_eq p.payment_method "credit_card"
    then "PAYMENT_PROCESSOR_REPORTED"
    else if str_eq p.payment_method "paypal"
    then "THIRD_PARTY_NETWORK_REPORTED"
    else ""

-- `sum(column) FILTER (WHERE test)`, 0 where there is no row.
unfoldable pub sum_where : (Payment → Bool) → (Payment → ℤ) → List Payment → ℤ
sum_where test column [] = pos 0
sum_where test column (p ∷ ps) =
    let rest = sum_where test column ps in if test p then column p +ℤ rest else rest

-- A client and a vendor identity.
abbrev pub Vendor : Type 0
Vendor = String × String

abbrev pub vendor_of : Payment → Vendor
vendor_of p = (p.client_id, p.vendor_identity)

unfoldable pub is_of : Vendor → Payment → Bool
is_of (client, vendor) p = str_eq p.client_id client && str_eq p.vendor_identity vendor

abbrev pub reportable : Vendor → List Payment → ℤ
reportable v ps = sum_where (λ p. is_of v p && is_counted p) (λ (p : Payment). p.amount_cents) ps

abbrev pub withheld : Vendor → List Payment → ℤ
withheld v ps = sum_where (is_of v) (λ (p : Payment). p.backup_withholding_cents) ps

-- The groups of `GROUP BY client_id, vendor_identity`, `seen` being the payments before.
unfoldable pub vendors : List Payment → List Payment → List Vendor
vendors seen [] = []
vendors seen (p ∷ ps) =
    let v = vendor_of p in
    let rest = vendors (p ∷ seen) ps in
    if is_some (find_where (is_of v) seen) then rest else v ∷ rest

-- `HAVING`.
unfoldable pub qualifies : List Payment → Vendor → Bool
qualifies ps v = leb_ℤ (pos 60000) (reportable v ps) || is_positive (withheld v ps)

abbrev payments_named : Vendor → String → List Payment → ℕ
payments_named v name ps = count_where (λ (p : Payment). is_of v p && str_eq p.vendor_name name) ps

-- `ps` are the payments of the dataset and the firm.
unfoldable pub classified : ℕ → String → List Payment → List Payment
classified dataset firm ps =
    select_where (λ (p : Payment). p.dataset_id == dataset && str_eq p.firm_id firm) ps

-- `::bigint`.
unfoldable pub fits_bigint : ℤ → Bool
fits_bigint (pos n) = ltb n 9223372036854775808
fits_bigint (negsuc n) = ltb n 9223372036854775808

state_of : Option String → FilingState
state_of none = ready
state_of (some _) = blocked_preflight

-- What a transaction needs beside its tables: SHA-256, the bytes of a text in UTF-8, the text of a
-- number, and the order of texts of the database's collation.
module _ (sha256 : Bytes → Bytes) (utf8 : String → Bytes) (decimal : ℕ → Bytes)
    (text_before : String → String → Bool) where
  -- `row_number() … ORDER BY count(*) DESC, vendor_name`: the first of two names.
  better : Vendor → List Payment → String → String → String
  better v ps a b =
      let m = payments_named v a ps in
      let n = payments_named v b ps in if ltb n m || (m == n && text_before a b) then a else b

  -- The name with the rank 1 among those of `qs` and `best`.
  display_name : Vendor → List Payment → List Payment → String → String
  unfolding better
  display_name v ps [] best = best
  display_name v ps (q ∷ qs) best =
      let other = display_name v ps qs (better v ps best q.vendor_name) in
      let same = display_name v ps qs best in if is_of v q then other else same

  first_name : Vendor → List Payment → String
  first_name v [] = ""
  first_name v (p ∷ ps) = let rest = first_name v ps in if is_of v p then p.vendor_name else rest

  framed : String → Bytes
  framed s = put_uint32 (length (utf8 s)) ++ utf8 s

  -- The key as SQL computes it.
  unfoldable pub sql_filing_key : String → String → ℕ → String → Bytes
  unfolding framed
  sql_filing_key firm client tax_year vendor = sha256 (
      (((((framed "filing-key-v1" ++ framed firm) ++ framed client)
            ++ (put_uint32 (length (decimal tax_year)) ++ decimal tax_year))
          ++ framed "1099-NEC")
        ++ framed vendor)
      ++ framed "0")

  unfoldable pub filing_of : ℕ → ℕ → String → ℕ → List Payment → Vendor → Filing
  unfolding state_of display_name first_name
  filing_of id determination firm tax_year ps v =
      let (client, vendor) = v in
      let tin = tin_of vendor in
      let cents = reportable v ps in
      let reason = preflight_reason vendor tin cents in
      record {
        id = id;
        firm_id = firm;
        client_id = client;
        determination_id = determination;
        tax_year = tax_year;
        vendor_identity = vendor;
        vendor_display_name = display_name v ps ps (first_name v ps);
        recipient_tin = tin;
        filing_key = sql_filing_key firm client tax_year vendor;
        reportable_cents = cents;
        withholding_cents = withheld v ps;
        state = state_of reason;
        preflight_reason = reason;
        irs_record_id = none;
        rejection_reason = none;
        acknowledged_at = none;
      }

  -- The rows of the INSERT, with the identities that follow `id`.
  unfoldable pub filings_of_vendors : ℕ → ℕ → String → ℕ → List Payment → List Vendor → List Filing
  filings_of_vendors id determination firm tax_year ps [] = []
  filings_of_vendors id determination firm tax_year ps (v ∷ vs) =
      filing_of id determination firm tax_year ps v
      ∷ filings_of_vendors (suc id) determination firm tax_year ps vs
