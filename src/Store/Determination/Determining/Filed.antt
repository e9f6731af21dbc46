-- ===== src/Store/Determination/Determining/Filed.antt =====
-- postgres/internal/store/determination.go, `DetermineDataset`: one filing for each vendor that
-- qualifies, with the sums of its payments.
use soraban.Shared.{
  ℕ, suc, ◌+◌, ◌==◌, Bool, true, false, not, ◌||◌, String, str_eq, eq_iff, none, some, is_some,
  is_none, List, [], ◌∷◌, ◌++◌, length, All, In, if◌then◌else◌, select_where, find_where,
  count_where, ◌≡◌, refl, ap, ◌∙◌, sym, subst, ◌⊎◌, Bool-cases, Option-cases, inl, inr, arith,
}
use soraban.Shared.Int.{ℤ, pos, negsuc, leb_ℤ, ltb_ℤ, is_positive}
use soraban.Lifecycle.{Bytes, ok}
use soraban.Store.Tables.{Payment, Dataset, Filing, ready, blocked_preflight, Db}
use soraban.Store.Transaction.{Environment, run_tx}
use soraban.Store.Transaction.Laws.{run_tx-ok}
use soraban.Store.Plan.Writing.{is_ready}
use soraban.Store.Vendors.{preflight_reason, tin_of}
use soraban.Store.Determination.{
  Vendor, reportable, withheld, classified, vendors, qualifies, filing_of, filings_of_vendors,
  state_of,
}
use soraban.Store.Identity.{filing_key}
use soraban.Store.Determination.Keys.{sql_filing_key-filing_key}
use soraban.Store.Determination.Determining.Groups.{
  same_vendor, seen_before, count-vendors, count-select,
}
use soraban.Store.Determination.Determining.Rules.{
  Total, Paid, Counted, withheld-Total, reportable-Total, unseen-qualifies, qualifies-threshold,
}
use soraban.Store.Determination.Determining.{
  DetermineDatasetCommand, DeterminationResult, is_determination, is_blocked, count_state,
  result_of, overflows, insert_filings, of_dataset, is_dataset, of_determination, determine_body,
  determine_dataset, violates_filings_uk, nec_2025_v1,
}

abbrev pub is_for : Vendor → Filing → Bool
is_for v f = same_vendor v (f.client_id, f.vendor_identity)

-- A filing that says what the payments of its vendor make, under the key of `filingKey`.
pub record FiledOf (sha256 : Bytes → Bytes) (utf8 : String → Bytes) (decimal : ℕ → Bytes)
    (dataset determination : ℕ) (firm : String) (tax_year : ℕ) (payments : List Payment)
    (f : Filing) : Type 0 where
  pub of_firm : f.firm_id ≡ firm
  pub of_determination : f.determination_id ≡ determination
  pub of_year : f.tax_year ≡ tax_year
  pub key :
      f.filing_key
      ≡ filing_key sha256 utf8 decimal f.firm_id f.client_id f.tax_year f.vendor_identity
  pub sum :
      Total
        (Counted dataset firm f.client_id f.vendor_identity)
        (λ (p : Payment). p.amount_cents)
        payments
        f.reportable_cents
  pub withholding :
      Total
        (Paid dataset firm f.client_id f.vendor_identity)
        (λ (p : Payment). p.backup_withholding_cents)
        payments
        f.withholding_cents
  pub tin : f.recipient_tin ≡ tin_of f.vendor_identity
  pub reason :
      f.preflight_reason ≡ preflight_reason f.vendor_identity f.recipient_tin f.reportable_cents
  pub settled : (f.state ≡ ready) ⊎ (f.state ≡ blocked_preflight)
  pub when_ready : is_ready f.state ≡ is_none f.preflight_reason
  pub no_answer : (f.irs_record_id ≡ none) × (f.rejection_reason ≡ none)

-- The sums of a vendor of a client, and how many of the filings are for it.
pub record OneWhereDue (dataset : ℕ) (firm client vendor : String) (payments : List Payment)
    (new : List Filing) : Type 0 where
  pub earned : ℤ
  pub held : ℤ
  pub earned_is :
      Total (Counted dataset firm client vendor) (λ (p : Payment). p.amount_cents) payments earned
  pub held_is :
      Total
        (Paid dataset firm client vendor)
        (λ (p : Payment). p.backup_withholding_cents)
        payments
        held
  pub count :
      count_where (is_for (client, vendor)) new
      ≡ (if leb_ℤ (pos 60000) earned || ltb_ℤ (pos 0) held then 1 else 0)

-- What a new determination adds to the tables.
pub record Determined (sha256 : Bytes → Bytes) (utf8 : String → Bytes) (decimal : ℕ → Bytes)
    (command : DetermineDatasetCommand) (db : Db) (r : DeterminationResult) (db' : Db)
    : Type 0 where
  pub dataset : Dataset
  pub known : In dataset db.datasets
  pub named : (dataset.id ≡ command.dataset_id) × (dataset.firm_id ≡ command.firm_id)
  pub new : List Filing
  pub filings : db'.filings ≡ db.filings ++ new
  pub batches : db'.submission_batches ≡ db.submission_batches
  pub determination :
      db'.determinations
      ≡ record {
        id = r.determination_id;
        dataset_id = command.dataset_id;
        firm_id = command.firm_id;
        ruleset_version = command.ruleset_version;
      }
        ∷ db.determinations
  pub one_each :
      (client vendor : String)
      → OneWhereDue command.dataset_id command.firm_id client vendor db.payments new
  pub filed :
      All
        (FiledOf sha256 utf8 decimal command.dataset_id r.determination_id command.firm_id
          dataset.tax_year db.payments)
        new
  pub ready_count : r.ready_count ≡ count_where (λ (f : Filing). is_none f.preflight_reason) new
  pub all_counted : r.ready_count + r.blocked_count ≡ length new

only_paid :
    (seen due : Bool)
    → (seen ≡ false → due ≡ false)
    → ◌≡◌ {A = ℕ} (if due then if seen then 1 else 0 else 0) (if due then 1 else 0)
only_paid true due h = refl
only_paid false due h = rw (h refl) refl

positive_is : (z : ℤ) → is_positive z ≡ ltb_ℤ (pos 0) z
positive_is (pos n) = ground arith
positive_is (negsuc n) = ground arith

module _ (sha256 : Bytes → Bytes) (utf8 : String → Bytes) (decimal : ℕ → Bytes)
    (text_before : String → String → Bool) (dataset determination : ℕ) (firm : String)
    (tax_year : ℕ) (payments : List Payment) where
  abbrev paid : List Payment
  paid = classified dataset firm payments

  abbrev Fits : Filing → Type 0
  Fits = FiledOf sha256 utf8 decimal dataset determination firm tax_year payments

  abbrev rows_from : ℕ → List Vendor → List Filing
  rows_from id vs =
      filings_of_vendors sha256 utf8 decimal text_before id determination firm tax_year paid vs

  filing_of-FiledOf :
      (id : ℕ) (v : Vendor)
      → Fits (filing_of sha256 utf8 decimal text_before id determination firm tax_year paid v)
  unfolding filing_of state_of
  filing_of-FiledOf id (client, vendor) = record {
    of_firm = refl;
    of_determination = refl;
    of_year = refl;
    key = sql_filing_key-filing_key sha256 utf8 decimal text_before firm client tax_year vendor;
    sum = reportable-Total dataset firm client vendor payments;
    withholding = withheld-Total dataset firm client vendor payments;
    tin = refl;
    no_answer = (refl, refl);
    reason = refl;
    settled =
        elim (Option-cases
          (preflight_reason vendor (tin_of vendor) (reportable (client, vendor) paid))) [
            | inl e ↦ rw e (inl refl)
            | inr (r, e) ↦ rw e (inr refl)
          ];
    when_ready =
        elim (Option-cases
          (preflight_reason vendor (tin_of vendor) (reportable (client, vendor) paid))) [
            | inl e ↦ rw e refl
            | inr (r, e) ↦ rw e refl
          ];
  }

  rows-FiledOf : (id : ℕ) (vs : List Vendor) → All Fits (rows_from id vs)
  unfolding filings_of_vendors
  rows-FiledOf id [] = tt
  rows-FiledOf id (v ∷ vs) = (filing_of-FiledOf id v, rows-FiledOf (suc id) vs)

  count-rows :
      (v : Vendor) (id : ℕ) (vs : List Vendor)
      → count_where (is_for v) (rows_from id vs) ≡ count_where (same_vendor v) vs
  unfolding filings_of_vendors filing_of
  count-rows v id [] = refl
  count-rows v id ((c, w) ∷ vs) =
      ap (λ n. (if same_vendor v (c, w) then 1 else 0) + n) (count-rows v (suc id) vs)

  one_where_due :
      (id : ℕ) (client vendor : String)
      → OneWhereDue dataset firm client vendor payments
          (rows_from id (select_where (qualifies paid) (vendors [] paid)))
  one_where_due id client vendor =
      let v : Vendor = (client, vendor) in
      let counted =
        count-rows v id (select_where (qualifies paid) (vendors [] paid))
        ∙ count-select (qualifies paid) v (vendors [] paid)
        ∙ ap (λ n. if qualifies paid v then n else 0) (count-vendors v [] paid) in
      let due = qualifies-threshold v paid in
      record {
        earned = reportable v paid;
        held = withheld v paid;
        earned_is = reportable-Total dataset firm client vendor payments;
        held_is = withheld-Total dataset firm client vendor payments;
        count =
            rw (sym (positive_is (withheld v paid)), sym due)
              (counted
                ∙ only_paid (seen_before v paid) (qualifies paid v) (unseen-qualifies v paid));
      }

module _ (Fits : Filing → Type 0)
    (fit : (f : Filing) → Fits f → is_ready f.state ≡ is_none f.preflight_reason)
    (settled : (f : Filing) → Fits f → (f.state ≡ ready) ⊎ (f.state ≡ blocked_preflight)) where
  count_ready :
      (fs : List Filing)
      → All Fits fs
      → count_state is_ready fs ≡ count_where (λ (f : Filing). is_none f.preflight_reason) fs
  unfolding count_state
  count_ready [] h = refl
  count_ready (f ∷ fs) h =
      rw (fit f h.0)
        (ap (λ n. (if is_none f.preflight_reason then 1 else 0) + n) (count_ready fs h.1))

  count_settled :
      (fs : List Filing)
      → All Fits fs
      → count_state is_ready fs + count_state is_blocked fs ≡ length fs
  unfolding count_state is_blocked
  count_settled [] h = omega arith
  count_settled (f ∷ fs) h =
      let rest = count_settled fs h.1 in
      elim (settled f h.0) [
        | inl e ↦ rw e (omega (arith, rest))
        | inr e ↦ rw e (omega (arith, rest))
      ]

found_in :
    (test : Dataset → Bool) (ds : List Dataset) (d : Dataset)
    → find_where test ds ≡ some d
    → In d ds × (test d ≡ true)
found_in test [] d h = absurd (cc h)
found_in test (x ∷ xs) d h = elim (Bool-cases (test x)) [
  | inl e ↦ let same : x ≡ d = cc (h, e) in (inl (sym same), cc (e, same))
  | inr e ↦ let (i, f) = found_in test xs d (cc (h, e)) in (inr i, f)
]

module _ (sha256 : Bytes → Bytes) (utf8 : String → Bytes) (decimal : ℕ → Bytes)
    (text_before : String → String → Bool) (next_id next_filing : ℕ)
    (command : DetermineDatasetCommand) (db db' : Db) (r : DeterminationResult) where
  insert_filings-Determined :
      (dataset : Dataset)
      → In dataset db.datasets
      → (dataset.id ≡ command.dataset_id) × (dataset.firm_id ≡ command.firm_id)
      → insert_filings sha256 utf8 decimal text_before next_id next_filing command dataset db
        ≡ ok (r, db')
      → Determined sha256 utf8 decimal command db r db'
  unfolding insert_filings result_of
  insert_filings-Determined dataset known named h =
      let ps = classified command.dataset_id command.firm_id db.payments in
      let vs = select_where (qualifies ps) (vendors [] ps) in
      let rows =
        rows_from sha256 utf8 decimal text_before command.dataset_id next_id command.firm_id
          dataset.tax_year db.payments next_filing vs in
      let filed =
        rows-FiledOf sha256 utf8 decimal text_before command.dataset_id next_id command.firm_id
          dataset.tax_year db.payments next_filing vs in
      let ready_of =
        count_ready _ (λ f fits. fits.when_ready) (λ f fits. fits.settled) rows filed in
      let all_of_them =
        count_settled _ (λ f fits. fits.when_ready) (λ f fits. fits.settled) rows filed in
      elim (Bool-cases (is_some (find_where (overflows ps) vs))) [
        | inl e ↦ absurd (cc (h, e))
        | inr e ↦ elim (Bool-cases (violates_filings_uk db.filings rows)) [
          | inl f ↦ absurd (cc (h, e, f))
          | inr f ↦
              let result : result_of next_id false rows ≡ r = cc (h, e, f) in
              let id : next_id ≡ r.determination_id =
                ap (λ (x : DeterminationResult). x.determination_id) result in
              let stored : db'.determinations
                  ≡ record {
                    id = next_id;
                    dataset_id = command.dataset_id;
                    firm_id = command.firm_id;
                    ruleset_version = command.ruleset_version;
                  }
                    ∷ db.determinations =
                cc (h, e, f) in
              record {
                dataset = dataset;
                known = known;
                named = named;
                new = rows;
                filings = cc (h, e, f);
                batches = cc (h, e, f);
                determination = rw (sym id) stored;
                one_each = λ client vendor.
                    one_where_due sha256 utf8 decimal text_before command.dataset_id next_id
                      command.firm_id dataset.tax_year db.payments next_filing client vendor;
                filed =
                    subst
                      (λ n.
                        All
                          (FiledOf sha256 utf8 decimal command.dataset_id n command.firm_id
                            dataset.tax_year db.payments)
                          rows)
                      id filed;
                ready_count = cc (result, ready_of);
                all_counted = cc (result, all_of_them);
              }
        ]
      ]

  named_dataset :
      (d : Dataset)
      → is_dataset sha256 utf8 decimal text_before command d ≡ true
      → (d.id ≡ command.dataset_id) × (d.firm_id ≡ command.firm_id)
  unfolding is_dataset
  named_dataset d h = (ground (arith, h), (eq_iff d.firm_id command.firm_id).0 (ground (arith, h)))

  determine_body-Determined :
      determine_body sha256 utf8 decimal text_before next_id next_filing command db ≡ ok (r, db')
      → r.existing ≡ false
      → Determined sha256 utf8 decimal command db r db'
  unfolding determine_body of_determination of_dataset result_of
  determine_body-Determined h new =
      elim (Option-cases (find_where (is_determination command) db.determinations)) [
        | inr (d, e) ↦ absurd (cc (h, e, new))
        | inl e ↦
            elim (Option-cases
              (find_where (is_dataset sha256 utf8 decimal text_before command) db.datasets)) [
                | inl f ↦ absurd (cc (h, e, f))
                | inr (dataset, f) ↦
                    let (i, test) =
                      found_in (is_dataset sha256 utf8 decimal text_before command) db.datasets
                        dataset f in
                    insert_filings-Determined dataset i (named_dataset dataset test) (cc (h, e, f))
              ]
      ]

-- Where DetermineDataset succeeds with a new determination, the dataset is one of the firm, the
-- determination is stored, and the filings and batches that were there stay; for each client and
-- vendor identity one filing is added if its payments in the dataset by check, ach, wire and cash
-- come to 600.00 at least, or all its payments have withholding above 0, and none if not; each new
-- filing is of the firm, the determination and the tax year of the dataset, has the key of
-- filingKey, these two sums, the TIN of the vendor and no answer of the IRS, and is ready exactly
-- where preflight gives no reason against it, else blocked; and the two counts of the result count
-- these filings.
pub determine_dataset-Determined :
    (sha256 : Bytes → Bytes) (utf8 : String → Bytes) (decimal : ℕ → Bytes)
    (text_before : String → String → Bool) (env : Environment) (next_id next_filing : ℕ)
    (command : DetermineDatasetCommand) (db : Db) (r : DeterminationResult)
    → (determine_dataset sha256 utf8 decimal text_before env next_id next_filing command db).0
      ≡ ok r
    → r.existing ≡ false
    → Determined sha256 utf8 decimal command db r
        (determine_dataset sha256 utf8 decimal text_before env next_id next_filing command db).1
unfolding determine_dataset
determine_dataset-Determined sha256 utf8 decimal text_before env next_id next_filing command db r h
      new =
    elim (Bool-cases
      (command.dataset_id == 0 || not (str_eq command.ruleset_version nec_2025_v1))) [
        | inl e ↦ absurd (cc (h, e))
        | inr e ↦
            let body = determine_body sha256 utf8 decimal text_before next_id next_filing command in
            let run : (run_tx env command.firm_id body db).0 ≡ ok r = cc (h, e) in
            rw e (
              determine_body-Determined sha256 utf8 decimal text_before next_id next_filing command
                db _ r (run_tx-ok env command.firm_id body db run) new)
      ]
