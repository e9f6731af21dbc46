-- ===== src/Store/Determination/Explaining/Agreement.antt =====
-- postgres/internal/store/determination.go: `PaymentExplanation` adds up to what `DetermineDataset`
-- files.
use soraban.Shared.{
  ℕ, ◌==◌, ◌||◌, str_eq, Bool, true, false, leb, String, some, List, [], ◌∷◌, map, if◌then◌else◌,
  select_where, find_where, ◌≡◌, refl, ap, ◌∙◌, sym, Bool-cases, inl, inr, arith,
}
use soraban.Shared.Int.{ℤ, pos, negsuc, ◌+ℤ◌, wrap_int64}
use soraban.Shared.Int.Laws.{add_comm, add_assoc, add_zero, wrap_int64-add, wrap_int64-fits}
use soraban.Lifecycle.{Bytes, ok}
use soraban.Store.Transaction.{Environment, run_tx}
use soraban.Store.Transaction.Laws.{run_tx-ok}
use soraban.Store.Tables.{Payment, Determination, Filing, Db}
use soraban.Store.Determination.{
  Vendor, is_of, sum_where, reportable, withheld, classified, fits_bigint, filing_of,
}
use soraban.Store.Determination.Explaining.{
  PaymentExplanationQuery, PaymentExplanation, ExplainedPayment, explained, insert_row,
  ordered_rows, rows_of, gather_payments, no_payments, of_rows, explanation_body, is_asked,
  payment_explanation,
}

module _ (test : ExplainedPayment → Bool) (column : ExplainedPayment → ℤ) where
  added : ExplainedPayment → ℤ → ℤ
  added p z = if test p then column p +ℤ z else z

  total : List ExplainedPayment → ℤ
  total [] = pos 0
  total (p ∷ ps) = added p (total ps)

  added_comm : (p q : ExplainedPayment) (z : ℤ) → added p (added q z) ≡ added q (added p z)
  unfolding added
  added_comm p q z = elim (Bool-cases (test p)) [
    | inr e ↦ rw e refl
    | inl e ↦ elim (Bool-cases (test q)) [
      | inr f ↦ rw (e, f) refl
      | inl f ↦
          rw (e, f)
            (sym (add_assoc (column p) (column q) z)
              ∙ ap (λ y. y +ℤ z) (add_comm (column p) (column q))
              ∙ add_assoc (column q) (column p) z)
    ]
  ]

  total-insert_row :
      (p : ExplainedPayment) (ps : List ExplainedPayment)
      → total (insert_row p ps) ≡ added p (total ps)
  unfolding total insert_row
  total-insert_row p [] = refl
  total-insert_row p (q ∷ qs) = elim (Bool-cases (leb p.source_row_number q.source_row_number)) [
    | inl e ↦ rw e refl
    | inr e ↦ rw (e, total-insert_row p qs) (added_comm q p (total qs))
  ]

  total-ordered_rows : (ps : List ExplainedPayment) → total (ordered_rows ps) ≡ total ps
  unfolding total ordered_rows
  total-ordered_rows [] = refl
  total-ordered_rows (p ∷ ps) =
      total-insert_row p (ordered_rows ps) ∙ ap (added p) (total-ordered_rows ps)

  -- A running int64 sum is the sum, wrapped once.
  added_wrap :
      (x z : ℤ) (p : ExplainedPayment)
      → wrap_int64 ((if test p then x +ℤ column p else x) +ℤ z) ≡ wrap_int64 (x +ℤ added p z)
  unfolding added
  added_wrap x z p = elim (Bool-cases (test p)) [
    | inl e ↦ rw e (ap wrap_int64 (add_assoc x (column p) z))
    | inr e ↦ rw e refl
  ]

abbrev by_count : ExplainedPayment → Bool
by_count p = p.counted

abbrev amount : ExplainedPayment → ℤ
amount p = p.amount_cents

abbrev always : ExplainedPayment → Bool
always p = true

abbrev withholding : ExplainedPayment → ℤ
withholding p = p.withholding_cents

zero_add : (x : ℤ) → x +ℤ pos 0 ≡ x
zero_add x = add_comm x (pos 0) ∙ add_zero x

start : pos 0 ≡ wrap_int64 (pos 0)
unfolding wrap_int64
start = refl

counted_step :
    (counted : Bool) (sum x amount : ℤ)
    → sum ≡ wrap_int64 x
    → (if counted then wrap_int64 (sum +ℤ amount) else sum)
      ≡ wrap_int64 (if counted then x +ℤ amount else x)
counted_step true sum x amount h = rw h (wrap_int64-add x amount)
counted_step false sum x amount h = h

gather-totals :
    (ps : List ExplainedPayment) (s : PaymentExplanation) (x y : ℤ)
    → s.reportable_cents ≡ wrap_int64 x
    → s.withholding_cents ≡ wrap_int64 y
    → ((gather_payments s ps).reportable_cents ≡ wrap_int64 (x +ℤ total by_count amount ps))
      × ((gather_payments s ps).withholding_cents ≡ wrap_int64 (y +ℤ total always withholding ps))
unfolding gather_payments total
gather-totals [] s x y a b =
    (a ∙ ap wrap_int64 (sym (zero_add x)), b ∙ ap wrap_int64 (sym (zero_add y)))
gather-totals (p ∷ ps) s x y a b =
    let (c, d) =
      gather-totals ps _ (if p.counted then x +ℤ p.amount_cents else x) (y +ℤ p.withholding_cents)
        (counted_step p.counted s.reportable_cents x p.amount_cents a)
        (rw b (wrap_int64-add y p.withholding_cents)) in
    (
      c ∙ added_wrap by_count amount x (total by_count amount ps) p,
      d ∙ added_wrap always withholding y (total always withholding ps) p,
    )

total-reportable :
    (v : Vendor) (ps : List Payment)
    → total by_count amount (map explained (select_where (is_of v) ps)) ≡ reportable v ps
unfolding total sum_where explained added
total-reportable v [] = refl
total-reportable v (p ∷ ps) = ground (arith, total-reportable v ps)

total-withheld :
    (v : Vendor) (ps : List Payment)
    → total always withholding (map explained (select_where (is_of v) ps)) ≡ withheld v ps
unfolding total sum_where explained added
total-withheld v [] = refl
total-withheld v (p ∷ ps) = ground (arith, total-withheld v ps)

-- What the explanation of a vendor's payments has to say of its filing.
pub Explains : Filing → PaymentExplanation → Type 0
Explains f x =
    (x.reportable_cents ≡ f.reportable_cents) × (x.withholding_cents ≡ f.withholding_cents)

fits_same : (z w : ℤ) → w ≡ wrap_int64 z → fits_bigint z ≡ true → w ≡ z
unfolding fits_bigint
fits_same (pos n) w e h = e ∙ wrap_int64-fits (pos n) (ground (arith, h)) (omega arith)
fits_same (negsuc n) w e h = e ∙ wrap_int64-fits (negsuc n) (omega arith) (ground (arith, h))

rows-Explains :
    (v : Vendor) (ps : List Payment)
    → fits_bigint (reportable v ps) ≡ true
    → fits_bigint (withheld v ps) ≡ true
    → ((gather_payments no_payments
          (ordered_rows (map explained (select_where (is_of v) ps)))).reportable_cents
        ≡ reportable v ps)
      × ((gather_payments no_payments
            (ordered_rows (map explained (select_where (is_of v) ps)))).withholding_cents
          ≡ withheld v ps)
unfolding no_payments
rows-Explains v ps h k =
    let rows = map explained (select_where (is_of v) ps) in
    let (a, b) = gather-totals (ordered_rows rows) no_payments (pos 0) (pos 0) start start in
    (
      fits_same _ _
          (a
            ∙ ap wrap_int64 (
                add_zero (total by_count amount (ordered_rows rows))
                ∙ total-ordered_rows by_count amount rows
                ∙ total-reportable v ps))
          h,
      fits_same _ _
          (b
            ∙ ap wrap_int64 (
                add_zero (total always withholding (ordered_rows rows))
                ∙ total-ordered_rows always withholding rows
                ∙ total-withheld v ps))
          k,
    )

of_rows-ok :
    (ps : List ExplainedPayment) (db db' : Db) (x : PaymentExplanation)
    → of_rows ps db ≡ ok (x, db')
    → (gather_payments no_payments ps ≡ x) × (db ≡ db')
unfolding of_rows
of_rows-ok [] db db' x h = absurd (cc h)
of_rows-ok (p ∷ ps) db db' x h = (cc h, cc h)

asked_body :
    (env : Environment) (query : PaymentExplanationQuery) (db : Db) (x : PaymentExplanation)
    → (payment_explanation env query db).0 ≡ ok x
    → explanation_body query db ≡ ok (x, (payment_explanation env query db).1)
unfolding payment_explanation
asked_body env query db x h =
    elim (Bool-cases (
      query.determination_id == 0
      || str_eq query.client_id ""
      || str_eq query.vendor_identity "")) [
        | inl e ↦ absurd (cc (h, e))
        | inr e ↦
            let run : (run_tx env query.firm_id (explanation_body query) db).0 ≡ ok x = cc (h, e) in
            rw e (run_tx-ok env query.firm_id (explanation_body query) db run)
      ]

-- Where PaymentExplanation of a determination succeeds, its running int64 sums are the reportable
-- and withheld amounts of the filing that DetermineDataset makes of the same payments, where these
-- fit bigint as its casts ask, and it changes nothing.
pub payment_explanation-Explains :
    (sha256 : Bytes → Bytes) (utf8 : String → Bytes) (decimal : ℕ → Bytes)
    (text_before : String → String → Bool) (env : Environment) (query : PaymentExplanationQuery)
    (db : Db) (d : Determination) (id tax_year : ℕ) (x : PaymentExplanation)
    → find_where (is_asked query) db.determinations ≡ some d
    → fits_bigint (
        reportable
          (query.client_id, query.vendor_identity)
          (classified d.dataset_id query.firm_id db.payments))
      ≡ true
    → fits_bigint (
        withheld
          (query.client_id, query.vendor_identity)
          (classified d.dataset_id query.firm_id db.payments))
      ≡ true
    → (payment_explanation env query db).0 ≡ ok x
    → Explains
        (filing_of sha256 utf8 decimal text_before id d.id query.firm_id tax_year
          (classified d.dataset_id query.firm_id db.payments)
          (query.client_id, query.vendor_identity))
        x
      × (db ≡ (payment_explanation env query db).1)
unfolding Explains filing_of explanation_body rows_of
payment_explanation-Explains sha256 utf8 decimal text_before env query db d id tax_year x found h k
      returned =
    let v : Vendor = (query.client_id, query.vendor_identity) in
    let ps = classified d.dataset_id query.firm_id db.payments in
    let body : of_rows (rows_of query (some d) db.payments) db
        ≡ ok (x, (payment_explanation env query db).1) =
      cc (asked_body env query db x returned, found) in
    let (sums, same) = of_rows-ok (rows_of query (some d) db.payments) db _ x body in
    let (a, b) = rows-Explains v ps h k in ((cc (a, sums), cc (b, sums)), same)
