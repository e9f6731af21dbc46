-- ===== src/Store/Exceptions/Attention.antt =====
-- postgres/internal/store/status.go: a client has exceptions where its status says that it needs
-- attention.
use soraban.Shared.{
  ℕ, suc, ◌+◌, ◌≤◌, Bool, false, ◌&&◌, ◌||◌, String, str_eq, Option, none, some, List, [], ◌∷◌,
  ◌++◌, map, ◌≡◌, refl, sym, ◌∙◌, ◌↔◌, arith, Bool-cases, inl, inr, length, count_where,
  select_where,
}
use soraban.Lifecycle.{ok}
use soraban.Store.Tables.{Filing, blocked_preflight, rejected, Batch, Client, Db}
use soraban.Store.Transaction.{Environment}
use soraban.Store.Transaction.Laws.{run_tx-ok}
use soraban.Store.Status.{
  is_filing_in, is_bad, is_failed, is_overdue, of_client, batches_of, facts_of,
}
use soraban.Store.Status.Laws.{count_bool_or, exists_bool_or}
use soraban.Store.Exceptions.{
  ExceptionsQuery, ExceptionItem, ExceptionGroup, ExceptionRow, Scanned, blocked_row, rejected_row,
  failed_row, overdue_row, filing_item, batch_item, filing_of_firm, batch_of_firm, is_queried,
  exception_rows, cons_scanned, scan_rows, add_item, group_rows, insert_exception, order_rows,
  insert_group, order_groups, groups_of, exceptions_body, exceptions,
}

select-append :
    (p : ExceptionRow → Bool) (xs ys : List ExceptionRow)
    → length (select_where p (xs ++ ys)) ≡ length (select_where p xs) + length (select_where p ys)
select-append p [] ys = omega arith
select-append p (x ∷ xs) ys = let rest = select-append p xs ys in ground (arith, rest)

-- The rows of one part of the UNION that are asked for.
length-part :
    {A : Type 0} (test : A → Bool) (row : A → ExceptionRow) (asked : ExceptionRow → Bool)
    (wanted : A → Bool)
    → ((x : A) → (test x && asked (row x)) ≡ wanted x)
    → (xs : List A)
    → length (select_where asked (map row (select_where test xs))) ≡ count_where wanted xs
length-part test row asked wanted h [] = refl
length-part test row asked wanted h (x ∷ xs) =
    let rest = length-part test row asked wanted h xs in
    let here = h x in
    elim (Bool-cases (test x)) [
      | inl e ↦ rw e (ground (arith, rest, here, e))
      | inr e ↦ rw e (ground (arith, rest, here, e))
    ]

count-select :
    {A : Type 0} (own p : A → Bool) (xs : List A)
    → count_where p (select_where own xs) ≡ count_where (λ x. own x && p x) xs
count-select own p [] = refl
count-select own p (x ∷ xs) = let rest = count-select own p xs in ground (arith, rest)

-- Of two tests one holds as often as they hold apart, or once for both.
count-either :
    {A : Type 0} (own p q : A → Bool) (xs : List A)
    → (count_where (λ x. own x && (p x || q x)) xs
        ≤ count_where (λ x. own x && p x) xs + count_where (λ x. own x && q x) xs)
      × (count_where (λ x. own x && p x) xs ≤ count_where (λ x. own x && (p x || q x)) xs)
      × (count_where (λ x. own x && q x) xs ≤ count_where (λ x. own x && (p x || q x)) xs)
count-either own p q [] = (omega arith, omega arith, omega arith)
count-either own p q (x ∷ xs) =
    let (a, b, c) = count-either own p q xs in
    (ground (arith, a), ground (arith, b), ground (arith, c))

length-cons_scanned :
    (t : Option String) (item : ExceptionItem) (rest : Option (List Scanned)) (rows : List Scanned)
    (n : ℕ)
    → ((tail : List Scanned) → rest ≡ some tail → length tail ≡ n)
    → cons_scanned t item rest ≡ some rows
    → length rows ≡ suc n
unfolding cons_scanned
length-cons_scanned (some t) item (some tail) rows n h k =
    let same : (t, item) ∷ tail ≡ rows = cc k in rw (sym same) (omega (arith, h tail refl))
length-cons_scanned (some t) item none rows n h k = absurd (cc k)
length-cons_scanned none item rest rows n h k = absurd (cc k)

length-scan_rows :
    (rs : List ExceptionRow) (rows : List Scanned)
    → scan_rows rs ≡ some rows
    → length rows ≡ length rs
unfolding scan_rows
length-scan_rows [] rows h = let same : [] ≡ rows = cc h in rw (sym same) refl
length-scan_rows (r ∷ rs) rows h =
    length-cons_scanned r.exception_type r.item (scan_rows rs) rows (length rs)
      (λ tail e. length-scan_rows rs tail e) h

length-add_item :
    (r : Scanned) (gs : List ExceptionGroup)
    → (1 ≤ length (add_item r gs)) × (length gs ≤ length (add_item r gs))
unfolding add_item
length-add_item (t, item) [] = (omega arith, omega arith)
length-add_item (t, item) (g ∷ gs) =
    let (a, b) = length-add_item (t, item) gs in (ground arith, ground (arith, b))

length-group_rows :
    (rs : List Scanned) (gs : List ExceptionGroup) → length gs ≤ length (group_rows gs rs)
unfolding group_rows
length-group_rows [] gs = omega arith
length-group_rows (r ∷ rs) gs =
    let rest = length-group_rows rs (add_item r gs) in omega (arith, rest, (length-add_item r gs).1)

group_rows-none : (rs : List Scanned) → (length (group_rows [] rs) ≡ 0) ↔ (length rs ≡ 0)
unfolding group_rows
group_rows-none [] = (λ h. refl, λ h. refl)
group_rows-none (r ∷ rs) = (
  λ h. absurd (omega (arith, h, length-group_rows rs (add_item r []), (length-add_item r []).0)),
  λ h. absurd (omega (arith, h)),
)

module _ (row_before : ExceptionRow → ExceptionRow → Bool)
    (type_before : String → String → Bool) where
  length-insert_exception :
      (r : ExceptionRow) (rs : List ExceptionRow)
      → length (insert_exception row_before type_before r rs) ≡ suc (length rs)
  unfolding insert_exception
  length-insert_exception r [] = refl
  length-insert_exception r (q ∷ qs) =
      let rest = length-insert_exception r qs in ground (arith, rest)

  length-order_rows :
      (rs : List ExceptionRow) → length (order_rows row_before type_before rs) ≡ length rs
  unfolding order_rows
  length-order_rows [] = refl
  length-order_rows (r ∷ rs) = omega (
    arith,
    length-insert_exception r (order_rows row_before type_before rs),
    length-order_rows rs,
  )

  length-insert_group :
      (g : ExceptionGroup) (gs : List ExceptionGroup)
      → length (insert_group row_before type_before g gs) ≡ suc (length gs)
  unfolding insert_group
  length-insert_group g [] = refl
  length-insert_group g (h ∷ hs) = let rest = length-insert_group g hs in ground (arith, rest)

  length-order_groups :
      (gs : List ExceptionGroup) → length (order_groups row_before type_before gs) ≡ length gs
  unfolding order_groups
  length-order_groups [] = refl
  length-order_groups (g ∷ gs) = omega (
    arith,
    length-insert_group g (order_groups row_before type_before gs),
    length-order_groups gs,
  )

-- The rows that the query gives for a client, counted.
abbrev own_filing : String → Client → (Filing → Bool) → Filing → Bool
own_filing firm c test f = of_client firm c.id f && test f

abbrev own_batch : String → Client → (Batch → Bool) → Batch → Bool
own_batch firm c test b = (str_eq b.firm_id firm && str_eq b.client_id c.id) && test b

length-exception_rows :
    (now : ℕ) (firm : String) (c : Client) (db : Db)
    → str_eq c.id "" ≡ false
    → length (select_where (is_queried c.id) (exception_rows now firm db))
      ≡ count_where (own_filing firm c (is_filing_in blocked_preflight)) db.filings
        + (count_where (own_filing firm c (is_filing_in rejected)) db.filings
            + (count_where (own_batch firm c is_failed) db.submission_batches
                + count_where (own_batch firm c (is_overdue now)) db.submission_batches))
unfolding exception_rows blocked_row rejected_row failed_row overdue_row filing_item batch_item
length-exception_rows now firm c db named =
    let asked = is_queried c.id in
    let blocked =
      length-part (filing_of_firm firm (is_filing_in blocked_preflight)) blocked_row asked
        (own_filing firm c (is_filing_in blocked_preflight)) (λ f. ground (arith, named))
        db.filings in
    let refused =
      length-part (filing_of_firm firm (is_filing_in rejected)) (rejected_row db.batch_filings)
        asked (own_filing firm c (is_filing_in rejected)) (λ f. ground (arith, named)) db.filings in
    let failed =
      length-part (batch_of_firm firm is_failed) failed_row asked (own_batch firm c is_failed)
        (λ b. ground (arith, named)) db.submission_batches in
    let overdue =
      length-part (batch_of_firm firm (is_overdue now)) overdue_row asked
        (own_batch firm c (is_overdue now)) (λ b. ground (arith, named)) db.submission_batches in
    rw (select-append asked (map blocked_row (select_where _ db.filings)) _) (
      rw (select-append asked (map (rejected_row db.batch_filings) (select_where _ db.filings)) _) (
        rw (select-append asked (map failed_row (select_where _ db.submission_batches)) _)
          (omega (arith, blocked, refused, failed, overdue))))

-- The status needs attention where one of the four counts is not 0.
attention-counts :
    (now : ℕ) (firm : String) (c : Client) (db : Db)
    → ((facts_of now firm db c).attention ≡ false) ↔ (
        count_where (own_filing firm c (is_filing_in blocked_preflight)) db.filings
          + (count_where (own_filing firm c (is_filing_in rejected)) db.filings
              + (count_where (own_batch firm c is_failed) db.submission_batches
                  + count_where (own_batch firm c (is_overdue now)) db.submission_batches))
        ≡ 0)
unfolding facts_of
attention-counts now firm c db =
    let bs = batches_of firm c db in
    let own = λ (b : Batch). str_eq b.firm_id firm && str_eq b.client_id c.id in
    let failed = exists_bool_or is_failed bs ∙ sym (count_bool_or is_failed bs) in
    let overdue = exists_bool_or (is_overdue now) bs ∙ sym (count_bool_or (is_overdue now) bs) in
    let bad_count = count-select (of_client firm c.id) is_bad db.filings in
    let failed_count = count-select own is_failed db.submission_batches in
    let overdue_count = count-select own (is_overdue now) db.submission_batches in
    let (either, first, second) =
      count-either (of_client firm c.id) (is_filing_in blocked_preflight) (is_filing_in rejected)
        db.filings in
    rw (failed, overdue)
      (rw (bad_count, failed_count, overdue_count)
        (
          λ h. ground (arith, h, either, first, second),
          λ h. ground (arith, h, either, first, second),
        ))

module _ (row_before : ExceptionRow → ExceptionRow → Bool)
    (type_before : String → String → Bool) where
  groups_of-none :
      (rs : List ExceptionRow) (scanned : Option (List Scanned)) (db : Db)
      (result : List ExceptionGroup × Db)
      → scan_rows rs ≡ scanned
      → groups_of row_before type_before scanned db ≡ ok result
      → (length result.0 ≡ 0) ↔ (length rs ≡ 0)
  unfolding groups_of
  groups_of-none rs none db result e h = absurd (cc h)
  groups_of-none rs (some rows) db result e h =
      let same : (order_groups row_before type_before (group_rows [] rows), db) ≡ result = cc h in
      let size = length-order_groups row_before type_before (group_rows [] rows) in
      let scanned = length-scan_rows rs rows e in
      let (to, from) = group_rows-none rows in
      rw (sym same) (
        λ k. omega (arith, scanned, to (omega (arith, k, size))),
        λ k. omega (arith, size, from (omega (arith, k, scanned))),
      )

  -- Where Exceptions succeeds for a client with a name, it lists no group exactly if the status of
  -- that client at the same instant does not need attention.
  pub exceptions-Attention :
      (env : Environment) (firm : String) (c : Client) (db : Db) (groups : List ExceptionGroup)
      → str_eq c.id "" ≡ false
      → (exceptions row_before type_before env (record { firm_id = firm; client_id = c.id }) db).0
        ≡ ok groups
      → (length groups ≡ 0) ↔ ((facts_of env.now firm db c).attention ≡ false)
  unfolding exceptions exceptions_body
  exceptions-Attention env firm c db groups named h =
      let query : ExceptionsQuery = record { firm_id = firm; client_id = c.id } in
      let body = exceptions_body row_before type_before env.now query in
      let done = run_tx-ok env firm body db h in
      let selected = select_where (is_queried c.id) (exception_rows env.now firm db) in
      let rows = order_rows row_before type_before selected in
      let (to, from) = groups_of-none rows (scan_rows rows) db _ refl done in
      let sorted = length-order_rows row_before type_before selected in
      let counted = length-exception_rows env.now firm c db named in
      let (calm, quiet) = attention-counts env.now firm c db in
      (
        λ k. quiet (omega (arith, to k, sorted, counted)),
        λ k. from (omega (arith, calm k, sorted, counted)),
      )
