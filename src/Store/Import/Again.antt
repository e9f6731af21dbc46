-- ===== src/Store/Import/Again.antt =====
-- postgres/internal/store/import.go, `ImportDataset`: what an import adds, and what another finds.
use soraban.Shared.{
  ℕ, ◌==◌, Bool, true, false, not, ◌&&◌, ◌||◌, String, eq_refl, some, is_some, is_none, List, [],
  ◌∷◌, All, ◌≢◌, ◌++◌, map, length, if◌then◌else◌, find_where, bytes_eq, ◌≡◌, refl, subst, ◌∙◌, inl,
  inr, Bool-cases, Option-cases, arith,
}
use soraban.Lifecycle.{Bytes, conflict, Result, ok, err}
use soraban.Importer.{PaymentRow}
use soraban.Store.Tables.{Dataset, Db}
use soraban.Store.Transaction.{Environment, calm, run_tx, validate_firm_id}
use soraban.Store.Transaction.Laws.{run_tx-ok, run_tx_commits, run_tx_rolls_back}
use soraban.Store.Import.{
  ImportDatasetCommand, DatasetResult, valid_rows, payment_of, insert_dataset, has_content,
  is_of_year, known_dataset, of_year, import_rows, with_hash, import_body, import_dataset,
}

same_number : (n : ℕ) → (n == n) ≡ true
same_number n = ground arith

either :
    {A : Type 0} (a b : Bool) (x y : A)
    → (if not a || not b then y else x) ≡ (if a && b then x else y)
either true true x y = refl
either true false x y = refl
either false b x y = refl

-- No two rows have one number.
abbrev pub Apart : List PaymentRow → Type 0
Apart [] = Unit
Apart (r ∷ rs) = All (λ (q : PaymentRow). q.source_row_number ≢ r.source_row_number) rs × Apart rs

none_alike :
    (r : PaymentRow) (rs : List PaymentRow)
    → is_none (find_where (λ (q : PaymentRow). q.source_row_number == r.source_row_number) rs)
      ≡ true
    → All (λ (q : PaymentRow). q.source_row_number ≢ r.source_row_number) rs
none_alike r [] h = tt
none_alike r (q ∷ qs) h = elim (Bool-cases (q.source_row_number == r.source_row_number)) [
  | inl e ↦ absurd (cc (h, e))
  | inr e ↦ (λ same. absurd (ground (arith, e, same)), none_alike r qs (cc (h, e)))
]

module _ (is_white : ℕ → Bool) (valid_date : String → Bool) where
  valid_rows-Apart : (rs : List PaymentRow) → valid_rows is_white valid_date rs ≡ true → Apart rs
  unfolding valid_rows
  valid_rows-Apart [] h = tt
  valid_rows-Apart (r ∷ rs) h =
      (none_alike r rs (ground (arith, h)), valid_rows-Apart rs (ground (arith, h)))

  -- What an import adds to the tables.
  pub record Imported (command : ImportDatasetCommand) (rows : List PaymentRow) (hash : Bytes)
      (db : Db) (r : DatasetResult) (db' : Db) : Type 0 where
    pub dataset : Dataset
    pub datasets : db'.datasets ≡ dataset ∷ db.datasets
    pub described :
        (dataset.id ≡ r.dataset_id)
        × (dataset.firm_id ≡ command.firm_id)
        × (dataset.tax_year ≡ command.tax_year)
        × (dataset.content_sha256 ≡ hash)
        × (dataset.source_row_count ≡ length rows)
    pub payments :
        db'.payments
        ≡ db.payments ++ map (payment_of is_white valid_date r.dataset_id command.firm_id) rows
    pub filings : db'.filings ≡ db.filings
    pub valid : valid_rows is_white valid_date rows ≡ true
    pub apart : Apart rows

  insert_dataset-Imported :
      (next_id : ℕ) (command : ImportDatasetCommand) (rows : List PaymentRow) (hash : Bytes)
      (db db' : Db) (r : DatasetResult)
      → valid_rows is_white valid_date rows ≡ true
      → insert_dataset is_white valid_date next_id command rows hash db ≡ ok (r, db')
      → Imported command rows hash db r db'
  unfolding insert_dataset
  insert_dataset-Imported next_id command rows hash db db' r valid h =
      elim (Bool-cases
        (is_some (find_where (has_content is_white valid_date command.firm_id hash) db.datasets))) [
          | inl e ↦ absurd (cc (h, e))
          | inr e ↦
              let id : next_id ≡ r.dataset_id = cc (h, e) in
              let added : db'.payments
                  ≡ db.payments
                    ++ map (payment_of is_white valid_date next_id command.firm_id) rows =
                cc (h, e) in
              record {
                dataset = record {
                  id = next_id;
                  firm_id = command.firm_id;
                  tax_year = command.tax_year;
                  content_sha256 = hash;
                  source_row_count = length rows;
                };
                datasets = cc (h, e);
                described = (id, refl, refl, refl, refl);
                payments =
                    subst
                      (λ n.
                        db'.payments
                        ≡ db.payments
                          ++ map (payment_of is_white valid_date n command.firm_id) rows)
                      id added;
                filings = cc (h, e);
                valid = valid;
                apart = valid_rows-Apart rows valid;
              }
        ]

  known_dataset-existing :
      (d : Dataset) (count : ℕ) (hash : Bytes) (db db' : Db) (r : DatasetResult)
      → known_dataset is_white valid_date d count hash db ≡ ok (r, db')
      → r.existing ≡ true
  unfolding known_dataset
  known_dataset-existing d count hash db db' r h =
      elim (Bool-cases (length d.content_sha256 == 32)) [
        | inr e ↦ absurd (cc (h, e))
        | inl e ↦ elim (Bool-cases (bytes_eq d.content_sha256 hash)) [
          | inr f ↦ absurd (cc (h, e, f))
          | inl f ↦ elim (Bool-cases (d.source_row_count == count)) [
            | inr g ↦ absurd (cc (h, e, f, g))
            | inl g ↦ cc (h, e, f, g)
          ]
        ]
      ]

  import_rows-Imported :
      (next_id : ℕ) (command : ImportDatasetCommand) (rows : List PaymentRow) (hash : Bytes)
      (db db' : Db) (r : DatasetResult)
      → import_rows is_white valid_date next_id command rows hash db ≡ ok (r, db')
      → r.existing ≡ false
      → Imported command rows hash db r db'
  unfolding import_rows of_year
  import_rows-Imported next_id command rows hash db db' r h new =
      elim (Bool-cases (length rows == 0)) [
        | inl e ↦ absurd (cc (h, e))
        | inr e ↦ elim (Bool-cases (valid_rows is_white valid_date rows)) [
          | inr f ↦ absurd (cc (h, e, f))
          | inl f ↦
              elim (Option-cases
                (find_where (is_of_year is_white valid_date command) db.datasets)) [
                  | inr (d, g) ↦ absurd (
                      cc (
                        known_dataset-existing d (length rows) hash db db' r (cc (h, e, f, g)),
                        new,
                      ))
                  | inl g ↦
                      insert_dataset-Imported next_id command rows hash db db' r f (cc (h, e, f, g))
                ]
        ]
      ]

  -- The dataset of the same firm and year that a later import finds.
  found_again :
      (command : ImportDatasetCommand) (rows : List PaymentRow) (hash : Bytes) (db db' : Db)
      (r : DatasetResult)
      → (added : Imported command rows hash db r db')
      → find_where (is_of_year is_white valid_date command) db'.datasets ≡ some added.dataset
  unfolding is_of_year
  found_again command rows hash db db' r added =
      let (_, firm, year, _, _) = added.described in
      rw added.datasets
        (rw (firm, year) (rw (eq_refl command.firm_id, same_number command.tax_year) refl))

  again :
      (next_id : ℕ) (command : ImportDatasetCommand) (rows rows' : List PaymentRow)
      (hash hash' : Bytes) (db db' : Db) (r : DatasetResult)
      → (added : Imported command rows hash db r db') → length hash ≡ 32
      → (length rows' == 0) ≡ false
      → valid_rows is_white valid_date rows' ≡ true
      → import_rows is_white valid_date next_id command rows' hash' db' ≡ (
          if bytes_eq hash hash' && length rows == length rows'
          then ok (
            record {
              dataset_id = r.dataset_id;
              content_sha256 = hash;
              row_count = length rows;
              existing = true;
            },
            db',
          )
          else err conflict)
  unfolding import_rows of_year known_dataset
  again next_id command rows rows' hash hash' db db' r added long some_rows valid =
      let (id, _, _, content, count) = added.described in
      rw (some_rows, valid)
        (rw (found_again command rows hash db db' r added) (
          rw (content, count, id)
            (rw long (either (bytes_eq hash hash') (length rows == length rows') _ _))))

  body_of :
      (next_id : ℕ) (command : ImportDatasetCommand) (rows : List PaymentRow) (hash : Bytes)
      (db : Db) {result : Result (DatasetResult × Db)}
      → import_rows is_white valid_date next_id command rows hash db ≡ result
      → import_body is_white valid_date next_id command (ok rows) (ok hash) db ≡ result
  unfolding import_body with_hash
  body_of next_id command rows hash db h = h

  -- The same content is found again, and other content is a conflict.
  abbrev pub answer_again :
      DatasetResult → List PaymentRow → Bytes → List PaymentRow → Bytes → Result DatasetResult
  answer_again r rows hash rows' hash' =
      if bytes_eq hash hash' && length rows == length rows'
      then ok (record {
        dataset_id = r.dataset_id;
        content_sha256 = hash;
        row_count = length rows;
        existing = true;
      })
      else err conflict

  import_again :
      (env : Environment) (next_id : ℕ) (command : ImportDatasetCommand)
      (rows rows' : List PaymentRow) (hash hash' : Bytes) (db db' : Db) (r : DatasetResult)
      → Imported command rows hash db r db'
      → (command.tax_year == 2025) ≡ true
      → validate_firm_id command.firm_id ≡ true
      → env.trouble ≡ calm
      → length hash ≡ 32
      → (length rows' == 0) ≡ false
      → valid_rows is_white valid_date rows' ≡ true
      → import_dataset is_white valid_date env next_id command (ok rows') (ok hash') db'
        ≡ (answer_again r rows hash rows' hash', db')
  unfolding import_dataset
  import_again env next_id command rows rows' hash hash' db db' r added year firm quiet long
        some_rows valid =
      let body = import_body is_white valid_date next_id command (ok rows') (ok hash') in
      let answer =
        again next_id command rows rows' hash hash' db db' r added long some_rows valid in
      rw year (elim (Bool-cases (bytes_eq hash hash' && length rows == length rows')) [
        | inl e ↦ rw e (
            run_tx_commits env command.firm_id body db' db' _ firm quiet
              (body_of next_id command rows' hash' db' (answer ∙ rw e refl)))
        | inr e ↦ rw e (
            run_tx_rolls_back env command.firm_id body db' conflict firm quiet
              (body_of next_id command rows' hash' db' (answer ∙ rw e refl)))
      ])

  first_import :
      (env : Environment) (next_id : ℕ) (command : ImportDatasetCommand) (rows : List PaymentRow)
      (hash : Bytes) (db : Db) (r : DatasetResult)
      → (import_dataset is_white valid_date env next_id command (ok rows) (ok hash) db).0 ≡ ok r
      → r.existing ≡ false
      → ((command.tax_year == 2025) ≡ true)
        × Imported command rows hash db r
            (import_dataset is_white valid_date env next_id command (ok rows) (ok hash) db).1
  unfolding import_dataset import_body with_hash
  first_import env next_id command rows hash db r h new =
      elim (Bool-cases (command.tax_year == 2025)) [
        | inr e ↦ absurd (cc (h, e))
        | inl e ↦
            let body = import_body is_white valid_date next_id command (ok rows) (ok hash) in
            let run : (run_tx env command.firm_id body db).0 ≡ ok r = cc (h, e) in
            (
              e,
              rw e (
                  import_rows-Imported next_id command rows hash db _ r
                    (run_tx-ok env command.firm_id body db run) new),
            )
      ]

-- Where ImportDataset succeeds with a new dataset, it adds that dataset and one payment for each
-- row, all of which are valid and no two of which have one number, and leaves the filings as they
-- were; when rows that are not empty and all valid are imported again for the same firm and year,
-- in a calm environment and where the first hash has 32 bytes, those of the same hash and number
-- are found as the existing dataset, others are a conflict, and either way nothing changes.
pub import_dataset_again :
    (is_white : ℕ → Bool) (valid_date : String → Bool) (env env' : Environment)
    (next_id next_id' : ℕ) (command : ImportDatasetCommand) (rows rows' : List PaymentRow)
    (hash hash' : Bytes) (db : Db) (r : DatasetResult)
    → (import_dataset is_white valid_date env next_id command (ok rows) (ok hash) db).0 ≡ ok r
    → r.existing ≡ false
    → validate_firm_id command.firm_id ≡ true
    → env'.trouble ≡ calm
    → length hash ≡ 32
    → (length rows' == 0) ≡ false
    → valid_rows is_white valid_date rows' ≡ true
    → Imported is_white valid_date command rows hash db r
        (import_dataset is_white valid_date env next_id command (ok rows) (ok hash) db).1
      × (import_dataset is_white valid_date env' next_id' command
            (ok rows')
            (ok hash')
            (import_dataset is_white valid_date env next_id command (ok rows) (ok hash) db).1
          ≡ (
            answer_again is_white valid_date r rows hash rows' hash',
            (import_dataset is_white valid_date env next_id command (ok rows) (ok hash) db).1,
          ))
import_dataset_again is_white valid_date env env' next_id next_id' command rows rows' hash hash' db
      r h new firm quiet long some_rows valid =
    let (year, added) = first_import is_white valid_date env next_id command rows hash db r h new in
    (
      added,
      import_again is_white valid_date env' next_id' command rows rows' hash hash' db _ r added year
          firm quiet long some_rows valid,
    )
