-- ===== src/Importer/Rows.antt =====
-- service/internal/importer/source.go `Next` and postgres/internal/store/import.go
-- `paymentCopySource`: copying ends, and the rows that are copied are those of the file.
use soraban.Shared.{
  ℕ, suc, ◌+◌, ◌≤◌, ◌<◌, Bool, true, false, ltb, Option, none, some, List, [], ◌∷◌, length, ◌≡◌,
  refl, ap, sym, subst, ◌⊎◌, inl, inr, Bool-cases, arith,
}
use soraban.Lifecycle.{Bytes, Error, canceled, message, Result, ok, err}
use soraban.Importer.{
  PaymentRow, Reading, fields, read_error, Source, Encoding, valid_utf8, payment_row_of,
  checked_row, read_row, next_reading, next_row, source_sha256, copied_after, copied, copy_rows,
  size_of,
}

-- A source that is not closed and not at its end.
abbrev Ready : Source → Type 0
Ready s = (s.closed ≡ false) × (s.exhausted ≡ false)

-- The row is that of a record of eight fields of valid UTF-8, of 1 MiB together at most, and has
-- this number.
pub record RowOf (encoding : Encoding) (number : ℕ) (reading : Reading) (row : PaymentRow)
    : Type 0 where
  pub client : Bytes
  pub name : Bytes
  pub tin : Bytes
  pub date : Bytes
  pub cents : Bytes
  pub method : Bytes
  pub withholding : Bytes
  pub note : Bytes
  pub read :
      reading ≡ fields (client ∷ name ∷ tin ∷ date ∷ cents ∷ method ∷ withholding ∷ note ∷ [])
  pub numbered : row.source_row_number ≡ number
  pub client_id : row.client_id ≡ encoding.text client
  pub vendor_name : row.vendor_name ≡ encoding.text name
  pub vendor_tin : row.vendor_tin ≡ encoding.text tin
  pub payment_date : row.payment_date ≡ encoding.text date
  pub amount : row.amount ≡ encoding.text cents
  pub payment_method : row.payment_method ≡ encoding.text method
  pub backup_withholding : row.backup_withholding ≡ encoding.text withholding
  pub memo : row.memo ≡ encoding.text note
  pub valid :
      valid_utf8 encoding (client ∷ name ∷ tin ∷ date ∷ cents ∷ method ∷ withholding ∷ note ∷ [])
      ≡ true
  pub bounded :
      size_of (client ∷ name ∷ tin ∷ date ∷ cents ∷ method ∷ withholding ∷ note ∷ []) ≤ 1048576

-- A record that is no row: it cannot be read, has not eight fields, or is not valid or too large.
pub Bad : Encoding → Reading → Type 0
Bad encoding read_error = Unit
Bad encoding (fields fs) =
    (length fs ≡ 8 → ⊥) ⊎ ((valid_utf8 encoding fs ≡ false) ⊎ (1048576 < size_of fs))

module _ (encoding : Encoding) (canceled_at : ℕ → Bool) where
  -- The rows are the records, numbered one after another after `number`, and the context was not
  -- canceled.
  pub Numbered : ℕ → List Reading → List PaymentRow → Type 0
  Numbered number [] [] = canceled_at number ≡ false
  Numbered number (r ∷ rs) (row ∷ rows) =
      (canceled_at number ≡ false)
      × RowOf encoding (suc number) r row
      × Numbered (suc number) rs rows
  Numbered number [] (row ∷ rows) = ⊥
  Numbered number (r ∷ rs) [] = ⊥

  -- The context was canceled before a record or the end, or a record is bad.
  pub Failed : ℕ → List Reading → Error → Type 0
  Failed number [] e = (canceled_at number ≡ true) × (e ≡ canceled)
  Failed number (r ∷ rs) e =
      ((canceled_at number ≡ true) × (e ≡ canceled)) ⊎ (Bad encoding r ⊎ Failed (suc number) rs e)

  -- What a copy leaves.
  pub Copied : Source → Result (List PaymentRow) → Source → Type 0
  Copied s (err e) s' =
      Failed s.row_number s.readings e
      × (source_sha256 encoding s' ≡ err (message "decompressed SHA-256 is unavailable before EOF"))
  Copied s (ok rows) s' =
      Numbered s.row_number s.readings rows
      × (s'.row_number ≡ s.row_number + length s.readings)
      × (source_sha256 encoding s' ≡ ok (encoding.sha256 s.content))

  -- Copying ends with a result.
  pub record Ends (s : Source) (rounds : ℕ) : Type 0 where
    pub result : Result (List PaymentRow)
    pub source : Source
    pub run : copy_rows encoding canceled_at rounds s ≡ some (result, source)
    pub copied_well : Copied s result source

  next_canceled : (s : Source) → Ready s → next_row encoding true s ≡ (err canceled, s)
  unfolding next_row
  next_canceled s h = rw (h.0, h.1) refl

  next_end :
      (s : Source)
      → Ready s
      → s.readings ≡ []
      → next_row encoding false s ≡ (ok none, record s { exhausted = true })
  unfolding next_row next_reading
  next_end s h e = rw (h.0, h.1, e) refl

  abbrev advanced : Source → List Reading → Source
  advanced s rs = record s { readings = rs; row_number = suc s.row_number }

  next_more :
      (s : Source) (r : Reading) (rs : List Reading)
      → Ready s
      → s.readings ≡ r ∷ rs
      → next_row encoding false s ≡ (read_row encoding (suc s.row_number) r, advanced s rs)
  unfolding next_row next_reading
  next_more s r rs h e = rw (h.0, h.1, e) refl

  abbrev ReadAs : ℕ → Reading → Result (Option PaymentRow) → Type 0
  ReadAs number r result =
      ((e : Error) × (result ≡ err e) × Bad encoding r)
      ⊎ ((row : PaymentRow) × (result ≡ ok (some row)) × RowOf encoding number r row)

  eight :
      (number : ℕ) (a b c d e f g h : Bytes)
      → let fs = a ∷ b ∷ c ∷ d ∷ e ∷ f ∷ g ∷ h ∷ [] in
        ReadAs number (fields fs) (read_row encoding number (fields fs))
  unfolding read_row checked_row payment_row_of Bad
  eight number a b c d e f g h =
      let fs = a ∷ b ∷ c ∷ d ∷ e ∷ f ∷ g ∷ h ∷ [] in
      elim (Bool-cases (valid_utf8 encoding fs)) [
        | inr bad ↦ inl (message "source record: invalid UTF-8", rw bad refl, inr (inl bad))
        | inl good ↦ elim (Bool-cases (ltb 1048576 (size_of fs))) [
          | inl large ↦ inl (
            message "source record: exceeds 1048576 bytes",
            rw (good, large) refl,
            inr (inr (ground (arith, large))),
          )
          | inr small ↦ inr (
            _,
            rw (good, small) refl,
            record {
              client = a;
              name = b;
              tin = c;
              date = d;
              cents = e;
              method = f;
              withholding = g;
              note = h;
              read = refl;
              numbered = refl;
              client_id = refl;
              vendor_name = refl;
              vendor_tin = refl;
              payment_date = refl;
              amount = refl;
              payment_method = refl;
              backup_withholding = refl;
              memo = refl;
              valid = good;
              bounded = ground (arith, small);
            },
          )
        ]
      ]

  other_fields :
      (number : ℕ) (fs : List Bytes)
      → (length fs ≡ 8 → ⊥)
      → payment_row_of encoding number fs ≡ none
      → ReadAs number (fields fs) (read_row encoding number (fields fs))
  unfolding read_row checked_row Bad
  other_fields number fs h e = inl (message "source record", rw e refl, inl h)

  -- A reading gives a row or an error.
  read_row-ReadAs : (number : ℕ) (r : Reading) → ReadAs number r (read_row encoding number r)
  unfolding read_row payment_row_of Bad
  read_row-ReadAs number read_error = inl (message "source record", refl, tt)
  read_row-ReadAs number (fields []) = other_fields number [] (λ h. omega (arith, h)) refl
  read_row-ReadAs number (fields (a ∷ [])) = other_fields number _ (λ h. omega (arith, h)) refl
  read_row-ReadAs number (fields (a ∷ b ∷ [])) = other_fields number _ (λ h. omega (arith, h)) refl
  read_row-ReadAs number (fields (a ∷ b ∷ c ∷ [])) =
      other_fields number _ (λ h. omega (arith, h)) refl
  read_row-ReadAs number (fields (a ∷ b ∷ c ∷ d ∷ [])) =
      other_fields number _ (λ h. omega (arith, h)) refl
  read_row-ReadAs number (fields (a ∷ b ∷ c ∷ d ∷ e ∷ [])) =
      other_fields number _ (λ h. omega (arith, h)) refl
  read_row-ReadAs number (fields (a ∷ b ∷ c ∷ d ∷ e ∷ f ∷ [])) =
      other_fields number _ (λ h. omega (arith, h)) refl
  read_row-ReadAs number (fields (a ∷ b ∷ c ∷ d ∷ e ∷ f ∷ g ∷ [])) =
      other_fields number _ (λ h. omega (arith, h)) refl
  read_row-ReadAs number (fields (a ∷ b ∷ c ∷ d ∷ e ∷ f ∷ g ∷ h ∷ [])) =
      eight number a b c d e f g h
  read_row-ReadAs number (fields (a ∷ b ∷ c ∷ d ∷ e ∷ f ∷ g ∷ h ∷ i ∷ fs)) =
      other_fields number _ (λ k. omega (arith, k)) refl

  stopped :
      (s : Source) (rounds : ℕ)
      → Ready s
      → canceled_at s.row_number ≡ true
      → Failed s.row_number s.readings canceled
      → Ends s (suc rounds)
  unfolding Copied copy_rows copied source_sha256
  stopped s rounds h c f = record {
    result = err canceled;
    source = s;
    run = rw (c, next_canceled s h) refl;
    copied_well = (f, rw h.1 refl);
  }

  no_readings :
      (s : Source) → Ready s → s.readings ≡ [] → canceled_at s.row_number ≡ false → Ends s 1
  unfolding Copied Numbered copy_rows copied source_sha256
  no_readings s h e c = record {
    result = ok [];
    source = record s { exhausted = true };
    run = rw (c, next_end s h e) refl;
    copied_well =
        (subst (λ rs. Numbered s.row_number rs []) (sym e) c, omega (arith, ap length e), refl);
  }

  failed_reading :
      (s : Source) (r : Reading) (rs : List Reading) (x : Error)
      → Ready s
      → s.readings ≡ r ∷ rs
      → canceled_at s.row_number ≡ false
      → read_row encoding (suc s.row_number) r ≡ err x
      → Bad encoding r
      → Ends s (suc (suc (length rs)))
  unfolding Copied Failed copy_rows copied source_sha256
  failed_reading s r rs x h e c f bad = record {
    result = err x;
    source = advanced s rs;
    run = rw (c, next_more s r rs h e) (rw f refl);
    copied_well = (subst (λ all. Failed s.row_number all x) (sym e) (inr (inl bad)), rw h.1 refl);
  }

  read_on :
      (s s' : Source) (r : Reading) (rs : List Reading) (row : PaymentRow)
      (result : Result (List PaymentRow))
      → Ready s
      → s.readings ≡ r ∷ rs
      → canceled_at s.row_number ≡ false
      → read_row encoding (suc s.row_number) r ≡ ok (some row)
      → RowOf encoding (suc s.row_number) r row
      → copy_rows encoding canceled_at (suc (length rs)) (advanced s rs) ≡ some (result, s')
      → Copied (advanced s rs) result s'
      → Ends s (suc (suc (length rs)))
  unfolding Copied Numbered Failed copy_rows copied copied_after
  read_on s s' r rs row (err x) h e c f good run (failed, no_hash) = record {
    result = err x;
    source = s';
    run = rw (c, next_more s r rs h e) (rw f (ap (copied_after encoding row) run));
    copied_well = (subst (λ all. Failed s.row_number all x) (sym e) (inr (inr failed)), no_hash);
  }
  read_on s s' r rs row (ok rows) h e c f good run (numbered, number, hash) = record {
    result = ok (row ∷ rows);
    source = s';
    run = rw (c, next_more s r rs h e) (rw f (ap (copied_after encoding row) run));
    copied_well = (
      subst (λ all. Numbered s.row_number all (row ∷ rows)) (sym e) (c, good, numbered),
      omega (arith, number, ap length e),
      hash,
    );
  }

  stops_at :
      (number : ℕ) (rs : List Reading) → canceled_at number ≡ true → Failed number rs canceled
  unfolding Failed
  stops_at number [] c = (c, refl)
  stops_at number (r ∷ rs) c = inl (c, refl)

  copy-Ends :
      (rs : List Reading) (s : Source) → Ready s → s.readings ≡ rs → Ends s (suc (length rs))
  copy-Ends [] s h e = elim (Bool-cases (canceled_at s.row_number)) [
    | inl c ↦ stopped s 0 h c (stops_at s.row_number s.readings c)
    | inr c ↦ no_readings s h e c
  ]
  copy-Ends (r ∷ rs) s h e =
      let rest = copy-Ends rs (advanced s rs) h refl in
      elim (Bool-cases (canceled_at s.row_number)) [
        | inl c ↦ stopped s (suc (length rs)) h c (stops_at s.row_number s.readings c)
        | inr c ↦ elim (read_row-ReadAs (suc s.row_number) r) [
          | inl (x, f, bad) ↦ failed_reading s r rs x h e c f bad
          | inr (row, f, good) ↦
              read_on s rest.source r rs row rest.result h e c f good rest.run rest.copied_well
        ]
      ]

-- Copying the rows of a source that is neither closed nor at its end gives a result after as many
-- rounds as it has records, and one. Where that is rows, they are those of all records, field by
-- field and numbered one after another from the next number, each record has eight fields of valid
-- UTF-8 of 1048576 bytes together at most, the context was never canceled, and SHA256 is there;
-- where it is an error, the context was canceled before a record or before the end, or a record is
-- not such a row, and SHA256 is not there.
pub copy_rows-Ends :
    (encoding : Encoding) (canceled_at : ℕ → Bool) (s : Source)
    → s.closed ≡ false
    → s.exhausted ≡ false
    → Ends encoding canceled_at s (suc (length s.readings))
copy_rows-Ends encoding canceled_at s h k = copy-Ends encoding canceled_at s.readings s (h, k) refl
