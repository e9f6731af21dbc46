-- ===== src/Store/Machine/Submissions.antt =====
-- postgres/internal/store/filing.go: how often a batch is handed out for submission.
use soraban.Shared.{
  ℕ, ◌+◌, ◌≤◌, ◌==◌, Bool, true, false, ◌&&◌, String, Option, none, some, List, [], ◌∷◌, ◌≡◌, ◌≢◌,
  refl, subst, ◌⊎◌, inl, inr, arith, if◌then◌else◌, All, In, Related, count_where, update_where,
  Bool-cases,
}
use soraban.Lifecycle.{
  Bytes, Result, ok, err, BatchAction, submit, ClaimBatchCommand, BatchWork, Claim,
}
use soraban.Store.Tables.{Batch, planned, state_eq, Db}
use soraban.Store.Transaction.{Environment}
use soraban.Store.Claims.{claim_row, fail_hash, work_of, next_action, work, claim_next_batch}
use soraban.Store.Claims.Order.{candidate-In}
use soraban.Store.Claims.Effect.{Claiming, idle, taken, spoiled, claim_next_batch-work}
use soraban.Store.Events.{owns, event_row, unavailable_row, terminal_row}
use soraban.Store.Acknowledge.{acknowledged_row}
use soraban.Store.Machine.{
  Event, Call, claims, records, submit_accepted, reference_not_found, states_of, row_of, after,
  history,
}
use soraban.Store.Machine.Rows.{
  RowStep, untouched, claimed, corrupted, recorded, Distinct, after-Steps,
}
use soraban.Store.Machine.Histories.{after-Distinct}

is_submit : BatchAction → Bool
is_submit submit = true
is_submit _ = false

-- 1 if the result is work to submit the batch `id`.
is_submission : ℕ → Result (Option BatchWork) → ℕ
unfolding is_submit
is_submission id (ok (some w)) = if w.batch_id == id && is_submit w.next_action then 1 else 0
is_submission id _ = 0

-- 1 if the call records that the IRS does not know the batch `id`.
not_found_by : ℕ → Call → ℕ
not_found_by id (records claim (reference_not_found r)) = if claim.batch_id == id then 1 else 0
not_found_by id _ = 0

module _ (sha256 : Bytes → Bytes) (encode_hex : Bytes → String) where
  submission_by : ℕ → Environment → Call → Db → ℕ
  unfolding is_submission
  submission_by id env (claims command token) db =
      is_submission id (claim_next_batch sha256 env command token db).0
  submission_by id env (records claim e) db = 0

  -- How often a history hands the batch `id` out for submission.
  unfoldable pub submissions : ℕ → List (Environment × Call) → Db → ℕ
  unfolding submission_by
  submissions id [] db = 0
  submissions id ((env, call) ∷ calls) db =
      submission_by id env call db + submissions id calls (after sha256 encode_hex env call db)

-- How often a history reports that the IRS does not know it.
unfoldable pub not_founds : ℕ → List (Environment × Call) → ℕ
unfolding not_found_by
not_founds id [] = 0
not_founds id ((env, call) ∷ calls) = not_found_by id call + not_founds id calls

is_planned : ℕ → Batch → Bool
is_planned id b = b.id == id && state_eq b.state planned

recorded-is_planned :
    (id : ℕ) (env : Environment) (claim : Claim) (e : Event) (b : Batch)
    → not_found_by id (records claim e) ≡ 0
    → owns env.now claim (states_of e) b ≡ true
    → is_planned id b ≡ false
    → is_planned id (row_of env.now e b) ≡ false
unfolding is_planned not_found_by owns event_row unavailable_row terminal_row acknowledged_row
recorded-is_planned id env claim (submit_accepted r) b h mine k = ground arith
recorded-is_planned id env claim _ b h mine k = ground arith

claimed-is_planned :
    (id now : ℕ) (command : ClaimBatchCommand) (token : String) (b : Batch)
    → is_planned id (claim_row now command token b) ≡ false
unfolding is_planned claim_row
claimed-is_planned id now command token b = ground arith

corrupted-is_planned :
    (id now : ℕ) (command : ClaimBatchCommand) (token : String) (b : Batch)
    → is_planned id (fail_hash (claim_row now command token b)) ≡ false
unfolding is_planned claim_row fail_hash
corrupted-is_planned id now command token b = ground arith

-- Only a report that the IRS does not know the batch makes it planned again.
RowStep-is_planned :
    (id : ℕ) (env : Environment) (call : Call) (b b' : Batch)
    → not_found_by id call ≡ 0
    → RowStep env call b b'
    → is_planned id b ≡ false
    → is_planned id b' ≡ false
RowStep-is_planned id env call b b' h (untouched e) k = rw e k
RowStep-is_planned id env call b b' h (claimed command token _ _ e) k =
    rw e (claimed-is_planned id env.now command token b)
RowStep-is_planned id env call b b' h (corrupted command token _ _ e) k =
    rw e (corrupted-is_planned id env.now command token b)
RowStep-is_planned id env call b b' h (recorded claim e is mine q) k =
    rw q (recorded-is_planned id env claim e b (rw is at h) mine k)

-- How many rows of the batch `id` are planned: at most one, its primary key being distinct.
pub planned_rows : ℕ → Db → ℕ
planned_rows id db = count_where (is_planned id) db.submission_batches

count_mono :
    (R : Batch → Batch → Type 0) (p : Batch → Bool)
    → ((b c : Batch) → R b c → p b ≡ false → p c ≡ false)
    → (bs cs : List Batch) → Related R bs cs
    → count_where p cs ≤ count_where p bs
count_mono R p h [] [] r = omega arith
count_mono R p h (b ∷ bs) (c ∷ cs) r =
    let k = h b c r.0 in let rest = count_mono R p h bs cs r.1 in ground arith
count_mono R p h [] (c ∷ cs) r = absurd r
count_mono R p h (b ∷ bs) [] r = absurd r

count-other :
    (id : ℕ) (bs : List Batch) → All (λ c. id ≢ c.id) bs → count_where (is_planned id) bs ≡ 0
unfolding is_planned
count-other id [] h = refl
count-other id (b ∷ bs) h = let rest = count-other id bs h.1 in ground (arith, h.0)

count-Distinct : (id : ℕ) (bs : List Batch) → Distinct bs → count_where (is_planned id) bs ≤ 1
unfolding is_planned
count-Distinct id [] d = omega arith
count-Distinct id (b ∷ bs) d = elim (Bool-cases (b.id == id)) [
  | inl e ↦
      let same : b.id ≡ id = ground arith in
      ground (arith, count-other id bs (subst (λ k. All (λ c. k ≢ c.id) bs) same d.0))
  | inr e ↦ ground (arith, count-Distinct id bs d.1)
]

count-In :
    (p : Batch → Bool) (c : Batch) (bs : List Batch) → In c bs → p c ≡ true → 1 ≤ count_where p bs
count-In p c [] i h = absurd i
count-In p c (b ∷ bs) (inl e) h = ground arith
count-In p c (b ∷ bs) (inr i) h = let rest = count-In p c bs i h in ground arith

count-claimed :
    (now : ℕ) (command : ClaimBatchCommand) (token : String) (id : ℕ) (bs : List Batch)
    → count_where (is_planned id) (update_where (λ r. r.id == id) (claim_row now command token) bs)
      ≡ 0
unfolding is_planned claim_row
count-claimed now command token id [] = refl
count-claimed now command token id (b ∷ bs) =
    let rest = count-claimed now command token id bs in ground arith

not_found_by_cases :
    (id : ℕ) (call : Call) → (not_found_by id call ≡ 0) ⊎ (not_found_by id call ≡ 1)
unfolding not_found_by
not_found_by_cases id (claims command token) = inl refl
not_found_by_cases id (records claim (reference_not_found r)) =
    elim (Bool-cases (claim.batch_id == id)) [ inl e ↦ inr (rw e) | inr e ↦ inl (rw e) ]
not_found_by_cases id (records claim _) = inl refl

is_submission_cases :
    (id : ℕ) (r : Result (Option BatchWork))
    → (is_submission id r ≡ 0)
      ⊎ ((w : BatchWork) × (r ≡ ok (some w))
          × (w.batch_id ≡ id)
          × (w.next_action ≡ submit)
          × (is_submission id r ≡ 1))
unfolding is_submission
is_submission_cases id (err e) = inl refl
is_submission_cases id (ok none) = inl refl
is_submission_cases id (ok (some w)) =
    elim (Bool-cases (w.batch_id == id && is_submit w.next_action)) [
      | inl e ↦ inr (w, refl, ground arith, ground arith, rw e)
      | inr e ↦ inl (rw e)
    ]

-- Work to submit was planned.
submit_planned :
    (now : ℕ) (command : ClaimBatchCommand) (token : String) (c : Batch)
    → next_action (claim_row now command token c).state ≡ some submit
    → is_planned c.id c ≡ true
unfolding is_planned claim_row
submit_planned now command token c h = ground arith

taken-planned :
    (env : Environment) (command : ClaimBatchCommand) (token : String) (db db' : Db) (w : BatchWork)
    → w.next_action ≡ submit
    → Claiming env command token db (work w) db'
    → (1 ≤ planned_rows w.batch_id db) × (planned_rows w.batch_id db' ≡ 0)
unfolding planned_rows work_of claim_row
taken-planned env command token db db' w s (idle _ e _) = absurd (ground arith)
taken-planned env command token db db' w s (spoiled c _ e _) = absurd (ground arith)
taken-planned env command token db db' w s (taken c action is acts f e) =
    let (i, due) = candidate-In env command.firm_id db.submission_batches c is in
    let same : w.batch_id ≡ c.id = ground arith in
    let submits : action ≡ submit = ground arith in
    (
      rw same (
          count-In (is_planned c.id) c db.submission_batches i
            (submit_planned env.now command token c (rw submits at acts))),
      rw (same, e) (count-claimed env.now command token c.id db.submission_batches),
    )

module _ (sha256 : Bytes → Bytes) (encode_hex : Bytes → String) where
  planned_rows_mono :
      (id : ℕ) (env : Environment) (call : Call) (db : Db)
      → Distinct db.submission_batches
      → not_found_by id call ≡ 0
      → planned_rows id (after sha256 encode_hex env call db) ≤ planned_rows id db
  unfolding planned_rows
  planned_rows_mono id env call db d h =
      count_mono (RowStep env call) (is_planned id)
        (λ b c r k. RowStep-is_planned id env call b c h r k) _ _
        (after-Steps sha256 encode_hex env call db d)

  planned_rows-le_one :
      (id : ℕ) (env : Environment) (call : Call) (db : Db)
      → Distinct db.submission_batches
      → planned_rows id (after sha256 encode_hex env call db) ≤ 1
  unfolding planned_rows
  planned_rows-le_one id env call db d =
      count-Distinct id _ (after-Distinct sha256 encode_hex env call db d)

  submission_step :
      (id : ℕ) (env : Environment) (call : Call) (db : Db)
      → Distinct db.submission_batches
      → submission_by sha256 encode_hex id env call db
          + planned_rows id (after sha256 encode_hex env call db)
        ≤ not_found_by id call + planned_rows id db
  unfolding submission_by after not_found_by
  submission_step id env (records claim e) db d = elim (not_found_by_cases id (records claim e)) [
    | inl none_found ↦ omega (arith, planned_rows_mono id env (records claim e) db d none_found)
    | inr one ↦ omega (arith, one, planned_rows-le_one id env (records claim e) db d)
  ]
  submission_step id env (claims command token) db d =
      elim (is_submission_cases id (claim_next_batch sha256 env command token db).0) [
        | inl idle_call ↦
            omega (arith, idle_call, planned_rows_mono id env (claims command token) db d refl)
        | inr (w, r, same, s, one) ↦
            let (t, is, c) = claim_next_batch-work sha256 env command db token w r in
            let (before, gone) = taken-planned env command t db _ w s c in
            omega (arith, one, rw same at before, rw same at gone)
      ]

  -- From distinct batch ids and over any history of claims and events, whatever goes wrong below
  -- the adapter, the times a batch is handed out for submission and its rows that are planned at
  -- the end are together at most the reports that the IRS does not know it and its rows that were
  -- planned at first.
  pub submissions-le :
      (id : ℕ) (calls : List (Environment × Call)) (db : Db)
      → Distinct db.submission_batches
      → submissions sha256 encode_hex id calls db
          + planned_rows id (history sha256 encode_hex calls db)
        ≤ not_founds id calls + planned_rows id db
  unfolding submissions not_founds history
  submissions-le id [] db d = omega arith
  submissions-le id ((env, call) ∷ calls) db d = omega (
    arith,
    submission_step id env call db d,
    submissions-le id calls (after sha256 encode_hex env call db)
        (after-Distinct sha256 encode_hex env call db d),
  )
