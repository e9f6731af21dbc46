-- ===== src/Store/Plan/Writing.antt =====
-- postgres/internal/store/filing.go: `PlanBatches`, from the ready filings to the tables.
pub mod Links
pub mod Ready
pub mod Outcome
use soraban.Shared.{
  ℕ, suc, zero, ◌+◌, ◌==◌, Bool, true, false, not, ◌&&◌, ◌||◌, String, str_eq, Option, none, some,
  List, [], ◌∷◌, ◌++◌, map, if◌then◌else◌, length, count_where, find_where, select_where,
  update_where, is_none, is_some,
}
use soraban.Shared.Int.{ℤ}
use soraban.Lifecycle.{Error, invariant, conflict, message, Result, ok, err, Bytes}
use soraban.Store.Tables.{
  Filing, FilingState, blocked_preflight, ready, batched, accepted, rejected, Batch, planned,
  BatchFiling, Db,
}
use soraban.Store.Transaction.{Environment, Body, run_tx}
use soraban.Store.Claims.{or_empty}
use soraban.Store.Plan.{ordered, groups}

pub record PlanBatchesCommand : Type 0 where
  pub firm_id : String
  pub determination_id : ℕ

pub record BatchPlanResult : Type 0 where
  pub existing_batch_count : ℕ
  pub created_batch_count : ℕ

-- `xmlDetail`.
pub record Detail : Type 0 where
  pub record_id : String
  pub recipient_name : String
  pub recipient_tin : String
  pub compensation : String
  pub withholding : String

-- What planning takes from postgres/internal/store/identity.go; `canonical_xml` is `none` where
-- the encoding fails.
pub record Identities : Type 0 where
  pub filing_key_string : Bytes → String
  pub format_cents : ℤ → String
  pub batch_identity : String → String → ℕ → List Bytes → Bytes × String
  pub canonical_xml : String → String → ℕ → String → List Detail → Bytes → Option Bytes

pub record PlannedBatch : Type 0 where
  pub client_id : String
  pub tax_year : ℕ
  pub utid : String
  pub canonical_xml : Bytes
  pub payload_hash : Bytes

pub record PlannedLink : Type 0 where
  pub utid : String
  pub filing_id : ℕ
  pub client_id : String
  pub slot : ℕ

abbrev pub Planning : Type 0
Planning = List PlannedBatch × List PlannedLink

abbrev pub is_ready : FilingState → Bool
is_ready ready = true
is_ready _ = false

unfoldable pub is_linked : List BatchFiling → Filing → Bool
is_linked links f = is_some (find_where (λ (l : BatchFiling). l.filing_id == f.id) links)

-- The WHERE of the SELECT of filings to plan.
unfoldable pub to_plan : PlanBatchesCommand → List BatchFiling → Filing → Bool
to_plan command links f =
    str_eq f.firm_id command.firm_id
    && f.determination_id == command.determination_id
    && is_ready f.state
    && not (is_linked links f)

pub links_of : String → String → ℕ → List Filing → List PlannedLink
links_of utid client slot [] = []
links_of utid client slot (f ∷ fs) =
    record { utid = utid; filing_id = f.id; client_id = f.client_id; slot = slot }
    ∷ links_of utid client (suc slot) fs

insert_id : ℕ → List ℕ → List ℕ
insert_id n ns = if is_some (find_where (λ m. m == n) ns) then ns else n ∷ ns

-- `count(DISTINCT bf.batch_id)` of the determination's filings.
is_determined : PlanBatchesCommand → List Filing → BatchFiling → Bool
is_determined command fs l = is_some (
    find_where
      (λ (f : Filing).
        f.id == l.filing_id
        && str_eq f.firm_id command.firm_id
        && f.determination_id == command.determination_id)
      fs)

pub batch_ids : PlanBatchesCommand → List Filing → List BatchFiling → List ℕ
unfolding insert_id is_determined
batch_ids command fs [] = []
batch_ids command fs (l ∷ ls) =
    let rest = batch_ids command fs ls in
    if is_determined command fs l then insert_id l.batch_id rest else rest

-- The rows of the INSERT, with the identities that follow `next_id`.
unfoldable pub batch_rows : ℕ → ℕ → String → List PlannedBatch → List Batch
batch_rows now next_id firm [] = []
batch_rows now next_id firm (b ∷ bs) =
    record {
      id = next_id;
      firm_id = firm;
      client_id = b.client_id;
      tax_year = b.tax_year;
      utid = b.utid;
      canonical_xml = b.canonical_xml;
      payload_sha256 = b.payload_hash;
      state = planned;
      receipt_id = none;
      next_action_at = now;
      attempt_count = 0;
      lease_owner = none;
      lease_expires_at = none;
      claim_token = none;
      submitted_at = none;
      acknowledged_at = none;
      retry_exhausted_at = none;
      last_error_code = none;
    }
    ∷ batch_rows now (suc next_id) firm bs

pub has_utid : String → String → Batch → Bool
has_utid firm utid b = str_eq b.firm_id firm && str_eq b.utid utid

-- `submission_batches_firm_utid_uk`: rows that were there, or that come before, have the UTID.
pub violates_utid_uk : List Batch → List Batch → Bool
unfolding has_utid
violates_utid_uk known [] = false
violates_utid_uk known (b ∷ bs) =
    is_some (find_where (has_utid b.firm_id b.utid) known) || violates_utid_uk (b ∷ known) bs

-- The join of a link with the batches of its UTID.
joined : String → PlannedLink → List Batch → List BatchFiling
unfolding has_utid
joined firm l bs =
    map
      (λ (b : Batch). record {
        batch_id = b.id;
        filing_id = l.filing_id;
        firm_id = firm;
        client_id = l.client_id;
        slot = l.slot;
      })
      (select_where (has_utid firm l.utid) bs)

pub link_rows : String → List PlannedLink → List Batch → List BatchFiling
unfolding joined
link_rows firm [] bs = []
link_rows firm (l ∷ ls) bs = joined firm l bs ++ link_rows firm ls bs

-- The WHERE of the UPDATE of filings.
unfoldable pub is_staged : String → List PlannedLink → Filing → Bool
is_staged firm links f =
    str_eq f.firm_id firm
    && is_ready f.state
    && is_some (find_where (λ (l : PlannedLink). l.filing_id == f.id) links)

unfoldable pub batched_row : Filing → Filing
batched_row f = record f { state = batched }

module _ (sha256 : Bytes → Bytes) (ids : Identities) (text_before : String → String → Bool) where
  unfoldable pub detail_of : Filing → Detail
  detail_of f = record {
    record_id = ids.filing_key_string f.filing_key;
    recipient_name = f.vendor_display_name;
    recipient_tin = or_empty f.recipient_tin;
    compensation = ids.format_cents f.reportable_cents;
    withholding = ids.format_cents f.withholding_cents;
  }

  unfoldable pub plan_encoded :
      String → Filing → List Filing → String → Option Bytes → Option Planning → Option Planning
  unfolding links_of
  plan_encoded firm f fs utid (some xml) (some (batches, links)) = some (
    record {
      client_id = f.client_id;
      tax_year = f.tax_year;
      utid = utid;
      canonical_xml = xml;
      payload_hash = sha256 xml;
    }
        ∷ batches,
    links_of utid f.client_id 1 (f ∷ fs) ++ links,
  )
  plan_encoded firm f fs utid xml rest = none

  -- A batch and its links for each group.
  unfoldable pub plan_groups : String → List (List Filing) → Option Planning
  unfolding detail_of plan_encoded
  plan_groups firm [] = some ([], [])
  plan_groups firm ([] ∷ gs) = plan_groups firm gs
  plan_groups firm ((f ∷ fs) ∷ gs) =
      let rest = plan_groups firm gs in
      let (digest, utid) =
        ids.batch_identity firm f.client_id f.tax_year
          (map (λ (g : Filing). g.filing_key) (f ∷ fs)) in
      plan_encoded firm f fs utid
        (ids.canonical_xml firm f.client_id f.tax_year utid (map detail_of (f ∷ fs)) digest) rest

  -- The three statements that write, each with its check of the affected rows.
  unfoldable pub store_plan : ℕ → ℕ → String → ℕ → Planning → Body BatchPlanResult
  unfolding violates_utid_uk link_rows
  store_plan now next_id firm existing (batches, links) db =
      let rows = batch_rows now next_id firm batches in
      let all_rows = db.submission_batches ++ rows in
      let linked = link_rows firm links all_rows in
      if violates_utid_uk db.submission_batches rows
      then err conflict
      else if not (length linked == length links)
          || not (count_where (is_staged firm links) db.filings == length links)
      then err invariant
      else ok (
        record { existing_batch_count = existing; created_batch_count = length rows },
        record db {
          submission_batches = all_rows;
          batch_filings = db.batch_filings ++ linked;
          filings = update_where (is_staged firm links) batched_row db.filings;
        },
      )

  store_planned : ℕ → ℕ → String → ℕ → Option Planning → Body BatchPlanResult
  store_planned now next_id firm existing none db = err invariant
  store_planned now next_id firm existing (some ([], links)) db =
      ok (record { existing_batch_count = existing; created_batch_count = 0 }, db)
  store_planned now next_id firm existing (some (b ∷ bs, links)) db =
      store_plan now next_id firm existing (b ∷ bs, links) db

  is_short : Filing → Bool
  is_short f = not (length f.filing_key == 32)

  abbrev pub filings_to_plan : PlanBatchesCommand → Db → List Filing
  filings_to_plan command db =
      ordered text_before (select_where (to_plan command db.batch_filings) db.filings)

  unfoldable pub plan_body : ℕ → ℕ → PlanBatchesCommand → Body BatchPlanResult
  unfolding is_short store_planned batch_ids
  plan_body now next_id command db =
      let fs = filings_to_plan command db in
      if not (count_where is_short fs == 0)
      then err invariant
      else store_planned now next_id command.firm_id
          (length (batch_ids command db.filings db.batch_filings))
          (plan_groups command.firm_id (groups fs)) db

  unfoldable pub plan_batches :
      Environment → ℕ → PlanBatchesCommand → Db → Result BatchPlanResult × Db
  plan_batches env next_id command db =
      if command.determination_id == 0
      then (err (message "invalid batch plan command"), db)
      else run_tx env command.firm_id (plan_body env.now next_id command) db
