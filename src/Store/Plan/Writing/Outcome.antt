-- ===== src/Store/Plan/Writing/Outcome.antt =====
-- postgres/internal/store/filing.go, `PlanBatches`: what a success has written.
use soraban.Shared.{
  ℕ, Bool, true, String, none, List, [], ◌++◌, ◌≡◌, All, In, ◌↔◌, length, flatten, count_where,
  update_where,
}
use soraban.Lifecycle.{Bytes}
use soraban.Store.Tables.{Filing, Batch, planned, BatchFiling, Db, check_batch}
use soraban.Store.Plan.{groups}
use soraban.Store.Plan.Writing.{
  PlanBatchesCommand, BatchPlanResult, Identities, PlannedBatch, PlannedLink, Planning, is_staged,
  batched_row,
}
use soraban.Store.Plan.Writing.Links.{expected_links}
use soraban.Store.Plan.Writing.Ready.{Plannable, HasDetermined, NoTwice}

module _ (sha256 : Bytes → Bytes) where
  -- A new batch: planned, free, with the hash of its payload, and as the CHECK constraints ask.
  abbrev pub Fresh : Batch → Type 0
  Fresh b =
      (b.state ≡ planned)
      × (b.lease_owner ≡ none)
      × (b.payload_sha256 ≡ sha256 b.canonical_xml)
      × (check_batch b ≡ true)

  abbrev Hashed : PlannedBatch → Type 0
  Hashed b = b.payload_hash ≡ sha256 b.canonical_xml

module _ (sha256 : Bytes → Bytes) (ids : Identities) (text_before : String → String → Bool) where
  -- Every filing has a link, every batch the hash of its payload, and no batch means no link.
  abbrev Covers : List (List Filing) → Planning → Type 0
  Covers gs p = (length p.1 ≡ length (flatten gs)) × All (Hashed sha256) p.0 × (p.0 ≡ [] → p.1 ≡ [])

  -- What planning has done: new batches, one link for each filing to plan, and as many filings
  -- batched, nothing else.
  pub record Planned (next_id : ℕ) (command : PlanBatchesCommand) (db db' : Db)
      (result : BatchPlanResult) : Type 0 where
    pub to_do : List Filing
    pub plannable : All (Plannable command db.batch_filings) to_do
    pub none_left :
        (f : Filing) → In f db.filings → Plannable command db.batch_filings f → In f to_do
    pub fresh : List Batch
    pub links : List PlannedLink
    pub joined : List BatchFiling
    pub batches : db'.submission_batches ≡ db.submission_batches ++ fresh
    pub all_fresh : All (Fresh sha256) fresh
    pub linked : db'.batch_filings ≡ db.batch_filings ++ joined
    pub every_linked : joined ≡ expected_links next_id command.firm_id (groups to_do)
    pub filings :
        db'.filings ≡ update_where (is_staged command.firm_id links) batched_row db.filings
    pub every_batched : count_where (is_staged command.firm_id links) db.filings ≡ length to_do
    pub existing_ids : List ℕ
    pub distinct : NoTwice existing_ids
    pub of_determination :
        (n : ℕ) → In n existing_ids ↔ HasDetermined command db.filings db.batch_filings n
    pub existing : result.existing_batch_count ≡ length existing_ids
    pub created : result.created_batch_count ≡ length fresh
