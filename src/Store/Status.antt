-- ===== src/Store/Status.antt =====
-- postgres/internal/store/status.go: what is reported of the clients of a firm.
pub mod Laws
use soraban.Shared.{
  ℕ, ◌+◌, ◌==◌, Bool, true, false, not, ◌&&◌, ◌||◌, ltb, String, str_eq, Option, none, some, List,
  [], ◌∷◌, if◌then◌else◌, length, count_where, select_where, is_some, find_where,
}
use soraban.Lifecycle.{
  Error, not_found, message, Result, ok, err, HeadlineState, needs_attention, awaiting_the_irs,
  fully_filed, partially_filed, StatusCounts, ClientStatus, FirmStatus,
}
use soraban.Store.Tables.{
  FilingState, blocked_preflight, ready, batched, accepted, rejected, Filing, Batch, BatchState,
  submitting, submit_unknown, submitted, awaiting_ack, invariant_failed, among, state_eq, Db,
  Client,
}
use soraban.Store.Transaction.{Environment, Body, run_tx}

-- `clientStatusFacts`, whose headline is computed from the rest.
pub record Facts : Type 0 where
  pub client_id : String
  pub counts : StatusCounts
  pub attention : Bool
  pub awaiting : Bool

abbrev filing_rank : FilingState → ℕ
filing_rank blocked_preflight = 0
filing_rank ready = 1
filing_rank batched = 2
filing_rank accepted = 3
filing_rank rejected = 4

abbrev pub is_filing_in : FilingState → Filing → Bool
is_filing_in s f = filing_rank f.state == filing_rank s

abbrev pub of_client : String → String → Filing → Bool
of_client firm client f = str_eq f.firm_id firm && str_eq f.client_id client

unfoldable pub counts_of : List Filing → StatusCounts
counts_of fs = record {
  required = length fs;
  blocked = count_where (is_filing_in blocked_preflight) fs;
  ready = count_where (is_filing_in ready) fs;
  pending = count_where (is_filing_in batched) fs;
  accepted = count_where (is_filing_in accepted) fs;
  rejected = count_where (is_filing_in rejected) fs;
}

abbrev pub ack_patience : ℕ
ack_patience = 1800000000

-- COALESCE(submitted_at, next_action_at).
since : Batch → Option ℕ → ℕ
since b none = b.next_action_at
since b (some t) = t

unfoldable pub is_overdue : ℕ → Batch → Bool
unfolding since
is_overdue now b =
    among b.state (submitted ∷ awaiting_ack ∷ []) && ltb (since b b.submitted_at + ack_patience) now

-- `EXISTS`.
abbrev pub exists {ℓ} : {A : Type ℓ} → (A → Bool) → List A → Bool
exists p xs = is_some (find_where p xs)

-- `COALESCE(bool_or(…), false)` over a group that may have no row.
abbrev pub bool_or {ℓ} : {A : Type ℓ} → (A → Bool) → List A → Bool
bool_or p [] = false
bool_or p (x ∷ xs) = p x || bool_or p xs

abbrev pub is_bad : Filing → Bool
is_bad f = is_filing_in blocked_preflight f || is_filing_in rejected f

abbrev pub is_failed : Batch → Bool
is_failed b = state_eq b.state invariant_failed

abbrev pub is_awaiting : Batch → Bool
is_awaiting b = among b.state (submitting ∷ submit_unknown ∷ submitted ∷ awaiting_ack ∷ [])

abbrev pub filings_of : String → Client → Db → List Filing
filings_of firm c db = select_where (of_client firm c.id) db.filings

abbrev pub batches_of : String → Client → Db → List Batch
batches_of firm c db =
    select_where (λ (b : Batch). str_eq b.firm_id firm && str_eq b.client_id c.id)
      db.submission_batches

-- The query of `readClientStatus`.
unfoldable pub facts_of : ℕ → String → Db → Client → Facts
facts_of now firm db c = record {
  client_id = c.id;
  counts = counts_of (filings_of firm c db);
  attention =
      ltb 0 (count_where is_bad (filings_of firm c db))
      || exists is_failed (batches_of firm c db)
      || exists (is_overdue now) (batches_of firm c db);
  awaiting = exists is_awaiting (batches_of firm c db);
}

-- A row of the query of `FirmStatus`.
unfoldable pub row_facts : ℕ → String → Db → Client → Facts
row_facts now firm db c = record {
  client_id = c.id;
  counts = counts_of (filings_of firm c db);
  attention =
      bool_or is_bad (filings_of firm c db)
      || bool_or (λ (b : Batch). is_failed b || is_overdue now b) (batches_of firm c db);
  awaiting = bool_or is_awaiting (batches_of firm c db);
}

unfoldable pub headline : Facts → HeadlineState
headline facts =
    if facts.attention
    then needs_attention
    else if facts.awaiting
    then awaiting_the_irs
    else if facts.counts.ready == 0 && facts.counts.pending == 0
    then fully_filed
    else partially_filed

unfoldable pub client_status : String → Facts → ClientStatus
client_status firm facts = record {
  firm_id = firm;
  client_id = facts.client_id;
  counts = facts.counts;
  headline = headline facts;
}

unfoldable pub add_counts : StatusCounts → StatusCounts → StatusCounts
add_counts a b = record {
  required = a.required + b.required;
  blocked = a.blocked + b.blocked;
  ready = a.ready + b.ready;
  pending = a.pending + b.pending;
  accepted = a.accepted + b.accepted;
  rejected = a.rejected + b.rejected;
}

-- The three assignments of the firm's headline, by the headline of the next client.
unfoldable pub next_headline : HeadlineState → HeadlineState → HeadlineState
next_headline firm needs_attention = needs_attention
next_headline needs_attention awaiting_the_irs = needs_attention
next_headline firm awaiting_the_irs = awaiting_the_irs
next_headline fully_filed partially_filed = partially_filed
next_headline firm client = firm

abbrev pub zero_counts : StatusCounts
zero_counts = record {
  required = 0;
  blocked = 0;
  ready = 0;
  pending = 0;
  accepted = 0;
  rejected = 0;
}

-- The loop over the rows, from the result so far; `append` puts a client last.
append : List ClientStatus → ClientStatus → List ClientStatus
append [] c = c ∷ []
append (x ∷ xs) c = x ∷ append xs c

unfoldable pub gather : FirmStatus → List ClientStatus → FirmStatus
unfolding append
gather result [] = result
gather result (c ∷ cs) =
    gather
      (record result {
        counts = add_counts result.counts c.counts;
        headline = next_headline result.headline c.headline;
        clients = append result.clients c;
      })
      cs

abbrev pub empty_status : String → FirmStatus
empty_status firm = record {
  firm_id = firm;
  counts = zero_counts;
  headline = fully_filed;
  clients = [];
}

-- `clients` are the firm's rows of that table, `ORDER BY id`.
abbrev pub statuses : ℕ → String → List Client → Db → List ClientStatus
statuses now firm [] db = []
statuses now firm (c ∷ cs) db =
    client_status firm (row_facts now firm db c) ∷ statuses now firm cs db

unfoldable pub firm_status_body : ℕ → String → List Client → Body FirmStatus
firm_status_body now firm clients db =
    if length clients == 0
    then err not_found
    else ok (gather (empty_status firm) (statuses now firm clients db), db)

unfoldable pub firm_status : Environment → String → List Client → Db → Result FirmStatus × Db
firm_status env firm clients db = run_tx env firm (firm_status_body env.now firm clients) db

-- `FROM clients WHERE firm_id = $1 ORDER BY id`, in the order of the database's collation.
insert_client : (String → String → Bool) → Client → List Client → List Client
insert_client text_before c [] = c ∷ []
insert_client text_before c (d ∷ ds) =
    let rest = insert_client text_before c ds in
    if text_before d.id c.id then d ∷ rest else c ∷ d ∷ ds

order_clients : (String → String → Bool) → List Client → List Client
unfolding insert_client
order_clients text_before [] = []
order_clients text_before (c ∷ cs) = insert_client text_before c (order_clients text_before cs)

unfoldable pub firm_clients : (String → String → Bool) → String → Db → List Client
unfolding order_clients
firm_clients text_before firm db =
    order_clients text_before (select_where (λ (c : Client). str_eq c.firm_id firm) db.clients)

-- `FirmStatus` on the clients of the table.
unfoldable pub read_firm_status :
    (String → String → Bool) → Environment → String → Db → Result FirmStatus × Db
read_firm_status text_before env firm db =
    firm_status env firm (firm_clients text_before firm db) db

read_client : ℕ → String → Db → Option Client → Body ClientStatus
read_client now firm db none d = err not_found
read_client now firm db (some c) d = ok (client_status firm (facts_of now firm db c), d)

unfoldable pub client_status_body : ℕ → String → String → Body ClientStatus
unfolding read_client
client_status_body now firm id db =
    read_client now firm db
      (find_where (λ (c : Client). str_eq c.firm_id firm && str_eq c.id id) db.clients) db

-- `ClientStatus`.
unfoldable pub read_client_status : Environment → String → String → Db → Result ClientStatus × Db
read_client_status env firm id db =
    if str_eq id ""
    then (err (message "invalid client status query"), db)
    else run_tx env firm (client_status_body env.now firm id) db
