-- ===== src/Store/Status/Laws.antt =====
-- postgres/internal/store/status.go: the two queries agree, and what the headlines mean.
use Prim.Native.Nat.{max}
use soraban.Shared.{
  ℕ, ◌+◌, ◌==◌, Bool, false, ◌||◌, ltb, String, List, [], ◌∷◌, ◌≡◌, refl, arith, count_where, ap,
  sym, ◌∙◌, ◌++◌, append_nil, if◌then◌else◌,
}
use soraban.Lifecycle.{
  HeadlineState, needs_attention, awaiting_the_irs, fully_filed, partially_filed, StatusCounts,
  ClientStatus, FirmStatus, ok,
}
use soraban.Store.Tables.{
  Client, FilingState, blocked_preflight, ready, batched, accepted, rejected, Filing, Db,
}
use soraban.Store.Transaction.{Environment}
use soraban.Store.Transaction.Laws.{run_tx-ok}
use soraban.Store.Status.{
  Facts, filing_rank, is_filing_in, counts_of, is_overdue, exists, bool_or, is_bad, is_failed,
  is_awaiting, filings_of, batches_of, facts_of, row_facts, headline, client_status, gather,
  next_headline, add_counts, statuses, empty_status, append, firm_status, firm_status_body,
}

pub exists_bool_or : {A : Type 0} (p : A → Bool) (xs : List A) → exists p xs ≡ bool_or p xs
exists_bool_or p [] = refl
exists_bool_or p (x ∷ xs) = let rest = exists_bool_or p xs in ground (arith, rest)

pub count_bool_or :
    {A : Type 0} (p : A → Bool) (xs : List A) → ltb 0 (count_where p xs) ≡ bool_or p xs
count_bool_or p [] = ground arith
count_bool_or p (x ∷ xs) = let rest = count_bool_or p xs in ground (arith, rest)

bool_or_split :
    {A : Type 0} (p q : A → Bool) (xs : List A)
    → bool_or (λ x. p x || q x) xs ≡ (bool_or p xs || bool_or q xs)
bool_or_split p q [] = refl
bool_or_split p q (x ∷ xs) = let rest = bool_or_split p q xs in ground (arith, rest)

or_assoc : (a b c : Bool) → (a || (b || c)) ≡ ((a || b) || c)
or_assoc a b c = ground arith

-- The query of FirmStatus and the query of ClientStatus give the same status of a client at the
-- same instant.
pub row_facts-facts_of :
    (now : ℕ) (firm : String) (db : Db) (c : Client)
    → client_status firm (row_facts now firm db c) ≡ client_status firm (facts_of now firm db c)
unfolding row_facts facts_of
row_facts-facts_of now firm db c =
    let bad = count_bool_or is_bad (filings_of firm c db) in
    let failed = exists_bool_or is_failed (batches_of firm c db) in
    let overdue = exists_bool_or (is_overdue now) (batches_of firm c db) in
    let both = bool_or_split is_failed (is_overdue now) (batches_of firm c db) in
    let waits = exists_bool_or is_awaiting (batches_of firm c db) in
    let same =
      or_assoc (bool_or is_bad (filings_of firm c db)) (bool_or is_failed (batches_of firm c db))
        (bool_or (is_overdue now) (batches_of firm c db)) in
    rw (bad, failed, overdue, both, waits, same) refl

abbrev counted : FilingState → FilingState → ℕ
counted s t = if filing_rank s == filing_rank t then 1 else 0

one_state :
    (s : FilingState)
    → counted s blocked_preflight
        + counted s ready
        + counted s batched
        + counted s accepted
        + counted s rejected
      ≡ 1
one_state blocked_preflight = refl
one_state ready = refl
one_state batched = refl
one_state accepted = refl
one_state rejected = refl

-- Every filing is in one of the five states that are counted.
pub counts_of-required :
    (fs : List Filing)
    → (counts_of fs).required
      ≡ (counts_of fs).blocked
        + (counts_of fs).ready
        + (counts_of fs).pending
        + (counts_of fs).accepted
        + (counts_of fs).rejected
unfolding counts_of
counts_of-required [] = refl
counts_of-required (f ∷ fs) =
    let rest = counts_of-required fs in let one = one_state f.state in omega (arith, rest, one)

none_bad :
    (fs : List Filing)
    → ltb 0 (count_where is_bad fs) ≡ false
    → (count_where (is_filing_in blocked_preflight) fs ≡ 0)
      × (count_where (is_filing_in rejected) fs ≡ 0)
none_bad [] h = (refl, refl)
none_bad (f ∷ fs) h = let (a, b) = none_bad fs (ground arith) in (ground arith, ground arith)

headline_filed :
    (facts : Facts)
    → headline facts ≡ fully_filed
    → (facts.attention ≡ false) × (facts.counts.ready ≡ 0) × (facts.counts.pending ≡ 0)
unfolding headline
headline_filed facts h = (ground arith, ground arith, ground arith)

-- Where the status of a client has the headline fully filed, as many of its filings are accepted as
-- are required.
pub fully_filed-accepted :
    (now : ℕ) (firm : String) (db : Db) (c : Client)
    → (client_status firm (facts_of now firm db c)).headline ≡ fully_filed
    → (client_status firm (facts_of now firm db c)).counts.accepted
      ≡ (client_status firm (facts_of now firm db c)).counts.required
unfolding client_status facts_of counts_of
fully_filed-accepted now firm db c h =
    let fs = filings_of firm c db in
    let (untroubled, ready_none, pending_none) = headline_filed (facts_of now firm db c) h in
    let calm : ltb 0 (count_where is_bad fs) ≡ false = ground (arith, untroubled) in
    let (a, b) = none_bad fs calm in
    let all_counted = counts_of-required fs in
    omega (arith, a, b, ready_none, pending_none, all_counted)

-- The firm's headline after some clients: attention wins over awaiting, and so on down.
abbrev pub urgency : HeadlineState → ℕ
urgency needs_attention = 3
urgency awaiting_the_irs = 2
urgency partially_filed = 1
urgency fully_filed = 0

next_headline-max :
    (a b : HeadlineState) → urgency (next_headline a b) ≡ max (urgency a) (urgency b)
unfolding next_headline
next_headline-max needs_attention needs_attention = refl
next_headline-max needs_attention awaiting_the_irs = refl
next_headline-max needs_attention partially_filed = refl
next_headline-max needs_attention fully_filed = refl
next_headline-max awaiting_the_irs needs_attention = refl
next_headline-max awaiting_the_irs awaiting_the_irs = refl
next_headline-max awaiting_the_irs partially_filed = refl
next_headline-max awaiting_the_irs fully_filed = refl
next_headline-max partially_filed needs_attention = refl
next_headline-max partially_filed awaiting_the_irs = refl
next_headline-max partially_filed partially_filed = refl
next_headline-max partially_filed fully_filed = refl
next_headline-max fully_filed needs_attention = refl
next_headline-max fully_filed awaiting_the_irs = refl
next_headline-max fully_filed partially_filed = refl
next_headline-max fully_filed fully_filed = refl

abbrev pub most_urgent : List ClientStatus → ℕ
most_urgent [] = 0
most_urgent (c ∷ cs) = max (urgency c.headline) (most_urgent cs)

abbrev pub sum_of : (StatusCounts → ℕ) → List ClientStatus → ℕ
sum_of part [] = 0
sum_of part (c ∷ cs) = part c.counts + sum_of part cs

-- What the loop over the clients adds to the result so far.
gather-adds :
    (result : FirmStatus) (cs : List ClientStatus)
    → (urgency (gather result cs).headline ≡ max (urgency result.headline) (most_urgent cs))
      × ((gather result cs).counts.required ≡ result.counts.required + sum_of (λ k. k.required) cs)
      × ((gather result cs).counts.accepted ≡ result.counts.accepted + sum_of (λ k. k.accepted) cs)
unfolding gather add_counts
gather-adds result [] = (omega arith, omega arith, omega arith)
gather-adds result (c ∷ cs) =
    let so_far : FirmStatus = record result {
      counts = add_counts result.counts c.counts;
      headline = next_headline result.headline c.headline;
      clients = append result.clients c;
    } in
    let (h, r, a) = gather-adds so_far cs in
    let m = next_headline-max result.headline c.headline in
    (omega (arith, h, m), omega (arith, r), omega (arith, a))

append-last :
    (xs : List ClientStatus) (c : ClientStatus) (ys : List ClientStatus)
    → append xs c ++ ys ≡ xs ++ (c ∷ ys)
unfolding append
append-last [] c ys = refl
append-last (x ∷ xs) c ys = ap (λ (zs : List ClientStatus). x ∷ zs) (append-last xs c ys)

gather-clients :
    (result : FirmStatus) (cs : List ClientStatus)
    → (gather result cs).clients ≡ result.clients ++ cs
unfolding gather
gather-clients result [] = sym (append_nil result.clients)
gather-clients result (c ∷ cs) =
    let so_far : FirmStatus = record result {
      counts = add_counts result.counts c.counts;
      headline = next_headline result.headline c.headline;
      clients = append result.clients c;
    } in
    gather-clients so_far cs ∙ append-last result.clients c cs

-- What the loop makes of all the clients.
gather-sums :
    (firm : String) (cs : List ClientStatus)
    → (urgency (gather (empty_status firm) cs).headline ≡ most_urgent cs)
      × ((gather (empty_status firm) cs).counts.required ≡ sum_of (λ k. k.required) cs)
      × ((gather (empty_status firm) cs).counts.accepted ≡ sum_of (λ k. k.accepted) cs)
gather-sums firm cs =
    let (h, r, a) = gather-adds (empty_status firm) cs in
    (omega (arith, h), omega (arith, r), omega (arith, a))

-- Where FirmStatus succeeds, it lists what its query reports of each client in order, its headline
-- is the most urgent of theirs (attention, awaiting, partially filed, fully filed), and its
-- required and accepted filings are the sums of theirs.
pub firm_status-sums :
    (env : Environment) (firm : String) (clients : List Client) (db : Db) (r : FirmStatus)
    → (firm_status env firm clients db).0 ≡ ok r
    → let cs = statuses env.now firm clients db in
      (r.clients ≡ cs)
      × (urgency r.headline ≡ most_urgent cs)
      × (r.counts.required ≡ sum_of (λ k. k.required) cs)
      × (r.counts.accepted ≡ sum_of (λ k. k.accepted) cs)
unfolding firm_status firm_status_body
firm_status-sums env firm clients db r h =
    let cs = statuses env.now firm clients db in
    let ran = run_tx-ok env firm (firm_status_body env.now firm clients) db h in
    let q : gather (empty_status firm) cs ≡ r = ground (arith, ran) in
    let (most, wanted, done) = gather-sums firm cs in
    let listed = gather-clients (empty_status firm) cs in
    (
      sym (ap (λ (s : FirmStatus). s.clients) q) ∙ listed,
      sym (ap (λ (s : FirmStatus). urgency s.headline) q) ∙ most,
      sym (ap (λ (s : FirmStatus). s.counts.required) q) ∙ wanted,
      sym (ap (λ (s : FirmStatus). s.counts.accepted) q) ∙ done,
    )
