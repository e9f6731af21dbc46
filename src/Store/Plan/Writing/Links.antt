-- ===== src/Store/Plan/Writing/Links.antt =====
-- postgres/internal/store/filing.go, `PlanBatches`: each filing is linked to the batch of its group.
use soraban.Shared.{
  ℕ, suc, Bool, true, false, String, str_eq, eq_iff, Option, none, some, is_some, List, [], ◌∷◌,
  ◌++◌, ◌≡◌, refl, sym, ap, ◌∙◌, subst, All, find_where, select_where, Bool-cases, inl, inr, arith,
}
use soraban.Lifecycle.{Bytes}
use soraban.Store.Tables.{Filing, Batch, BatchFiling}
use soraban.Store.Plan.Writing.{
  Identities, PlannedBatch, PlannedLink, Planning, links_of, batch_rows, has_utid, violates_utid_uk,
  joined, link_rows, plan_encoded, plan_groups,
}

-- The links of a batch: its filings with the slots from `slot` on.
pub links_for : ℕ → String → ℕ → List Filing → List BatchFiling
links_for batch firm slot [] = []
links_for batch firm slot (f ∷ fs) =
    record {
      batch_id = batch;
      filing_id = f.id;
      firm_id = firm;
      client_id = f.client_id;
      slot = slot;
    }
    ∷ links_for batch firm (suc slot) fs

-- The links of the groups, the batches of which have the identities from `id` on.
unfoldable pub expected_links : ℕ → String → List (List Filing) → List BatchFiling
unfolding links_for
expected_links id firm [] = []
expected_links id firm ([] ∷ gs) = expected_links id firm gs
expected_links id firm ((f ∷ fs) ∷ gs) =
    links_for id firm 1 (f ∷ fs) ++ expected_links (suc id) firm gs

-- A batch for each group, and its links.
abbrev pub Plans : List (List Filing) → Planning → Type 0
Plans [] p = p ≡ ([], [])
Plans ([] ∷ gs) p = Plans gs p
Plans ((f ∷ fs) ∷ gs) p =
    (b : PlannedBatch) × (bs : List PlannedBatch) × (ls : List PlannedLink) × (p
      ≡ (b ∷ bs, links_of b.utid f.client_id 1 (f ∷ fs) ++ ls))
    × Plans gs (bs, ls)

module _ (sha256 : Bytes → Bytes) (ids : Identities) (text_before : String → String → Bool) where
  plan_encoded-Plans :
      (firm : String) (f : Filing) (fs : List Filing) (gs : List (List Filing)) (utid : String)
      (xml : Option Bytes) (rest : Option Planning) (p : Planning)
      → ((q : Planning) → rest ≡ some q → Plans gs q)
      → plan_encoded sha256 ids text_before firm f fs utid xml rest ≡ some p
      → Plans ((f ∷ fs) ∷ gs) p
  unfolding plan_encoded
  plan_encoded-Plans firm f fs gs utid none rest p h k = absurd (cc k)
  plan_encoded-Plans firm f fs gs utid (some xml) none p h k = absurd (cc k)
  plan_encoded-Plans firm f fs gs utid (some xml) (some (bs, ls)) p h k = (
    record {
      client_id = f.client_id;
      tax_year = f.tax_year;
      utid = utid;
      canonical_xml = xml;
      payload_hash = sha256 xml;
    },
    bs,
    ls,
    sym (cc k),
    h (bs, ls) refl,
  )

  pub plan_groups-Plans :
      (firm : String) (gs : List (List Filing)) (p : Planning)
      → plan_groups sha256 ids text_before firm gs ≡ some p
      → Plans gs p
  unfolding plan_groups
  plan_groups-Plans firm [] p h = sym (cc h)
  plan_groups-Plans firm ([] ∷ gs) p h = plan_groups-Plans firm gs p h
  plan_groups-Plans firm ((f ∷ fs) ∷ gs) p h =
      plan_encoded-Plans firm f fs gs _ _ (plan_groups sha256 ids text_before firm gs) p
        (λ q e. plan_groups-Plans firm gs q e) h

-- The rows of a UTID.
abbrev found_rows : Batch → List Batch → List Batch
found_rows r bs = select_where (has_utid r.firm_id r.utid) bs

nothing_found :
    (test : Batch → Bool) (bs : List Batch)
    → is_some (find_where test bs) ≡ false
    → select_where test bs ≡ []
nothing_found test [] h = refl
nothing_found test (b ∷ bs) h = elim (Bool-cases (test b)) [
  | inl e ↦ absurd (cc (h, e))
  | inr e ↦ rw e (nothing_found test bs (cc (h, e)))
]

select-cons-nil :
    (test : Batch → Bool) (b : Batch) (bs : List Batch)
    → select_where test (b ∷ bs) ≡ []
    → (test b ≡ false) × (select_where test bs ≡ [])
select-cons-nil test b bs h = elim (Bool-cases (test b)) [
  | inl e ↦ absurd (cc (h, e))
  | inr e ↦ (e, cc (h, e))
]

has_utid-sym :
    (a b : Batch) → has_utid a.firm_id a.utid b ≡ false → has_utid b.firm_id b.utid a ≡ false
unfolding has_utid
has_utid-sym a b h = elim (Bool-cases (str_eq a.firm_id b.firm_id)) [
  | inr e ↦ rw e refl
  | inl e ↦ elim (Bool-cases (str_eq a.utid b.utid)) [
    | inr f ↦ rw (e, f) refl
    | inl f ↦
        let back : str_eq b.firm_id a.firm_id ≡ true =
          (eq_iff b.firm_id a.firm_id).1 (sym ((eq_iff a.firm_id b.firm_id).0 e)) in
        let again : str_eq b.utid a.utid ≡ true =
          (eq_iff b.utid a.utid).1 (sym ((eq_iff a.utid b.utid).0 f)) in
        absurd (cc (h, back, again))
  ]
]

split_known :
    (b : Batch) (known rows : List Batch)
    → All (λ r. found_rows r (b ∷ known) ≡ []) rows
    → All (λ r. has_utid r.firm_id r.utid b ≡ false) rows × All (λ r. found_rows r known ≡ []) rows
split_known b known [] h = (tt, tt)
split_known b known (r ∷ rs) h =
    let (here, there) = select-cons-nil (has_utid r.firm_id r.utid) b known h.0 in
    let (apart, others) = split_known b known rs h.1 in ((here, apart), (there, others))

none_of :
    (b : Batch) (rows : List Batch)
    → All (λ r. has_utid r.firm_id r.utid b ≡ false) rows
    → found_rows b rows ≡ []
none_of b [] h = refl
none_of b (r ∷ rs) h = rw (has_utid-sym r b h.0) (none_of b rs h.1)

-- Where the constraint holds, the rows that are new have UTIDs of their own.
unknown_rows :
    (known rows : List Batch)
    → violates_utid_uk known rows ≡ false
    → All (λ r. found_rows r known ≡ []) rows
unfolding violates_utid_uk
unknown_rows known [] h = tt
unknown_rows known (b ∷ bs) h = (
  nothing_found (has_utid b.firm_id b.utid) known (ground (arith, h)),
  (split_known b known bs (unknown_rows (b ∷ known) bs (ground (arith, h)))).1,
)

keep_others :
    (b : Batch) (bs rows : List Batch)
    → All (λ r. has_utid r.firm_id r.utid b ≡ false) rows
    → All (λ r. found_rows r bs ≡ r ∷ []) rows
    → All (λ r. found_rows r (b ∷ bs) ≡ r ∷ []) rows
keep_others b bs [] h k = tt
keep_others b bs (r ∷ rs) h k = (rw h.0 k.0, keep_others b bs rs h.1 k.1)

own_utid : (b : Batch) → has_utid b.firm_id b.utid b ≡ true
unfolding has_utid
own_utid b = rw ((eq_iff b.firm_id b.firm_id).1 refl, (eq_iff b.utid b.utid).1 refl) refl

own_rows :
    (known rows : List Batch)
    → violates_utid_uk known rows ≡ false
    → All (λ r. found_rows r rows ≡ r ∷ []) rows
unfolding violates_utid_uk
own_rows known [] h = tt
own_rows known (b ∷ bs) h =
    let later : violates_utid_uk (b ∷ known) bs ≡ false = ground (arith, h) in
    let (apart, _) = split_known b known bs (unknown_rows (b ∷ known) bs later) in
    (
      rw (own_utid b, none_of b bs apart) refl,
      keep_others b bs bs apart (own_rows (b ∷ known) bs later),
    )

select-append :
    (test : Batch → Bool) (xs bs : List Batch)
    → select_where test (xs ++ bs) ≡ select_where test xs ++ select_where test bs
select-append test [] bs = refl
select-append test (a ∷ xs) bs = elim (Bool-cases (test a)) [
  | inl e ↦ rw e (ap (λ (cs : List Batch). a ∷ cs) (select-append test xs bs))
  | inr e ↦ rw e (select-append test xs bs)
]

both_rows :
    (known all rows : List Batch)
    → All (λ r. found_rows r known ≡ []) rows
    → All (λ r. found_rows r all ≡ r ∷ []) rows
    → All (λ r. found_rows r (known ++ all) ≡ r ∷ []) rows
both_rows known all [] h k = tt
both_rows known all (r ∷ rs) h k = (
  select-append (has_utid r.firm_id r.utid) known all ∙ rw (h.0, k.0) refl,
  both_rows known all rs h.1 k.1,
)

pub one_row_each :
    (known rows : List Batch)
    → violates_utid_uk known rows ≡ false
    → All (λ r. found_rows r (known ++ rows) ≡ r ∷ []) rows
one_row_each known rows h =
    both_rows known rows rows (unknown_rows known rows h) (own_rows known rows h)

append_assoc : (a b c : List BatchFiling) → (a ++ b) ++ c ≡ a ++ (b ++ c)
append_assoc [] b c = refl
append_assoc (x ∷ a) b c = rw (append_assoc a b c) refl

link_rows-append :
    (firm : String) (ks ls : List PlannedLink) (all : List Batch)
    → link_rows firm (ks ++ ls) all ≡ link_rows firm ks all ++ link_rows firm ls all
unfolding link_rows
link_rows-append firm [] ls all = refl
link_rows-append firm (k ∷ ks) ls all =
    rw (link_rows-append firm ks ls all) (sym (append_assoc (joined firm k all) _ _))

link_rows-links_of :
    (firm utid client : String) (slot : ℕ) (fs : List Filing) (row : Batch) (all : List Batch)
    → select_where (has_utid firm utid) all ≡ row ∷ []
    → link_rows firm (links_of utid client slot fs) all ≡ links_for row.id firm slot fs
unfolding link_rows links_of joined links_for
link_rows-links_of firm utid client slot [] row all h = refl
link_rows-links_of firm utid client slot (f ∷ fs) row all h =
    rw (h, link_rows-links_of firm utid client (suc slot) fs row all h) refl

-- The links that are written are those of the groups.
pub link_rows-expected :
    (now id : ℕ) (firm : String) (gs : List (List Filing)) (bs : List PlannedBatch)
    (ls : List PlannedLink) (all : List Batch)
    → Plans gs (bs, ls)
    → All (λ r. found_rows r all ≡ r ∷ []) (batch_rows now id firm bs)
    → link_rows firm ls all ≡ expected_links id firm gs
unfolding expected_links link_rows batch_rows
link_rows-expected now id firm [] bs ls all p h =
    let same : ls ≡ [] = ap (λ (q : Planning). q.1) p in rw same refl
link_rows-expected now id firm ([] ∷ gs) bs ls all p h =
    link_rows-expected now id firm gs bs ls all p h
link_rows-expected now id firm ((f ∷ fs) ∷ gs) bs ls all (b, bs', ls', e, more) h =
    let same : bs ≡ b ∷ bs' = ap (λ (q : Planning). q.0) e in
    let links : ls ≡ links_of b.utid f.client_id 1 (f ∷ fs) ++ ls' = ap (λ (q : Planning). q.1) e in
    let k = subst (λ cs. All (λ r. found_rows r all ≡ r ∷ []) (batch_rows now id firm cs)) same h in
    let mine = link_rows-links_of firm b.utid f.client_id 1 (f ∷ fs) _ all k.0 in
    let others = link_rows-expected now (suc id) firm gs bs' ls' all more k.1 in
    rw links (
      link_rows-append firm (links_of b.utid f.client_id 1 (f ∷ fs)) ls' all
      ∙ rw (mine, others) refl)

-- Without a batch there is nothing to link.
pub expected_links-none :
    (id : ℕ) (firm : String) (gs : List (List Filing)) (ls : List PlannedLink)
    → Plans gs ([], ls)
    → expected_links id firm gs ≡ []
unfolding expected_links
expected_links-none id firm [] ls p = refl
expected_links-none id firm ([] ∷ gs) ls p = expected_links-none id firm gs ls p
expected_links-none id firm ((f ∷ fs) ∷ gs) ls (b, bs, ls', e, more) =
    absurd (cc (ap (λ (q : Planning). q.0) e))
