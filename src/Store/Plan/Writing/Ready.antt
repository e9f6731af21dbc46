-- ===== src/Store/Plan/Writing/Ready.antt =====
-- postgres/internal/store/filing.go, `PlanBatches`: which filings are planned, and the batches that
-- the determination has already.
use soraban.Shared.{
  ℕ, ◌==◌, Bool, true, false, ◌&&◌, String, str_eq, eq_iff, is_some, List, [], ◌∷◌, ◌≡◌, ◌≢◌, refl,
  sym, ap, ◌∙◌, subst, ◌⊎◌, inl, inr, ◌↔◌, All, In, find_where, select_where, Bool-cases, arith,
}
use soraban.Store.Tables.{
  Filing, FilingState, blocked_preflight, ready, batched, accepted, rejected, BatchFiling,
}
use soraban.Store.Plan.{comes_before, insert, ordered}
use soraban.Store.Plan.Writing.{
  PlanBatchesCommand, is_ready, is_linked, to_plan, insert_id, is_determined, batch_ids,
}

-- A ready filing of the determination that is in no batch.
pub record Plannable (command : PlanBatchesCommand) (links : List BatchFiling) (f : Filing)
    : Type 0 where
  pub of_firm : f.firm_id ≡ command.firm_id
  pub of_determination : f.determination_id ≡ command.determination_id
  pub is_ready : f.state ≡ ready
  pub unlinked : All (λ (l : BatchFiling). l.filing_id ≢ f.id) links

ready_state : (s : FilingState) → is_ready s ≡ true → s ≡ ready
ready_state ready h = refl
ready_state blocked_preflight h = absurd (cc h)
ready_state batched h = absurd (cc h)
ready_state accepted h = absurd (cc h)
ready_state rejected h = absurd (cc h)

not_linked :
    (links : List BatchFiling) (f : Filing)
    → is_linked links f ≡ false
    → All (λ (l : BatchFiling). l.filing_id ≢ f.id) links
unfolding is_linked
not_linked [] f h = tt
not_linked (l ∷ ls) f h = elim (Bool-cases (l.filing_id == f.id)) [
  | inl e ↦ absurd (cc (h, e))
  | inr e ↦ (λ same. absurd (ground (arith, e, same)), not_linked ls f (cc (h, e)))
]

never_linked :
    (links : List BatchFiling) (f : Filing)
    → All (λ (l : BatchFiling). l.filing_id ≢ f.id) links
    → is_linked links f ≡ false
unfolding is_linked
never_linked [] f h = refl
never_linked (l ∷ ls) f h = elim (Bool-cases (l.filing_id == f.id)) [
  | inl e ↦ absurd (h.0 (ground (arith, e)))
  | inr e ↦ rw e (never_linked ls f h.1)
]

to_plan-Plannable :
    (command : PlanBatchesCommand) (links : List BatchFiling) (f : Filing)
    → to_plan command links f ≡ true
    → Plannable command links f
unfolding to_plan
to_plan-Plannable command links f h = record {
  of_firm = (eq_iff f.firm_id command.firm_id).0 (ground (arith, h));
  of_determination = ground (arith, h);
  is_ready = ready_state f.state (ground (arith, h));
  unlinked = not_linked links f (ground (arith, h));
}

Plannable-to_plan :
    (command : PlanBatchesCommand) (links : List BatchFiling) (f : Filing)
    → Plannable command links f
    → to_plan command links f ≡ true
unfolding to_plan is_linked
Plannable-to_plan command links f p =
    let firm = (eq_iff f.firm_id command.firm_id).1 p.of_firm in
    let free = never_linked links f p.unlinked in
    let determination = p.of_determination in
    rw (firm, p.is_ready, free) (ground (arith, determination))

select-Plannable :
    (command : PlanBatchesCommand) (links : List BatchFiling) (fs : List Filing)
    → All (Plannable command links) (select_where (to_plan command links) fs)
select-Plannable command links [] = tt
select-Plannable command links (f ∷ fs) = elim (Bool-cases (to_plan command links f)) [
  | inl e ↦ rw e (to_plan-Plannable command links f e, select-Plannable command links fs)
  | inr e ↦ rw e (select-Plannable command links fs)
]

In-select :
    (test : Filing → Bool) (fs : List Filing) (f : Filing)
    → In f fs
    → test f ≡ true
    → In f (select_where test fs)
In-select test [] f i h = absurd i
In-select test (g ∷ gs) f (inl e) h =
    let k : test g ≡ true = subst (λ x. test x ≡ true) e h in rw k (inl e)
In-select test (g ∷ gs) f (inr i) h = elim (Bool-cases (test g)) [
  | inl k ↦ rw k (inr (In-select test gs f i h))
  | inr k ↦ rw k (In-select test gs f i h)
]

module _ (text_before : String → String → Bool) where
  insert-All :
      (P : Filing → Type 0) (f : Filing) (fs : List Filing)
      → P f
      → All P fs
      → All P (insert text_before f fs)
  unfolding insert
  insert-All P f [] h k = (h, tt)
  insert-All P f (g ∷ gs) h k = elim (Bool-cases (comes_before text_before g f)) [
    | inl e ↦ rw e (k.0, insert-All P f gs h k.1)
    | inr e ↦ rw e (h, k)
  ]

  ordered-All : (P : Filing → Type 0) (fs : List Filing) → All P fs → All P (ordered text_before fs)
  unfolding ordered
  ordered-All P [] h = tt
  ordered-All P (f ∷ fs) h = insert-All P f (ordered text_before fs) h.0 (ordered-All P fs h.1)

  In-insert : (f x : Filing) (fs : List Filing) → (x ≡ f) ⊎ In x fs → In x (insert text_before f fs)
  unfolding insert
  In-insert f x [] i = i
  In-insert f x (g ∷ gs) i = elim (Bool-cases (comes_before text_before g f)) [
    | inr e ↦ rw e i
    | inl e ↦ rw e (elim i [
      | inl same ↦ inr (In-insert f x gs (inl same))
      | inr there ↦ elim there [
        | inl head ↦ inl head
        | inr tail ↦ inr (In-insert f x gs (inr tail))
      ]
    ])
  ]

  In-ordered : (x : Filing) (fs : List Filing) → In x fs → In x (ordered text_before fs)
  unfolding ordered
  In-ordered x [] i = i
  In-ordered x (f ∷ fs) (inl e) = In-insert f x (ordered text_before fs) (inl e)
  In-ordered x (f ∷ fs) (inr i) = In-insert f x (ordered text_before fs) (inr (In-ordered x fs i))

  pub planned-Plannable :
      (command : PlanBatchesCommand) (links : List BatchFiling) (fs : List Filing)
      → All
          (Plannable command links)
          (ordered text_before (select_where (to_plan command links) fs))
  planned-Plannable command links fs =
      ordered-All (Plannable command links) (select_where (to_plan command links) fs)
        (select-Plannable command links fs)

  pub Plannable-planned :
      (command : PlanBatchesCommand) (links : List BatchFiling) (fs : List Filing) (f : Filing)
      → In f fs
      → Plannable command links f
      → In f (ordered text_before (select_where (to_plan command links) fs))
  Plannable-planned command links fs f i p =
      In-ordered f (select_where (to_plan command links) fs)
        (In-select (to_plan command links) fs f i (Plannable-to_plan command links f p))

-- The filing of a link, of the determination.
abbrev pub Belongs : PlanBatchesCommand → BatchFiling → Filing → Type 0
Belongs command l f =
    (f.id ≡ l.filing_id)
    × (f.firm_id ≡ command.firm_id)
    × (f.determination_id ≡ command.determination_id)

-- A batch that has a filing of the determination.
abbrev pub HasDetermined : PlanBatchesCommand → List Filing → List BatchFiling → ℕ → Type 0
HasDetermined command fs links n =
    (l : BatchFiling) × (f : Filing) × In l links × In f fs × (l.batch_id ≡ n) × Belongs command l f

-- No number stands twice in a list.
abbrev pub NoTwice : List ℕ → Type 0
NoTwice [] = Unit
NoTwice (n ∷ ns) = (In n ns → ⊥) × NoTwice ns

found_in : (n : ℕ) (ns : List ℕ) → is_some (find_where (λ m. m == n) ns) ≡ true → In n ns
found_in n [] h = absurd (cc h)
found_in n (m ∷ ns) h = elim (Bool-cases (m == n)) [
  | inl e ↦ inl (ground (arith, e))
  | inr e ↦ inr (found_in n ns (cc (h, e)))
]

not_found_in : (n : ℕ) (ns : List ℕ) → is_some (find_where (λ m. m == n) ns) ≡ false → In n ns → ⊥
not_found_in n [] h i = i
not_found_in n (m ∷ ns) h i = elim (Bool-cases (m == n)) [
  | inl e ↦ absurd (cc (h, e))
  | inr e ↦ elim i [
    | inl same ↦ absurd (ground (arith, e, same))
    | inr there ↦ not_found_in n ns (cc (h, e)) there
  ]
]

insert_id-NoTwice : (n : ℕ) (ns : List ℕ) → NoTwice ns → NoTwice (insert_id n ns)
unfolding insert_id
insert_id-NoTwice n ns h = elim (Bool-cases (is_some (find_where (λ m. m == n) ns))) [
  | inl e ↦ rw e h
  | inr e ↦ rw e (not_found_in n ns e, h)
]

In-insert_id : (n m : ℕ) (ns : List ℕ) → In m (insert_id n ns) ↔ ((m ≡ n) ⊎ In m ns)
unfolding insert_id
In-insert_id n m ns = elim (Bool-cases (is_some (find_where (λ k. k == n) ns))) [
  | inl e ↦ rw e (
    λ i. inr i,
    λ i. elim i [
      | inl same ↦ subst (λ k. In k ns) (sym same) (found_in n ns e)
      | inr there ↦ there
    ],
  )
  | inr e ↦ rw e (λ i. i, λ i. i)
]

determined_by :
    (command : PlanBatchesCommand) (fs : List Filing) (l : BatchFiling)
    → is_determined command fs l ≡ true
    → (f : Filing) × In f fs × Belongs command l f
unfolding is_determined
determined_by command [] l h = absurd (cc h)
determined_by command (f ∷ fs) l h =
    elim (Bool-cases (
      f.id == l.filing_id
      && str_eq f.firm_id command.firm_id
      && f.determination_id == command.determination_id)) [
        | inl e ↦ (
          f,
          inl refl,
          (
            ground (arith, e),
            (eq_iff f.firm_id command.firm_id).0 (ground (arith, e)),
            ground (arith, e),
          ),
        )
        | inr e ↦ let (g, i, b) = determined_by command fs l (rw e at h) in (g, inr i, b)
      ]

determines :
    (command : PlanBatchesCommand) (fs : List Filing) (l : BatchFiling) (f : Filing)
    → In f fs
    → Belongs command l f
    → is_determined command fs l ≡ true
unfolding is_determined
determines command [] l f i b = absurd i
determines command (g ∷ gs) l f i b =
    elim (Bool-cases (
      g.id == l.filing_id
      && str_eq g.firm_id command.firm_id
      && g.determination_id == command.determination_id)) [
        | inl e ↦ rw e refl
        | inr e ↦ rw e (elim i [
          | inr there ↦ determines command gs l f there b
          | inl same ↦
              let (x, y, z) = subst (Belongs command l) same b in
              let firm = (eq_iff g.firm_id command.firm_id).1 y in
              absurd (ground (arith, e, x, firm, z))
        ])
      ]

more_linked :
    (command : PlanBatchesCommand) (fs : List Filing) (l : BatchFiling) (ls : List BatchFiling)
    (n : ℕ)
    → HasDetermined command fs ls n
    → HasDetermined command fs (l ∷ ls) n
more_linked command fs l ls n (k, f, i, at_file, q, b) = (k, f, inr i, at_file, q, b)

-- The distinct batches that the determination's filings are in.
pub batch_ids-HasDetermined :
    (command : PlanBatchesCommand) (fs : List Filing) (links : List BatchFiling)
    → NoTwice (batch_ids command fs links)
      × ((n : ℕ) → In n (batch_ids command fs links) ↔ HasDetermined command fs links n)
unfolding batch_ids
batch_ids-HasDetermined command fs [] = (tt, λ n. (λ i. absurd i, λ (l, f, i, _, _, _). absurd i))
batch_ids-HasDetermined command fs (l ∷ ls) =
    let (once, each) = batch_ids-HasDetermined command fs ls in
    elim (Bool-cases (is_determined command fs l)) [
      | inr e ↦ rw e (
        once,
        λ n. (
          λ i. more_linked command fs l ls n ((each n).0 i),
          λ (k, f, i, at_file, q, b). elim i [
            | inr there ↦ (each n).1 (k, f, there, at_file, q, b)
            | inl same ↦ absurd (
                cc (e, determines command fs l f at_file (subst (λ x. Belongs command x f) same b)))
          ],
        ),
      )
      | inl e ↦
          let (f, i, b) = determined_by command fs l e in
          rw e (
            insert_id-NoTwice l.batch_id (batch_ids command fs ls) once,
            λ n. (
              λ j. elim ((In-insert_id l.batch_id n (batch_ids command fs ls)).0 j) [
                | inl same ↦ (l, f, inl refl, i, sym same, b)
                | inr there ↦ more_linked command fs l ls n ((each n).0 there)
              ],
              λ (k, g, j, at_file, q, c).
                  (In-insert_id l.batch_id n (batch_ids command fs ls)).1 (elim j [
                    | inl same ↦ inl (sym q ∙ ap (λ (x : BatchFiling). x.batch_id) same)
                    | inr there ↦ inr ((each n).1 (k, g, there, at_file, q, c))
                  ]),
            ),
          )
    ]
