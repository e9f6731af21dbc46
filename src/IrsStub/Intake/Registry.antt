-- ===== src/IrsStub/Intake/Registry.antt =====
-- irs/internal/stub/model.go: a transmission is recorded once, and what is recorded stays.
use soraban.Shared.{
  true, false, ◌&&◌, String, str_eq, eq_iff, eq_refl, some, List, ◌≡◌, refl, sym, subst, ◌⊎◌, inl,
  inr, Bool-cases, arith,
}
use soraban.IrsStub.Model.{
  Float, Transmission, Submission, Intake, IntakeFault, refused, duplicate_utid, received, Store,
  new_store, find_by_utid, find_receipt, find_by_receipt_id, only_firm, contains, intake_succeeded,
  fail_after_record,
}
use soraban.IrsStub.Intake.{Percentages, Draws, stored, record_transmission}
use soraban.IrsStub.Intake.Outcomes.{
  is_found, Judgements, Registration, IntakeOutcome, again, other_utid, lost, registered,
  record_transmission-IntakeOutcome,
}

-- Both maps lead to the same submissions, each under its own names, and no receipt is new.
pub record Consistent (store : Store) : Type 0 where
  pub by_utid :
      (firm utid : String) (s : Submission)
      → find_by_utid firm utid store.by_firm_and_utid ≡ some s
      → (s.firm_id ≡ firm)
        × (s.utid ≡ utid)
        × (find_receipt s.receipt_id store.by_receipt_id ≡ some s)
  pub by_receipt :
      (receipt : String) (s : Submission)
      → find_receipt receipt store.by_receipt_id ≡ some s
      → (s.receipt_id ≡ receipt)
        × (find_by_utid s.firm_id s.utid store.by_firm_and_utid ≡ some s)
        × (contains receipt store.generated_ids ≡ true)

-- What a store finds, another finds.
pub record Kept (store store' : Store) : Type 0 where
  pub utids :
      (firm utid : String) (s : Submission)
      → find_by_utid firm utid store.by_firm_and_utid ≡ some s
      → find_by_utid firm utid store'.by_firm_and_utid ≡ some s
  pub receipts :
      (receipt : String) (s : Submission)
      → find_receipt receipt store.by_receipt_id ≡ some s
      → find_receipt receipt store'.by_receipt_id ≡ some s

both_eq : (a b c d : String) → (str_eq a b && str_eq c d) ≡ true → (a ≡ b) × (c ≡ d)
both_eq a b c d h = (ground (arith, eq_iff a b, h), ground (arith, eq_iff c d, h))

some_eq : {A : Type 0} {a b : A} → some a ≡ some b → a ≡ b
some_eq h = cc h

module _ (input : Transmission) (store : Store) (s : Submission) (known : List String)
    (unknown : is_found input store ≡ false) (new : Registration input store s known)
    (c : Consistent store) where
  found_now : find_by_utid s.firm_id s.utid (stored input s known store).by_firm_and_utid ≡ some s
  unfolding stored find_by_utid
  found_now =
      rw (new.same_firm, new.same_utid) (rw (eq_refl input.firm_id, eq_refl input.utid) refl)

  receipt_now : find_receipt s.receipt_id (stored input s known store).by_receipt_id ≡ some s
  unfolding stored find_receipt
  receipt_now = rw (eq_refl s.receipt_id) refl

  stored-Kept : Kept store (stored input s known store)
  unfolding stored find_by_utid find_receipt
  stored-Kept = record {
    utids = λ firm utid t h.
        elim (Bool-cases (str_eq input.firm_id firm && str_eq input.utid utid)) [
          | inl e ↦
              let (p, q) = both_eq input.firm_id firm input.utid utid e in
              absurd (cc (h, unknown, p, q))
          | inr e ↦ rw e h
        ];
    receipts = λ receipt t h. elim (Bool-cases (str_eq s.receipt_id receipt)) [
      | inl e ↦
          let p : s.receipt_id ≡ receipt = (eq_iff s.receipt_id receipt).0 e in
          let (_, _, inside) = c.by_receipt receipt t h in absurd (cc (inside, new.new_receipt, p))
      | inr e ↦ rw e h
    ];
  }

  stored-Consistent : Consistent (stored input s known store)
  unfolding stored find_by_utid find_receipt
  stored-Consistent = record {
    by_utid = λ firm utid t h.
        elim (Bool-cases (str_eq input.firm_id firm && str_eq input.utid utid)) [
          | inl e ↦
              let (p, q) = both_eq input.firm_id firm input.utid utid e in
              let same : s ≡ t = cc (h, e) in
              subst
                (λ t.
                  (t.firm_id ≡ firm)
                  × (t.utid ≡ utid)
                  × (find_receipt t.receipt_id (stored input s known store).by_receipt_id ≡ some t))
                same (cc (p, new.same_firm), cc (q, new.same_utid), receipt_now)
          | inr e ↦
              let (p, q, r) = c.by_utid firm utid t (cc (h, e)) in
              (p, q, stored-Kept.receipts t.receipt_id t r)
        ];
    by_receipt = λ receipt t h. elim (Bool-cases (str_eq s.receipt_id receipt)) [
      | inl e ↦
          let p : s.receipt_id ≡ receipt = (eq_iff s.receipt_id receipt).0 e in
          let same : s ≡ t = cc (h, e) in
          subst
            (λ t.
              (t.receipt_id ≡ receipt)
              × (find_by_utid t.firm_id t.utid (stored input s known store).by_firm_and_utid
                  ≡ some t)
              × (contains receipt known ≡ true))
            same (p, found_now, subst (λ r. contains r known ≡ true) p new.known_receipt)
      | inr e ↦
          let (p, q, r) = c.by_receipt receipt t (cc (h, e)) in
          (p, stored-Kept.utids t.firm_id t.utid t q, new.keeps receipt r)
    ];
  }

-- Calls of `record`, one after another.
pub data Steps (F : Float) : Store → Store → Type 1 where
  stay : {store : Store} → Steps F store store
  step :
      {store store' after : Store} (config : Percentages F) (draws : Draws F) (input : Transmission)
      (reply : Intake)
      → record_transmission F config draws input store ≡ some (reply, store')
      → Steps F store' after
      → Steps F store after

abbrev same_store :
    {store store' : Store}
    → store' ≡ store
    → Consistent store
    → Consistent store' × Kept store store'
same_store {store} e c =
    subst (λ t. Consistent t × Kept store t) (sym e)
      (c, record { utids = λ firm utid s h. h; receipts = λ receipt s h. h })

IntakeOutcome-Consistent :
    {input : Transmission} {store : Store} {reply : Intake} {store' : Store}
    → IntakeOutcome input store reply store'
    → Consistent store
    → Consistent store' × Kept store store'
IntakeOutcome-Consistent (again _ _ e) c = same_store e c
IntakeOutcome-Consistent (other_utid _ _ _ e) c = same_store e c
IntakeOutcome-Consistent (lost _ _ _ e) c = same_store e c
IntakeOutcome-Consistent {input} {store} (registered s known unknown _ new _ e) c =
    subst (λ t. Consistent t × Kept store t) (sym e)
      (
        stored-Consistent input store s known unknown new c,
        stored-Kept input store s known unknown new c,
      )

pub Steps-Consistent :
    {F : Float} {store after : Store}
    → Steps F store after
    → Consistent store
    → Consistent after × Kept store after
Steps-Consistent stay c = same_store refl c
Steps-Consistent {F} {store} (step {store' = store'} config draws input reply h more) c =
    let (next, kept) =
      IntakeOutcome-Consistent
        (record_transmission-IntakeOutcome F config draws input store reply store' h) c in
    let (last, others) = Steps-Consistent more next in
    (
      last,
      record {
        utids = λ firm utid s found. others.utids firm utid s (kept.utids firm utid s found);
        receipts = λ receipt s found. others.receipts receipt s (kept.receipts receipt s found);
      },
    )

pub new_store-Consistent : Consistent new_store
unfolding new_store find_by_utid find_receipt
new_store-Consistent = record {
  by_utid = λ firm utid s h. absurd (cc h);
  by_receipt = λ receipt s h. absurd (cc h);
}

-- In every store that calls of record make of a new one, the two maps lead to the same submissions,
-- each under its own names, and every receipt was generated.
pub store-Consistent : {F : Float} {store : Store} → Steps F new_store store → Consistent store
store-Consistent steps = (Steps-Consistent steps new_store-Consistent).0

same_receipt :
    {receipt receipt' : String} {fault : IntakeFault}
    → (received receipt fault ≡ received receipt' intake_succeeded)
      ⊎ (received receipt fault ≡ received receipt' fail_after_record)
    → receipt' ≡ receipt
same_receipt (inl e) = cc e
same_receipt (inr e) = cc e

registered_found :
    {input : Transmission} {store : Store} {receipt : String} {fault : IntakeFault} {store' : Store}
    → IntakeOutcome input store (received receipt fault) store'
    → Consistent store
    → (s : Submission) × ((s.receipt_id ≡ receipt)
        × Judgements input.records s.results
        × (find_by_utid input.firm_id input.utid store'.by_firm_and_utid ≡ some s))
registered_found (again _ e _) c = absurd (cc e)
registered_found (other_utid _ _ e _) c = absurd (cc e)
registered_found (lost _ _ e _) c = absurd (cc e)
registered_found {input} {store} {receipt} {fault} {store'}
      (registered s known unknown _ new kind e) c =
    let at_once = found_now input store s known unknown new c in
    (s, (same_receipt kind, new.judged, cc (at_once, e, new.same_firm, new.same_utid)))

refuse_found :
    (F : Float) (config : Percentages F) (draws : Draws F) (input : Transmission) (store : Store)
    (s : Submission)
    → find_by_utid input.firm_id input.utid store.by_firm_and_utid ≡ some s
    → record_transmission F config draws input store ≡ some (refused duplicate_utid, store)
unfolding record_transmission
refuse_found F config draws input store s h = rw h refl

-- What a transmission's firm finds of it, and what becomes of another with its UTID.
pub record Recorded (F : Float) (input : Transmission) (receipt : String) (store : Store)
    : Type 1 where
  pub submission : Submission
  pub by_utid : find_by_utid input.firm_id input.utid store.by_firm_and_utid ≡ some submission
  pub by_receipt : find_by_receipt_id input.firm_id receipt store ≡ some submission
  pub judged : Judgements input.records submission.results
  pub again_refused :
      (config : Percentages F) (draws : Draws F) (other : Transmission)
      → other.firm_id ≡ input.firm_id
      → other.utid ≡ input.utid
      → record_transmission F config draws other store ≡ some (refused duplicate_utid, store)

-- Once record has given a transmission a receipt, even where it then reports a failure, every later
-- store finds one submission for it, by its UTID and by the receipt, with a result for each record
-- in order, and refuses any other transmission of the firm with that UTID as a duplicate,
-- unchanged.
pub record_transmission-Recorded :
    (F : Float) (config : Percentages F) (draws : Draws F) (input : Transmission) (receipt : String)
    (fault : IntakeFault) (store store' later : Store)
    → Steps F new_store store
    → record_transmission F config draws input store ≡ some (received receipt fault, store')
    → Steps F store' later
    → Recorded F input receipt later
unfolding find_by_receipt_id only_firm
record_transmission-Recorded F config draws input receipt fault store store' later before h after =
    let c = store-Consistent before in
    let outcome =
      record_transmission-IntakeOutcome F config draws input store (received receipt fault) store'
        h in
    let (c', _) = IntakeOutcome-Consistent outcome c in
    let (s, (same, judged, found)) = registered_found outcome c in
    let (c'', kept) = Steps-Consistent after c' in
    let now = kept.utids input.firm_id input.utid s found in
    let (firm, utid, listed) = c''.by_utid input.firm_id input.utid s now in
    record {
      submission = s;
      by_utid = now;
      by_receipt =
          rw (subst (λ r. find_receipt r later.by_receipt_id ≡ some s) same listed)
            (ground (arith, eq_iff s.firm_id input.firm_id, firm));
      judged = judged;
      again_refused =
          λ config' draws' other e f. refuse_found F config' draws' other later s (rw (e, f) now);
    }
