-- ===== src/IrsStub/Model/Identifiers.antt =====
-- irs/internal/stub/model.go, `newOpaqueID`: what it returns is new.
use soraban.Shared.{
  true, false, String, eq_refl, none, some, List, [], ◌∷◌, ◌≡◌, refl, str_append, as_text,
  Bool-cases, Option-cases, subst, ◌⊎◌, inl, inr, arith,
}
use soraban.Lifecycle.{Bytes}
use soraban.Store.Identity.Reference.{hex}
use soraban.IrsStub.Model.{
  FilingRecord, RecordResult, contains, new_opaque_id, result_for, rejection, accepted_result,
  rejected_result,
}

-- Nothing is forgotten.
abbrev pub Extends : List String → List String → Type 0
Extends known known' = (s : String) → contains s known ≡ true → contains s known' ≡ true

contains_head : (s : String) (known : List String) → contains s (s ∷ known) ≡ true
contains_head s known = rw (eq_refl s) refl

contains_tail : (t : String) (known : List String) → Extends known (t ∷ known)
contains_tail t known s h = ground (arith, h)

pub new_opaque_id-new :
    (start : String) (ids : List Bytes) (known : List String) (identifier : String)
    (ids' : List Bytes) (known' : List String)
    → new_opaque_id start ids known ≡ some (identifier, ids', known')
    → (contains identifier known ≡ false) × (known' ≡ identifier ∷ known)
unfolding new_opaque_id
new_opaque_id-new start [] known identifier ids' known' h = absurd (cc h)
new_opaque_id-new start (b ∷ ids) known identifier ids' known' h =
    elim (Bool-cases (contains (str_append start (as_text (hex b))) known)) [
      | inl e ↦ new_opaque_id-new start ids known identifier ids' known' (ground (arith, h, e))
      | inr e ↦ ground (arith, h, e)
    ]

pub new_opaque_id-shape :
    (start : String) (ids : List Bytes) (known : List String) (identifier : String)
    (ids' : List Bytes) (known' : List String)
    → new_opaque_id start ids known ≡ some (identifier, ids', known')
    → (s : String) × (identifier ≡ str_append start s)
unfolding new_opaque_id
new_opaque_id-shape start [] known identifier ids' known' h = absurd (cc h)
new_opaque_id-shape start (b ∷ ids) known identifier ids' known' h =
    elim (Bool-cases (contains (str_append start (as_text (hex b))) known)) [
      | inl e ↦ new_opaque_id-shape start ids known identifier ids' known' (ground (arith, h, e))
      | inr e ↦ (as_text (hex b), ground (arith, h, e))
    ]

pub new_opaque_id-Extends :
    (start : String) (ids : List Bytes) (known : List String) (identifier : String)
    (ids' : List Bytes) (known' : List String)
    → new_opaque_id start ids known ≡ some (identifier, ids', known')
    → Extends known known' × (contains identifier known' ≡ true)
new_opaque_id-Extends start ids known identifier ids' known' h =
    let (_, grown) = new_opaque_id-new start ids known identifier ids' known' h in
    rw grown (contains_tail identifier known, contains_head identifier known)

-- What `resultFor` makes of a record.
unfoldable pub Judged : FilingRecord → RecordResult → Type 0
Judged r result =
    (result.record_id ≡ r.record_id)
    × (((rejection r ≡ none)
          × (result.status ≡ "Accepted")
          × (result.error_reason ≡ "")
          × ((s : String) × (result.irs_record_id ≡ str_append "irsrec_" s)))
        ⊎ ((rejection r ≡ some result.error_reason)
            × (result.status ≡ "Rejected")
            × (result.irs_record_id ≡ "")))

pub result_for-Judged :
    (r : FilingRecord) (ids : List Bytes) (known : List String) (result : RecordResult)
    (ids' : List Bytes) (known' : List String)
    → result_for r ids known ≡ some (result, ids', known')
    → Extends known known' × Judged r result
unfolding result_for accepted_result rejected_result Judged
result_for-Judged r ids known result ids' known' h = elim (Option-cases (rejection r)) [
  | inl e ↦ elim (Option-cases (new_opaque_id "irsrec_" ids known)) [
    | inl none_left ↦ absurd (cc (h, e, none_left))
    | inr ((identifier, left, grown), made) ↦
        let same : grown ≡ known' = cc (h, e, made) in
        let (s, shape) = new_opaque_id-shape "irsrec_" ids known identifier left grown made in
        let more = (new_opaque_id-Extends "irsrec_" ids known identifier left grown made).0 in
        (
          subst (Extends known) same more,
          (cc (h, e, made), inl (e, cc (h, e, made), cc (h, e, made), (s, cc (h, e, made, shape)))),
        )
  ]
  | inr (reason, e) ↦
      let same : known ≡ known' = cc (h, e) in
      (subst (Extends known) same (λ s c. c), (cc (h, e), inr (cc (h, e), cc (h, e), cc (h, e))))
]
