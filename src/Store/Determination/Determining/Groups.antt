-- ===== src/Store/Determination/Determining/Groups.antt =====
-- postgres/internal/store/determination.go, `DetermineDataset`: how often a vendor is a group.
use soraban.Shared.{
  ℕ, ◌+◌, Bool, true, false, ◌&&◌, str_eq, eq_iff, eq_refl, is_some, List, [], ◌∷◌, if◌then◌else◌,
  select_where, find_where, count_where, ◌≡◌, refl, ap, ◌∙◌, sym, subst, Bool-cases, inl, inr,
  arith,
}
use soraban.Store.Tables.{Payment}
use soraban.Store.Determination.{Vendor, vendor_of, is_of, vendors}

abbrev pub same_vendor : Vendor → Vendor → Bool
same_vendor (client, vendor) (c, i) = str_eq c client && str_eq i vendor

same_vendor_eq : (v w : Vendor) → same_vendor v w ≡ true → w ≡ v
same_vendor_eq (a, b) (c, d) h =
    let p : c ≡ a = (eq_iff c a).0 (ground (arith, h)) in
    let q : d ≡ b = (eq_iff d b).0 (ground (arith, h)) in cc (p, q)

abbrev pub seen_before : Vendor → List Payment → Bool
seen_before v ps = is_some (find_where (is_of v) ps)

not_counted : (n : ℕ) → 0 + n ≡ n
not_counted n = omega arith

-- How often a vendor is a group.
module _ (p : Payment) (seen ps : List Payment) where
  is_of_own : is_of (vendor_of p) p ≡ true
  unfolding is_of
  is_of_own = rw (eq_refl p.client_id, eq_refl p.vendor_identity) refl

  own_group :
      count_where (same_vendor (vendor_of p)) (vendors (p ∷ seen) ps) ≡ (
        if seen_before (vendor_of p) (p ∷ seen)
        then 0
        else if seen_before (vendor_of p) ps
        then 1
        else 0)
      → count_where (same_vendor (vendor_of p)) (vendors seen (p ∷ ps)) ≡ (
          if seen_before (vendor_of p) seen
          then 0
          else if seen_before (vendor_of p) (p ∷ ps)
          then 1
          else 0)
  unfolding vendors
  own_group ih =
      let later : count_where (same_vendor (vendor_of p)) (vendors (p ∷ seen) ps) ≡ 0 =
        ih ∙ rw is_of_own refl in
      elim (Bool-cases (seen_before (vendor_of p) seen)) [
        | inl f ↦ rw f later
        | inr f ↦
            rw (f, is_of_own, eq_refl p.client_id, eq_refl p.vendor_identity) (omega (arith, later))
      ]

  other_group :
      (v : Vendor)
      → same_vendor v (vendor_of p) ≡ false
      → count_where (same_vendor v) (vendors (p ∷ seen) ps)
        ≡ (if seen_before v (p ∷ seen) then 0 else if seen_before v ps then 1 else 0)
      → count_where (same_vendor v) (vendors seen (p ∷ ps))
        ≡ (if seen_before v seen then 0 else if seen_before v (p ∷ ps) then 1 else 0)
  unfolding vendors is_of
  other_group (a, b) e ih =
      let later : count_where (same_vendor (a, b)) (vendors (p ∷ seen) ps)
          ≡ (if seen_before (a, b) seen then 0 else if seen_before (a, b) ps then 1 else 0) =
        ih ∙ rw e refl in
      elim (Bool-cases (seen_before (vendor_of p) seen)) [
        | inl f ↦ rw (f, e) later
        | inr f ↦ rw (f, e) (not_counted _ ∙ later)
      ]

pub count-vendors :
    (v : Vendor) (seen ps : List Payment)
    → count_where (same_vendor v) (vendors seen ps)
      ≡ (if seen_before v seen then 0 else if seen_before v ps then 1 else 0)
unfolding vendors
count-vendors v seen [] = ground arith
count-vendors v seen (p ∷ ps) = elim (Bool-cases (same_vendor v (vendor_of p))) [
  | inl e ↦
      let same = same_vendor_eq v (vendor_of p) e in
      subst
        (λ w.
          count_where (same_vendor w) (vendors seen (p ∷ ps))
          ≡ (if seen_before w seen then 0 else if seen_before w (p ∷ ps) then 1 else 0))
        same (own_group p seen ps (count-vendors (vendor_of p) (p ∷ seen) ps))
  | inr e ↦ other_group p seen ps v e (count-vendors v (p ∷ seen) ps)
]

ap_count : {b : Bool} {m : ℕ} (n : ℕ) → b ≡ true → m ≡ (if b then n else 0) → m ≡ n
ap_count n e h = h ∙ rw e refl

no_count : {b : Bool} {m : ℕ} (n : ℕ) → b ≡ false → m ≡ (if b then n else 0) → m ≡ 0
no_count n e h = h ∙ rw e refl

pub count-select :
    (test : Vendor → Bool) (v : Vendor) (ws : List Vendor)
    → count_where (same_vendor v) (select_where test ws)
      ≡ (if test v then count_where (same_vendor v) ws else 0)
count-select test v [] = ground arith
count-select test v (w ∷ ws) = elim (Bool-cases (same_vendor v w)) [
  | inl e ↦
      let same : test w ≡ test v = ap test (same_vendor_eq v w e) in
      elim (Bool-cases (test v)) [
        | inl f ↦ rw (same, f) (omega (arith, ap_count _ f (count-select test v ws)))
        | inr f ↦ rw (same, f) (no_count _ f (count-select test v ws))
      ]
  | inr e ↦ elim (Bool-cases (test w)) [
    | inl f ↦ rw f (
        rw e (
          not_counted _
          ∙ count-select test v ws
          ∙ ap (λ n. if test v then n else 0) (sym (not_counted _))))
    | inr f ↦
        rw f
          (rw e (count-select test v ws ∙ ap (λ n. if test v then n else 0) (sym (not_counted _))))
  ]
]
