-- ===== src/Store/Determination/Determining/Rules.antt =====
-- postgres/internal/store/determination.go and the view `payment_classification_nec_2025_v1`: the sums
-- of a vendor, described payment by payment.
use soraban.Shared.{
  ℕ, ◌==◌, Bool, true, false, ◌&&◌, ◌||◌, String, str_eq, eq_iff, List, [], ◌∷◌, select_where, ◌≡◌,
  refl, ◌⊎◌, inl, inr, Bool-cases, arith,
}
use soraban.Shared.Int.{ℤ, pos, ◌+ℤ◌, leb_ℤ, is_positive}
use soraban.Store.Tables.{Payment}
use soraban.Store.Determination.{
  is_counted, sum_where, is_of, reportable, withheld, classified, qualifies,
}
use soraban.Store.Determination.Determining.Groups.{seen_before}

-- The sum of a column over the payments of which `P` holds, and no other.
pub data Total (P : Payment → Type 0) (column : Payment → ℤ) : List Payment → ℤ → Type 0 where
  no_more : Total P column [] (pos 0)
  added :
      {p : Payment} {ps : List Payment} {n : ℤ}
      → P p
      → Total P column ps n
      → Total P column (p ∷ ps) (column p +ℤ n)
  passed_over :
      {p : Payment} {ps : List Payment} {n : ℤ}
      → (P p → ⊥)
      → Total P column ps n
      → Total P column (p ∷ ps) n

-- A payment of the vendor of a client, in a dataset of a firm.
abbrev pub Paid : ℕ → String → String → String → Payment → Type 0
Paid dataset firm client vendor p =
    (p.dataset_id ≡ dataset)
    × (p.firm_id ≡ firm)
    × (p.client_id ≡ client)
    × (p.vendor_identity ≡ vendor)

-- It was paid in a way that counts.
abbrev pub Counted : ℕ → String → String → String → Payment → Type 0
Counted dataset firm client vendor p =
    Paid dataset firm client vendor p
    × ((p.payment_method ≡ "check")
        ⊎ ((p.payment_method ≡ "ach")
            ⊎ ((p.payment_method ≡ "wire") ⊎ (p.payment_method ≡ "cash"))))

sum_where-Total :
    (P : Payment → Type 0) (column : Payment → ℤ) (chosen test : Payment → Bool)
    → ((p : Payment) → (chosen p && test p) ≡ true → P p)
    → ((p : Payment) → P p → (chosen p && test p) ≡ true)
    → (ps : List Payment) → Total P column ps (sum_where test column (select_where chosen ps))
unfolding sum_where
sum_where-Total P column chosen test sound complete [] = no_more
sum_where-Total P column chosen test sound complete (p ∷ ps) =
    let rest = sum_where-Total P column chosen test sound complete ps in
    elim (Bool-cases (chosen p)) [
      | inr c ↦ rw c (passed_over (λ h. absurd (cc (complete p h, c))) rest)
      | inl c ↦ elim (Bool-cases (test p)) [
        | inr t ↦ rw (c, t) (passed_over (λ h. absurd (cc (complete p h, c, t))) rest)
        | inl t ↦ rw (c, t) (added (sound p (rw (c, t) refl)) rest)
      ]
    ]

abbrev chosen : ℕ → String → Payment → Bool
chosen dataset firm p = p.dataset_id == dataset && str_eq p.firm_id firm

Paid-test :
    (dataset : ℕ) (firm client vendor : String) (p : Payment)
    → (chosen dataset firm p && is_of (client, vendor) p) ≡ true
    → Paid dataset firm client vendor p
unfolding is_of
Paid-test dataset firm client vendor p h = (
  ground (arith, h),
  (eq_iff p.firm_id firm).0 (ground (arith, h)),
  (eq_iff p.client_id client).0 (ground (arith, h)),
  (eq_iff p.vendor_identity vendor).0 (ground (arith, h)),
)

test-Paid :
    (dataset : ℕ) (firm client vendor : String) (p : Payment)
    → Paid dataset firm client vendor p
    → (chosen dataset firm p && is_of (client, vendor) p) ≡ true
unfolding is_of
test-Paid dataset firm client vendor p (d, f, c, v) =
    let a = (eq_iff p.firm_id firm).1 f in
    let b = (eq_iff p.client_id client).1 c in
    let e = (eq_iff p.vendor_identity vendor).1 v in rw (a, b, e) (ground (arith, d))

four_methods :
    (p : Payment)
    → is_counted p ≡ true
    → (p.payment_method ≡ "check")
      ⊎ ((p.payment_method ≡ "ach") ⊎ ((p.payment_method ≡ "wire") ⊎ (p.payment_method ≡ "cash")))
unfolding is_counted
four_methods p h = elim (Bool-cases (str_eq p.payment_method "check")) [
  | inl a ↦ inl ((eq_iff p.payment_method "check").0 a)
  | inr a ↦ elim (Bool-cases (str_eq p.payment_method "ach")) [
    | inl b ↦ inr (inl ((eq_iff p.payment_method "ach").0 b))
    | inr b ↦ elim (Bool-cases (str_eq p.payment_method "wire")) [
      | inl c ↦ inr (inr (inl ((eq_iff p.payment_method "wire").0 c)))
      | inr c ↦
          let last : str_eq p.payment_method "cash" ≡ true = ground (arith, h, a, b, c) in
          inr (inr (inr ((eq_iff p.payment_method "cash").0 last)))
    ]
  ]
]

method_counts :
    (p : Payment)
    → (p.payment_method ≡ "check")
      ⊎ ((p.payment_method ≡ "ach") ⊎ ((p.payment_method ≡ "wire") ⊎ (p.payment_method ≡ "cash")))
    → is_counted p ≡ true
unfolding is_counted
method_counts p (inl e) = rw e refl
method_counts p (inr (inl e)) = rw e refl
method_counts p (inr (inr (inl e))) = rw e refl
method_counts p (inr (inr (inr e))) = rw e refl

module _ (dataset : ℕ) (firm client vendor : String) (all : List Payment) where
  pub withheld-Total :
      Total
        (Paid dataset firm client vendor)
        (λ (p : Payment). p.backup_withholding_cents)
        all
        (withheld (client, vendor) (classified dataset firm all))
  unfolding classified
  withheld-Total =
      sum_where-Total (Paid dataset firm client vendor)
        (λ (p : Payment). p.backup_withholding_cents) (chosen dataset firm) (is_of (client, vendor))
        (Paid-test dataset firm client vendor) (test-Paid dataset firm client vendor) all

  pub reportable-Total :
      Total
        (Counted dataset firm client vendor)
        (λ (p : Payment). p.amount_cents)
        all
        (reportable (client, vendor) (classified dataset firm all))
  unfolding classified
  reportable-Total =
      sum_where-Total (Counted dataset firm client vendor) (λ (p : Payment). p.amount_cents)
        (chosen dataset firm) (λ p. is_of (client, vendor) p && is_counted p)
        (λ p h. (
          Paid-test dataset firm client vendor p (ground (arith, h)),
          four_methods p (ground (arith, h)),
        ))
        (λ p h.
          let own = test-Paid dataset firm client vendor p h.0 in
          let counts = method_counts p h.1 in ground (arith, own, counts))
        all

unseen-sum :
    (v : String × String) (test : Payment → Bool) (column : Payment → ℤ) (ps : List Payment)
    → seen_before v ps ≡ false
    → ((p : Payment) → is_of v p ≡ false → test p ≡ false)
    → sum_where test column ps ≡ pos 0
unfolding sum_where
unseen-sum v test column [] h k = refl
unseen-sum v test column (p ∷ ps) h k = elim (Bool-cases (is_of v p)) [
  | inl e ↦ absurd (cc (h, e))
  | inr e ↦ rw (k p e) (unseen-sum v test column ps (cc (h, e)) k)
]

-- A vendor without a payment does not qualify.
pub unseen-qualifies :
    (v : String × String) (ps : List Payment) → seen_before v ps ≡ false → qualifies ps v ≡ false
unfolding qualifies
unseen-qualifies v ps h =
    let nothing =
      unseen-sum v (λ p. is_of v p && is_counted p) (λ (p : Payment). p.amount_cents) ps h
        (λ p e. rw e refl) in
    let none_held =
      unseen-sum v (is_of v) (λ (p : Payment). p.backup_withholding_cents) ps h (λ p e. e) in
    rw (nothing, none_held) refl

-- The test of HAVING, of the two sums.
pub qualifies-threshold :
    (v : String × String) (ps : List Payment)
    → qualifies ps v ≡ (leb_ℤ (pos 60000) (reportable v ps) || is_positive (withheld v ps))
unfolding qualifies
qualifies-threshold v ps = refl
