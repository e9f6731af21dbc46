-- ===== src/Store/Claims/Order.antt =====
-- postgres/internal/store/filing.go, `ClaimNextBatch`: which row the candidate is.
use soraban.Shared.{
  true, false, String, Option, none, some, List, [], ◌∷◌, ◌≡◌, refl, subst, inl, inr, arith, All,
  In, Bool-cases, Option-cases,
}
use soraban.Store.Tables.{Batch}
use soraban.Store.Transaction.{Environment}
use soraban.Store.Claims.{is_due, is_before, earlier, candidate}

module _ (env : Environment) (firm : String) where
  earlier-In :
      (b : Batch) (bs : List Batch) (c : Batch) (rest : Option Batch)
      → ((d : Batch) → rest ≡ some d → In d bs × (is_due env firm d ≡ true))
      → is_due env firm b ≡ true
      → earlier b rest ≡ some c
      → In c (b ∷ bs) × (is_due env firm c ≡ true)
  unfolding earlier
  earlier-In b bs c none h due e = (inl (ground arith), ground arith)
  earlier-In b bs c (some d) h due e = elim (Bool-cases (is_before d b)) [
    | inl before ↦ let (i, q) = h d refl in (inr (ground arith), ground arith)
    | inr after_it ↦ (inl (ground arith), ground arith)
  ]

  -- The candidate is a row that is due.
  pub candidate-In :
      (bs : List Batch) (c : Batch)
      → candidate env firm bs ≡ some c
      → In c bs × (is_due env firm c ≡ true)
  unfolding candidate
  candidate-In [] c h = cc
  candidate-In (b ∷ bs) c h = elim (Bool-cases (is_due env firm b)) [
    | inl due ↦
        earlier-In b bs c (candidate env firm bs) (λ d q. candidate-In bs d q) due (rw due at h)
    | inr not_due ↦ let (i, q) = candidate-In bs c (rw not_due at h) in (inr i, q)
  ]

  -- Nothing is due that would have to come before `c`.
  abbrev pub NoneBefore : Batch → List Batch → Type 0
  NoneBefore c = All (λ x. is_due env firm x ≡ true → is_before x c ≡ false)

  -- Without a candidate nothing is due.
  pub candidate-none :
      (bs : List Batch) → candidate env firm bs ≡ none → All (λ x. is_due env firm x ≡ false) bs
  unfolding candidate earlier
  candidate-none [] h = tt
  candidate-none (b ∷ bs) h = elim (Option-cases (candidate env firm bs)) [
    | inl e ↦ (ground arith, candidate-none bs e)
    | inr (d, e) ↦ absurd (ground arith)
  ]

  before_trans :
      (x c b : Batch) → is_before x c ≡ false → is_before c b ≡ false → is_before x b ≡ false
  unfolding is_before
  before_trans x c b h k = ground arith

  before_asym : (b c : Batch) → is_before c b ≡ true → is_before b c ≡ false
  unfolding is_before
  before_asym b c h = ground arith

  before_irrefl : (b : Batch) → is_before b b ≡ false
  unfolding is_before
  before_irrefl b = ground arith

  NoneBefore-later :
      (b c : Batch) (bs : List Batch) → is_before c b ≡ false → NoneBefore c bs → NoneBefore b bs
  NoneBefore-later b c [] h k = tt
  NoneBefore-later b c (x ∷ bs) h k =
      (λ due. before_trans x c b (k.0 due) h, NoneBefore-later b c bs h k.1)

  NoneBefore-not_due :
      (b : Batch) (bs : List Batch) → All (λ x. is_due env firm x ≡ false) bs → NoneBefore b bs
  NoneBefore-not_due b [] h = tt
  NoneBefore-not_due b (x ∷ bs) h = (λ due. cc (due, h.0), NoneBefore-not_due b bs h.1)

  earlier-NoneBefore :
      (b : Batch) (bs : List Batch) (c : Batch)
      → ((d : Batch) → candidate env firm bs ≡ some d → NoneBefore d bs)
      → earlier b (candidate env firm bs) ≡ some c
      → NoneBefore c (b ∷ bs)
  unfolding earlier
  earlier-NoneBefore b bs c h e = elim (Option-cases (candidate env firm bs)) [
    | inl n ↦
        let q : b ≡ c = ground arith in
        subst (λ z. NoneBefore z (b ∷ bs)) q
          (λ _. before_irrefl b, NoneBefore-not_due b bs (candidate-none bs n))
    | inr (d, m) ↦ elim (Bool-cases (is_before d b)) [
      | inl before ↦
          let q : d ≡ c = ground arith in
          subst (λ z. NoneBefore z (b ∷ bs)) q (λ _. before_asym b d before, h d m)
      | inr after_it ↦
          let q : b ≡ c = ground arith in
          subst (λ z. NoneBefore z (b ∷ bs)) q
            (λ _. before_irrefl b, NoneBefore-later b d bs after_it (h d m))
    ]
  ]

  pub candidate-NoneBefore :
      (bs : List Batch) (c : Batch) → candidate env firm bs ≡ some c → NoneBefore c bs
  unfolding candidate
  candidate-NoneBefore [] c h = tt
  candidate-NoneBefore (b ∷ bs) c h = elim (Bool-cases (is_due env firm b)) [
    | inl due ↦ earlier-NoneBefore b bs c (λ d q. candidate-NoneBefore bs d q) (rw due at h)
    | inr not_due ↦ (λ due. cc (due, not_due), candidate-NoneBefore bs c (rw not_due at h))
  ]
