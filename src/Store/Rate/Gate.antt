-- ===== src/Store/Rate/Gate.antt =====
-- postgres/internal/store/rate.go: what the statements do to the gate of a firm.
use soraban.Shared.{
  ℕ, ◌+◌, ◌≤◌, ◌<◌, Bool, true, false, String, str_eq, List, [], ◌∷◌, ◌++◌, ◌≡◌, refl, ◌⊎◌, inl,
  inr, arith, Bool-cases, count_where, update_where, eq_iff, eq_refl,
}
use soraban.Lifecycle.{Result, ok}
use soraban.Store.Tables.{RateGate, Db}
use soraban.Store.Transaction.{
  Trouble, calm, begin_fails, context_not_set, statement_fails, commit_fails, Body,
}
use soraban.Store.Transaction.Laws.{finish-Ran, finish-ok}
use soraban.Store.Rate.{
  of_firm, insert_gate, allowed_at, fence_gate, reopen_gate, crash_fence, call_spacing, run_on_conn,
}

abbrev pub gates_of : String → List RateGate → ℕ
gates_of firm gates = count_where (of_firm firm) gates

allowed-append :
    (firm f : String) (gates : List RateGate)
    → allowed_at firm
        (gates ++ (record { firm_id = f; next_call_at = 0; crash_fence_until = 0 } ∷ []))
      ≡ allowed_at firm gates
unfolding allowed_at
allowed-append firm f [] = ground arith
allowed-append firm f (g ∷ gs) = let rest = allowed-append firm f gs in ground arith

count-append :
    (firm f : String) (gates : List RateGate)
    → gates_of firm gates
      ≤ gates_of firm
          (gates ++ (record { firm_id = f; next_call_at = 0; crash_fence_until = 0 } ∷ []))
count-append firm f [] = ground arith
count-append firm f (g ∷ gs) = let rest = count-append firm f gs in ground arith

count-append_own :
    (f : String) (gates : List RateGate)
    → 0
      < gates_of f (gates ++ (record { firm_id = f; next_call_at = 0; crash_fence_until = 0 } ∷ []))
count-append_own f [] = ground (arith, eq_refl f)
count-append_own f (g ∷ gs) = let rest = count-append_own f gs in ground arith

-- A new gate is open.
pub allowed-insert :
    (firm f : String) (gates : List RateGate)
    → allowed_at firm (insert_gate f gates) ≡ allowed_at firm gates
unfolding insert_gate
allowed-insert firm f gates = ground (arith, allowed-append firm f gates)

pub insert_gate-own : (f : String) (gates : List RateGate) → 0 < gates_of f (insert_gate f gates)
unfolding insert_gate
insert_gate-own f gates = ground (arith, count-append_own f gates)

pub insert_gate-keeps :
    (firm f : String) (gates : List RateGate)
    → gates_of firm gates ≤ gates_of firm (insert_gate f gates)
unfolding insert_gate
insert_gate-keeps firm f gates = ground (arith, count-append firm f gates)

module _ (f : String) (change : RateGate → RateGate)
    (same : (g : RateGate) → (change g).firm_id ≡ g.firm_id) where
  -- An update that keeps the firms keeps the number of gates.
  pub gates-update :
      (firm : String) (gates : List RateGate)
      → gates_of firm (update_where (of_firm f) change gates) ≡ gates_of firm gates
  gates-update firm [] = refl
  gates-update firm (g ∷ gs) = let rest = gates-update firm gs in let s = same g in ground arith

  -- The gate of another firm stands.
  pub allowed-other :
      (firm : String) (gates : List RateGate)
      → str_eq f firm ≡ false
      → allowed_at firm (update_where (of_firm f) change gates) ≡ allowed_at firm gates
  unfolding allowed_at
  allowed-other firm [] h = refl
  allowed-other firm (g ∷ gs) h =
      let rest = allowed-other firm gs h in
      let s = same g in ground (arith, eq_iff f firm, eq_iff g.firm_id f, eq_iff g.firm_id firm)

-- The firm's gate after the fence is put up.
pub allowed-fence :
    (now : ℕ) (f : String) (gates : List RateGate)
    → 0 < gates_of f gates
    → now + crash_fence ≤ allowed_at f (update_where (of_firm f) (fence_gate now) gates)
unfolding allowed_at fence_gate
allowed-fence now f [] h = absurd (omega (arith, h))
allowed-fence now f (g ∷ gs) h = elim (Bool-cases (of_firm f g)) [
  | inl mine ↦ ground arith
  | inr other ↦ let rest = allowed-fence now f gs (ground arith) in ground arith
]

-- The firm's gate after a call is over.
pub allowed-reopen :
    (now : ℕ) (unclear : Bool) (f : String) (gates : List RateGate)
    → 0 < gates_of f gates
    → (now + call_spacing ≤ allowed_at f (update_where (of_firm f) (reopen_gate now unclear) gates))
      × (unclear ≡ true
          → now + crash_fence
            ≤ allowed_at f (update_where (of_firm f) (reopen_gate now unclear) gates))
unfolding allowed_at reopen_gate
allowed-reopen now unclear f [] h = absurd (omega (arith, h))
allowed-reopen now unclear f (g ∷ gs) h = elim (Bool-cases (of_firm f g)) [
  | inl mine ↦ (ground arith, λ u. ground arith)
  | inr other ↦
      let (a, b) = allowed-reopen now unclear f gs (ground arith) in
      (ground arith, λ u. let c = b u in ground arith)
]

module _ {A : Type 0} (body : Body A) (db : Db) where
  abbrev pub RanOn : Result A × Db → Type 0
  RanOn r = (r.1 ≡ db) ⊎ ((a : A) × (db' : Db) × (body db ≡ ok (a, db')) × (r.1 ≡ db'))

  -- The tables are as before, or as a successful body leaves them.
  pub run_on_conn-Ran : (t : Trouble) → RanOn (run_on_conn t body db)
  unfolding run_on_conn
  run_on_conn-Ran begin_fails = inl refl
  run_on_conn-Ran context_not_set = inl refl
  run_on_conn-Ran (statement_fails e) = inl refl
  run_on_conn-Ran calm = finish-Ran calm (body db) db
  run_on_conn-Ran (commit_fails e applied) = finish-Ran (commit_fails e applied) (body db) db

  -- Without an error the body has run and its tables are those of the COMMIT.
  pub run_on_conn-ok :
      (t : Trouble) {a : A}
      → (run_on_conn t body db).0 ≡ ok a
      → body db ≡ ok (a, (run_on_conn t body db).1)
  unfolding run_on_conn
  run_on_conn-ok begin_fails h = cc
  run_on_conn-ok context_not_set h = cc
  run_on_conn-ok (statement_fails e) h = cc
  run_on_conn-ok calm h = finish-ok calm (body db) db h
  run_on_conn-ok (commit_fails e applied) h = finish-ok (commit_fails e applied) (body db) db h
