-- ===== src/Store/Rate/Spacing.antt =====
-- postgres/internal/store/rate.go: when calls of the IRS for one firm start.
use soraban.Shared.{
  ℕ, ◌+◌, ◌≤◌, ◌<◌, Bool, true, false, not, ◌&&◌, String, str_eq, List, [], ◌∷◌, ◌≡◌, refl, subst,
  sym, ◌∙◌, ap, inl, inr, arith, Bool-cases, update_where, eq_iff,
}
use soraban.Lifecycle.{AcquireCallCommand, ok, CallResult}
use soraban.Store.Tables.{RateGate, Db}
use soraban.Store.Transaction.{Trouble}
use soraban.Store.Rate.{
  Permit, AcquireEnvironment, of_firm, insert_gate, allowed_at, fence_gate, reopen_gate,
  crash_fence, call_spacing, entered_at, acquire_call_permit, finish_permit, is_ambiguous,
}
use soraban.Store.Rate.Gate.{
  gates_of, allowed-insert, insert_gate-own, insert_gate-keeps, gates-update, allowed-other,
  allowed-fence, allowed-reopen,
}
use soraban.Store.Rate.Acquire.{
  Acquired, untouched, looked, entered, acquire_call_permit-Acquired, acquire_call_permit-Entered,
}
use soraban.Store.Rate.Finish.{finish_permit-gates, finish_permit-ok}

-- The calls on the gates, by any number of processes; `Close` does not touch the tables.
pub data RateCall : Type 0 where
  acquires : AcquireEnvironment → AcquireCallCommand → RateCall
  finishes : ℕ → Trouble → Permit → CallResult → RateCall

unfoldable pub rate_after : RateCall → Db → Db
rate_after (acquires env command) db = (acquire_call_permit env command db).1
rate_after (finishes now trouble permit result) db = (finish_permit now trouble permit result db).2

unfoldable pub rate_history : List RateCall → Db → Db
rate_history [] db = db
rate_history (c ∷ cs) db = rate_history cs (rate_after c db)

-- No permit of the firm is finished.
unfoldable pub is_quiet : String → List RateCall → Bool
is_quiet firm [] = true
is_quiet firm (acquires env command ∷ cs) = is_quiet firm cs
is_quiet firm (finishes now trouble permit result ∷ cs) =
    not (str_eq permit.firm_id firm) && is_quiet firm cs

-- When the second transaction of an acquisition stands.
abbrev pub start_of : AcquireEnvironment → AcquireCallCommand → Db → ℕ
start_of env command db = entered_at env (allowed_at command.firm_id db.rate_gates)

allowed-entered :
    (env : AcquireEnvironment) (f firm : String) (gates : List RateGate)
    → allowed_at firm gates
      ≤ allowed_at firm (
          update_where
            (of_firm f)
            (fence_gate (entered_at env (allowed_at f gates)))
            (insert_gate f gates))
unfolding fence_gate
allowed-entered env f firm gates =
    let t = entered_at env (allowed_at f gates) in
    elim (Bool-cases (str_eq f firm)) [
      | inl same ↦
          let fenced = allowed-fence t f (insert_gate f gates) (insert_gate-own f gates) in
          let q : f ≡ firm = ground (arith, eq_iff f firm) in
          subst
            (λ z.
              allowed_at z gates
              ≤ allowed_at z (update_where (of_firm f) (fence_gate t) (insert_gate f gates)))
            q (omega (arith, fenced))
      | inr other ↦
          let stands =
            allowed-other f (fence_gate t) (λ g. refl) firm (insert_gate f gates) other in
          omega (arith, stands, allowed-insert firm f gates)
    ]

Acquired-allowed :
    (env : AcquireEnvironment) (command : AcquireCallCommand) (firm : String)
    (gates gates' : List RateGate)
    → Acquired env command gates gates'
    → (allowed_at firm gates ≤ allowed_at firm gates')
      × (gates_of firm gates ≤ gates_of firm gates')
unfolding fence_gate
Acquired-allowed env command firm gates gates' (untouched q) = rw q (omega arith, omega arith)
Acquired-allowed env command firm gates gates' (looked q) = rw q (
  omega (arith, allowed-insert firm command.firm_id gates),
  insert_gate-keeps firm command.firm_id gates,
)
Acquired-allowed env command firm gates gates' (entered q) =
    let f = command.firm_id in
    let t = entered_at env (allowed_at f gates) in
    rw q (
      allowed-entered env f firm gates,
      omega (
        arith,
        gates-update f (fence_gate t) (λ g. refl) firm (insert_gate f gates),
        insert_gate-keeps firm f gates,
      ),
    )

-- No call takes a gate away, and none but a `Finish` for the firm lets it open earlier.
rate_after-keeps :
    (firm : String) (c : RateCall) (db : Db)
    → (gates_of firm db.rate_gates ≤ gates_of firm (rate_after c db).rate_gates)
      × (is_quiet firm (c ∷ []) ≡ true
          → allowed_at firm db.rate_gates ≤ allowed_at firm (rate_after c db).rate_gates)
unfolding rate_after is_quiet reopen_gate
rate_after-keeps firm (acquires env command) db =
    let (a, g) =
      Acquired-allowed env command firm _ _ (acquire_call_permit-Acquired env command db) in
    (g, λ q. a)
rate_after-keeps firm (finishes now trouble permit result) db =
    let f = permit.firm_id in
    let change = reopen_gate now (is_ambiguous result.outcome) in
    elim (finish_permit-gates now trouble permit result db) [
      | inl same ↦ rw same (omega arith, λ q. omega arith)
      | inr reopened ↦ rw reopened (
        omega (arith, gates-update f change (λ g. refl) firm db.rate_gates),
        λ q.
            let other : str_eq f firm ≡ false = ground arith in
            omega (arith, allowed-other f change (λ g. refl) firm db.rate_gates other),
      )
    ]

rate_history-gates :
    (firm : String) (cs : List RateCall) (db : Db)
    → gates_of firm db.rate_gates ≤ gates_of firm (rate_history cs db).rate_gates
unfolding rate_history
rate_history-gates firm [] db = omega arith
rate_history-gates firm (c ∷ cs) db =
    let (g, _) = rate_after-keeps firm c db in
    let rest = rate_history-gates firm cs (rate_after c db) in omega (arith, g, rest)

is_quiet-split :
    (firm : String) (c : RateCall) (cs : List RateCall)
    → is_quiet firm (c ∷ cs) ≡ true
    → (is_quiet firm (c ∷ []) ≡ true) × (is_quiet firm cs ≡ true)
unfolding is_quiet
is_quiet-split firm (acquires env command) cs h = (refl, h)
is_quiet-split firm (finishes now trouble permit result) cs h = ground arith

rate_history-quiet :
    (firm : String) (cs : List RateCall) (db : Db)
    → is_quiet firm cs ≡ true
    → allowed_at firm db.rate_gates ≤ allowed_at firm (rate_history cs db).rate_gates
unfolding rate_history
rate_history-quiet firm [] db h = omega arith
rate_history-quiet firm (c ∷ cs) db h =
    let (one, others) = is_quiet-split firm c cs h in
    let (_, a) = rate_after-keeps firm c db in
    let rest = rate_history-quiet firm cs (rate_after c db) others in omega (arith, a one, rest)

start-le : (env : AcquireEnvironment) (allowed : ℕ) → allowed ≤ entered_at env allowed
start-le env allowed = omega arith

-- If a permit for a firm is granted, and later, after any rate calls that finish no permit of that
-- firm, the firm acquires again, then the second transaction of the later acquisition stands at
-- least 60 seconds after that of the first.
pub calls_fenced :
    (env env' : AcquireEnvironment) (command command' : AcquireCallCommand) (p : Permit)
    (between : List RateCall) (db : Db)
    → (acquire_call_permit env command db).0 ≡ ok p
    → is_quiet command.firm_id between ≡ true
    → command'.firm_id ≡ command.firm_id
    → start_of env command db + crash_fence
      ≤ start_of env' command' (rate_history between (acquire_call_permit env command db).1)
calls_fenced env env' command command' p between db h quiet same =
    let f = command.firm_id in
    let db1 = (acquire_call_permit env command db).1 in
    let (_, gates) = acquire_call_permit-Entered env command db p h in
    let fenced : start_of env command db + crash_fence ≤ allowed_at f db1.rate_gates = rw gates (
      allowed-fence (start_of env command db) f (insert_gate f db.rate_gates)
        (insert_gate-own f db.rate_gates)) in
    let kept = rate_history-quiet f between db1 quiet in
    rw same (
      omega
        (arith, fenced, kept, start-le env' (allowed_at f (rate_history between db1).rate_gates)))

-- If a permit is granted and, after any rate calls, finished without an error at an instant, then
-- after any rate calls that finish no permit of its firm the second transaction of the next
-- acquisition for the firm stands at least 3.1 seconds after that instant, and at least 60 seconds
-- after it where the outcome was ambiguous.
pub calls_spaced :
    (env env' : AcquireEnvironment) (command command' : AcquireCallCommand) (p : Permit)
    (before between : List RateCall) (now : ℕ) (trouble : Trouble) (result : CallResult) (db : Db)
    → (acquire_call_permit env command db).0 ≡ ok p
    → (finish_permit now trouble p result
        (rate_history before (acquire_call_permit env command db).1)).0
      ≡ ok tt
    → is_quiet command.firm_id between ≡ true
    → command'.firm_id ≡ command.firm_id
    → let start = start_of env' command' (
        rate_history between
          (finish_permit now trouble p result
            (rate_history before (acquire_call_permit env command db).1)).2) in
      (now + call_spacing ≤ start)
      × (is_ambiguous result.outcome ≡ true → now + crash_fence ≤ start)
unfolding fence_gate
calls_spaced env env' command command' p before between now trouble result db h k quiet same =
    let f = command.firm_id in
    let db1 = (acquire_call_permit env command db).1 in
    let db2 = rate_history before db1 in
    let db3 = (finish_permit now trouble p result db2).2 in
    let (mine, gates) = acquire_call_permit-Entered env command db p h in
    let own : 0 < gates_of f db1.rate_gates = rw gates (
      omega (
        arith,
        gates-update f (fence_gate (start_of env command db)) (λ g. refl) f
            (insert_gate f db.rate_gates),
        insert_gate-own f db.rate_gates,
      )) in
    let kept : 0 < gates_of f db2.rate_gates =
      omega (arith, own, rate_history-gates f before db1) in
    let unclear = is_ambiguous result.outcome in
    let reopened = finish_permit-ok now trouble p result db2 k in
    let (soon, late) = allowed-reopen now unclear f db2.rate_gates kept in
    let q : db3.rate_gates ≡ update_where (of_firm f) (reopen_gate now unclear) db2.rate_gates =
      reopened ∙ ap (λ x. update_where (of_firm x) (reopen_gate now unclear) db2.rate_gates) mine in
    let stands = rate_history-quiet f between db3 quiet in
    let begins = start-le env' (allowed_at f (rate_history between db3).rate_gates) in
    rw same (
      omega (arith, rw (sym q) at soon, stands, begins),
      λ u. omega (arith, rw (sym q) at (late u), stands, begins),
    )
