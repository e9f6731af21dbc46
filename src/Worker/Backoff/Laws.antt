-- ===== src/Worker/Backoff/Laws.antt =====
-- service/internal/filing/worker.go: the delays double up to the maximum, and end in time.
use Prim.Native.Nat.{min, max}
use native.Mathlib.Nat.{pow-suc}
use soraban.Shared.{
  ℕ, zero, suc, ◌-◌, ◌*◌, ◌/◌, ◌^◌, ◌≤◌, ◌<◌, ltb, leb, Option, none, some, ◌≡◌, ◌↔◌, ◌∙◌, ap, inl,
  inr, arith, Bool-cases, if◌then◌else◌,
}
use soraban.Shared.Int.{wrap_int64, ℤ, pos, negsuc, ◌+ℤ◌}
use soraban.Worker.Backoff.{
  Backoff, second, positive_or, doubled, capped, with_jitter, in_range, delay,
}

one-le-pow : (k : ℕ) → 1 ≤ 2 ^ k
one-le-pow zero = omega arith
one-le-pow (suc k) = omega (arith, pow-suc 2 k, one-le-pow k)

le-mul_pow : (d k : ℕ) → d ≤ d * 2 ^ k
le-mul_pow d k = let one = one-le-pow k in grind arith

-- Doubling with a check for the maximum is doubling, cut off at the maximum.
doubled-min :
    (k maximum d : ℕ) → 0 < d → capped maximum (doubled k maximum d) ≡ min maximum (d * 2 ^ k)
unfolding doubled
doubled-min zero maximum d h = ground arith
doubled-min (suc k) maximum d h =
    let wide = le-mul_pow d k in
    let two = pow-suc 2 k in
    let far : d * 2 ^ suc k ≡ 2 * (d * 2 ^ k) = omega (arith, ap (λ (t : ℕ). d * t) two) in
    elim (Bool-cases (ltb d maximum)) [
      | inl below ↦ elim (Bool-cases (ltb (maximum / 2) d)) [
        | inl half ↦ rw (below, half) (ground arith)
        | inr more ↦
            let rest = doubled-min k maximum (d * 2) (omega arith) in
            let same : d * 2 * 2 ^ k ≡ 2 * (d * 2 ^ k) = omega arith in
            rw (below, more) (ground arith)
      ]
      | inr above ↦ rw above (ground arith)
    ]

positive_or-pos : (d : ℤ) (fallback : ℕ) → 0 < fallback → 0 < positive_or d fallback
unfolding positive_or
positive_or-pos (pos zero) f h = h
positive_or-pos (pos (suc n)) f h = omega arith
positive_or-pos (negsuc n) f h = h

with_jitter-le : (j : Option (ℕ → ℤ)) (maximum d : ℕ) → with_jitter j maximum d ≤ maximum
unfolding with_jitter
with_jitter-le none maximum d = ground arith
with_jitter-le (some j) maximum d = in_range-le maximum (wrap_int64 (pos d +ℤ j d))
  where
    in_range-le : (m : ℕ) (z : ℤ) → in_range m z ≤ m
    in_range-le m (pos n) = ground arith
    in_range-le m (negsuc n) = omega arith

-- A delay is refused exactly where a positive number of attempts is configured and max 1 attempt
-- has reached it, and every delay is at most the configured maximum, or 300 seconds where that is
-- not positive, whatever the jitter returns and also where the int64 sum wraps around.
pub delay_bounded :
    (b : Backoff) (attempt : ℕ)
    → ((delay b attempt ≡ none) ↔ ((0 < b.max_attempts) × (b.max_attempts ≤ max 1 attempt)))
      × ((d : ℕ) → delay b attempt ≡ some d → d ≤ positive_or b.maximum (300 * second))
unfolding delay
delay_bounded b attempt =
    let m = positive_or b.maximum (300 * second) in
    let n = if leb attempt 0 then 1 else attempt in
    let bound =
      with_jitter-le b.jitter m (capped m (doubled (n - 1) m (positive_or b.initial second))) in
    (ground arith, λ d h. ground arith)

-- Without jitter and without a limit of attempts, the delay of attempt k + 1 is the initial delay
-- (one second where it is not positive) times 2 ^ k, cut off at the maximum (300 seconds where it
-- is not positive).
pub delay_exact :
    (initial maximum : ℤ) (attempt : ℕ)
    → delay
        (record { initial = initial; maximum = maximum; max_attempts = 0; jitter = none })
        (suc attempt)
      ≡ some (min (positive_or maximum (300 * second)) (positive_or initial second * 2 ^ attempt))
unfolding delay with_jitter
delay_exact initial maximum attempt =
    let m = positive_or maximum (300 * second) in
    let d = positive_or initial second in
    let found = doubled-min attempt m d (positive_or-pos initial second (omega arith)) in
    let twice : capped m (capped m (doubled attempt m d)) ≡ capped m (doubled attempt m d) =
      ground arith in
    let nth : (if leb (suc attempt) 0 then 1 else suc attempt) - 1 ≡ attempt = ground arith in
    ap (λ (k : ℕ). some (capped m (capped m (doubled k m d)))) nth ∙ ap some (twice ∙ found)
