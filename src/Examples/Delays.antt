-- ===== src/Examples/Delays.antt =====
-- Delays of a worker that tries three times, and of one that waits five seconds at most.
use Prim.Native.Nat.{min, max}
use soraban.Shared.{ℕ, ◌*◌, ◌^◌, ◌<◌, ◌≤◌, Option, none, some, ◌≡◌, ◌↔◌, refl, arith}
use soraban.Shared.Int.{wrap_int64, pos, negsuc}
use soraban.Worker.Backoff.{Backoff, second, delay, positive_or, doubled, with_jitter}
use soraban.Worker.Backoff.Laws.{delay_bounded, delay_exact}

-- The jitter takes two seconds off.
abbrev backoff : Backoff
backoff = record {
  initial = pos second;
  maximum = pos (5 * second);
  max_attempts = 3;
  jitter = some (λ d. negsuc 1999999999);
}

delay_bounded_example :
    ((delay backoff 1 ≡ none) ↔ ((0 < backoff.max_attempts) × (backoff.max_attempts ≤ max 1 1)))
    × ((d : ℕ) → delay backoff 1 ≡ some d → d ≤ positive_or backoff.maximum (300 * second))
delay_bounded_example = delay_bounded backoff 1

-- A second less two is a negative sum, for which the maximum stands.
jitter_underflow : delay backoff 1 ≡ some (5 * second)
unfolding delay positive_or doubled with_jitter wrap_int64 soraban.Shared.Int.◌+ℤ◌
jitter_underflow = refl

delay_exact_example :
    delay
      (record { initial = pos second; maximum = pos (5 * second); max_attempts = 0; jitter = none })
      3
    ≡ some (
        min
          (positive_or (pos (5 * second)) (300 * second))
          (positive_or (pos second) second * 2 ^ 2))
delay_exact_example = delay_exact (pos second) (pos (5 * second)) 2
