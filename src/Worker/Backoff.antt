-- ===== src/Worker/Backoff.antt =====
-- service/internal/filing/worker.go: `Backoff.Delay`. Attempts are counted from 0, durations are
-- int64 nanoseconds, and only the sum with the jitter can leave their range.
pub mod Laws
use soraban.Shared.{
  ℕ, zero, suc, ◌+◌, ◌-◌, ◌*◌, ◌/◌, ◌%◌, Bool, true, false, ◌&&◌, ◌||◌, ltb, leb, Option, none,
  some, if◌then◌else◌,
}
use soraban.Shared.Int.{ℤ, pos, negsuc, pos_part, neg_part, ◌+ℤ◌, wrap_int64}
use soraban.Lifecycle.{Duration}

-- `max_attempts` is 0 where the configured number is not positive.
pub record Backoff : Type 0 where
  pub initial : Duration
  pub maximum : Duration
  pub max_attempts : ℕ
  pub jitter : Option (ℕ → Duration)

abbrev pub second : ℕ
second = 1000000000

-- `if d <= 0 { d = fallback }`.
unfoldable pub positive_or : Duration → ℕ → ℕ
positive_or (pos zero) fallback = fallback
positive_or (pos (suc n)) fallback = suc n
positive_or (negsuc n) fallback = fallback

-- The loop, by the rounds that are left.
unfoldable pub doubled : ℕ → ℕ → ℕ → ℕ
doubled zero maximum delay = delay
doubled (suc rounds) maximum delay =
    let rest = doubled rounds maximum (delay * 2) in
    if ltb delay maximum then (if ltb (maximum / 2) delay then maximum else rest) else delay

abbrev pub capped : ℕ → ℕ → ℕ
capped maximum delay = if ltb maximum delay then maximum else delay

-- `delay < 0 || delay > maximum`.
in_range : ℕ → ℤ → ℕ
in_range maximum (pos n) = capped maximum n
in_range maximum (negsuc n) = maximum

unfoldable pub with_jitter : Option (ℕ → Duration) → ℕ → ℕ → ℕ
unfolding in_range
with_jitter none maximum delay = capped maximum delay
with_jitter (some jitter) maximum delay = in_range maximum (wrap_int64 (pos delay +ℤ jitter delay))

-- `none` is the `false` of an attempt that is not to be made.
unfoldable pub delay : Backoff → ℕ → Option ℕ
delay backoff attempt =
    let n = if leb attempt 0 then 1 else attempt in
    if ltb 0 backoff.max_attempts && leb backoff.max_attempts n
    then none
    else let maximum = positive_or backoff.maximum (300 * second) in
      some (
        with_jitter backoff.jitter maximum
          (capped maximum (doubled (n - 1) maximum (positive_or backoff.initial second))))
