-- ===== src/Ladder.antt =====
-- The two timers of a worker: the stall timeout (worker.go: bumpTimeout, decayTimeout) and the retry
-- backoff (backoff.go). A duration is a number of nanoseconds and never negative.
pub mod Bounds
use go_download.Base.{ℕ, zero, suc, ◌+◌, ◌-◌, ◌*◌, leb, ltb, if◌then◌else◌, max}

abbrev pub timeout_step : ℕ
timeout_step = 5_000_000_000

abbrev pub max_stall_timeout : ℕ
max_stall_timeout = 90_000_000_000

abbrev pub decay_window : ℕ
decay_window = 16

-- The worker's fields `timeout`, `dtt` and `bo.attempt`.
pub record Ladder : Type 0 where
  pub timeout : ℕ
  pub dtt : ℕ
  pub attempt : ℕ

abbrev pub ceiling : ℕ → ℕ
ceiling base = max base max_stall_timeout

-- `bumpTimeout`; `base` is Options.Timeout.
unfoldable pub bump_timeout : ℕ → Ladder → Ladder
bump_timeout base w =
    let timeout : ℕ = if ltb w.timeout base then base else w.timeout in
    record w {
      timeout =
          if leb (ceiling base - timeout_step) timeout
          then ceiling base
          else timeout + timeout_step;
      dtt = decay_window;
    }

-- `decayTimeout`. A difference below 0 would be raised to `base` too.
unfoldable pub decay_timeout : ℕ → Ladder → Ladder
decay_timeout base w =
    if leb w.timeout base
    then record w { timeout = base; attempt = 0 }
    else if ltb 0 w.dtt
    then record w { dtt = w.dtt - 1; attempt = 0 }
    else record w {
      timeout = if leb (w.timeout - timeout_step) base then base else w.timeout - timeout_step;
      dtt = decay_window;
      attempt = 0;
    }

abbrev pub backoff_base : ℕ
backoff_base = 500_000_000

abbrev pub backoff_cap : ℕ
backoff_cap = 30_000_000_000

-- The loop of `next`: the doubles are whole numbers below 2 ^ 53, so the arithmetic is exact.
unfoldable pub grown : ℕ → ℕ → ℕ
grown zero d = d
grown (suc n) d =
    let rest = grown n (d * 2) in if leb backoff_cap (d * 2) then backoff_cap else rest

-- `backoff.next` up to the random factor, and `backoff.reset`.
unfoldable pub backoff_delay : ℕ → ℕ
unfolding grown
backoff_delay attempt = grown attempt backoff_base
