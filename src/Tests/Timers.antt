-- ===== src/Tests/Timers.antt =====
-- The worker's timers on concrete values.
use go_download.Base.{◌≡◌, refl, arith}
use go_download.Ladder.{grown, Ladder, bump_timeout, backoff_delay}
use go_download.Ladder.Bounds.{healthy_reads, timeout_recovers}

-- Options.Timeout is 15 s and one stall has happened.
abbrev stalled : Ladder
stalled = record { timeout = 20_000_000_000; dtt = 16; attempt = 1 }

second_stall :
    bump_timeout 15_000_000_000 stalled ≡ record { timeout = 25_000_000_000; dtt = 16; attempt = 1 }
unfolding bump_timeout
second_stall = refl

long_stall :
    (bump_timeout 15_000_000_000 (record stalled { timeout = 86_000_000_000 })).timeout
    ≡ 90_000_000_000
unfolding bump_timeout
long_stall = refl

third_retry : backoff_delay 2 ≡ 2_000_000_000
unfolding backoff_delay grown
third_retry = refl

timeout_recovers_example : (healthy_reads 33 15_000_000_000 stalled).timeout ≡ 15_000_000_000
timeout_recovers_example =
    timeout_recovers 33 1 15_000_000_000 stalled (omega arith) (omega arith) (omega arith)
