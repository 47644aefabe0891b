-- ===== src/Ladder/Bounds.antt =====
-- The stall timeout stays between Options.Timeout and the ceiling and comes back down; the retry
-- delay doubles up to its cap.
use go_download.Base.{ℕ, zero, suc, ◌+◌, ◌*◌, ◌^◌, ◌≤◌, ◌<◌, ◌≡◌, ◌⊎◌, inl, inr, arith, min, max}
use native.Mathlib.Nat.{pow-succ', mul_assoc}
use go_download.Ladder.{
  Ladder, bump_timeout, decay_timeout, ceiling, timeout_step, decay_window, backoff_delay,
  backoff_base, backoff_cap, grown,
}

-- A stall puts the timeout at the next step of the ladder, within [base, ceiling], whatever it was; a
-- healthy read keeps it within these bounds, resets the backoff and never raises it.
pub ladder_bounds :
    (base : ℕ) (w : Ladder)
    → w.timeout ≤ ceiling base
    → let b = bump_timeout base w in
      let d = decay_timeout base w in
      (b.timeout ≡ min (max w.timeout base + timeout_step) (ceiling base))
      × (base ≤ b.timeout)
      × (b.timeout ≤ ceiling base)
      × (b.dtt ≡ decay_window)
      × (base ≤ d.timeout)
      × (d.timeout ≤ max base w.timeout)
      × (d.attempt ≡ 0)
unfolding bump_timeout decay_timeout
ladder_bounds base w h = ground arith

-- The timeout after n healthy reads in a row.
unfoldable pub healthy_reads : ℕ → ℕ → Ladder → Ladder
healthy_reads zero base w = w
healthy_reads (suc n) base w = healthy_reads n base (decay_timeout base w)

decay-shortens :
    (base : ℕ) (w : Ladder)
    → base ≤ w.timeout
    → let d = decay_timeout base w in
      (d.timeout ≡ base)
      ⊎ ((d.timeout ≡ w.timeout) × (w.dtt ≡ d.dtt + 1))
      ⊎ ((w.timeout ≡ d.timeout + timeout_step)
          × (w.dtt ≡ 0)
          × (d.dtt ≡ decay_window)
          × (base < d.timeout))
unfolding decay_timeout
decay-shortens base w h = ground arith

decay-rests : (base : ℕ) (w : Ladder) → w.timeout ≡ base → (decay_timeout base w).timeout ≡ base
unfolding decay_timeout
decay-rests base w h = ground arith

healthy_reads-rests :
    (n base : ℕ) (w : Ladder) → w.timeout ≡ base → (healthy_reads n base w).timeout ≡ base
unfolding healthy_reads
healthy_reads-rests zero base w h = h
healthy_reads-rests (suc n) base w h =
    healthy_reads-rests n base (decay_timeout base w) (decay-rests base w h)

-- A timeout at most k steps above Options.Timeout is back at it after 17 * k + dtt healthy reads, and
-- stays there.
pub timeout_recovers :
    (n k base : ℕ) (w : Ladder)
    → base ≤ w.timeout
    → w.timeout ≤ base + k * timeout_step
    → suc decay_window * k + w.dtt ≤ n
    → (healthy_reads n base w).timeout ≡ base
unfolding healthy_reads
timeout_recovers zero k base w low high enough = omega arith
timeout_recovers (suc n) zero base w low high enough =
    healthy_reads-rests (suc n) base w (omega arith)
timeout_recovers (suc n) (suc k) base w low high enough = elim (decay-shortens base w low) [
  | inl at_base ↦ healthy_reads-rests n base (decay_timeout base w) at_base
  | inr (inl (same, dtt)) ↦
      timeout_recovers n (suc k) base (decay_timeout base w) (omega arith) (omega arith)
        (omega arith)
  | inr (inr (lowered, dtt, full, above)) ↦
      timeout_recovers n k base (decay_timeout base w) (omega arith) (omega arith) (omega arith)
]

double_first : (n d : ℕ) → d * 2 ^ suc n ≡ (d * 2) * 2 ^ n
double_first n d = rw (pow-succ' 2 n, mul_assoc)

-- Doubling never lowers a number.
le-mul_pow : (n d : ℕ) → d ≤ d * 2 ^ n
le-mul_pow zero d = omega arith
le-mul_pow (suc n) d = let ih = le-mul_pow n (d * 2) in let e = double_first n d in omega arith

grown-exact : (n d : ℕ) → d ≤ backoff_cap → grown n d ≡ min (d * 2 ^ n) backoff_cap
unfolding grown
grown-exact zero d h = ground arith
grown-exact (suc n) d h =
    let e = double_first n d in
    let big = le-mul_pow n (d * 2) in let ih = grown-exact n (d * 2) in ground arith

-- The retry delay before jitter is 500 ms doubled once per earlier attempt, and never more than 30 s;
-- it never falls from one attempt to the next.
pub backoff_doubles :
    (attempt : ℕ)
    → (backoff_delay attempt ≡ min (backoff_base * 2 ^ attempt) backoff_cap)
      × (backoff_delay attempt ≤ backoff_delay (suc attempt))
unfolding backoff_delay
backoff_doubles attempt =
    let now = grown-exact attempt backoff_base (omega arith) in
    let later = grown-exact (suc attempt) backoff_base (omega arith) in
    let e = double_first attempt backoff_base in ground arith
