-- ===== src/Float64.antt =====
-- IEEE double arithmetic, which the library does not have: the operations that the source uses, as
-- a parameter. No law of them is assumed.
use go_download.Base.{ℕ, ℤ, Bool}

-- `seconds` is Duration.Seconds of a number of nanoseconds; `decimal m k` is the constant m / 10^k.
pub record Float64 : Type 1 where
  pub F : Type 0
  pub of_int : ℤ → F
  pub seconds : ℤ → F
  pub decimal : ℕ → ℕ → F
  pub div : F → F → F
  pub mul : F → F → F
  pub fmax : F → F → F
  pub lt : F → F → Bool
