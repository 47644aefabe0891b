-- ===== src/Base/Int.antt =====
-- Go's signed integers: `negsuc n` is -(n + 1). `int64` wraps a number as two's complement does.
use Prim.Native.Nat.{◌≤◌, ℕ, suc, ◌+◌, ◌-◌, ◌%◌, ◌^◌, ◌<◌}
use mathlib.Core.Path.{◌≡◌}
use mathlib.Core.Bool.{Bool, true, ◌&&◌}
use native.Mathlib.Omega.{arith}
use go_download.Base.Tests.{ltb, leb, if◌then◌else◌}

pub data ℤ : Type 0 where
  pos : ℕ → ℤ
  negsuc : ℕ → ℤ

abbrev pub pos_part : ℤ → ℕ
pos_part (pos n) = n
pos_part (negsuc n) = 0

abbrev pub neg_part : ℤ → ℕ
neg_part (pos n) = 0
neg_part (negsuc n) = suc n

-- a - b, as an integer.
abbrev pub sub_ℕ : ℕ → ℕ → ℤ
sub_ℕ a b = if leb b a then pos (a - b) else negsuc (b - a - 1)

abbrev pub leb_ℤ : ℤ → ℤ → Bool
leb_ℤ a b = leb (pos_part a + neg_part b) (pos_part b + neg_part a)

abbrev pub ltb_ℤ : ℤ → ℤ → Bool
ltb_ℤ a b = ltb (pos_part a + neg_part b) (pos_part b + neg_part a)

abbrev pub eq_ℤ : ℤ → ℤ → Bool
eq_ℤ a b = leb_ℤ a b && leb_ℤ b a

abbrev pub min_ℤ : ℤ → ℤ → ℤ
min_ℤ a b = if leb_ℤ a b then a else b

abbrev pub max_ℤ : ℤ → ℤ → ℤ
max_ℤ a b = if leb_ℤ a b then b else a

infixl 65 ◌+ℤ◌
unfoldable pub ◌+ℤ◌ : ℤ → ℤ → ℤ
a +ℤ b = sub_ℕ (pos_part a + pos_part b) (neg_part a + neg_part b)

infixl 65 ◌-ℤ◌
unfoldable pub ◌-ℤ◌ : ℤ → ℤ → ℤ
a -ℤ b = sub_ℕ (pos_part a + neg_part b) (neg_part a + pos_part b)

pub -ℤ-pos : (a b : ℕ) → pos a -ℤ pos b ≡ sub_ℕ a b
unfolding ◌-ℤ◌
-ℤ-pos a b = ground arith

pub +ℤ-pos : (a b : ℕ) → pos a +ℤ pos b ≡ pos (a + b)
unfolding ◌+ℤ◌
+ℤ-pos a b = ground arith

-- n + z, for a sum that is not negative.
abbrev pub shift : ℕ → ℤ → ℕ
shift n (pos k) = n + k
shift n (negsuc k) = n - suc k

-- The `int64` whose bits are those of n.
unfoldable pub int64 : ℕ → ℤ
int64 n = let r = n % 2 ^ 64 in if ltb r (2 ^ 63) then pos r else negsuc (2 ^ 64 - 1 - r)

-- An integer that passes the test for a natural number is that number.
pub eq_ℤ-pos : (z : ℤ) (n : ℕ) → eq_ℤ z (pos n) ≡ true → z ≡ pos n
eq_ℤ-pos (pos m) n h = ground (arith, h)
eq_ℤ-pos (negsuc m) n h = ground (arith, h)

pub int64-small : (n : ℕ) → n < 2 ^ 63 → int64 n ≡ pos n
unfolding int64
int64-small n h = ground arith

pub int64-wraps : (n : ℕ) → 2 ^ 63 ≤ n → n < 2 ^ 64 → int64 n ≡ negsuc (2 ^ 64 - 1 - n)
unfolding int64
int64-wraps n h k = ground arith
