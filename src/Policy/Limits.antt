-- ===== src/Policy/Limits.antt =====
-- What an accepted policy guarantees to a run.
use go_download.Base.{ℤ, pos, ◌≡◌, true, leb_ℤ, min_ℤ, some, arith}
use go_download.Policy.{Concurrency, filled, over}

-- The limits that New and over ask for.
pub record IsValid (c : Concurrency) : Type 0 where
  pub floor : leb_ℤ (pos 1) c.min_parts ≡ true
  pub below : leb_ℤ c.min_parts c.parts ≡ true
  pub size : leb_ℤ (pos 1) c.min_part_size ≡ true

-- A policy that is accepted over a base has 1 <= MinParts <= Parts and 1 <= MinPartSize.
pub over-IsValid : (c base r : Concurrency) → over c base ≡ some r → IsValid r
unfolding over
over-IsValid c base r h = ground (arith, h)

-- Over a valid base, a policy that sets Parts alone, to 1 at least, is always accepted: an inherited
-- floor is lowered to it.
pub over-lowers :
    (parts : ℤ) (base : Concurrency)
    → IsValid base
    → leb_ℤ (pos 1) parts ≡ true
    → over (record { parts = parts; min_parts = pos 0; min_part_size = pos 0 }) base
      ≡ some (record {
        parts = parts;
        min_parts = min_ℤ base.min_parts parts;
        min_part_size = base.min_part_size;
      })
unfolding over filled
over-lowers parts base v h = ground (arith, v, h)
