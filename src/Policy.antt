-- ===== src/Policy.antt =====
-- download.go: Concurrency and its method over. The fields are of type int and int64 and are only
-- compared.
pub mod Limits
use go_download.Base.{ℤ, pos, Bool, ◌||◌, if◌then◌else◌, eq_ℤ, ltb_ℤ, min_ℤ, Option, none, some}

pub record Concurrency : Type 0 where
  pub parts : ℤ
  pub min_parts : ℤ
  pub min_part_size : ℤ

-- The fields once the zero ones are filled from base.
unfoldable pub filled : Concurrency → Concurrency → Concurrency
filled c base =
    let parts : ℤ = if eq_ℤ c.parts (pos 0) then base.parts else c.parts in
    record {
      parts = parts;
      min_parts = if eq_ℤ c.min_parts (pos 0) then min_ℤ base.min_parts parts else c.min_parts;
      min_part_size = if eq_ℤ c.min_part_size (pos 0) then base.min_part_size else c.min_part_size;
    }

-- `over`; none is an error.
unfoldable pub over : Concurrency → Concurrency → Option Concurrency
unfolding filled
over c base =
    let f = filled c base in
    if ltb_ℤ f.parts (pos 1)
    then none
    else if ltb_ℤ f.min_parts (pos 1) || ltb_ℤ f.parts f.min_parts
    then none
    else if ltb_ℤ f.min_part_size (pos 1)
    then none
    else some f
