-- ===== src/Chunk/Ranges.antt =====
-- The bytes that a chunk still wants, and what splitting, shrinking and claiming do to them.
use go_download.Base.{ℕ, ◌+◌, ◌-◌, ◌≤◌, ◌<◌, ◌≡◌, refl, pos, ◌&&◌, leb, ltb, bit, arith, min}
use go_download.Chunk.{shrunk, moved, Chunk, position, lower_half, upper_half, claim, half_way}

-- The bytes of [off + written, end) are not known to be on disk.
abbrev pub holds : ℕ → Chunk → ℕ
holds b c = bit (leb (c.off + c.written) b && ltb b c.end)

-- Between two calls of the scheduler: the cursor is in the range, and what was written was claimed.
abbrev pub IsWithin : Chunk → Type 0
IsWithin c = (c.off + c.done ≤ c.end) × (c.written ≤ c.done)

-- No claimed byte waits to be written.
abbrev pub IsSettled : Chunk → Type 0
IsSettled c = (c.off + c.done ≤ c.end) × (c.written ≡ c.done)

pub IsWithin-of_IsSettled : (c : Chunk) → IsSettled c → IsWithin c
IsWithin-of_IsSettled c h = (h.0, omega arith)

pub half_way_bounds : (a b : ℕ) → a ≤ b → (a ≤ half_way a b) × (half_way a b ≤ b)
half_way_bounds a b h = ground arith

-- A range with two bytes left has a proper middle.
pub half_way_strict : (a b : ℕ) → a + 2 ≤ b → (a < half_way a b) × (half_way a b < b)
half_way_strict a b h = ground arith

pub lower_half-IsWithin : (c : Chunk) → IsWithin c → IsWithin (lower_half c)
lower_half-IsWithin c h = (omega (arith, half_way_bounds (position c) c.end h.0), h.1)

pub upper_half-IsSettled : (i : ℕ) (c : Chunk) → IsWithin c → IsSettled (upper_half i c)
upper_half-IsSettled i c h = (omega (arith, half_way_bounds (position c) c.end h.0), refl)

-- A measure of chunks that no grant, split or retirement changes in total.
pub record IsConserved (f : Chunk → ℕ) : Type 0 where
  pub regrant : (w : ℕ) (c : Chunk) → f (record c { owner = w }) ≡ f c
  pub split : (i : ℕ) (c : Chunk) → IsWithin c → f (lower_half c) + f (upper_half i c) ≡ f c
  pub shed : (i : ℕ) (c : Chunk) → IsWithin c → f (shrunk c) + f (moved i c) ≡ f c

pub holds-IsConserved : (b : ℕ) → IsConserved (holds b)
holds-IsConserved b = record {
  regrant = λ w c. refl;
  split = λ i c h. ground (arith, half_way_bounds (position c) c.end h.0);
  shed = λ i c h. ground arith;
}

-- The bytes of the whole range [off, end).
abbrev pub spans : ℕ → Chunk → ℕ
spans b c = bit (leb c.off b && ltb b c.end)

pub spans-IsConserved : (b : ℕ) → IsConserved (spans b)
spans-IsConserved b = record {
  regrant = λ w c. refl;
  split = λ i c h. ground (arith, half_way_bounds (position c) c.end h.0);
  shed = λ i c h. ground arith;
}

-- A claim within the range takes what fits and leaves the rest of the chunk alone.
pub claim_lem :
    (c : Chunk) (n : ℕ)
    → c.off + c.done ≤ c.end
    → let k = min n (c.end - (c.off + c.done)) in
      claim c n ≡ (
        record c { done = c.done + k },
        record { offset = c.off + c.done; write = pos k; stop = leb c.end (c.off + (c.done + k)) },
      )
unfolding claim
claim_lem c n h = ground arith

pub claim-IsWithin : (c : Chunk) (n : ℕ) → IsWithin c → IsWithin (claim c n).0
claim-IsWithin c n h = rw (claim_lem c n h.0) (omega arith, omega arith)

-- A claim does not make a byte less wanted: only the write does.
pub holds-claim : (b n : ℕ) (c : Chunk) → holds b (claim c n).0 ≡ holds b c
unfolding claim
holds-claim b n c = refl
