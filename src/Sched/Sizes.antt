-- ===== src/Sched/Sizes.antt =====
-- How large the pieces of a split are, and what the int64 product 2*minSize does to that.
use go_download.Base.{
  ℕ, ◌+◌, ◌-◌, ◌/◌, ◌*◌, int64-wraps, ◌^◌, ◌≤◌, ◌<◌, ◌≡◌, ◌≢◌, int64, int64-small, List, [], ◌∷◌,
  none, some, true, false, inl, inr, arith, Bool, leb_ℤ, Option-cases, length,
}
use go_download.Chunk.{Chunk, find, update, largest, leftover, lower_half, upper_half}
use go_download.Chunk.Largest.{largest-ne-none, IsLargest, largest_max}
use go_download.Chunk.Lists.{All-find}
use go_download.Chunk.Ranges.{IsWithin, IsConserved}
use go_download.Sched.{Sched, twice_min, next, take_pending, steal, register, refused}
use go_download.Sched.Invariant.{Inv, find-largest}
use go_download.Sched.Bytes.{left, left-IsConserved}

half_sizes : (m a b : ℕ) → a ≤ b → 2 * m ≤ b - a → (m ≤ (b - a) / 2) × (m ≤ b - (a + (b - a) / 2))
half_sizes m a b h k = (omega arith, omega arith)

-- A remainder that passes the test has two halves of at least the minimum size.
halves :
    (m i : ℕ) (c : Chunk)
    → m < 2 ^ 62
    → IsWithin c
    → leb_ℤ (int64 (2 * m)) (leftover c) ≡ true
    → (m ≤ left (lower_half c)) × (m ≤ left (upper_half i c))
halves m i c h w t =
    let k : 2 * m ≤ c.end - (c.off + c.done) = ground (arith, int64-small (2 * m) (omega arith)) in
    let p = half_sizes m (c.off + c.done) c.end w.0 k in (ground (arith, p), ground (arith, p))

-- Under the invariant, and with nothing pending, a chunk that next hands out is the upper half of the remainder of a largest
-- chunk in flight: it starts at the middle of what that chunk has left, where the lower half now ends, it ends
-- where that chunk ended, and nothing of it is done. No half is smaller than min_size, if that is below 2 ^ 62.
pub stolen_sizes :
    {size : ℕ} {disk : ℕ → Bool} {s t : Sched} {c : Chunk} (w : ℕ)
    → Inv size disk s
    → s.min_size < 2 ^ 62
    → s.pending ≡ []
    → next w s ≡ (t, some c)
    → (v : Chunk) × (find v.id s.active ≡ some v)
      × IsLargest v s.active
      × (t.active ≡ c ∷ update v.id lower_half s.active)
      × (c.off ≡ v.off + v.done + (v.end - (v.off + v.done)) / 2)
      × ((lower_half v).end ≡ c.off)
      × (c.end ≡ v.end)
      × ((c.done ≡ 0) × (c.owner ≡ w))
      × (s.min_size ≤ left (lower_half v))
      × (s.min_size ≤ left c)
      × (left (lower_half v) + left c ≡ left v)
unfolding next take_pending steal
stolen_sizes {s = s} {t} {c} w v m p e = elim (Option-cases (largest s.active)) [
  | inl n ↦ absurd (ground (arith, n))
  | inr (victim, l) ↦
      let f = find-largest v l in
      let win = All-find IsWithin victim.id s.active f v.within in
      let ok : leb_ℤ (twice_min s) (leftover victim) ≡ true = ground arith in
      let hs = halves s.min_size s.next_id victim m win ok in
      (
        victim,
        f,
        largest_max s.active l,
        ground arith,
        ground arith,
        ground arith,
        ground arith,
        (ground arith, ground arith),
        hs.0,
        ground (arith, hs.1),
        ground (arith, (IsConserved.split left-IsConserved) s.next_id victim win),
      )
]

splits_always :
    (m : ℕ) (c : Chunk)
    → 2 ^ 62 ≤ m
    → m < 2 ^ 63
    → IsWithin c
    → leb_ℤ (int64 (2 * m)) (leftover c) ≡ true
splits_always m c lo hi w = rw (int64-wraps (2 * m) (omega arith) (omega arith)) (ground arith)

grants_some :
    (w : ℕ) (s : Sched) (victim : Chunk)
    → largest s.active ≡ some victim
    → leb_ℤ (twice_min s) (leftover victim) ≡ true
    → refused w (register w s) ≡ false
    → (next w s).1 ≢ none
unfolding next take_pending steal
grants_some w s victim l ok r = rw (r, next) (taken s.pending)
  where
    taken : (ps : List Chunk) → (take_pending w (register w s) ps).1 ≢ none
    taken [] h = ground arith
    taken (p ∷ ps) h = ground arith

-- For 2 ^ 62 ≤ min_size the product is negative, and `next` splits whatever is in flight: a worker
-- that is not refused never leaves while a chunk is active, however small its remainder.
pub next_overflow :
    {size : ℕ} {disk : ℕ → Bool} {s : Sched} (w : ℕ)
    → Inv size disk s
    → 2 ^ 62 ≤ s.min_size
    → s.min_size < 2 ^ 63
    → 1 ≤ length s.active
    → refused w (register w s) ≡ false
    → (next w s).1 ≢ none
next_overflow {s = s} w v lo hi a r = elim (Option-cases (largest s.active)) [
  | inl n ↦ absurd (largest-ne-none s.active a n)
  | inr (victim, l) ↦
      let win = All-find IsWithin victim.id s.active (find-largest v l) v.within in
      let ok = splits_always s.min_size victim lo hi win in grants_some w s victim l ok r
]
