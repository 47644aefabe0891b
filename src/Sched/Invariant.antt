-- ===== src/Sched/Invariant.antt =====
-- What holds of the scheduler and the staged file between two critical sections, and that handing
-- out work keeps it.
use go_download.Base.{ℕ, ◌+◌, ◌≤◌, ◌≡◌, refl, subst, some, arith, Bool, bit, ltb, sum_by, All}
use go_download.Chunk.{Chunk, lower_half, upper_half, largest, find}
use go_download.Chunk.Lists.{sum_by-update, All-find, All-update}
use go_download.Chunk.Largest.{has_id, largest-Member, find-Member}
use go_download.Chunk.Ranges.{
  holds, IsWithin, IsSettled, IsWithin-of_IsSettled, lower_half-IsWithin, upper_half-IsSettled,
  spans, IsConserved, holds-IsConserved, spans-IsConserved,
}
use go_download.Sched.{Sched, next, register}
use go_download.Sched.Handout.{Handout, unchanged, grants, splits, next-Handout}

-- A measure of all the chunks that the scheduler has.
abbrev pub over : (Chunk → ℕ) → Sched → ℕ
over f s = sum_by f s.pending + sum_by f s.active

-- Ids are fresh and distinct, cursors are in their ranges, each byte of the file is either on disk
-- or wanted by exactly one chunk, and no two ranges overlap.
pub record Inv (size : ℕ) (disk : ℕ → Bool) (s : Sched) : Type 0 where
  pub ids : (i : ℕ) → over (has_id i) s ≤ bit (ltb i s.next_id)
  pub settled : All IsSettled s.pending
  pub within : All IsWithin s.active
  pub cover : (b : ℕ) → over (holds b) s + bit (disk b) ≡ bit (ltb b size)
  pub apart : (b : ℕ) → over (spans b) s ≤ bit (ltb b size)

module _ {size : ℕ} {disk : ℕ → Bool} {s : Sched} (v : Inv size disk s) where
  -- The victim of the scan is found through its id.
  pub find-largest : {c : Chunk} → largest s.active ≡ some c → find c.id s.active ≡ some c
  find-largest {c} e =
      find-Member c s.active (largest-Member s.active e) (ground (arith, v.ids c.id))

  Handout-ids : {t : Sched} → Handout s t → (i : ℕ) → over (has_id i) t ≤ bit (ltb i t.next_id)
  Handout-ids (unchanged p a n) i = rw (p, a, n) (v.ids i)
  Handout-ids (grants w p e a n) i = rw (a, n) (ground (arith, e, v.ids i))
  Handout-ids (splits w c e l p q a n) i =
      rw (q, a, n)
        (ground (
          arith,
          v.ids i,
          v.ids s.next_id,
          sum_by-update (has_id i) c.id lower_half s.active (find-largest e),
        ))

  victim-IsWithin : {c : Chunk} → largest s.active ≡ some c → IsWithin c
  victim-IsWithin {c} e = All-find IsWithin c.id s.active (find-largest e) v.within

  Handout-over : {t : Sched} (f : Chunk → ℕ) → IsConserved f → Handout s t → over f t ≡ over f s
  Handout-over f k (unchanged p a n) = rw (p, a) refl
  Handout-over f k (grants w p e a n) =
      rw a (omega (arith, k.regrant w p, subst (λ ps. sum_by f s.pending ≡ sum_by f ps) e refl))
  Handout-over f k (splits w c e l p q a n) =
      rw (q, a)
        (omega (
          arith,
          subst (λ ps. sum_by f s.pending ≡ sum_by f ps) p refl,
          sum_by-update f c.id lower_half s.active (find-largest e),
          k.regrant w (upper_half s.next_id c),
          k.split s.next_id c (victim-IsWithin e),
        ))

  Handout-IsSettled : {t : Sched} → Handout s t → All IsSettled t.pending
  Handout-IsSettled (unchanged p a n) = rw p v.settled
  Handout-IsSettled (grants w p e a n) = (subst (All IsSettled) e v.settled).1
  Handout-IsSettled (splits w c e l p q a n) = rw q tt

  Handout-IsWithin : {t : Sched} → Handout s t → All IsWithin t.active
  Handout-IsWithin (unchanged p a n) = rw a v.within
  Handout-IsWithin (grants w p e a n) =
      rw a (IsWithin-of_IsSettled p (subst (All IsSettled) e v.settled).0, v.within)
  Handout-IsWithin (splits w c e l p q a n) = rw a (
    IsWithin-of_IsSettled (upper_half s.next_id c)
        (upper_half-IsSettled s.next_id c (victim-IsWithin e)),
    All-update IsWithin c.id lower_half s.active (find-largest e) v.within
        (lower_half-IsWithin c (victim-IsWithin e)),
  )

  pub Handout-Inv : {t : Sched} → Handout s t → Inv size disk t
  Handout-Inv h = record {
    ids = Handout-ids h;
    settled = Handout-IsSettled h;
    within = Handout-IsWithin h;
    cover = λ b. omega (arith, v.cover b, Handout-over (holds b) (holds-IsConserved b) h);
    apart = λ b. omega (arith, v.apart b, Handout-over (spans b) (spans-IsConserved b) h);
  }

-- Registering a worker touches no chunk.
pub register-Inv :
    {size : ℕ} {disk : ℕ → Bool} {s : Sched} (w : ℕ)
    → Inv size disk s
    → Inv size disk (register w s)
register-Inv w v = record {
  ids = v.ids;
  settled = v.settled;
  within = v.within;
  cover = v.cover;
  apart = v.apart;
}

pub next-Inv :
    {size : ℕ} {disk : ℕ → Bool} {s : Sched} (w : ℕ) → Inv size disk s → Inv size disk (next w s).0
next-Inv {s = s} w v = Handout-Inv (register-Inv w v) (next-Handout w s)

-- Handing out work changes no conserved measure.
pub next-over :
    {size : ℕ} {disk : ℕ → Bool} {s : Sched} (f : Chunk → ℕ) (w : ℕ)
    → IsConserved f
    → Inv size disk s
    → over f (next w s).0 ≡ over f s
next-over {s = s} f w k v = Handout-over (register-Inv w v) f k (next-Handout w s)
