-- ===== src/Sched/Bytes.antt =====
-- `remainingBytes` is conserved by every hand-out, split and retirement, and falls by what is claimed.
use go_download.Base.{
  ap, leb, ℕ, ◌+◌, ◌-◌, ◌≤◌, ◌≡◌, refl, sym, ◌∙◌, pos, +ℤ-pos, List, [], ◌∷◌, some, arith, Bool,
  sum_by, All, All-map, min,
}
use go_download.Chunk.{Chunk, Claimed, claim, find, leftover}
use go_download.Chunk.Lists.{sum_by-update, All-find}
use go_download.Chunk.Ranges.{
  IsWithin, IsSettled, IsWithin-of_IsSettled, IsConserved, claim_lem, half_way_bounds,
}
use go_download.Sched.{Sched, next, demote, prepare, bytes_left, remaining_bytes, claim_active}
use go_download.Sched.Invariant.{Inv, over, next-over, next-Inv}
use go_download.Sched.Demote.{demote-Inv, demote-over}
use go_download.Sched.Prepare.{prepare-Inv, prepare-over}

abbrev pub left : Chunk → ℕ
left c = c.end - (c.off + c.done)

pub left-IsConserved : IsConserved left
left-IsConserved = record {
  regrant = λ w c. refl;
  split = λ i c h. omega (arith, half_way_bounds (c.off + c.done) c.end h.0);
  shed = λ i c h. omega arith;
}

leftover-left : (c : Chunk) → c.off + c.done ≤ c.end → leftover c ≡ pos (left c)
leftover-left c h = ground arith

bytes_left-sum : (cs : List Chunk) → All IsWithin cs → bytes_left cs ≡ pos (sum_by left cs)
unfolding bytes_left
bytes_left-sum [] h = refl
bytes_left-sum (c ∷ cs) h =
    rw (leftover-left c h.0.0, bytes_left-sum cs h.1) (+ℤ-pos (left c) (sum_by left cs))

-- What is left is a number, and it is the sum over the chunks.
pub remaining_bytes-over :
    {size : ℕ} {disk : ℕ → Bool} {s : Sched}
    → Inv size disk s
    → remaining_bytes s ≡ pos (over left s)
unfolding remaining_bytes
remaining_bytes-over {s = s} v =
    rw
      (
        bytes_left-sum s.pending
            (All-map IsSettled IsWithin s.pending IsWithin-of_IsSettled v.settled),
        bytes_left-sum s.active v.within,
      )
      (+ℤ-pos (sum_by left s.pending) (sum_by left s.active))

-- Granting, splitting and retiring move bytes between chunks: none is lost or counted twice.
pub remaining_bytes_conserved :
    {size : ℕ} {disk : ℕ → Bool} {s : Sched} (n : ℕ)
    → Inv size disk s
    → (remaining_bytes (next n s).0 ≡ remaining_bytes s)
      × (remaining_bytes (demote n s).0 ≡ remaining_bytes s)
      × (remaining_bytes (prepare n s).0 ≡ remaining_bytes s)
remaining_bytes_conserved {s = s} n v =
    let same : (t : Sched)
        → remaining_bytes t ≡ pos (over left t)
        → over left t ≡ over left s
        → remaining_bytes t ≡ remaining_bytes s =
      λ t e h. e ∙ (ap pos h ∙ sym (remaining_bytes-over v)) in
    (
      same _ (remaining_bytes-over (next-Inv n v)) (next-over left n left-IsConserved v),
      same _ (remaining_bytes-over (demote-Inv n v)) (demote-over left n left-IsConserved v),
      same _ (remaining_bytes-over (prepare-Inv n v)) (prepare-over left n left-IsConserved v),
    )

-- A claim hands its owner at most n bytes from the cursor on, and what is left falls by as many. It
-- says stop exactly when nothing of the chunk is left to claim.
pub claim_accounts :
    {size : ℕ} {disk : ℕ → Bool} {s t : Sched} {r : Claimed} (i n : ℕ) (c : Chunk)
    → Inv size disk s
    → find i s.active ≡ some c
    → claim_active i n s ≡ some (t, r)
    → (k : ℕ) × (r.write ≡ pos k)
      × (r.offset ≡ c.off + c.done)
      × (k ≡ min n (left c))
      × (over left t + k ≡ over left s)
      × (r.stop ≡ leb (left c) n)
unfolding claim_active
claim_accounts {s = s} {t = t} {r = r} i n c v e h =
    let w : IsWithin c = All-find IsWithin i s.active e v.within in
    (
      min n (left c),
      ground (arith, claim_lem c n w.0),
      ground (arith, claim_lem c n w.0),
      refl,
      ground (arith, claim_lem c n w.0, sum_by-update left i (λ d. (claim d n).0) s.active e),
      ground (arith, claim_lem c n w.0),
    )
