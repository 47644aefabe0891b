-- ===== src/System/Inv.antt =====
-- Every step keeps the scheduler's invariant.
use go_download.Base.{
  ℕ, ◌+◌, ◌-◌, ◌≡◌, refl, subst, List, ◌∷◌, ◌++◌, some, true, arith, Bool, bit, sum_by,
  sum_by-append, All, All-append, All-append_left, All-append_right, ap,
}
use go_download.Chunk.{Chunk, Claimed, claim, find, update}
use go_download.Chunk.Lists.{sum_by-update, sum_by-remove, All-find, All-update, All-remove}
use go_download.Chunk.Largest.{has_id}
use go_download.Chunk.Ranges.{holds, spans, IsWithin, claim-IsWithin, holds-claim}
use go_download.Sched.{Sched, claim_active, complete, deregister}
use go_download.Sched.Invariant.{Inv, next-Inv}
use go_download.Sched.Demote.{demote-Inv}
use go_download.System.{
  here, next_step, hands_out, exits, demotes, claims, writes, completes, reorders, System, mark,
  add_written, commit, is_drained, Step, Reach,
}

-- The invariant of a chunk list replaced in place: a write through the pointer i by g.
module _ {size : ℕ} {disk : ℕ → Bool} {s : Sched} (v : Inv size disk s) (i : ℕ) {c : Chunk}
    (e : find i s.active ≡ some c) where
  pub found-IsWithin : IsWithin c
  found-IsWithin = All-find IsWithin i s.active e v.within

  -- A pointer write that keeps the id, keeps the chunk within its range and moves bytes to the disk.
  update-Inv :
      (g : Chunk → Chunk) (disk' : ℕ → Bool)
      → (g c).id ≡ c.id
      → IsWithin (g c)
      → ((b : ℕ) → spans b (g c) ≡ spans b c)
      → ((b : ℕ) → holds b (g c) + bit (disk' b) ≡ holds b c + bit (disk b))
      → Inv size disk' (record s { active = update i g s.active })
  update-Inv g disk' same within span moves = record {
    ids = λ j. ground (arith, v.ids j, sum_by-update (has_id j) i g s.active e);
    settled = v.settled;
    within = All-update IsWithin i g s.active e v.within within;
    cover = λ b. omega (arith, v.cover b, moves b, sum_by-update (holds b) i g s.active e);
    apart = λ b. omega (arith, v.apart b, span b, sum_by-update (spans b) i g s.active e);
  }

  claim_active-Inv :
      (n : ℕ) {t : Sched} {r : Claimed} → claim_active i n s ≡ some (t, r) → Inv size disk t
  unfolding claim_active
  claim_active-Inv n {t} h = subst (Inv size disk) same (
      update-Inv (λ d. (claim d n).0) disk refl (claim-IsWithin c n found-IsWithin) (λ b. refl)
        (λ b. ap (λ (k : ℕ). k + bit (disk b)) (holds-claim b n c)))
    where
      same : record s { active = update i (λ d. (claim d n).0) s.active } ≡ t
      same = ground (arith, h)

  commit-Inv :
      Inv size
        (mark (c.off + c.written) (c.off + c.written + (c.done - c.written)) disk)
        (add_written i (c.done - c.written) s)
  unfolding add_written
  commit-Inv =
      update-Inv (λ d. record d { written = d.written + (c.done - c.written) }) _ refl
        (omega (arith, found-IsWithin), omega (arith, found-IsWithin)) (λ b. refl)
        λ b. ground (arith, found-IsWithin, v.cover b, sum_by-remove (holds b) i s.active e)

  complete-Inv : is_drained c ≡ true → Inv size disk (complete i s)
  unfolding complete
  complete-Inv d = record {
    ids = λ j. omega (arith, v.ids j, sum_by-remove (has_id j) i s.active e);
    settled = v.settled;
    within = All-remove IsWithin i s.active v.within;
    cover = λ b. ground (arith, d, found-IsWithin, v.cover b, sum_by-remove (holds b) i s.active e);
    apart = λ b. omega (arith, v.apart b, sum_by-remove (spans b) i s.active e);
  }

-- Sums and properties do not depend on the order.
module _ (xs ys : List Chunk) (a b : Chunk) where
  swapped-sum : (f : Chunk → ℕ) → sum_by f (xs ++ (b ∷ a ∷ ys)) ≡ sum_by f (xs ++ (a ∷ b ∷ ys))
  swapped-sum f = omega (arith, sum_by-append f xs (b ∷ a ∷ ys), sum_by-append f xs (a ∷ b ∷ ys))

  swapped-All : All IsWithin (xs ++ (a ∷ b ∷ ys)) → All IsWithin (xs ++ (b ∷ a ∷ ys))
  swapped-All h =
      let tail = All-append_right IsWithin xs (a ∷ b ∷ ys) h in
      All-append IsWithin xs (b ∷ a ∷ ys) (All-append_left IsWithin xs (a ∷ b ∷ ys) h)
        (tail.1.0, (tail.0, tail.1.1))

  reorder-Inv :
      {size : ℕ} {disk : ℕ → Bool} {s : Sched}
      → s.active ≡ xs ++ (a ∷ b ∷ ys)
      → Inv size disk s
      → Inv size disk (record s { active = xs ++ (b ∷ a ∷ ys) })
  reorder-Inv {s = s} e v = record {
    ids = λ j. omega (arith, v.ids j, swapped-sum (has_id j), ap (sum_by (has_id j)) e);
    settled = v.settled;
    within = swapped-All (subst (All IsWithin) e v.within);
    cover = λ b'. omega (arith, v.cover b', swapped-sum (holds b'), ap (sum_by (holds b')) e);
    apart = λ b'. omega (arith, v.apart b', swapped-sum (spans b'), ap (sum_by (spans b')) e);
  }

abbrev pub IsSound : ℕ → System → Type 0
IsSound size t = Inv size t.disk t.sched

pub Step-IsSound : {size : ℕ} {t u : System} → Step t u → IsSound size t → IsSound size u
unfolding commit deregister
Step-IsSound (hands_out w t) v = next-Inv w v
Step-IsSound (exits w t) v = record {
  ids = v.ids;
  settled = v.settled;
  within = v.within;
  cover = v.cover;
  apart = v.apart;
}
Step-IsSound (demotes keep t) v = demote-Inv keep v
Step-IsSound (claims i n c s r t e w h) v = claim_active-Inv v i e n h
Step-IsSound (writes i c t e) v = commit-Inv v i e
Step-IsSound (completes i c t e d) v = complete-Inv v i e d
Step-IsSound (reorders xs ys a b t e) v = reorder-Inv xs ys a b e v

pub Reach-IsSound : {size : ℕ} {t u : System} → IsSound size t → Reach t u → IsSound size u
Reach-IsSound v here = v
Reach-IsSound v (next_step r st) = Step-IsSound st (Reach-IsSound v r)
