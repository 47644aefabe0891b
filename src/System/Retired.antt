-- ===== src/System/Retired.antt =====
-- The net of `run` for retired workers (worker.go): the branch that its comment calls structurally
-- unreachable is unreachable.
use go_download.Base.{
  ℕ, zero, suc, ◌≤◌, ◌≡◌, refl, subst, List, ◌∷◌, ◌++◌, some, true, inl, inr, arith, ltb, All,
  All-append, All-append_left, All-append_right, Bool-cases, Option-cases, contains, leb_ℤ, length,
}
use go_download.Chunk.{Chunk, Claimed, claim, find, update, largest, leftover}
use go_download.Chunk.Lists.{All-find, All-update, All-remove}
use go_download.Chunk.Ranges.{IsWithin, claim_lem}
use go_download.Sched.{
  Sched, claim_active, complete, prepare_loop, split_pending, prepare, seed_fresh, new_scheduler,
  add_pending, twice_min,
}
use go_download.Sched.Retire.{
  IsQuiet, AllQuiet, next-AllQuiet, demote-AllQuiet, deregister-AllQuiet,
}
use go_download.System.{
  System, Step, hands_out, exits, demotes, claims, writes, completes, reorders, Reach, here,
  next_step, commit, add_written, is_drained, start_fresh,
}
use go_download.System.Inv.{IsSound, found-IsWithin, Reach-IsSound}
use go_download.System.Coverage.{start_fresh-IsSound}

claim-IsQuiet :
    (xs : List ℕ) (c : Chunk) (n : ℕ) → IsWithin c → IsQuiet xs c → IsQuiet xs (claim c n).0
claim-IsQuiet xs c n w h = rw (claim_lem c n w.0) (ground arith)

claim_active-AllQuiet :
    (i n : ℕ) (c : Chunk) (s t : Sched) (r : Claimed)
    → find i s.active ≡ some c
    → IsWithin c
    → claim_active i n s ≡ some (t, r)
    → AllQuiet s
    → AllQuiet t
unfolding claim_active
claim_active-AllQuiet i n c s t r e w h q = subst AllQuiet same (
    All-update (IsQuiet s.retiring) i (λ d. (claim d n).0) s.active e q
      (claim-IsQuiet s.retiring c n w (All-find (IsQuiet s.retiring) i s.active e q)))
  where
    same : record s { active = update i (λ d. (claim d n).0) s.active } ≡ t
    same = ground (arith, h)

swapped-All {ℓ} :
    (P : Chunk → Type ℓ) (xs ys : List Chunk) (a b : Chunk)
    → All P (xs ++ (a ∷ b ∷ ys))
    → All P (xs ++ (b ∷ a ∷ ys))
swapped-All P xs ys a b h =
    let tail = All-append_right P xs (a ∷ b ∷ ys) h in
    All-append P xs (b ∷ a ∷ ys) (All-append_left P xs (a ∷ b ∷ ys) h)
      (tail.1.0, (tail.0, tail.1.1))

Step-AllQuiet :
    {size : ℕ} {t u : System} → Step t u → IsSound size t → AllQuiet t.sched → AllQuiet u.sched
unfolding commit add_written complete
Step-AllQuiet (hands_out w t) v q = next-AllQuiet w v q
Step-AllQuiet (exits w t) v q = deregister-AllQuiet w t.sched q
Step-AllQuiet (demotes keep t) v q = demote-AllQuiet keep t.sched q
Step-AllQuiet (claims i n c s r t e w h) v q =
    claim_active-AllQuiet i n c t.sched s r e (found-IsWithin v i e) h q
Step-AllQuiet (writes i c t e) v q =
    All-update (IsQuiet t.sched.retiring) i _ t.sched.active e q
      (All-find (IsQuiet t.sched.retiring) i t.sched.active e q)
Step-AllQuiet (completes i c t e d) v q = All-remove (IsQuiet t.sched.retiring) i t.sched.active q
Step-AllQuiet (reorders xs ys a b t e) v q =
    swapped-All (IsQuiet t.sched.retiring) xs ys a b (subst (All (IsQuiet t.sched.retiring)) e q)

Reach-AllQuiet :
    {size : ℕ} {t u : System} → IsSound size t → AllQuiet t.sched → Reach t u → AllQuiet u.sched
Reach-AllQuiet v q here = q
Reach-AllQuiet v q (next_step r st) = Step-AllQuiet st (Reach-IsSound v r) (Reach-AllQuiet v q r)

prepare_loop-active : (rounds n : ℕ) (s : Sched) → (prepare_loop rounds n s).active ≡ s.active
unfolding prepare_loop split_pending
prepare_loop-active zero n s = refl
prepare_loop-active (suc rounds) n s = elim (Bool-cases (ltb (length s.pending) n)) [
  | inr f ↦ rw (f, prepare_loop) refl
  | inl t ↦ elim (Option-cases (largest s.pending)) [
    | inl e ↦ rw (t, e, prepare_loop) refl
    | inr (c, e) ↦ elim (Bool-cases (leb_ℤ (twice_min s) (leftover c))) [
      | inr f ↦ rw (t, e, f, prepare_loop) refl
      | inl g ↦ rw (t, e, g, prepare_loop) (prepare_loop-active rounds n (split_pending s c))
    ]
  ]
]

start_fresh-AllQuiet : (total m n : ℕ) → AllQuiet (start_fresh total m n).sched
unfolding start_fresh prepare seed_fresh add_pending new_scheduler
start_fresh-AllQuiet total m n =
    rw (prepare_loop-active n n (seed_fresh total (new_scheduler m))) tt

-- In every run that starts fresh: a chunk in flight whose owner is to retire, and whose claims are
-- all written, is drained. So `run` completes it, and never reports a stranded chunk.
pub retired_drained :
    (total min_size parts : ℕ) (u : System) (i : ℕ) (c : Chunk)
    → Reach (start_fresh total min_size parts) u
    → find i u.sched.active ≡ some c
    → contains u.sched.retiring c.owner ≡ true
    → c.written ≡ c.done
    → is_drained c ≡ true
retired_drained total m n u i c r e k w = ground (
  arith,
  All-find (IsQuiet u.sched.retiring) i u.sched.active e
      (Reach-AllQuiet (start_fresh-IsSound total m n) (start_fresh-AllQuiet total m n) r),
)

-- A retiring owner's chunk of which nothing is claimed is empty.
pub retired_empty :
    (total min_size parts : ℕ) (u : System) (i : ℕ) (c : Chunk)
    → Reach (start_fresh total min_size parts) u
    → find i u.sched.active ≡ some c
    → contains u.sched.retiring c.owner ≡ true
    → c.done ≡ 0
    → c.end ≤ c.off
retired_empty total m n u i c r e k w = ground (
  arith,
  All-find (IsQuiet u.sched.retiring) i u.sched.active e
      (Reach-AllQuiet (start_fresh-IsSound total m n) (start_fresh-AllQuiet total m n) r),
)
