-- ===== src/System/Coverage.antt =====
-- What the invariant means for a download: a run with no work left has the whole file, a snapshot
-- lists exactly the bytes that are missing, and no byte is written twice.
use go_download.Base.{
  ◌≢◌, ℕ, ◌+◌, ◌≤◌, ◌<◌, ◌≡◌, refl, pos_part, List, [], ◌∷◌, map, some, true, false, arith, bit,
  ltb, sum_by, sum_by-append, All, length,
}
use go_download.Chunk.{Chunk, find, remove}
use go_download.Chunk.Lists.{sum_by-remove, find-remove_ne}
use go_download.Chunk.Ranges.{holds, spans, IsWithin}
use go_download.State.{StateFile}
use go_download.State.Order.{state_holds, IsResumable}
use go_download.Sched.{idle, snapshot, pending_state, active_state}
use go_download.Sched.Prepare.{prepare-Inv}
use go_download.Sched.Seed.{saved, seed-Inv, seed_fresh-Inv}
use go_download.System.{System, Reach, start_fresh, start_resumed}
use go_download.System.Inv.{found-IsWithin, IsSound, Reach-IsSound}

pub start_fresh-IsSound :
    (total min_size parts : ℕ) → IsSound total (start_fresh total min_size parts)
unfolding start_fresh
start_fresh-IsSound total m n = prepare-Inv n (seed_fresh-Inv total m)

pub start_resumed-IsSound :
    (st : StateFile) (min_size parts : ℕ)
    → IsResumable st
    → IsSound (pos_part st.size) (start_resumed st (saved st) min_size parts)
unfolding start_resumed
start_resumed-IsSound st m n r = prepare-Inv n (seed-Inv st m r)

nothing_left : (xs : List Chunk) (f : Chunk → ℕ) → length xs ≡ 0 → sum_by f xs ≡ 0
nothing_left [] f h = refl
nothing_left (x ∷ xs) f h = absurd (omega arith)

-- In a sound state with no work left, every byte of the file is on disk.
pub IsSound-complete :
    {size : ℕ} {t : System}
    → IsSound size t
    → idle t.sched ≡ true
    → (b : ℕ) → b < size
    → t.disk b ≡ true
unfolding idle
IsSound-complete {t = t} v h b k = ground (
  arith,
  v.cover b,
  nothing_left t.sched.pending (holds b),
  nothing_left t.sched.active (holds b),
)

-- However the workers, the ramp and the map order interleave: when a fresh run has no work left,
-- every byte of the file has been written.
pub fresh_run_complete :
    (total min_size parts : ℕ) (u : System)
    → Reach (start_fresh total min_size parts) u
    → idle u.sched ≡ true
    → (b : ℕ) → b < total
    → u.disk b ≡ true
fresh_run_complete total m n u r h =
    IsSound-complete (Reach-IsSound (start_fresh-IsSound total m n) r) h

-- The same of a run that resumes from a sidecar which `load_state` accepts, if the bytes that the
-- sidecar does not list were on disk.
pub resumed_run_complete :
    (st : StateFile) (min_size parts : ℕ) (u : System)
    → IsResumable st
    → Reach (start_resumed st (saved st) min_size parts) u
    → idle u.sched ≡ true
    → (b : ℕ) → b < pos_part st.size
    → u.disk b ≡ true
resumed_run_complete st m n u r w h =
    IsSound-complete (Reach-IsSound (start_resumed-IsSound st m n r) w) h

pending-snapshot :
    (b : ℕ) (cs : List Chunk) → sum_by (state_holds b) (map pending_state cs) ≡ sum_by (holds b) cs
pending-snapshot b [] = refl
pending-snapshot b (c ∷ cs) = omega (arith, pending-snapshot b cs)

active_state-holds : (b : ℕ) (c : Chunk) → IsWithin c → state_holds b (active_state c) ≡ holds b c
active_state-holds b c h = ground arith

active-snapshot :
    (b : ℕ) (cs : List Chunk)
    → All IsWithin cs
    → sum_by (state_holds b) (map active_state cs) ≡ sum_by (holds b) cs
active-snapshot b [] h = refl
active-snapshot b (c ∷ cs) h = omega (arith, active_state-holds b c h.0, active-snapshot b cs h.1)

-- In every reachable state a snapshot lists each byte of the file that is not on disk in exactly
-- one range, and no byte that is on disk or beyond the file.
pub snapshot_exact :
    {size : ℕ} {t u : System}
    → IsSound size t
    → Reach t u
    → (b : ℕ) → sum_by (state_holds b) (snapshot u.sched) + bit (u.disk b) ≡ bit (ltb b size)
unfolding snapshot
snapshot_exact {u = u} h r b =
    let v = Reach-IsSound h r in
    omega (
      arith,
      v.cover b,
      sum_by-append (state_holds b) (map pending_state u.sched.pending)
          (map active_state u.sched.active),
      pending-snapshot b u.sched.pending,
      active-snapshot b u.sched.active v.within,
    )

-- What an owner has claimed and not yet counted as written is not on disk: no byte is written twice.
pub claimed_unwritten :
    {size : ℕ} {t u : System} (i : ℕ) (c : Chunk)
    → IsSound size t
    → Reach t u
    → find i u.sched.active ≡ some c
    → (b : ℕ) → c.off + c.written ≤ b
    → b < c.off + c.done
    → u.disk b ≡ false
claimed_unwritten {u = u} i c h r e b lo hi =
    let v = Reach-IsSound h r in
    ground (arith, v.cover b, found-IsWithin v i e, sum_by-remove (holds b) i u.sched.active e)

-- Two workers never hold the same byte: the ranges of different chunks in flight do not meet.
pub active_apart :
    {size : ℕ} {t u : System} (i j : ℕ) (c d : Chunk)
    → IsSound size t
    → Reach t u
    → i ≢ j
    → find i u.sched.active ≡ some c
    → find j u.sched.active ≡ some d
    → (b : ℕ) → c.off ≤ b
    → b < c.end
    → ¬ ((d.off ≤ b) × (b < d.end))
active_apart {u = u} i j c d h r ne e f b lo hi both =
    let v = Reach-IsSound h r in
    ground (
      arith,
      v.apart b,
      sum_by-remove (spans b) i u.sched.active e,
      sum_by-remove (spans b) j (remove i u.sched.active) (find-remove_ne i j u.sched.active ne f),
    )
