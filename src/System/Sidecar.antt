-- ===== src/System/Sidecar.antt =====
-- The sidecar of a run (state.go, multipart and runWorkers): a saved snapshot can be loaded again if no chunk in
-- flight is empty, and one saved while a retired worker holds a chunk of which it claimed nothing
-- cannot.
use go_download.Base.{
  ℕ, suc, ◌-◌, ◌≤◌, ◌<◌, ◌≡◌, ◌≢◌, ◌⊎◌, refl, subst, pos, pos_part, List, [], ◌∷◌, map, none, some,
  true, inl, inr, arith, Bool, bit, ltb, sum_by, sum_by-append, All, All-append, All-append_right,
  Option-cases, length, contains,
}
use go_download.Chunk.{Chunk, find}
use go_download.Chunk.Lists.{All-find}
use go_download.Chunk.Ranges.{spans, IsWithin, IsSettled}
use go_download.State.{StateFile, load_state, state_version, source_id_len}
use go_download.State.Order.{state_spans, IsRange, load_state-IsResumable}
use go_download.State.Save.{load_state-accepts}
use go_download.Sched.{Sched, snapshot, pending_state, active_state}
use go_download.Sched.Invariant.{Inv, over}
use go_download.Sched.Seed.{saved}
use go_download.System.{System, Reach, start_fresh}
use go_download.System.Inv.{IsSound, Reach-IsSound}
use go_download.System.Coverage.{snapshot_exact}
use go_download.System.Retired.{retired_empty}

abbrev pub IsNonempty : Chunk → Type 0
IsNonempty c = c.off < c.end

spans-pending :
    (b : ℕ) (cs : List Chunk) → sum_by (state_spans b) (map pending_state cs) ≡ sum_by (spans b) cs
spans-pending b [] = refl
spans-pending b (c ∷ cs) = omega (arith, spans-pending b cs)

spans-active :
    (b : ℕ) (cs : List Chunk) → sum_by (state_spans b) (map active_state cs) ≡ sum_by (spans b) cs
spans-active b [] = refl
spans-active b (c ∷ cs) = omega (arith, spans-active b cs)

-- A chunk that spans only bytes of the file.
abbrev Fits : ℕ → Chunk → Type 0
Fits size c = (b : ℕ) → spans b c ≤ bit (ltb b size)

All-Fits :
    (size : ℕ) (cs : List Chunk)
    → ((b : ℕ) → sum_by (spans b) cs ≤ bit (ltb b size))
    → All (Fits size) cs
All-Fits size [] h = tt
All-Fits size (c ∷ cs) h = ((λ b. omega (arith, h b)), All-Fits size cs (λ b. omega (arith, h b)))

last-Fits : (size : ℕ) (c : Chunk) → c.off < c.end → Fits size c → c.end ≤ size
last-Fits size c h f = ground (arith, f (c.end - 1))

pending-IsRange :
    (size : ℕ) (cs : List Chunk)
    → All IsSettled cs
    → All IsNonempty cs
    → All (Fits size) cs
    → All (IsRange size) (map pending_state cs)
pending-IsRange size [] s h f = tt
pending-IsRange size (c ∷ cs) s h f = (
  record {
    off_pos = refl;
    end_pos = refl;
    done_pos = refl;
    nonempty = h.0;
    fits = last-Fits size c h.0 f.0;
    within = omega arith;
  },
  pending-IsRange size cs s.1 h.1 f.1,
)

active-IsRange :
    (size : ℕ) (cs : List Chunk)
    → All IsWithin cs
    → All IsNonempty cs
    → All (Fits size) cs
    → All (IsRange size) (map active_state cs)
active-IsRange size [] s h f = tt
active-IsRange size (c ∷ cs) s h f = (
  record {
    off_pos = refl;
    end_pos = refl;
    done_pos = ground (arith, s.0);
    nonempty = h.0;
    fits = last-Fits size c h.0 f.0;
    within = ground (arith, s.0);
  },
  active-IsRange size cs s.1 h.1 f.1,
)

-- The sidecar that a run writes: its chunks are a snapshot.
pub record IsSavedBy (size : ℕ) (s : Sched) (st : StateFile) : Type 0 where
  pub version : st.version ≡ state_version
  pub source_id : length st.source_id ≡ source_id_len
  pub size_is : st.size ≡ pos size
  pub validated : (length st.etag ≢ 0) ⊎ (length st.last_modified ≢ 0)
  pub chunks : st.chunks ≡ snapshot s

spans-snapshot : (b : ℕ) (s : Sched) → sum_by (state_spans b) (snapshot s) ≡ over (spans b) s
unfolding snapshot
spans-snapshot b s = omega (
  arith,
  sum_by-append (state_spans b) (map pending_state s.pending) (map active_state s.active),
  spans-pending b s.pending,
  spans-active b s.active,
)

snapshot-IsRange :
    {size : ℕ} {disk : ℕ → Bool} (s : Sched)
    → Inv size disk s
    → All IsNonempty s.pending
    → All IsNonempty s.active
    → All (IsRange size) (snapshot s)
unfolding snapshot
snapshot-IsRange {size} s v p a =
    All-append (IsRange size) (map pending_state s.pending) (map active_state s.active)
      (pending-IsRange size s.pending v.settled p
        (All-Fits size s.pending (λ b. omega (arith, v.apart b))))
      (active-IsRange size s.active v.within a
        (All-Fits size s.active (λ b. omega (arith, v.apart b))))

-- A sidecar saved in a reachable state in which no chunk is empty is loaded again as it is, and the
-- bytes which a resumed run takes to be on disk are exactly those that are.
pub save_load_roundtrip :
    (n : ℕ) {t u : System} (st : StateFile)
    → IsSound (suc n) t
    → Reach t u
    → All IsNonempty u.sched.pending
    → All IsNonempty u.sched.active
    → IsSavedBy (suc n) u.sched st
    → (b : ℕ) → (load_state st ≡ some st) × (saved st b ≡ u.disk b)
save_load_roundtrip n {u = u} st h r p a w b =
    let v = Reach-IsSound h r in
    (
      load_state-accepts st n w.version w.source_id w.size_is w.validated
          (rw (w.chunks) (snapshot-IsRange u.sched v p a))
          (λ k. rw (w.chunks) (ground (arith, spans-snapshot k u.sched, v.apart k))),
      rw (w.chunks, w.size_is) (ground (arith, snapshot_exact h r b)),
    )

-- `load_state` refuses a snapshot with an empty chunk in flight.
empty-refused :
    (i : ℕ) (s : Sched) (c : Chunk) (st : StateFile)
    → find i s.active ≡ some c
    → c.end ≤ c.off
    → st.chunks ≡ snapshot s
    → load_state st ≡ none
unfolding snapshot
empty-refused i s c st e h w = elim (Option-cases (load_state st)) [
  | inl n ↦ n
  | inr (st', l) ↦
      let r = (load_state-IsResumable st st' l).1.ranges in
      absurd (
        empty_range c
          (All-find (λ d. IsRange (pos_part st.size) (active_state d)) i s.active e
            (unmap s.active (
              All-append_right (IsRange (pos_part st.size)) (map pending_state s.pending)
                (map active_state s.active) (subst (All (IsRange (pos_part st.size))) w r))))
          h)
]
  where
    empty_range : (c : Chunk) → IsRange (pos_part st.size) (active_state c) → c.end ≤ c.off → ⊥
    empty_range c r h = omega (arith, r.nonempty)

    unmap :
        (cs : List Chunk)
        → All (IsRange (pos_part st.size)) (map active_state cs)
        → All (λ d. IsRange (pos_part st.size) (active_state d)) cs
    unmap [] h = tt
    unmap (c ∷ cs) h = (h.0, unmap cs h.1)

-- In a run that starts fresh: while a worker that is to retire holds a chunk of which it has
-- claimed nothing, a sidecar with a snapshot of the run is refused by `load_state`.
pub unclaimed_retired_refused :
    (total min_size parts : ℕ) (u : System) (i : ℕ) (c : Chunk) (st : StateFile)
    → Reach (start_fresh total min_size parts) u
    → find i u.sched.active ≡ some c
    → contains u.sched.retiring c.owner ≡ true
    → c.done ≡ 0
    → st.chunks ≡ snapshot u.sched
    → load_state st ≡ none
unclaimed_retired_refused total m n u i c st r e k z w =
    empty-refused i u.sched c st e (retired_empty total m n u i c r e k z) w
