-- ===== src/Sched/Seed.antt =====
-- A run starts with one pending chunk for the whole file, or with what a usable sidecar leaves to
-- download. Either way the invariant holds of the bytes that the file has.
use go_download.Base.{
  ℕ, ◌+◌, ◌≤◌, ◌≡◌, refl, pos_part, Bool, false, ◌&&◌, ltb, ◌==◌, ltb_ℤ, ◌-ℤ◌, List, [], ◌∷◌,
  sum_by, sum_by-append, All, All-append, bit, arith, if◌then◌else◌,
}
use go_download.Chunk.{Chunk}
use go_download.Chunk.Largest.{has_id}
use go_download.Chunk.Ranges.{holds, spans, IsSettled}
use go_download.State.{ChunkState, StateFile}
use go_download.State.Order.{state_holds, state_spans, IsRange, IsResumable}
use go_download.Sched.{Sched, new_scheduler, add_pending, seed, seed_fresh}
use go_download.Sched.Invariant.{Inv}

-- The chunk that `add_pending` appends.
abbrev seeded : ℕ → ChunkState → Chunk
seeded i c = record {
  id = i;
  owner = 0;
  off = pos_part c.off;
  end = pos_part c.end;
  done = pos_part c.done;
  written = pos_part c.done;
}

abbrev step : ChunkState → Sched → Sched
step c s =
    if ltb_ℤ c.done (c.end -ℤ c.off)
    then add_pending (pos_part c.off) (pos_part c.end) (pos_part c.done) s
    else s

module _ (size : ℕ) (c : ChunkState) (s : Sched) (r : IsRange size c) where
  step-holds :
      (b : ℕ) → sum_by (holds b) (step c s).pending ≡ sum_by (holds b) s.pending + state_holds b c
  unfolding add_pending ◌-ℤ◌
  step-holds b = ground (arith, r, sum_by-append (holds b) s.pending (seeded s.next_id c ∷ []))

  step-spans :
      (b : ℕ) → sum_by (spans b) (step c s).pending ≤ sum_by (spans b) s.pending + state_spans b c
  unfolding add_pending ◌-ℤ◌
  step-spans b = ground (arith, r, sum_by-append (spans b) s.pending (seeded s.next_id c ∷ []))

  step-ids :
      (i : ℕ)
      → sum_by (has_id i) (step c s).pending + bit (ltb i s.next_id)
        ≡ sum_by (has_id i) s.pending + bit (ltb i (step c s).next_id)
  unfolding add_pending ◌-ℤ◌
  step-ids i = ground (arith, r, sum_by-append (has_id i) s.pending (seeded s.next_id c ∷ []))

  step-IsSettled : All IsSettled s.pending → All IsSettled (step c s).pending
  unfolding add_pending ◌-ℤ◌
  step-IsSettled a = ground (arith, r, All-append IsSettled s.pending (seeded s.next_id c ∷ []) a)

  step-active : (step c s).active ≡ s.active
  unfolding add_pending
  step-active = ground arith

module _ (size : ℕ) where
  seed-holds :
      (b : ℕ) (cs : List ChunkState) (s : Sched)
      → All (IsRange size) cs
      → sum_by (holds b) (seed cs s).pending
        ≡ sum_by (holds b) s.pending + sum_by (state_holds b) cs
  unfolding seed
  seed-holds b [] s h = omega arith
  seed-holds b (c ∷ cs) s h =
      omega (arith, step-holds size c s h.0 b, seed-holds b cs (step c s) h.1)

  seed-spans :
      (b : ℕ) (cs : List ChunkState) (s : Sched)
      → All (IsRange size) cs
      → sum_by (spans b) (seed cs s).pending
        ≤ sum_by (spans b) s.pending + sum_by (state_spans b) cs
  unfolding seed
  seed-spans b [] s h = omega arith
  seed-spans b (c ∷ cs) s h =
      omega (arith, step-spans size c s h.0 b, seed-spans b cs (step c s) h.1)

  seed-ids :
      (i : ℕ) (cs : List ChunkState) (s : Sched)
      → All (IsRange size) cs
      → sum_by (has_id i) (seed cs s).pending + bit (ltb i s.next_id)
        ≡ sum_by (has_id i) s.pending + bit (ltb i (seed cs s).next_id)
  unfolding seed
  seed-ids i [] s h = refl
  seed-ids i (c ∷ cs) s h = omega (arith, step-ids size c s h.0 i, seed-ids i cs (step c s) h.1)

  seed-IsSettled :
      (cs : List ChunkState) (s : Sched)
      → All (IsRange size) cs
      → All IsSettled s.pending
      → All IsSettled (seed cs s).pending
  unfolding seed
  seed-IsSettled [] s h a = a
  seed-IsSettled (c ∷ cs) s h a = seed-IsSettled cs (step c s) h.1 (step-IsSettled size c s h.0 a)

  seed-active :
      (cs : List ChunkState) (s : Sched) → All (IsRange size) cs → (seed cs s).active ≡ s.active
  unfolding seed
  seed-active [] s h = refl
  seed-active (c ∷ cs) s h = cc (step-active size c s h.0, seed-active cs (step c s) h.1)

-- The bytes that a sidecar does not list are the ones it takes to be on disk.
abbrev pub saved : StateFile → ℕ → Bool
saved st b = ltb b (pos_part st.size) && sum_by (state_holds b) st.chunks == 0

holds-le-spans :
    (size b : ℕ) (cs : List ChunkState)
    → All (IsRange size) cs
    → sum_by (state_holds b) cs ≤ sum_by (state_spans b) cs
holds-le-spans size b [] h = omega arith
holds-le-spans size b (c ∷ cs) h = ground (arith, h.0, holds-le-spans size b cs h.1)

-- A run resumed from a sidecar that `load_state` accepts starts in a sound state: it wants the
-- bytes which the sidecar lists, each of them once, and takes the others to be on disk.
pub seed-Inv :
    (st : StateFile) (min_size : ℕ)
    → IsResumable st
    → Inv (pos_part st.size) (saved st) (seed st.chunks (new_scheduler min_size))
unfolding new_scheduler
seed-Inv st m r =
    let n : ℕ = pos_part st.size in
    let none_active = seed-active n st.chunks (new_scheduler m) r.ranges in
    record {
      ids = λ i. rw none_active (omega (arith, seed-ids n i st.chunks (new_scheduler m) r.ranges));
      settled = seed-IsSettled n st.chunks (new_scheduler m) r.ranges tt;
      within = rw none_active tt;
      cover = λ b. rw none_active (
          ground (
            arith,
            seed-holds n b st.chunks (new_scheduler m) r.ranges,
            r.apart b,
            holds-le-spans n b st.chunks r.ranges,
          ));
      apart = λ b.
          rw none_active
            (omega (arith, seed-spans n b st.chunks (new_scheduler m) r.ranges, r.apart b));
    }

-- A fresh run wants every byte of the file, and takes none to be on disk.
pub seed_fresh-Inv :
    (total min_size : ℕ) → Inv total (λ b. false) (seed_fresh total (new_scheduler min_size))
unfolding seed_fresh new_scheduler
seed_fresh-Inv total m = record {
  ids = λ i. ground arith;
  settled = omega arith;
  within = tt;
  cover = λ b. ground arith;
  apart = λ b. ground arith;
}
