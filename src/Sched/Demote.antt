-- ===== src/Sched/Demote.antt =====
-- `demote` moves remainders between chunks and loses no byte.
use go_download.Base.{
  ℕ, ◌+◌, ◌-◌, ◌≡◌, refl, List, [], ◌∷◌, inl, inr, arith, Bool, bit, ltb, ◌==◌, sum_by,
  sum_by-append, All, All-append, max, Bool-cases,
}
use go_download.Chunk.{moved, Chunk}
use go_download.Chunk.Largest.{has_id}
use go_download.Chunk.Ranges.{
  holds, spans, IsConserved, holds-IsConserved, spans-IsConserved, IsWithin, IsSettled,
}
use go_download.Sched.{
  Sched, demote, shed, shed_one, pick_victims, non_retiring_live, lowered_limit,
}
use go_download.Sched.Invariant.{Inv, over}

shed_one-over :
    (f : Chunk → ℕ)
    → IsConserved f
    → (s : Sched) (c : Chunk) → IsWithin c
    → let (t, d) = shed_one s c in sum_by f t.pending + f d ≡ sum_by f s.pending + f c
unfolding shed_one
shed_one-over f k s c h =
    ground (arith, sum_by-append f s.pending (moved s.next_id c ∷ []), k.shed s.next_id c h)

shed-over :
    (f : Chunk → ℕ)
    → IsConserved f
    → (s : Sched) (cs : List Chunk) → All IsWithin cs
    → let (t, ds) = shed s cs in sum_by f t.pending + sum_by f ds ≡ sum_by f s.pending + sum_by f cs
unfolding shed
shed-over f k s [] h = refl
shed-over f k s (c ∷ cs) h =
    omega (arith, shed_one-over f k s c h.0, shed-over f k (shed_one s c).0 cs h.1)

shed_one-ids :
    (i : ℕ) (s : Sched) (c : Chunk)
    → let (t, d) = shed_one s c in
      sum_by (has_id i) t.pending + has_id i d + bit (ltb i s.next_id)
      ≡ sum_by (has_id i) s.pending + has_id i c + bit (ltb i t.next_id)
unfolding shed_one
shed_one-ids i s c = ground (arith, sum_by-append (has_id i) s.pending (moved s.next_id c ∷ []))

shed-ids :
    (i : ℕ) (s : Sched) (cs : List Chunk)
    → let (t, ds) = shed s cs in
      sum_by (has_id i) t.pending + sum_by (has_id i) ds + bit (ltb i s.next_id)
      ≡ sum_by (has_id i) s.pending + sum_by (has_id i) cs + bit (ltb i t.next_id)
unfolding shed
shed-ids i s [] = refl
shed-ids i s (c ∷ cs) = omega (arith, shed_one-ids i s c, shed-ids i (shed_one s c).0 cs)

shed_one-IsSettled :
    (s : Sched) (c : Chunk)
    → IsWithin c
    → All IsSettled s.pending
    → All IsSettled (shed_one s c).0.pending
unfolding shed_one
shed_one-IsSettled s c h a =
    ground (arith, All-append IsSettled s.pending (moved s.next_id c ∷ []) a)

shed_one-IsWithin : (s : Sched) (c : Chunk) → IsWithin c → IsWithin (shed_one s c).1
unfolding shed_one
shed_one-IsWithin s c h = ground arith

shed-IsSettled :
    (s : Sched) (cs : List Chunk)
    → All IsWithin cs
    → All IsSettled s.pending
    → All IsSettled (shed s cs).0.pending
unfolding shed
shed-IsSettled s [] h a = a
shed-IsSettled s (c ∷ cs) h a =
    shed-IsSettled (shed_one s c).0 cs h.1 (shed_one-IsSettled s c h.0 a)

shed-IsWithin : (s : Sched) (cs : List Chunk) → All IsWithin cs → All IsWithin (shed s cs).1
unfolding shed
shed-IsWithin s [] h = tt
shed-IsWithin s (c ∷ cs) h = (shed_one-IsWithin s c h.0, shed-IsWithin (shed_one s c).0 cs h.1)

-- The state in which the loop over the chunks runs: the victims are marked.
pub marked : ℕ → Sched → Sched
marked n s =
    let keep = max n 1 in
    let s1 : Sched = record s { limit = lowered_limit keep s.limit } in
    record s1 { retiring = (pick_victims (non_retiring_live s - keep) s.live s.retiring []).0 }

pub demote_cases {ℓ} :
    (P : Sched → Type ℓ) (n : ℕ) (s : Sched)
    → P (record s { limit = lowered_limit (max n 1) s.limit })
    → (let (t, active) = shed (marked n s) s.active in P (record t { active = active }))
    → P (demote n s).0
unfolding demote marked
demote_cases P n s kept shrunk = elim (Bool-cases (non_retiring_live s - max n 1 == 0)) [
  | inl e ↦ rw (e, demote) kept
  | inr e ↦ rw (e, demote) shrunk
]

-- Whoever is retired, every byte is still wanted by one chunk or on disk.
pub demote-Inv :
    {size : ℕ} {disk : ℕ → Bool} {s : Sched} (n : ℕ)
    → Inv size disk s
    → Inv size disk (demote n s).0
unfolding marked
demote-Inv {size} {disk} {s} n v =
    demote_cases (Inv size disk) n s
      (record {
        ids = v.ids;
        settled = v.settled;
        within = v.within;
        cover = v.cover;
        apart = v.apart;
      })
      (record {
        ids = λ i. omega (arith, v.ids i, shed-ids i (marked n s) s.active);
        settled = shed-IsSettled (marked n s) s.active v.within v.settled;
        within = shed-IsWithin (marked n s) s.active v.within;
        cover = λ b. omega (
          arith,
          v.cover b,
          shed-over (holds b) (holds-IsConserved b) (marked n s) s.active v.within,
        );
        apart = λ b. omega (
          arith,
          v.apart b,
          shed-over (spans b) (spans-IsConserved b) (marked n s) s.active v.within,
        );
      })

pub demote-over :
    {size : ℕ} {disk : ℕ → Bool} {s : Sched} (f : Chunk → ℕ) (n : ℕ)
    → IsConserved f
    → Inv size disk s
    → over f (demote n s).0 ≡ over f s
unfolding marked
demote-over {s = s} f n k v =
    demote_cases (λ t. over f t ≡ over f s) n s refl (shed-over f k (marked n s) s.active v.within)
