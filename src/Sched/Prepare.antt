-- ===== src/Sched/Prepare.antt =====
-- `addPending` and `prepare`: splitting before any worker runs loses no byte, reaches the number of
-- ranges asked for or stops at a remainder that is too small, and never runs out of rounds.
use go_download.Base.{
  ℕ, zero, suc, ◌+◌, ◌≤◌, ◌≡◌, ◌⊎◌, refl, ◌∙◌, [], ◌∷◌, none, some, false, inl, inr, arith, Bool,
  bit, ltb, sum_by-append, All-append, Bool-cases, Option-cases, length, leb_ℤ, length-append,
}
use go_download.Chunk.{Chunk, largest, find, lower_half, upper_half, update, leftover}
use go_download.Chunk.Lists.{sum_by-update, All-find, All-update, length-update}
use go_download.Chunk.Largest.{has_id, largest-ne-none, largest-Member, find-Member}
use go_download.Chunk.Ranges.{
  holds, spans, IsConserved, holds-IsConserved, spans-IsConserved, IsSettled, IsWithin-of_IsSettled,
  lower_half-IsWithin, upper_half-IsSettled,
}
use go_download.Sched.{Sched, prepare, prepare_loop, split_pending, twice_min}
use go_download.Sched.Invariant.{Inv, over}

module _ {size : ℕ} {disk : ℕ → Bool} {s : Sched} (v : Inv size disk s) {c : Chunk}
    (e : largest s.pending ≡ some c) where
  found : find c.id s.pending ≡ some c
  found = find-Member c s.pending (largest-Member s.pending e) (ground (arith, v.ids c.id))

  victim-IsSettled : IsSettled c
  victim-IsSettled = All-find IsSettled c.id s.pending found v.settled

  split-ids : (i : ℕ) → over (has_id i) (split_pending s c) ≤ bit (ltb i (suc s.next_id))
  unfolding split_pending
  split-ids i = ground (
    arith,
    v.ids i,
    v.ids s.next_id,
    sum_by-update (has_id i) c.id lower_half s.pending found,
    sum_by-append (has_id i) (update c.id lower_half s.pending) (upper_half s.next_id c ∷ []),
  )

  split-over : (f : Chunk → ℕ) → IsConserved f → over f (split_pending s c) ≡ over f s
  unfolding split_pending
  split-over f k = omega (
    arith,
    sum_by-update f c.id lower_half s.pending found,
    sum_by-append f (update c.id lower_half s.pending) (upper_half s.next_id c ∷ []),
    k.split s.next_id c (IsWithin-of_IsSettled c victim-IsSettled),
  )

  split_pending-Inv : Inv size disk (split_pending s c)
  unfolding split_pending
  split_pending-Inv = record {
    ids = split-ids;
    settled =
        All-append IsSettled (update c.id lower_half s.pending) (upper_half s.next_id c ∷ [])
          (All-update IsSettled c.id lower_half s.pending found v.settled (
            (lower_half-IsWithin c (IsWithin-of_IsSettled c victim-IsSettled)).0,
            victim-IsSettled.1,
          ))
          (upper_half-IsSettled s.next_id c (IsWithin-of_IsSettled c victim-IsSettled), tt);
    within = v.within;
    cover = λ b. omega (arith, v.cover b, split-over (holds b) (holds-IsConserved b));
    apart = λ b. omega (arith, v.apart b, split-over (spans b) (spans-IsConserved b));
  }

prepare_loop-Inv :
    {size : ℕ} {disk : ℕ → Bool} (rounds n : ℕ) (s : Sched)
    → Inv size disk s
    → Inv size disk (prepare_loop rounds n s)
unfolding prepare_loop
prepare_loop-Inv zero n s v = v
prepare_loop-Inv {size} {disk} (suc rounds) n s v = elim (Bool-cases (ltb (length s.pending) n)) [
  | inr f ↦ rw (f, prepare_loop) v
  | inl t ↦ elim (Option-cases (largest s.pending)) [
    | inl e ↦ rw (t, e, prepare_loop) v
    | inr (c, e) ↦ elim (Bool-cases (leb_ℤ (twice_min s) (leftover c))) [
      | inr f ↦ rw (t, e, f, prepare_loop) v
      | inl g ↦
          rw (t, e, g, prepare_loop)
            (prepare_loop-Inv rounds n (split_pending s c) (split_pending-Inv v e))
    ]
  ]
]

pub prepare-Inv :
    {size : ℕ} {disk : ℕ → Bool} (n : ℕ) {s : Sched}
    → Inv size disk s
    → Inv size disk (prepare n s).0
unfolding prepare
prepare-Inv n {s} v = prepare_loop-Inv n n s v

prepare_loop-over :
    {size : ℕ} {disk : ℕ → Bool} (f : Chunk → ℕ) (rounds n : ℕ) (s : Sched)
    → IsConserved f
    → Inv size disk s
    → over f (prepare_loop rounds n s) ≡ over f s
unfolding prepare_loop
prepare_loop-over f zero n s k v = refl
prepare_loop-over f (suc rounds) n s k v = elim (Bool-cases (ltb (length s.pending) n)) [
  | inr t ↦ rw (t, prepare_loop) refl
  | inl t ↦ elim (Option-cases (largest s.pending)) [
    | inl e ↦ rw (t, e, prepare_loop) refl
    | inr (c, e) ↦ elim (Bool-cases (leb_ℤ (twice_min s) (leftover c))) [
      | inr g ↦ rw (t, e, g, prepare_loop) refl
      | inl g ↦
          rw (t, e, g, prepare_loop)
            (prepare_loop-over f rounds n (split_pending s c) k (split_pending-Inv v e)
              ∙ split-over v e f k)
    ]
  ]
]

pub prepare-over :
    {size : ℕ} {disk : ℕ → Bool} {s : Sched} (f : Chunk → ℕ) (n : ℕ)
    → IsConserved f
    → Inv size disk s
    → over f (prepare n s).0 ≡ over f s
unfolding prepare
prepare-over {s = s} f n k v = prepare_loop-over f n n s k v

length-split_pending :
    (s : Sched) (c : Chunk) → length (split_pending s c).pending ≡ suc (length s.pending)
unfolding split_pending
length-split_pending s c = omega (
  arith,
  length-append (update c.id lower_half s.pending) (upper_half s.next_id c ∷ []),
  length-update c.id lower_half s.pending,
)

-- Enough ranges, none at all, or a largest remainder that may not be split.
abbrev pub Stops : ℕ → Sched → Type 0
Stops n s =
    (n ≤ length s.pending)
    ⊎ (largest s.pending ≡ none)
    ⊎ ((c : Chunk) × (largest s.pending ≡ some c) × (leb_ℤ (twice_min s) (leftover c) ≡ false))

prepare_loop-Stops :
    (rounds n : ℕ) (s : Sched) → n ≤ length s.pending + rounds → Stops n (prepare_loop rounds n s)
unfolding prepare_loop
prepare_loop-Stops zero n s h = inl (omega arith)
prepare_loop-Stops (suc rounds) n s h = elim (Bool-cases (ltb (length s.pending) n)) [
  | inr f ↦ rw (f, prepare_loop) (inl (ground arith))
  | inl t ↦ elim (Option-cases (largest s.pending)) [
    | inl e ↦ rw (t, e, prepare_loop) (inr (inl e))
    | inr (c, e) ↦ elim (Bool-cases (leb_ℤ (twice_min s) (leftover c))) [
      | inr f ↦ rw (t, e, f, prepare_loop) (inr (inr (c, e, f)))
      | inl g ↦
          rw (t, e, g, prepare_loop)
            (prepare_loop-Stops rounds n (split_pending s c)
              (omega (arith, length-split_pending s c)))
    ]
  ]
]

length-prepare_loop :
    (rounds n : ℕ) (s : Sched) → length s.pending ≤ length (prepare_loop rounds n s).pending
unfolding prepare_loop
length-prepare_loop zero n s = omega arith
length-prepare_loop (suc rounds) n s = elim (Bool-cases (ltb (length s.pending) n)) [
  | inr f ↦ rw (f, prepare_loop) (omega arith)
  | inl t ↦ elim (Option-cases (largest s.pending)) [
    | inl e ↦ rw (t, e, prepare_loop) (omega arith)
    | inr (c, e) ↦ elim (Bool-cases (leb_ℤ (twice_min s) (leftover c))) [
      | inr f ↦ rw (t, e, f, prepare_loop) (omega arith)
      | inl g ↦
          rw (t, e, g, prepare_loop)
            (omega
              (arith, length-prepare_loop rounds n (split_pending s c), length-split_pending s c))
    ]
  ]
]

-- With something pending, `prepare n` for n ≥ 1 reports a number k of grants, 1 ≤ k ≤ n, for which k
-- ranges are pending; and k is n, or the largest pending remainder may not be split.
pub prepare_grants :
    (n : ℕ) (s : Sched)
    → 1 ≤ n
    → 1 ≤ length s.pending
    → let (t, k) = prepare n s in
      (1 ≤ k)
      × (k ≤ n)
      × (k ≤ length t.pending)
      × ((k ≡ n)
          ⊎ ((c : Chunk) × (largest t.pending ≡ some c)
              × (leb_ℤ (twice_min t) (leftover c) ≡ false)))
unfolding prepare
prepare_grants n s h p = (
  omega arith,
  omega arith,
  omega (arith, length-prepare_loop n n s),
  elim (prepare_loop-Stops n n s (omega arith)) [
    | inl e ↦ inl (omega (arith, length-prepare_loop n n s))
    | inr (inl e) ↦ absurd (largest-ne-none _ (omega (arith, length-prepare_loop n n s)) e)
    | inr (inr m) ↦ inr m
  ],
)
