-- ===== src/Sched/Handout.antt =====
-- What `next` can do to the chunks: nothing, grant the first pending chunk, or split the largest
-- chunk in flight.
use go_download.Base.{
  ℕ, suc, ◌≡◌, refl, List, [], ◌∷◌, Option, none, some, true, inl, inr, leb_ℤ, Bool-cases,
}
use go_download.Chunk.{Chunk, leftover, lower_half, upper_half, largest, update}
use go_download.Sched.{Sched, twice_min, next, take_pending, steal, register, refused}

pub data Handout (s t : Sched) : Type 0 where
  unchanged : t.pending ≡ s.pending → t.active ≡ s.active → t.next_id ≡ s.next_id → Handout s t
  grants :
      (w : ℕ) (p : Chunk)
      → s.pending ≡ p ∷ t.pending
      → t.active ≡ record p { owner = w } ∷ s.active
      → t.next_id ≡ s.next_id
      → Handout s t
  splits :
      (w : ℕ) (victim : Chunk)
      → largest s.active ≡ some victim
      → leb_ℤ (twice_min s) (leftover victim) ≡ true
      → s.pending ≡ []
      → t.pending ≡ []
      → t.active
        ≡ record (upper_half s.next_id victim) { owner = w } ∷ update victim.id lower_half s.active
      → t.next_id ≡ suc s.next_id
      → Handout s t

steal-Handout :
    (w : ℕ) (s : Sched) (v : Option Chunk)
    → largest s.active ≡ v
    → s.pending ≡ []
    → Handout s (steal w s v).0
unfolding steal
steal-Handout w s none e h = unchanged refl refl refl
steal-Handout w s (some v) e h = elim (Bool-cases (leb_ℤ (twice_min s) (leftover v))) [
  | inl t ↦ rw (t, steal) (splits w v e t h h refl refl)
  | inr t ↦ rw (t, steal) (unchanged refl refl refl)
]

take_pending-Handout :
    (w : ℕ) (s : Sched) (ps : List Chunk) → s.pending ≡ ps → Handout s (take_pending w s ps).0
unfolding take_pending
take_pending-Handout w s [] e = steal-Handout w s (largest s.active) refl e
take_pending-Handout w s (p ∷ rest) e = grants w p e refl refl

pub next-Handout : (w : ℕ) (s : Sched) → Handout (register w s) (next w s).0
unfolding next
next-Handout w s = elim (Bool-cases (refused w (register w s))) [
  | inl t ↦ rw (t, next) (unchanged refl refl refl)
  | inr t ↦ rw (t, next) (take_pending-Handout w (register w s) s.pending refl)
]
