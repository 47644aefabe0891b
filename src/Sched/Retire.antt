-- ===== src/Sched/Retire.antt =====
-- Retirement: what a retiring worker owns has nothing left to  so `run` can always complete it.
use go_download.Base.{
  ℕ, ◌+◌, ◌≡◌, refl, sym, subst, List, [], ◌∷◌, Option, none, some, true, false, inl, inr, arith,
  Bool, ltb, ◌&&◌, All, All-map, Bool-cases, contains, delete, leb_ℤ,
}
use go_download.Chunk.{Chunk, position, update, largest, lower_half, upper_half, leftover}
use go_download.Chunk.Lists.{All-find, All-update}
use go_download.Chunk.Ranges.{IsWithin, half_way_bounds}
use go_download.Sched.{
  Sched, next, take_pending, steal, register, refused, deregister, demote, shed, shed_one,
  twice_min,
}
use go_download.Sched.Invariant.{Inv, find-largest, register-Inv}
use go_download.Sched.Demote.{marked, demote_cases}

-- Nothing of the chunk is left to claim if its owner is to retire.
abbrev pub IsQuiet : List ℕ → Chunk → Type 0
IsQuiet retiring c = (contains retiring c.owner && ltb (c.off + c.done) c.end) ≡ false

abbrev pub AllQuiet : Sched → Type 0
AllQuiet s = All (IsQuiet s.retiring) s.active

contains-delete : (a w : ℕ) (xs : List ℕ) → contains (delete w xs) a ≡ true → contains xs a ≡ true
contains-delete a w [] h = cc
contains-delete a w (x ∷ xs) h = ground (arith, contains-delete a w xs)

delete-IsQuiet : (w : ℕ) (xs : List ℕ) (c : Chunk) → IsQuiet xs c → IsQuiet (delete w xs) c
delete-IsQuiet w xs c h = ground (arith, contains-delete c.owner w xs)

pub deregister-AllQuiet : (w : ℕ) (s : Sched) → AllQuiet s → AllQuiet (deregister w s)
unfolding deregister
deregister-AllQuiet w s h =
    All-map (IsQuiet s.retiring) (IsQuiet (delete w s.retiring)) s.active
      (delete-IsQuiet w s.retiring) h

lower_half-IsQuiet :
    (xs : List ℕ) (c : Chunk) → IsWithin c → IsQuiet xs c → IsQuiet xs (lower_half c)
lower_half-IsQuiet xs c w h = ground (arith, half_way_bounds (position c) c.end w.0)

module _ {size : ℕ} {disk : ℕ → Bool} {s : Sched} (v : Inv size disk s) (q : AllQuiet s) (w : ℕ)
    (stays : contains s.retiring w ≡ false) where
  stolen :
      (c : Chunk)
      → largest s.active ≡ some c
      → All
          (IsQuiet s.retiring)
          (record (upper_half s.next_id c) { owner = w } ∷ update c.id lower_half s.active)
  stolen c e = (
    rw stays refl,
    All-update (IsQuiet s.retiring) c.id lower_half s.active (find-largest v e) q (
        lower_half-IsQuiet s.retiring c
          (All-find IsWithin c.id s.active (find-largest v e) v.within)
          (All-find (IsQuiet s.retiring) c.id s.active (find-largest v e) q)),
  )

  steal-AllQuiet : (o : Option Chunk) → largest s.active ≡ o → AllQuiet (steal w s o).0
  unfolding steal
  steal-AllQuiet none e = deregister-AllQuiet w s q
  steal-AllQuiet (some c) e = elim (Bool-cases (leb_ℤ (twice_min s) (leftover c))) [
    | inl t ↦ rw (t, steal) (stolen c e)
    | inr t ↦ rw (t, steal) (deregister-AllQuiet w s q)
  ]

  take_pending-AllQuiet : (ps : List Chunk) → AllQuiet (take_pending w s ps).0
  unfolding take_pending
  take_pending-AllQuiet [] = steal-AllQuiet (largest s.active) refl
  take_pending-AllQuiet (p ∷ rest) = (rw stays refl, q)

pub next-AllQuiet :
    {size : ℕ} {disk : ℕ → Bool} {s : Sched} (w : ℕ)
    → Inv size disk s
    → AllQuiet s
    → AllQuiet (next w s).0
unfolding next
next-AllQuiet {s = s} w v q = elim (Bool-cases (refused w (register w s))) [
  | inl t ↦ rw (t, next) (deregister-AllQuiet w (register w s) q)
  | inr t ↦ rw (t, next) (take_pending-AllQuiet (register-Inv w v) q w (ground arith) s.pending)
]

shed_one-IsQuiet : (s : Sched) (c : Chunk) → IsQuiet s.retiring (shed_one s c).1
unfolding shed_one
shed_one-IsQuiet s c = ground arith

shed_one-retiring : (s : Sched) (c : Chunk) → (shed_one s c).0.retiring ≡ s.retiring
unfolding shed_one
shed_one-retiring s c = ground arith

shed-retiring : (s : Sched) (cs : List Chunk) → (shed s cs).0.retiring ≡ s.retiring
unfolding shed
shed-retiring s [] = refl
shed-retiring s (c ∷ cs) = cc (shed_one-retiring s c, shed-retiring (shed_one s c).0 cs)

shed-AllQuiet : (s : Sched) (cs : List Chunk) → All (IsQuiet s.retiring) (shed s cs).1
unfolding shed
shed-AllQuiet s [] = tt
shed-AllQuiet s (c ∷ cs) = (
  shed_one-IsQuiet s c,
  subst (λ r. All (IsQuiet r) (shed (shed_one s c).0 cs).1) (shed_one-retiring s c)
      (shed-AllQuiet (shed_one s c).0 cs),
)

pub demote-AllQuiet : (n : ℕ) (s : Sched) → AllQuiet s → AllQuiet (demote n s).0
demote-AllQuiet n s q = demote_cases AllQuiet n s q (
    subst (λ r. All (IsQuiet r) (shed (marked n s) s.active).1)
      (sym (shed-retiring (marked n s) s.active)) (shed-AllQuiet (marked n s) s.active))
