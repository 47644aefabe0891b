-- ===== src/Locks/Exclusion.antt =====
-- Mutual exclusion, and no entry is left behind.
use go_download.Base.{
  ℕ, ◌+◌, ◌≤◌, ◌≡◌, refl, true, ◌&&◌, not, ◌==◌, bit, none, some, List, [], ◌∷◌, sum_by, All,
  All-map, arith, Bool-cases, Option-cases, inl, inr, sym, ap,
}
use go_download.Locks.{Entry, lookup, find_entry, Caller, Locks, Reach, no_locks}
use go_download.Locks.Heap.{All-find_entry, find_entry-id, All-lookup, leads}
use go_download.Locks.Steps.{refers_to, is_holding, holds_entry, IsCounted, Leads, All-heap}
use go_download.Locks.Kept.{==-≡, Reach-IsSound, no_locks-IsSound}

-- Counts the holders of a key.
abbrev pub holds_key : ℕ → Caller → ℕ
holds_key k c = bit (c.key == k && is_holding c.phase)

-- A caller with the key k refers to the entry that k leads to.
holders-bounded :
    (k : ℕ) (es : List Entry) (cs : List Caller) {e : Entry}
    → lookup k es ≡ some e
    → All (Leads es) cs
    → sum_by (holds_key k) cs ≤ sum_by (holds_entry e.id) cs
holders-bounded k es [] q h = omega arith
holders-bounded k es (c ∷ cs) {e} q h = elim (Bool-cases (c.key == k)) [
  | inl b ↦
      ground
        (arith, b, q, h.0, holders-bounded k es cs q h.1, ap (λ x. lookup x es) (==-≡ c.key k b))
  | inr b ↦ ground (arith, b, holders-bounded k es cs q h.1)
]

holders-none :
    (k : ℕ) (es : List Entry) (cs : List Caller)
    → lookup k es ≡ none
    → All (Leads es) cs
    → sum_by (holds_key k) cs ≡ 0
holders-none k es [] q h = refl
holders-none k es (c ∷ cs) q h = elim (Bool-cases (c.key == k)) [
  | inl b ↦ ground (arith, b, q, h.0, ap (λ x. lookup x es) (==-≡ c.key k b))
  | inr b ↦ ground (arith, b, holders-none k es cs q h.1)
]

-- In every state that the callers' steps reach from the empty registry, at most one caller holds a destination's key.
pub Reach-holds_key : (k : ℕ) {s : Locks} → Reach no_locks s → sum_by (holds_key k) s.callers ≤ 1
Reach-holds_key k {s} r = elim (Option-cases (lookup k s.heap)) [
  | inl n ↦
      omega (arith, holders-none k s.heap s.callers n (Reach-IsSound r no_locks-IsSound).leading)
  | inr (e, q) ↦
      let i = Reach-IsSound r no_locks-IsSound in
      let y = All-lookup (IsCounted s.next_id s.callers) k s.heap q i.counted in
      omega (arith, holders-bounded k s.heap s.callers q i.leading, y.token)
]

-- In every reachable state each entry ever made is in the registry's map exactly if some caller refers to
-- it, so that once the callers are gone the map is empty.
pub Reach-mapped :
    {s : Locks}
    → Reach no_locks s
    → All (λ e. e.mapped ≡ not (sum_by (refers_to e.id) s.callers == 0)) s.heap
Reach-mapped {s} r =
    All-heap s.heap (λ e y. ground (arith, y.mapped, y.refs))
      (Reach-IsSound r no_locks-IsSound).counted

leads-find_entry :
    (k i : ℕ) (es : List Entry) → leads es k i ≡ true → (e : Entry) × find_entry i es ≡ some e
unfolding lookup find_entry
leads-find_entry k i [] h = ground (arith, h)
leads-find_entry k i (e ∷ es) h = elim (Bool-cases (e.id == i)) [
  | inl q ↦ (e, simp q refl)
  | inr q ↦ let r = leads-find_entry k i es (ground (arith, h, q)) in (r.0, simp q r.1)
]

-- In every reachable state each caller's entry has its token or exactly one caller that holds it, and never
-- both: a waiting caller waits for the token or for one holder, and a holder's put finds the channel empty.
pub Reach-token :
    {s : Locks}
    → Reach no_locks s
    → All
        (λ c.
          (e : Entry) × (find_entry c.entry s.heap ≡ some e)
          × (bit e.token + sum_by (holds_entry c.entry) s.callers ≡ 1))
        s.callers
Reach-token {s} r =
    let i = Reach-IsSound r no_locks-IsSound in
    All-map _ _ s.callers
      (λ c l.
        let f = leads-find_entry c.key c.entry s.heap l in
        let y = All-find_entry (IsCounted s.next_id s.callers) c.entry s.heap f.1 i.counted in
        (f.0, f.1, rw (sym (find_entry-id c.entry s.heap f.1)) y.token))
      i.leading
