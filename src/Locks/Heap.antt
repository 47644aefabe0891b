-- ===== src/Locks/Heap.antt =====
-- Writes through a pointer to an entry.
use go_download.Base.{
  ℕ, ◌≡◌, Bool, true, false, ◌&&◌, not, ◌==◌, if◌then◌else◌, none, some, List, [], ◌∷◌, All, arith,
}
use go_download.Locks.{Entry, lookup, find_entry, update_entry}

pub All-update_entry {ℓ κ} :
    (P : Entry → Type ℓ) (Q : Entry → Type κ) (i : ℕ) (f : Entry → Entry) (es : List Entry)
    → ((e : Entry) → P e → Q (if e.id == i then f e else e))
    → All P es
    → All Q (update_entry i f es)
unfolding update_entry
All-update_entry P Q i f [] g h = tt
All-update_entry P Q i f (e ∷ es) g h = (g e h.0, All-update_entry P Q i f es g h.1)

pub All-lookup {ℓ} :
    (P : Entry → Type ℓ) (k : ℕ) (es : List Entry) {e : Entry}
    → lookup k es ≡ some e
    → All P es
    → P e
unfolding lookup
All-lookup P k [] h a = ground (arith, h)
All-lookup P k (x ∷ es) {e} h a = ground (arith, All-lookup P k es {e = e})

pub lookup-key :
    (k : ℕ) (es : List Entry) {e : Entry} → lookup k es ≡ some e → (e.key ≡ k) × (e.mapped ≡ true)
unfolding lookup
lookup-key k [] h = ground (arith, h)
lookup-key k (x ∷ es) {e} h = ground (arith, lookup-key k es {e = e})

-- Where a caller's key leads to its entry.
abbrev pub leads : List Entry → ℕ → ℕ → Bool
leads es k i = elim (lookup k es) [ none ↦ false | some e ↦ e.id == i ]

-- A write that keeps keys and ids, and unmaps no entry that matters, keeps where a key leads.
pub leads-update :
    (i k j : ℕ) (f : Entry → Entry) (es : List Entry)
    → ((e : Entry) → (f e).key ≡ e.key)
    → ((e : Entry) → (f e).id ≡ e.id)
    → ((e : Entry) → e.mapped ≡ false → (f e).mapped ≡ false)
    → All (λ e. ((e.id == i) && (j == i) && e.mapped && not (f e).mapped) ≡ false) es
    → leads es k j ≡ true
    → leads (update_entry i f es) k j ≡ true
unfolding lookup update_entry
leads-update i k j f [] hk hi hm keeps h = ground (arith, h)
leads-update i k j f (e ∷ es) hk hi hm keeps h =
    ground (arith, h, hk e, hi e, hm e, keeps.0, leads-update i k j f es hk hi hm keeps.1)

pub All-find_entry {ℓ} :
    (P : Entry → Type ℓ) (i : ℕ) (es : List Entry) {e : Entry}
    → find_entry i es ≡ some e
    → All P es
    → P e
unfolding find_entry
All-find_entry P i [] h a = ground (arith, h)
All-find_entry P i (x ∷ es) {e} h a = ground (arith, All-find_entry P i es {e = e})

pub find_entry-id : (i : ℕ) (es : List Entry) {e : Entry} → find_entry i es ≡ some e → e.id ≡ i
unfolding find_entry
find_entry-id i [] h = ground (arith, h)
find_entry-id i (x ∷ es) {e} h = ground (arith, h, find_entry-id i es {e = e})
