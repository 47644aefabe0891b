-- ===== src/Locks/Steps.antt =====
-- The invariant of the registry, kept by every step.
use go_download.Base.{
  ℕ, ◌+◌, ◌≤◌, ◌<◌, ◌≡◌, refl, Bool, true, false, ◌&&◌, not, ◌==◌, bit, if◌then◌else◌, List, [],
  ◌∷◌, ◌++◌, sum_by, All, All-map, arith, Bool-cases, inl, inr, ap,
}
use go_download.Locks.{
  Entry, update_entry, Phase, waiting, holding, leaving, Caller, Locks, drop_ref,
}
use go_download.Locks.Heap.{leads, leads-update}

abbrev pub refers_to : ℕ → Caller → ℕ
refers_to i c = bit (c.entry == i)

abbrev pub is_holding : Phase → Bool
is_holding waiting = false
is_holding holding = true
is_holding leaving = false

abbrev pub holds_entry : ℕ → Caller → ℕ
holds_entry i c = bit (c.entry == i && is_holding c.phase)

-- An entry counts its callers, has the token or one holder, and is in the map as long as a caller refers to it.
pub record IsCounted (n : ℕ) (cs : List Caller) (e : Entry) : Type 0 where
  pub refs : e.refs ≡ sum_by (refers_to e.id) cs
  pub token : bit e.token + sum_by (holds_entry e.id) cs ≡ 1
  pub mapped : e.mapped ≡ not (e.refs == 0)
  pub old : e.id < n

abbrev pub Leads : List Entry → Caller → Type 0
Leads es c = leads es c.key c.entry ≡ true

pub record IsSound (s : Locks) : Type 0 where
  pub counted : All (IsCounted s.next_id s.callers) s.heap
  pub leading : All (Leads s.heap) s.callers
  pub fresh : All (λ c. c.entry < s.next_id) s.callers

pub All-replace :
    {P Q : Caller → Type 0} (xs ys : List Caller) {c : Caller} (d : Caller)
    → ((a : Caller) → P a → Q a)
    → (P c → Q d)
    → All P (xs ++ (c ∷ ys))
    → All Q (xs ++ (d ∷ ys))
All-replace [] ys d f g h = (g h.0, All-map _ _ ys f h.1)
All-replace (x ∷ xs) ys d f g h = (f x h.0, All-replace xs ys d f g h.1)

pub All-drop :
    {P Q : Caller → Type 0} (xs ys : List Caller) (c : Caller)
    → ((a : Caller) → P a → Q a)
    → All P (xs ++ (c ∷ ys))
    → All Q (xs ++ ys)
All-drop [] ys c f h = All-map _ _ ys f h.1
All-drop (x ∷ xs) ys c f h = (f x h.0, All-drop xs ys c f h.1)

sum-replace :
    (f : Caller → ℕ) (xs ys : List Caller) (c d : Caller)
    → sum_by f (xs ++ (c ∷ ys)) + f d ≡ sum_by f (xs ++ (d ∷ ys)) + f c
sum-replace f [] ys c d = omega arith
sum-replace f (x ∷ xs) ys c d = omega (arith, sum-replace f xs ys c d)

pub sum-drop :
    (f : Caller → ℕ) (xs ys : List Caller) (c : Caller)
    → sum_by f (xs ++ (c ∷ ys)) ≡ sum_by f (xs ++ ys) + f c
sum-drop f [] ys c = omega arith
sum-drop f (x ∷ xs) ys c = omega (arith, sum-drop f xs ys c)

All-both :
    (P Q : Caller → Type 0) (cs : List Caller) → All P cs → All Q cs → All (λ c. P c × Q c) cs
All-both P Q [] h k = tt
All-both P Q (c ∷ cs) h k = ((h.0, k.0), All-both P Q cs h.1 k.1)

-- A caller is one of those that its entry counts.
counted_self :
    (cs ds : List Caller) (n : ℕ)
    → ((i : ℕ) → sum_by (refers_to i) cs ≤ sum_by (refers_to i) ds)
    → All (λ c. 1 ≤ sum_by (refers_to c.entry) ds) cs
counted_self [] ds n h = tt
counted_self (c ∷ cs) ds n h =
    (ground (arith, h c.entry), counted_self cs ds n (λ i. omega (arith, h i)))

-- What `f` does to the entry of the caller c that becomes d.
pub record IsSwap (f : Entry → Entry) (c d : Caller) (e : Entry) : Type 0 where
  pub id : (f e).id ≡ e.id
  pub key : (f e).key ≡ e.key
  pub refs : (f e).refs ≡ e.refs
  pub mapped : (f e).mapped ≡ e.mapped
  pub token :
      e.id ≡ c.entry
      → bit (f e).token + bit (is_holding d.phase) ≡ bit e.token + bit (is_holding c.phase)

pub phase-IsCounted :
    (n : ℕ) (xs ys : List Caller) (c d : Caller) (f : Entry → Entry) (e : Entry)
    → d.entry ≡ c.entry
    → IsSwap f c d e
    → IsCounted n (xs ++ (c ∷ ys)) e
    → IsCounted n (xs ++ (d ∷ ys)) (if e.id == c.entry then f e else e)
phase-IsCounted n xs ys c d f e de w x =
    let r = sum-replace (refers_to e.id) xs ys c d in
    let t = sum-replace (holds_entry e.id) xs ys c d in
    elim (Bool-cases (e.id == c.entry)) [
      | inl q ↦ rw q (record {
        refs =
            ground (
              arith,
              x.refs,
              w.refs,
              r,
              q,
              de,
              ap (λ i. sum_by (refers_to i) (xs ++ (d ∷ ys))) w.id,
            );
        token = ground (
          arith,
          x.token,
          w.token,
          t,
          q,
          de,
          ap (λ i. sum_by (holds_entry i) (xs ++ (d ∷ ys))) w.id,
        );
        mapped = ground (arith, x.mapped, w.mapped, w.refs);
        old = ground (arith, x.old, w.id);
      })
      | inr q ↦ rw q (record {
        refs = ground (arith, x.refs, r, q, de);
        token = ground (arith, x.token, t, q, de);
        mapped = x.mapped;
        old = x.old;
      })
    ]

pub drop-IsCounted :
    (n : ℕ) (xs ys : List Caller) (c : Caller) (e : Entry)
    → is_holding c.phase ≡ false
    → IsCounted n (xs ++ (c ∷ ys)) e
    → IsCounted n (xs ++ ys) (if e.id == c.entry then drop_ref e else e)
drop-IsCounted n xs ys c e w x =
    let r = sum-drop (refers_to e.id) xs ys c in
    let t = sum-drop (holds_entry e.id) xs ys c in
    elim (Bool-cases (e.id == c.entry)) [
      | inl q ↦ rw q (record {
        refs = ground (arith, x.refs, r, q);
        token = ground (arith, x.token, t, w);
        mapped = ground (arith, x.mapped, x.refs, r, q);
        old = x.old;
      })
      | inr q ↦ rw q (record {
        refs = ground (arith, x.refs, r, q);
        token = ground (arith, x.token, t, w);
        mapped = x.mapped;
        old = x.old;
      })
    ]

pub All-entries : {P : Entry → Type 0} (es : List Entry) → ((e : Entry) → P e) → All P es
All-entries [] g = tt
All-entries (e ∷ es) g = (g e, All-entries es g)

pub All-heap :
    {P Q : Entry → Type 0} (es : List Entry) → ((e : Entry) → P e → Q e) → All P es → All Q es
All-heap [] g h = tt
All-heap (e ∷ es) g h = (g e h.0, All-heap es g h.1)

-- A write that unmaps nothing keeps where the callers' keys lead.
pub leading-swap :
    (cs : List Caller) (i : ℕ) (f : Entry → Entry) (es : List Entry)
    → ((e : Entry) → ((f e).key ≡ e.key) × ((f e).id ≡ e.id) × ((f e).mapped ≡ e.mapped))
    → All (Leads es) cs
    → All (Leads (update_entry i f es)) cs
leading-swap cs i f es w h =
    All-map _ _ cs
      (λ c l.
        leads-update i c.key c.entry f es (λ e. (w e).0) (λ e. (w e).1)
          (λ e m. ground (arith, (w e).2, m)) (All-entries es (λ e. ground (arith, (w e).2))) l)
      h

-- Dropping a reference unmaps no entry that another caller refers to.
pub leading-drop :
    (n : ℕ) (xs ys : List Caller) (c : Caller) (es : List Entry)
    → All (IsCounted n (xs ++ (c ∷ ys))) es
    → All (Leads es) (xs ++ ys)
    → All (Leads (update_entry c.entry drop_ref es)) (xs ++ ys)
leading-drop n xs ys c es k h =
    All-map _ _ (xs ++ ys)
      (λ a l.
        leads-update c.entry a.key a.entry drop_ref es (λ e. refl) (λ e. refl)
          (λ e m. ground (arith, m))
          (All-heap es
            (λ e x. ground (arith, x.refs, x.mapped, l.1, sum-drop (refers_to e.id) xs ys c)) k)
          l.0)
      (All-both (Leads es) (λ a. 1 ≤ sum_by (refers_to a.entry) (xs ++ ys)) (xs ++ ys) h
        (counted_self (xs ++ ys) (xs ++ ys) n (λ i. omega arith)))
