-- ===== src/Locks/Kept.antt =====
-- Every step of a caller keeps the registry's invariant.
use go_download.Base.{
  ℕ, suc, ◌<◌, ◌≡◌, refl, true, false, ◌==◌, if◌then◌else◌, none, some, List, [], ◌∷◌, ◌++◌, sum_by,
  All, All-map, arith, Bool-cases, Option-cases, inl, inr, subst, ap,
}
use go_download.Locks.{
  Entry, lookup, update_entry, Phase, waiting, holding, leaving, Caller, Locks, new_entry, add_ref,
  take_token, put_token, drop_ref, ref_destination, in_phase, Step, refers, takes, gives_up,
  puts_back, releases, Reach, here, next_step, no_locks,
}
use go_download.Locks.Heap.{
  All-find_entry, find_entry-id, All-update_entry, All-lookup, lookup-key, leads,
}
use go_download.Locks.Steps.{
  sum-drop, refers_to, is_holding, holds_entry, IsCounted, Leads, IsSound, IsSwap, phase-IsCounted,
  drop-IsCounted, leading-swap, leading-drop, All-replace, All-drop, All-heap,
}

phase-IsSound :
    (xs ys : List Caller) (c : Caller) (p : Phase) (f : Entry → Entry) (s : Locks)
    → s.callers ≡ xs ++ (c ∷ ys)
    → ((e : Entry) → IsCounted s.next_id s.callers e → IsSwap f c (in_phase p c) e)
    → ((e : Entry) → ((f e).key ≡ e.key) × ((f e).id ≡ e.id) × ((f e).mapped ≡ e.mapped))
    → IsSound s
    → IsSound
        (record s { heap = update_entry c.entry f s.heap; callers = xs ++ (in_phase p c ∷ ys) })
phase-IsSound xs ys c p f s q w k i =
    let split = subst (λ cs. All (IsCounted s.next_id cs) s.heap) q i.counted in
    record {
      counted =
          All-update_entry
            (λ e. IsCounted s.next_id s.callers e × IsCounted s.next_id (xs ++ (c ∷ ys)) e) _
            c.entry f s.heap
            (λ e x. phase-IsCounted s.next_id xs ys c (in_phase p c) f e refl (w e x.0) x.1)
            (All-heap s.heap (λ e x. (x, subst (λ cs. IsCounted s.next_id cs e) q x)) i.counted);
      leading = leading-swap (xs ++ (in_phase p c ∷ ys)) c.entry f s.heap k (
          All-replace xs ys (in_phase p c) (λ a l. l) (λ l. l)
            (subst (All (Leads s.heap)) q i.leading));
      fresh =
          All-replace xs ys (in_phase p c) (λ a l. l) (λ l. l)
            (subst (All (λ a. a.entry < s.next_id)) q i.fresh);
    }

drop-IsSound :
    (xs ys : List Caller) (c : Caller) (s : Locks)
    → s.callers ≡ xs ++ (c ∷ ys)
    → is_holding c.phase ≡ false
    → IsSound s
    → IsSound (record s { heap = update_entry c.entry drop_ref s.heap; callers = xs ++ ys })
drop-IsSound xs ys c s q w i =
    let split = subst (λ cs. All (IsCounted s.next_id cs) s.heap) q i.counted in
    record {
      counted =
          All-update_entry (IsCounted s.next_id (xs ++ (c ∷ ys))) _ c.entry drop_ref s.heap
            (λ e x. drop-IsCounted s.next_id xs ys c e w x) split;
      leading =
          leading-drop s.next_id xs ys c s.heap split
            (All-drop xs ys c (λ a l. l) (subst (All (Leads s.heap)) q i.leading));
      fresh = All-drop xs ys c (λ a l. l) (subst (All (λ a. a.entry < s.next_id)) q i.fresh);
    }

-- No caller refers to an entry that does not exist yet.
fresh-unheld :
    (n : ℕ) (cs : List Caller)
    → All (λ a. a.entry < n) cs
    → (sum_by (refers_to n) cs ≡ 0) × (sum_by (holds_entry n) cs ≡ 0)
fresh-unheld n [] h = (refl, refl)
fresh-unheld n (c ∷ cs) h = ground (arith, h.0, fresh-unheld n cs h.1)

pub ==-≡ : (a b : ℕ) → (a == b) ≡ true → a ≡ b
==-≡ a b h = ground (arith, h)

-- A new entry hides no entry that a caller's key leads to.
leads-cons :
    (n k j l : ℕ) (es : List Entry)
    → lookup k es ≡ none
    → leads es j l ≡ true
    → leads (add_ref (new_entry n k) ∷ es) j l ≡ true
unfolding lookup
leads-cons n k j l es h t = elim (Bool-cases (k == j)) [
  | inl e ↦ ground (arith, e, h, t, ap (λ x. lookup x es) (==-≡ k j e))
  | inr e ↦ ground (arith, e, t)
]

leads-new : (n k : ℕ) (es : List Entry) → leads (add_ref (new_entry n k) ∷ es) k n ≡ true
unfolding lookup
leads-new n k es = ground arith

leads-found : (k : ℕ) (es : List Entry) {e : Entry} → lookup k es ≡ some e → leads es k e.id ≡ true
leads-found k es {e} q = rw (leads, q) (ground arith)

new-IsSound :
    (k : ℕ) (s : Locks)
    → lookup k s.heap ≡ none
    → IsSound s
    → IsSound (record {
      heap = add_ref (new_entry s.next_id k) ∷ s.heap;
      next_id = suc s.next_id;
      callers = (record { key = k; entry = s.next_id; phase = waiting }) ∷ s.callers;
    })
new-IsSound k s e i =
    let z = fresh-unheld s.next_id s.callers i.fresh in
    record {
      counted = (
        record {
          refs = ground (arith, z);
          token = ground (arith, z);
          mapped = refl;
          old = omega arith;
        },
        All-heap s.heap
            (λ x y. record {
              refs = ground (arith, y.refs, y.old);
              token = ground (arith, y.token, y.old);
              mapped = y.mapped;
              old = omega (arith, y.old);
            })
            i.counted,
      );
      leading = (
        leads-new s.next_id k s.heap,
        All-map _ _ s.callers (λ a l. leads-cons s.next_id k a.key a.entry s.heap e l) i.leading,
      );
      fresh = (omega arith, All-map _ _ s.callers (λ a l. omega (arith, l)) i.fresh);
    }

-- A new reference to an entry of the map.
ref-IsCounted :
    (n : ℕ) (cs : List Caller) (k : ℕ) (e x : Entry)
    → e.mapped ≡ true
    → IsCounted n cs e
    → IsCounted n cs x
    → IsCounted n
        ((record { key = k; entry = e.id; phase = waiting }) ∷ cs)
        (if x.id == e.id then add_ref x else x)
ref-IsCounted n cs k e x m ce y = elim (Bool-cases (x.id == e.id)) [
  | inl q ↦ rw q (record {
    refs = ground (arith, y.refs, q);
    token = ground (arith, y.token, q);
    mapped = ground (
      arith,
      y.mapped,
      y.refs,
      ce.refs,
      ce.mapped,
      m,
      ap (λ i. sum_by (refers_to i) cs) (==-≡ x.id e.id q),
    );
    old = y.old;
  })
  | inr q ↦ rw q (record {
    refs = ground (arith, y.refs, q);
    token = ground (arith, y.token, q);
    mapped = y.mapped;
    old = y.old;
  })
]

known-IsSound :
    (k : ℕ) (s : Locks) (e : Entry)
    → lookup k s.heap ≡ some e
    → IsSound s
    → IsSound (record s {
      heap = update_entry e.id add_ref s.heap;
      callers = (record { key = k; entry = e.id; phase = waiting }) ∷ s.callers;
    })
known-IsSound k s e q i =
    let ce = All-lookup (IsCounted s.next_id s.callers) k s.heap q i.counted in
    let m = lookup-key k s.heap q in
    record {
      counted =
          All-update_entry (IsCounted s.next_id s.callers) _ e.id add_ref s.heap
            (λ x y. ref-IsCounted s.next_id s.callers k e x m.1 ce y) i.counted;
      leading =
          leading-swap ((record { key = k; entry = e.id; phase = waiting }) ∷ s.callers) e.id
            add_ref s.heap (λ x. (refl, refl, refl)) (leads-found k s.heap q, i.leading);
      fresh = (ce.old, i.fresh);
    }

ref_destination-IsSound : (k : ℕ) (s : Locks) → IsSound s → IsSound (ref_destination k s)
unfolding ref_destination
ref_destination-IsSound k s i = elim (Option-cases (lookup k s.heap)) [
  | inl e ↦ simp (e, ref_destination) (new-IsSound k s e i)
  | inr (e, q) ↦ simp (q, ref_destination) (known-IsSound k s e q i)
]

takes-IsSwap :
    (n : ℕ) (cs : List Caller) (c : Caller) (e0 e : Entry)
    → c.phase ≡ waiting
    → e0.id ≡ c.entry
    → e0.token ≡ true
    → IsCounted n cs e0
    → IsCounted n cs e
    → IsSwap take_token c (in_phase holding c) e
takes-IsSwap n cs c e0 e w q t x y = record {
  id = refl;
  key = refl;
  refs = refl;
  mapped = refl;
  token = λ r. ground (
    arith,
    x.token,
    y.token,
    t,
    ap (λ i. sum_by (holds_entry i) cs) q,
    ap (λ i. sum_by (holds_entry i) cs) r,
    ap is_holding w,
  );
}

puts_back-IsSwap :
    (n : ℕ) (xs ys : List Caller) (c : Caller) (e : Entry)
    → c.phase ≡ holding
    → IsCounted n (xs ++ (c ∷ ys)) e
    → IsSwap put_token c (in_phase leaving c) e
puts_back-IsSwap n xs ys c e w y = record {
  id = refl;
  key = refl;
  refs = refl;
  mapped = refl;
  token = λ r. ground (arith, y.token, r, sum-drop (holds_entry e.id) xs ys c, ap is_holding w);
}

pub Step-IsSound : {s t : Locks} → Step s t → IsSound s → IsSound t
Step-IsSound (refers k s) i = ref_destination-IsSound k s i
Step-IsSound (takes xs ys c s e q w f t) i =
    phase-IsSound xs ys c holding take_token s q
      (λ x y.
        takes-IsSwap s.next_id s.callers c e x w (find_entry-id c.entry s.heap f) t
          (All-find_entry (IsCounted s.next_id s.callers) c.entry s.heap f i.counted) y)
      (λ x. (refl, refl, refl)) i
Step-IsSound (gives_up xs ys c s q w) i = drop-IsSound xs ys c s q (ap is_holding w) i
Step-IsSound (puts_back xs ys c s q w) i =
    phase-IsSound xs ys c leaving put_token s q
      (λ x y. puts_back-IsSwap s.next_id xs ys c x w (subst (λ cs. IsCounted s.next_id cs x) q y))
      (λ x. (refl, refl, refl)) i
Step-IsSound (releases xs ys c s q w) i = drop-IsSound xs ys c s q (ap is_holding w) i

pub Reach-IsSound : {s t : Locks} → Reach s t → IsSound s → IsSound t
Reach-IsSound here i = i
Reach-IsSound (next_step r p) i = Step-IsSound p (Reach-IsSound r i)

pub no_locks-IsSound : IsSound no_locks
no_locks-IsSound = record { counted = tt; leading = tt; fresh = tt }
