-- ===== src/Attempt/Cooled.antt =====
-- An address that has failed rests.
use go_download.Base.{
  ℕ, ◌+◌, ◌<◌, ◌≡◌, refl, Bool, true, false, ◌&&◌, leb, ◌==◌, Option, none, some, List, [], ◌∷◌,
  All, arith, Bool-cases, Option-cases, inl, inr, sym, subst, ◌∙◌,
}
use go_download.Nodes.{
  NodeAddress, Placement, PlacedWorker, find_node, update_node, find_worker, worker_locked,
  assign_locked, is_valid, eq_addr, candidate, consider, best_from, best_locked, take_conn,
  release_conn, node_availability_cooldown,
}
use go_download.Nodes.Ops.{reserve, reserve_for, reserve_choice, cool_down}
use go_download.Attempt.{current_address}

-- Until `later` the node of this address is unavailable.
abbrev pub Rests : ℕ → ℕ → NodeAddress → Type 0
Rests a later n = (n.addr == a && leb n.unavailable_until later) ≡ false

pub cooled :
    (a now later : ℕ) (ns : List NodeAddress)
    → later < now + node_availability_cooldown
    → All (Rests a later) (update_node (some a) (cool_down now) ns)
unfolding update_node
cooled a now later [] h = tt
cooled a now later (n ∷ ns) h = (
  elim (Bool-cases (a == n.addr)) [
    | inl e ↦ rw e (ground (arith, h))
    | inr e ↦ rw e (ground (arith, e))
  ],
  cooled a now later ns h,
)

pub assign-same :
    (w : PlacedWorker) (addr : Option ℕ) (force : Bool) (p : Placement)
    → eq_addr w.addr addr ≡ true
    → (assign_locked w addr force p).by_addr ≡ p.by_addr
unfolding assign_locked
assign-same w addr true p h = simp (h, assign_locked) refl
assign-same w addr false p h = simp (h, assign_locked) refl

pub assign-moved :
    (w : PlacedWorker) (addr : Option ℕ) (force : Bool) (p : Placement)
    → eq_addr w.addr addr ≡ false
    → (assign_locked w addr force p).by_addr
      ≡ update_node addr take_conn (update_node w.addr release_conn p.by_addr)
unfolding assign_locked
assign-moved w addr force p h = simp (h, assign_locked) refl

-- A choice that is not this address.
abbrev Elsewhere : ℕ → Option NodeAddress → Type 0
Elsewhere a none = Unit
Elsewhere a (some n) = (n.addr == a) ≡ false

find-Rests :
    (a later b : ℕ) (ns : List NodeAddress) {n : NodeAddress}
    → find_node b ns ≡ some n
    → All (Rests a later) ns
    → Rests a later n
unfolding find_node
find-Rests a later b [] h r = ground (arith, h)
find-Rests a later b (m ∷ ns) {n} h r = ground (arith, find-Rests a later b ns {n = n})

consider-Elsewhere :
    (a later : ℕ) (exclude : Option ℕ) (n : NodeAddress) (chosen : Option NodeAddress)
    → Rests a later n
    → Elsewhere a chosen
    → Elsewhere a (consider later exclude n chosen)
unfolding consider
consider-Elsewhere a later exclude n none r h = elim (Bool-cases (candidate later exclude n)) [
  | inl e ↦ simp (e, consider) (ground (arith, e, r))
  | inr e ↦ simp (e, consider) tt
]
consider-Elsewhere a later exclude n (some c) r h = ground (arith, r, h)

best_from-Elsewhere :
    (a later : ℕ) (exclude : Option ℕ) (ns : List NodeAddress) (rest : List ℕ)
    (chosen : Option NodeAddress)
    → All (Rests a later) ns
    → Elsewhere a chosen
    → Elsewhere a (best_from ns later exclude rest chosen)
unfolding best_from
best_from-Elsewhere a later exclude ns [] chosen r h = h
best_from-Elsewhere a later exclude ns (b ∷ rest) chosen r h =
    elim (Option-cases (find_node b ns)) [
      | inl e ↦ simp (e, best_from) (best_from-Elsewhere a later exclude ns rest chosen r h)
      | inr (n, e) ↦
          simp (e, best_from)
            (best_from-Elsewhere a later exclude ns rest (consider later exclude n chosen) r
              (consider-Elsewhere a later exclude n chosen (find-Rests a later b ns e r) h))
    ]

choice-Elsewhere :
    (a later : ℕ) (w : PlacedWorker) (p : Placement)
    → All (Rests a later) p.by_addr
    → Elsewhere a (reserve_choice later w p)
unfolding reserve_choice best_locked
choice-Elsewhere a later w p r = elim (Option-cases (best_locked later w.avoid_next p)) [
  | inr (n, e) ↦
      simp (e, reserve_choice)
        (subst (Elsewhere a) e
          (best_from-Elsewhere a later w.avoid_next p.by_addr p.ordered none r tt))
  | inl e ↦ elim (Bool-cases (is_valid w.avoid_next)) [
    | inl f ↦
        simp (e, f, reserve_choice) (best_from-Elsewhere a later none p.by_addr p.ordered none r tt)
    | inr f ↦ simp (e, f, reserve_choice) tt
  ]
]

-- A reservation that is not this address.
abbrev pub NotAt : ℕ → Option ℕ → Type 0
NotAt a none = Unit
NotAt a (some b) = (b == a) ≡ false

reserve_for-NotAt :
    (a later : ℕ) (w : PlacedWorker) (p : Placement)
    → w.addr ≡ none
    → All (Rests a later) p.by_addr
    → NotAt a (reserve_for later w p).1
unfolding reserve_for
reserve_for-NotAt a later w p e r = elim (Option-cases (reserve_choice later w p)) [
  | inl f ↦ simp (e, f, reserve_for) tt
  | inr (n, f) ↦ simp (e, f, reserve_for) (subst (Elsewhere a) f (choice-Elsewhere a later w p r))
]

pub worker-current :
    (i : ℕ) (p : Placement)
    → ((worker_locked i p).1.addr ≡ current_address i p)
      × ((worker_locked i p).0.by_addr ≡ p.by_addr)
unfolding worker_locked current_address
worker-current i p = elim (Option-cases (find_worker i p.workers)) [
  | inl e ↦ simp (e, worker_locked, current_address) (refl, refl)
  | inr (w, e) ↦ simp (e, worker_locked, current_address) (refl, refl)
]

pub reserve-NotAt :
    (a later i : ℕ) (p : Placement)
    → current_address i p ≡ none
    → All (Rests a later) p.by_addr
    → NotAt a (reserve later i p).1
unfolding reserve
reserve-NotAt a later i p e r = elim (Bool-cases p.closed) [
  | inl f ↦ simp (f, reserve) tt
  | inr f ↦
      simp (f, reserve)
        (reserve_for-NotAt a later (worker_locked i p).1 (worker_locked i p).0
          ((worker-current i p).0 ∙ e) (subst (All (Rests a later)) (sym (worker-current i p).1) r))
]
