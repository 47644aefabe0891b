-- ===== src/Nodes/Steps.antt =====
-- The runs of nodePlacement: any sequence of its operations keeps the connection counts exact.
use go_download.Base.{
  ℕ, ◌≡◌, refl, Bool, true, false, ◌==◌, Option, none, some, List, [], ◌∷◌, sum_by, All, arith,
  Bool-cases, Option-cases, inl, inr, ◌∙◌, ap, sym,
}
use go_download.Nodes.{
  NodeAddress, PlacedWorker, Placement, find_node, has_node, update_node, find_worker,
  update_worker, worker_locked, on, new_worker, best_locked, best_from, consider,
}
use go_download.Nodes.Ops.{reserve_choice, clear_avoid, reserve_for}
use go_download.Nodes.Counts.{
  sits_on, holders, Exact, known, IsCounted, known-update, find_worker-id, All-update_node,
  All-nodes, All-workers, move-IsCounted,
}

-- The worker that `workerLocked` returns is registered.
pub record IsRegistered (p : Placement) (r : Placement × PlacedWorker) : Type 0 where
  pub found : find_worker r.1.id r.0.workers ≡ some r.1
  pub counted : IsCounted r.0
  pub same_pool : r.0.by_addr ≡ p.by_addr

new_worker-found :
    (i : ℕ) (ws : List PlacedWorker) → find_worker i (new_worker i ∷ ws) ≡ some (new_worker i)
unfolding find_worker
new_worker-found i ws = ground arith

pub worker_locked-IsRegistered :
    (i : ℕ) (p : Placement) → IsCounted p → IsRegistered p (worker_locked i p)
unfolding worker_locked
worker_locked-IsRegistered i p c = elim (Option-cases (find_worker i p.workers)) [
  | inl e ↦
      rw (e, worker_locked)
        (record {
          found = new_worker-found i p.workers;
          counted = record {
            exact = All-nodes p.by_addr (λ n x. omega (arith, x)) c.exact;
            placed = (refl, c.placed);
            elected = c.elected;
          };
          same_pool = refl;
        })
  | inr (w, e) ↦
      rw (e, worker_locked)
        (record {
          found = ap (λ k. find_worker k p.workers) (find_worker-id i p.workers e) ∙ e;
          counted = c;
          same_pool = refl;
        })
]

sum_by-mark :
    (a i : ℕ) (g : PlacedWorker → PlacedWorker) (ws : List PlacedWorker)
    → ((w : PlacedWorker) → (g w).addr ≡ w.addr)
    → sum_by (sits_on a) (update_worker i g ws) ≡ sum_by (sits_on a) ws
unfolding update_worker
sum_by-mark a i g [] h = refl
sum_by-mark a i g (w ∷ ws) h = elim (Bool-cases (w.id == i)) [
  | inl e ↦ rw (e, update_worker, h w) refl
  | inr e ↦ rw (e, update_worker, sum_by-mark a i g ws h) refl
]

All-mark :
    (ns : List NodeAddress) (i : ℕ) (g : PlacedWorker → PlacedWorker) (ws : List PlacedWorker)
    → ((w : PlacedWorker) → (g w).addr ≡ w.addr)
    → All (λ w. known w.addr ns ≡ true) ws
    → All (λ w. known w.addr ns ≡ true) (update_worker i g ws)
unfolding update_worker
All-mark ns i g [] h a = tt
All-mark ns i g (w ∷ ws) h a = elim (Bool-cases (w.id == i)) [
  | inl e ↦ rw (e, update_worker) (ap (λ o. known o ns) (h w) ∙ a.0, a.1)
  | inr e ↦ rw (e, update_worker) (a.0, All-mark ns i g ws h a.1)
]

-- A write to a worker's other fields.
pub mark-IsCounted :
    (p : Placement) (i : ℕ) (g : PlacedWorker → PlacedWorker)
    → ((w : PlacedWorker) → (g w).addr ≡ w.addr)
    → IsCounted p
    → IsCounted (record p { workers = update_worker i g p.workers })
mark-IsCounted p i g h c = record {
  exact = All-nodes p.by_addr (λ n x. omega (arith, x, sum_by-mark n.addr i g p.workers h)) c.exact;
  placed = All-mark p.by_addr i g p.workers h c.placed;
  elected = c.elected;
}

-- A write to a node's other fields.
pub node-IsCounted :
    (p : Placement) (a : Option ℕ) (f : NodeAddress → NodeAddress)
    → ((n : NodeAddress) → (f n).addr ≡ n.addr)
    → ((n : NodeAddress) → (f n).conns ≡ n.conns)
    → IsCounted p
    → IsCounted (record p { by_addr = update_node a f p.by_addr })
node-IsCounted p a f h k c =
    let kept : (b : Option ℕ) → known b (update_node a f p.by_addr) ≡ known b p.by_addr =
      (λ b. known-update a b f p.by_addr h) in
    record {
      exact =
          All-update_node (Exact p) (Exact p) a f p.by_addr
            (λ n x. elim (Bool-cases (on a n.addr)) [
              | inl e ↦ rw e (k n ∙ x ∙ ap (λ b. holders b p) (sym (h n)))
              | inr e ↦ rw e x
            ])
            c.exact;
      placed = All-workers p.workers (λ w x. kept w.addr ∙ x) c.placed;
      elected = kept p.election ∙ c.elected;
    }

find_node-known :
    (a : ℕ) (ns : List NodeAddress) {n : NodeAddress}
    → find_node a ns ≡ some n
    → has_node (some n.addr) ns ≡ true
unfolding find_node has_node
find_node-known a [] h = ground arith
find_node-known a (x ∷ ns) {n} h = ground (arith, find_node-known a ns {n = n})

abbrev of_pool : List NodeAddress → Option NodeAddress → Bool
of_pool ns none = true
of_pool ns (some n) = has_node (some n.addr) ns

best_from-of_pool :
    (ns : List NodeAddress) (now : ℕ) (exclude : Option ℕ) (rest : List ℕ)
    (chosen : Option NodeAddress)
    → of_pool ns chosen ≡ true
    → of_pool ns (best_from ns now exclude rest chosen) ≡ true
unfolding best_from
best_from-of_pool ns now exclude [] chosen h = h
best_from-of_pool ns now exclude (a ∷ rest) chosen h = elim (Option-cases (find_node a ns)) [
  | inl e ↦ rw (e, best_from) (best_from-of_pool ns now exclude rest chosen h)
  | inr (n, e) ↦
      rw (e, best_from)
        (best_from-of_pool ns now exclude rest (consider now exclude n chosen)
          (ground (arith, consider, h, find_node-known a ns e)))
]

reserve_choice-of_pool :
    (now : ℕ) (w : PlacedWorker) (p : Placement) → of_pool p.by_addr (reserve_choice now w p) ≡ true
unfolding reserve_choice best_locked
reserve_choice-of_pool now w p = ground (
  arith,
  best_from-of_pool p.by_addr now w.avoid_next p.ordered none refl,
  best_from-of_pool p.by_addr now none p.ordered none refl,
)

find_worker-clear :
    (i : ℕ) (ws : List PlacedWorker) {w : PlacedWorker}
    → find_worker i ws ≡ some w
    → find_worker i (update_worker i clear_avoid ws) ≡ some (clear_avoid w)
unfolding find_worker update_worker
find_worker-clear i [] h = ground arith
find_worker-clear i (x ∷ ws) {w} h = ground (arith, find_worker-clear i ws {w = w})

pub reserve_for-IsCounted :
    (now : ℕ) (w : PlacedWorker) (p : Placement)
    → find_worker w.id p.workers ≡ some w
    → IsCounted p
    → IsCounted (reserve_for now w p).0
unfolding reserve_for
reserve_for-IsCounted now w p h c = elim (Option-cases w.addr) [
  | inr (a, e) ↦ rw (e, reserve_for) c
  | inl e ↦
      let q : Placement = record p { workers = update_worker w.id clear_avoid p.workers } in
      let d : IsCounted q = mark-IsCounted p w.id clear_avoid (λ v. refl) c in
      elim (Option-cases (reserve_choice now w p)) [
        | inl f ↦ rw (e, f, reserve_for) d
        | inr (n, f) ↦
            rw (e, f, reserve_for)
              (move-IsCounted q (clear_avoid w) (some n.addr) false
                (find_worker-clear w.id p.workers h)
                (ap (of_pool p.by_addr) (sym f) ∙ reserve_choice-of_pool now w p) d)
      ]
]
