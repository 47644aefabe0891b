-- ===== src/Nodes/Counts.antt =====
-- The connection counts of the nodes are exact: what each operation of nodePlacement does to them.
use go_download.Base.{
  ℕ, ◌+◌, ◌≡◌, refl, Bool, true, ◌||◌, not, bit, if◌then◌else◌, Option, some, List, [], ◌∷◌, sum_by,
  All, arith, Bool-cases, inl, inr, ◌∙◌,
}
use go_download.Nodes.{
  NodeAddress, PlacedWorker, Placement, has_node, update_node, find_worker, update_worker,
  delete_worker, assign_locked, release_conn, take_conn, is_valid, on, eq_addr, move_to,
}

-- Whether the worker is placed on the address.
abbrev pub sits_on : ℕ → PlacedWorker → ℕ
sits_on a w = bit (on w.addr a)

abbrev pub holders : ℕ → Placement → ℕ
holders a p =
    sum_by (sits_on a) p.workers + (if p.election_pending then bit (on p.election a) else 0)

abbrev pub Exact : Placement → NodeAddress → Type 0
Exact p n = n.conns ≡ holders n.addr p

abbrev pub known : Option ℕ → List NodeAddress → Bool
known a ns = not (is_valid a) || has_node a ns

-- Every node counts the workers placed on it and the pending election connection, and nobody is
-- placed outside the pool.
pub record IsCounted (p : Placement) : Type 0 where
  pub exact : All (Exact p) p.by_addr
  pub placed : All (λ w. known w.addr p.by_addr ≡ true) p.workers
  pub elected : known p.election p.by_addr ≡ true

pub has_node-update :
    (a b : Option ℕ) (f : NodeAddress → NodeAddress) (ns : List NodeAddress)
    → ((n : NodeAddress) → (f n).addr ≡ n.addr)
    → has_node b (update_node a f ns) ≡ has_node b ns
unfolding has_node update_node
has_node-update a b f [] h = refl
has_node-update a b f (n ∷ ns) h = ground (arith, h n, has_node-update a b f ns h)

pub sum_by-update_worker :
    (f : PlacedWorker → ℕ) (i : ℕ) (g : PlacedWorker → PlacedWorker) (ws : List PlacedWorker)
    {w : PlacedWorker}
    → find_worker i ws ≡ some w
    → sum_by f (update_worker i g ws) + f w ≡ sum_by f ws + f (g w)
unfolding find_worker update_worker
sum_by-update_worker f i g [] h = ground arith
sum_by-update_worker f i g (x ∷ ws) {w} h = ground (arith, sum_by-update_worker f i g ws {w = w})

pub sum_by-delete_worker :
    (f : PlacedWorker → ℕ) (i : ℕ) (ws : List PlacedWorker) {w : PlacedWorker}
    → find_worker i ws ≡ some w
    → sum_by f (delete_worker i ws) + f w ≡ sum_by f ws
unfolding find_worker delete_worker
sum_by-delete_worker f i [] h = ground arith
sum_by-delete_worker f i (x ∷ ws) {w} h = ground (arith, sum_by-delete_worker f i ws {w = w})

module _ {ℓ} (P : PlacedWorker → Type ℓ) where
  pub All-update_worker :
      (i : ℕ) (g : PlacedWorker → PlacedWorker) (ws : List PlacedWorker) {w : PlacedWorker}
      → find_worker i ws ≡ some w
      → All P ws
      → P (g w)
      → All P (update_worker i g ws)
  unfolding find_worker update_worker
  All-update_worker i g [] h a p = tt
  All-update_worker i g (x ∷ ws) {w} h a p = ground (arith, All-update_worker i g ws {w = w})

  pub All-delete_worker : (i : ℕ) (ws : List PlacedWorker) → All P ws → All P (delete_worker i ws)
  unfolding delete_worker
  All-delete_worker i [] a = tt
  All-delete_worker i (x ∷ ws) a = ground (arith, All-delete_worker i ws)

  pub All-find_worker :
      (i : ℕ) (ws : List PlacedWorker) {w : PlacedWorker}
      → find_worker i ws ≡ some w
      → All P ws
      → P w
  unfolding find_worker
  All-find_worker i [] h a = ground arith
  All-find_worker i (x ∷ ws) {w} h a = ground (arith, All-find_worker i ws {w = w})

pub find_worker-id :
    (i : ℕ) (ws : List PlacedWorker) {w : PlacedWorker} → find_worker i ws ≡ some w → w.id ≡ i
unfolding find_worker
find_worker-id i [] h = ground arith
find_worker-id i (x ∷ ws) {w} h = ground (arith, find_worker-id i ws {w = w})

module _ {ℓ} (P Q : NodeAddress → Type ℓ) where
  -- A property of all nodes after a write through p.byAddr.
  pub All-update_node :
      (a : Option ℕ) (f : NodeAddress → NodeAddress) (ns : List NodeAddress)
      → ((n : NodeAddress) → P n → Q (if on a n.addr then f n else n))
      → All P ns
      → All Q (update_node a f ns)
  unfolding update_node
  All-update_node a f [] g h = tt
  All-update_node a f (n ∷ ns) g h = (g n h.0, All-update_node a f ns g h.1)

pub known-update :
    (a b : Option ℕ) (f : NodeAddress → NodeAddress) (ns : List NodeAddress)
    → ((n : NodeAddress) → (f n).addr ≡ n.addr)
    → known b (update_node a f ns) ≡ known b ns
known-update a b f ns h = ground (arith, has_node-update a b f ns h)

pub All-nodes {ℓ κ} :
    {P : NodeAddress → Type ℓ} {Q : NodeAddress → Type κ} (ns : List NodeAddress)
    → ((n : NodeAddress) → P n → Q n)
    → All P ns
    → All Q ns
All-nodes [] f h = tt
All-nodes (n ∷ ns) f h = (f n h.0, All-nodes ns f h.1)

pub All-workers {ℓ κ} :
    {P : PlacedWorker → Type ℓ} {Q : PlacedWorker → Type κ} (ws : List PlacedWorker)
    → ((w : PlacedWorker) → P w → Q w)
    → All P ws
    → All Q ws
All-workers [] f h = tt
All-workers (w ∷ ws) f h = (f w h.0, All-workers ws f h.1)

eq_addr-on : (a b : Option ℕ) (c : ℕ) → eq_addr a b ≡ true → bit (on a c) ≡ bit (on b c)
eq_addr-on a b c h = ground arith

-- What is left for the others once the worker's own connection is taken off.
pub released :
    (p : Placement) (w : PlacedWorker)
    → find_worker w.id p.workers ≡ some w
    → All (Exact p) p.by_addr
    → All
        (λ n. n.conns + sits_on n.addr w ≡ holders n.addr p)
        (update_node w.addr release_conn p.by_addr)
released p w h e =
    All-update_node (Exact p) (λ n. n.conns + sits_on n.addr w ≡ holders n.addr p) w.addr
      release_conn p.by_addr
      (λ n x. ground (arith, x, sum_by-delete_worker (sits_on n.addr) w.id p.workers h)) e

moved-Exact :
    (p : Placement) (w : PlacedWorker) (addr : Option ℕ)
    → find_worker w.id p.workers ≡ some w
    → All (Exact p) p.by_addr
    → let q : Placement = record p { workers = update_worker w.id (move_to addr) p.workers } in
      All (Exact q) (update_node addr take_conn (update_node w.addr release_conn p.by_addr))
moved-Exact p w addr h e =
    let q : Placement = record p { workers = update_worker w.id (move_to addr) p.workers } in
    All-update_node (λ n. n.conns + sits_on n.addr w ≡ holders n.addr p) (Exact q) addr take_conn
      (update_node w.addr release_conn p.by_addr)
      (λ n x.
        ground (arith, x, sum_by-update_worker (sits_on n.addr) w.id (move_to addr) p.workers h))
      (released p w h e)

rests-Exact :
    (p : Placement) (w : PlacedWorker) (addr : Option ℕ)
    → find_worker w.id p.workers ≡ some w
    → eq_addr w.addr addr ≡ true
    → All (Exact p) p.by_addr
    → let q : Placement = record p { workers = update_worker w.id (move_to addr) p.workers } in
      All (Exact q) p.by_addr
rests-Exact p w addr h s e =
    let q : Placement = record p { workers = update_worker w.id (move_to addr) p.workers } in
    All-nodes p.by_addr
      (λ n x. omega (
        arith,
        x,
        eq_addr-on w.addr addr n.addr s,
        sum_by-update_worker (sits_on n.addr) w.id (move_to addr) p.workers h,
      ))
      e

-- Moving a registered worker to a known address keeps the counts exact.
pub move-IsCounted :
    (p : Placement) (w : PlacedWorker) (addr : Option ℕ) (force : Bool)
    → find_worker w.id p.workers ≡ some w
    → known addr p.by_addr ≡ true
    → IsCounted p
    → IsCounted (assign_locked w addr force p)
unfolding assign_locked
move-IsCounted p w addr force h k c = elim (Bool-cases (eq_addr w.addr addr)) [
  | inl e ↦ elim (Bool-cases force) [
    | inl f ↦
        rw (e, f, assign_locked)
          (record {
            exact = rests-Exact p w addr h e c.exact;
            placed =
                All-update_worker (λ v. known v.addr p.by_addr ≡ true) w.id (move_to addr) p.workers
                  h c.placed k;
            elected = c.elected;
          })
    | inr f ↦ rw (e, f, assign_locked) c
  ]
  | inr e ↦
      let kept : (b : Option ℕ)
          → known b (update_node addr take_conn (update_node w.addr release_conn p.by_addr))
            ≡ known b p.by_addr =
        (λ b.
          known-update addr b take_conn (update_node w.addr release_conn p.by_addr) (λ n. refl)
          ∙ known-update w.addr b release_conn p.by_addr (λ n. refl)) in
      rw (e, assign_locked)
        (record {
          exact = moved-Exact p w addr h c.exact;
          placed =
              All-workers _ (λ v x. kept v.addr ∙ x)
                (All-update_worker (λ v. known v.addr p.by_addr ≡ true) w.id (move_to addr)
                  p.workers h c.placed k);
          elected = kept p.election ∙ c.elected;
        })
]
