-- ===== src/Nodes/Runs.antt =====
-- nodePlacement over a run: the connection counts stay exact under any sequence of its operations.
use go_download.Base.{
  ℕ, suc, ◌≡◌, refl, Bool, true, false, ◌&&◌, ◌||◌, not, ◌==◌, contains, bit, if◌then◌else◌, Option,
  none, some, List, [], ◌∷◌, sum_by, All, arith, Bool-cases, Option-cases, inl, inr, ◌∙◌, ap,
}
use go_download.Nodes.{
  NodeAddress, PlacedWorker, Placement, has_node, update_node, find_worker, delete_worker,
  worker_locked, assign_locked, release_conn, is_valid, on,
}
use go_download.Nodes.Ops.{
  reserve, mark_dial_winner, got_conn, drop_election, attach_initial, release_address,
  remove_worker, new_node, install_from, install_order_locked,
}
use go_download.Nodes.Counts.{
  sits_on, Exact, known, IsCounted, has_node-update, known-update, sum_by-delete_worker,
  All-delete_worker, find_worker-id, All-update_node, All-nodes, All-workers, move-IsCounted,
}
use go_download.Nodes.Steps.{worker_locked-IsRegistered, node-IsCounted, reserve_for-IsCounted}

pub reserve-IsCounted : (now i : ℕ) (p : Placement) → IsCounted p → IsCounted (reserve now i p).0
unfolding reserve
reserve-IsCounted now i p c = elim (Bool-cases p.closed) [
  | inl e ↦ simp (e, reserve) c
  | inr e ↦
      let r = worker_locked-IsRegistered i p c in
      simp (e, reserve)
        (reserve_for-IsCounted now (worker_locked i p).1 (worker_locked i p).0 r.found r.counted)
]

assign-IsCounted :
    (i : ℕ) (addr : Option ℕ) (force : Bool) (p : Placement)
    → known addr p.by_addr ≡ true
    → IsCounted p
    → IsCounted (assign_locked (worker_locked i p).1 addr force (worker_locked i p).0)
assign-IsCounted i addr force p k c =
    let r = worker_locked-IsRegistered i p c in
    move-IsCounted (worker_locked i p).0 (worker_locked i p).1 addr force r.found
      (ap (known addr) r.same_pool ∙ k) r.counted

pub mark_dial_winner-IsCounted :
    (i : ℕ) (addr : Option ℕ) (p : Placement)
    → known addr p.by_addr ≡ true
    → IsCounted p
    → IsCounted (mark_dial_winner i addr p)
unfolding mark_dial_winner
mark_dial_winner-IsCounted i addr p k c = elim (Bool-cases (p.closed || not (is_valid addr))) [
  | inl e ↦ rw (e, mark_dial_winner) c
  | inr e ↦ rw (e, mark_dial_winner) (assign-IsCounted i addr true p k c)
]

pub got_conn-IsCounted :
    (i : ℕ) (addr : Option ℕ) (p : Placement) → IsCounted p → IsCounted (got_conn i addr p)
unfolding got_conn
got_conn-IsCounted i addr p c = elim (Bool-cases (not (is_valid addr) || p.closed)) [
  | inl e ↦ rw (e, got_conn) c
  | inr e ↦
      let r = worker_locked-IsRegistered i p c in
      elim (Bool-cases (has_node addr (worker_locked i p).0.by_addr)) [
        | inl f ↦
            rw (e, f, got_conn)
              (assign-IsCounted i addr false p (ground (arith, f, ap (has_node addr) r.same_pool))
                c)
        | inr f ↦ rw (e, f, got_conn) (assign-IsCounted i none false p refl c)
      ]
]

drop_election-IsCounted : (p : Placement) → IsCounted p → IsCounted (drop_election p)
unfolding drop_election
drop_election-IsCounted p c = elim (Bool-cases p.election_pending) [
  | inr e ↦ simp (e, drop_election) c
  | inl e ↦
      let kept : (b : Option ℕ)
          → known b (update_node p.election release_conn p.by_addr) ≡ known b p.by_addr =
        (λ b. known-update p.election b release_conn p.by_addr (λ n. refl)) in
      let q : Placement = record p {
        by_addr = update_node p.election release_conn p.by_addr;
        election_pending = false;
      } in
      simp (e, drop_election)
        (record {
          exact =
              All-update_node (Exact p) (Exact q) p.election release_conn p.by_addr
                (λ n x. ground (arith, x, e)) c.exact;
          placed = All-workers p.workers (λ w x. kept w.addr ∙ x) c.placed;
          elected = kept p.election ∙ c.elected;
        })
]

drop_election-known :
    (a : Option ℕ) (p : Placement) → known a (drop_election p).by_addr ≡ known a p.by_addr
unfolding drop_election
drop_election-known a p = elim (Bool-cases p.election_pending) [
  | inr e ↦ rw (e, drop_election) refl
  | inl e ↦ rw (e, drop_election) (known-update p.election a release_conn p.by_addr (λ n. refl))
]

pub attach_initial-IsCounted :
    (i : ℕ) (addr : Option ℕ) (p : Placement)
    → known addr p.by_addr ≡ true
    → IsCounted p
    → IsCounted (attach_initial i addr p)
unfolding attach_initial
attach_initial-IsCounted i addr p k c =
    let d = drop_election-IsCounted p c in
    elim (Bool-cases (not (drop_election p).closed && is_valid addr)) [
      | inr e ↦ rw (e, attach_initial) d
      | inl e ↦
          rw (e, attach_initial)
            (assign-IsCounted i addr false (drop_election p) (drop_election-known addr p ∙ k) d)
    ]

pub release_address-IsCounted :
    (i : ℕ) (p : Placement) → IsCounted p → IsCounted (release_address i p)
unfolding release_address
release_address-IsCounted i p c = elim (Option-cases (find_worker i p.workers)) [
  | inl e ↦ rw (e, release_address) c
  | inr (w, e) ↦ elim (Bool-cases (is_valid w.addr)) [
    | inr f ↦ rw (e, f, release_address) c
    | inl f ↦
        rw (e, f, release_address)
          (move-IsCounted p w none false
            (ap (λ k. find_worker k p.workers) (find_worker-id i p.workers e) ∙ e) refl c)
  ]
]

pub remove_worker-IsCounted : (i : ℕ) (p : Placement) → IsCounted p → IsCounted (remove_worker i p)
unfolding remove_worker
remove_worker-IsCounted i p c = elim (Option-cases (find_worker i p.workers)) [
  | inl e ↦ rw (e, remove_worker) c
  | inr (w, e) ↦
      let kept : (b : Option ℕ)
          → known b (update_node w.addr release_conn p.by_addr) ≡ known b p.by_addr =
        (λ b. known-update w.addr b release_conn p.by_addr (λ n. refl)) in
      let q : Placement = record p { workers = delete_worker i p.workers } in
      rw (e, remove_worker)
        (record {
          exact =
              All-update_node (Exact p) (Exact q) w.addr release_conn p.by_addr
                (λ n x. ground (arith, x, sum_by-delete_worker (sits_on n.addr) i p.workers e))
                c.exact;
          placed =
              All-workers (delete_worker i p.workers) (λ v x. kept v.addr ∙ x)
                (All-delete_worker _ i p.workers c.placed);
          elected = kept p.election ∙ c.elected;
        })
]

on-eq : (o : Option ℕ) (a : ℕ) → on o a ≡ true → o ≡ some a
on-eq none a h = ground arith
on-eq (some b) a h = ground arith

-- Nobody is on an address outside the pool.
unknown-unheld :
    (a : ℕ) (ns : List NodeAddress) (ws : List PlacedWorker)
    → has_node (some a) ns ≡ false
    → All (λ w. known w.addr ns ≡ true) ws
    → sum_by (sits_on a) ws ≡ 0
unknown-unheld a ns [] h k = refl
unknown-unheld a ns (w ∷ ws) h k = elim (Bool-cases (on w.addr a)) [
  | inl e ↦ ground (arith, on-eq w.addr a e, k.0, h)
  | inr e ↦ omega (arith, ap bit e, unknown-unheld a ns ws h k.1)
]

unknown-off :
    (o : Option ℕ) (a : ℕ) (ns : List NodeAddress)
    → has_node (some a) ns ≡ false
    → known o ns ≡ true
    → bit (on o a) ≡ 0
unknown-off o a ns h k = elim (Bool-cases (on o a)) [
  | inl e ↦ ground (arith, on-eq o a e, k, h)
  | inr e ↦ ap bit e
]

known-cons :
    (o : Option ℕ) (n : NodeAddress) (ns : List NodeAddress)
    → known o ns ≡ true
    → known o (n ∷ ns) ≡ true
unfolding has_node
known-cons o n ns h = ground arith

new_node-IsCounted :
    (a : ℕ) (p : Placement)
    → has_node (some a) p.by_addr ≡ false
    → IsCounted p
    → IsCounted (record p { by_addr = new_node a ∷ p.by_addr })
new_node-IsCounted a p h c = record {
  exact = (
    ground (
      arith,
      unknown-unheld a p.by_addr p.workers h c.placed,
      unknown-off p.election a p.by_addr h c.elected,
    ),
    All-nodes p.by_addr (λ n x. omega (arith, x)) c.exact,
  );
  placed = All-workers p.workers (λ w x. known-cons w.addr (new_node a) p.by_addr x) c.placed;
  elected = known-cons p.election (new_node a) p.by_addr c.elected;
}

pub install_from-IsCounted :
    (k : ℕ) (addrs : List ℕ) (p : Placement)
    → IsCounted p
    → IsCounted (record p { by_addr = install_from k addrs p.by_addr })
unfolding install_from
install_from-IsCounted k [] p c = c
install_from-IsCounted k (a ∷ rest) p c = elim (Bool-cases (has_node (some a) p.by_addr)) [
  | inl e ↦
      rw (e, install_from)
        (install_from-IsCounted (suc k) rest
          (record p { by_addr = update_node (some a) (λ n. record n { order = k }) p.by_addr })
          (node-IsCounted p (some a) (λ n. record n { order = k }) (λ n. refl) (λ n. refl) c))
  | inr e ↦
      let q : Placement = record p { by_addr = new_node a ∷ p.by_addr } in
      rw (e, install_from)
        (install_from-IsCounted (suc k) rest
          (record p { by_addr = update_node (some a) (λ n. record n { order = k }) q.by_addr })
          (node-IsCounted q (some a) (λ n. record n { order = k }) (λ n. refl) (λ n. refl)
            (new_node-IsCounted a p e c)))
]

pub install_order_locked-IsCounted :
    (addrs : List ℕ) (p : Placement) → IsCounted p → IsCounted (install_order_locked addrs p)
unfolding install_order_locked
install_order_locked-IsCounted addrs p c =
    let d = install_from-IsCounted 0 addrs p c in
    record { exact = All-nodes _ (λ n x. x) d.exact; placed = d.placed; elected = d.elected }

abbrev pub listed : Option ℕ → List ℕ → Bool
listed none addrs = true
listed (some a) addrs = contains addrs a

install_from-keeps :
    (o : Option ℕ) (k : ℕ) (addrs : List ℕ) (ns : List NodeAddress)
    → has_node o ns ≡ true
    → has_node o (install_from k addrs ns) ≡ true
unfolding install_from
install_from-keeps o k [] ns h = h
install_from-keeps o k (a ∷ rest) ns h =
    install_from-keeps o (suc k) rest
      (update_node (some a) (λ n. record n { order = k })
        (if has_node (some a) ns then ns else new_node a ∷ ns))
      (has_node-update (some a) o (λ n. record n { order = k })
          (if has_node (some a) ns then ns else new_node a ∷ ns) (λ n. refl)
        ∙ ground (arith, has_node, h))

pub install_from-adds :
    (o : Option ℕ) (k : ℕ) (addrs : List ℕ) (ns : List NodeAddress)
    → listed o addrs ≡ true
    → known o (install_from k addrs ns) ≡ true
unfolding install_from
install_from-adds none k addrs ns h = refl
install_from-adds (some b) k [] ns h = ground arith
install_from-adds (some b) k (a ∷ rest) ns h =
    let ns' = if has_node (some a) ns then ns else new_node a ∷ ns in
    elim (Bool-cases (a == b)) [
      | inr e ↦
          install_from-adds (some b) (suc k) rest
            (update_node (some a) (λ n. record n { order = k }) ns') (ground (arith, e, h))
      | inl e ↦
          install_from-keeps (some b) (suc k) rest
            (update_node (some a) (λ n. record n { order = k }) ns')
            (has_node-update (some a) (some b) (λ n. record n { order = k }) ns' (λ n. refl)
              ∙ ground (arith, has_node, e))
    ]
