-- ===== src/Nodes/Exact.antt =====
-- nodePlacement from its start on: the counts are exact in every state.
use go_download.Base.{
  ℕ, ◌≡◌, refl, Bool, true, false, ◌&&◌, Option, none, some, List, [], ◌∷◌, All, arith, Bool-cases,
  inl, inr, ◌∙◌, sym, ap, subst, sum_by,
}
use go_download.Cull.{strike, rotate_workers, can_move, cull_locked}
use go_download.Cull.Moves.{struck, placement_of, refused_cull, allowed_cull, none-some}
use go_download.Nodes.{
  NodeAddress, PlacedWorker, on, update_node, Placement, worker_locked, take_conn, is_valid,
}
use go_download.Nodes.Ops.{
  reserve, avoid_current_on_next_reservation, cool_down, mark_availability_failure,
  mark_dial_winner, got_conn, attach_initial, begin_attempt, end_attempt, release_address,
  remove_worker, install_from, install_order_locked, new_placement, refresh, close,
}
use go_download.Nodes.Counts.{
  sits_on, Exact, known, IsCounted, known-update, All-update_node, All-nodes,
}
use go_download.Nodes.Steps.{worker_locked-IsRegistered, mark-IsCounted, node-IsCounted}
use go_download.Nodes.Runs.{
  reserve-IsCounted, mark_dial_winner-IsCounted, got_conn-IsCounted, attach_initial-IsCounted,
  release_address-IsCounted, remove_worker-IsCounted, install_from-IsCounted,
  install_order_locked-IsCounted, install_from-adds, listed,
}

-- One operation of nodePlacement. The winner of a dial and the remote of the election's connection are
-- addresses of the pool.
pub data Step : Placement → Placement → Type 0 where
  registers : {p : Placement} (i : ℕ) → Step p (worker_locked i p).0
  reserves : {p : Placement} (now i : ℕ) → Step p (reserve now i p).0
  avoids : {p : Placement} (i : ℕ) → Step p (avoid_current_on_next_reservation i p)
  fails :
      {p : Placement} (now : ℕ) (addr : Option ℕ) → Step p (mark_availability_failure now addr p)
  dials :
      {p : Placement} (i : ℕ) (addr : Option ℕ)
      → known addr p.by_addr ≡ true
      → Step p (mark_dial_winner i addr p)
  connects : {p : Placement} (i : ℕ) (addr : Option ℕ) → Step p (got_conn i addr p)
  attaches :
      {p : Placement} (i : ℕ) (addr : Option ℕ)
      → known addr p.by_addr ≡ true
      → Step p (attach_initial i addr p)
  begins : {p : Placement} (i : ℕ) → Step p (begin_attempt i p).0
  ends : {p : Placement} (i : ℕ) → Step p (end_attempt i p)
  releases : {p : Placement} (i : ℕ) → Step p (release_address i p)
  removes : {p : Placement} (i : ℕ) → Step p (remove_worker i p)
  refreshes : {p : Placement} (addrs : List ℕ) → Step p (refresh addrs p)
  closes : {p : Placement} → Step p (close p)
  culls :
      {p q : Placement} (node : NodeAddress) (alternative : Option NodeAddress) (now : ℕ)
      {told : List ℕ × Bool}
      → cull_locked node alternative now p ≡ some (q, told)
      → Step p q

pub data Reach : Placement → Placement → Type 0 where
  start : {p : Placement} → Reach p p
  followed : {p q r : Placement} → Reach p q → Step q r → Reach p r

sum_by-rotate :
    (a b : ℕ) (ws : List PlacedWorker)
    → sum_by (sits_on a) (rotate_workers b ws) ≡ sum_by (sits_on a) ws
unfolding rotate_workers
sum_by-rotate a b [] = refl
sum_by-rotate a b (w ∷ ws) = ground (arith, sum_by-rotate a b ws)

All-rotate :
    (ns : List NodeAddress) (b : ℕ) (ws : List PlacedWorker)
    → All (λ w. known w.addr ns ≡ true) ws
    → All (λ w. known w.addr ns ≡ true) (rotate_workers b ws)
unfolding rotate_workers
All-rotate ns b [] h = tt
All-rotate ns b (w ∷ ws) (h, k) =
    (elim (Bool-cases (on w.addr b)) [ inl e ↦ rw e h | inr e ↦ rw e h ], All-rotate ns b ws k)

strike-same :
    (now : ℕ) (n : NodeAddress) → ((strike now n).addr ≡ n.addr) × ((strike now n).conns ≡ n.conns)
unfolding strike
strike-same now n = (ground arith, ground arith)

struck-IsCounted :
    (node : NodeAddress) (now : ℕ) (p : Placement) → IsCounted p → IsCounted (struck node now p)
struck-IsCounted node now p c =
    let d =
      node-IsCounted p (some node.addr) (strike now) (λ n. (strike-same now n).0)
        (λ n. (strike-same now n).1) c in
    let ns = update_node (some node.addr) (strike now) p.by_addr in
    record {
      exact =
          All-nodes ns (λ n x. omega (arith, x, sum_by-rotate n.addr node.addr p.workers)) d.exact;
      placed = All-rotate ns node.addr p.workers d.placed;
      elected = d.elected;
    }

culled-IsCounted :
    (node : NodeAddress) (alternative : Option NodeAddress) (now : ℕ) (p q : Placement)
    (told : List ℕ × Bool)
    → cull_locked node alternative now p ≡ some (q, told)
    → IsCounted p
    → IsCounted q
culled-IsCounted node none now p q told e c = unfold cull_locked in ground (arith, e)
culled-IsCounted node (some n) now p q told e c = elim (Bool-cases (can_move now node n)) [
  | inr k ↦ none-some (refused_cull node n now p k) e
  | inl k ↦
      subst IsCounted (sym (allowed_cull node n now p k) ∙ ap (placement_of p) e)
        (struck-IsCounted node now p c)
]

Step-IsCounted : {p q : Placement} → Step p q → IsCounted p → IsCounted q
unfolding mark_availability_failure avoid_current_on_next_reservation begin_attempt end_attempt
    refresh
Step-IsCounted (registers {p} i) c = (worker_locked-IsRegistered i p c).counted
Step-IsCounted (reserves {p} now i) c = reserve-IsCounted now i p c
Step-IsCounted (avoids {p} i) c =
    mark-IsCounted p i (λ w. record w { avoid_next = w.addr }) (λ w. refl) c
Step-IsCounted (fails {p} now addr) c =
    node-IsCounted p addr (cool_down now) (λ n. refl) (λ n. refl) c
Step-IsCounted (dials {p} i addr k) c = mark_dial_winner-IsCounted i addr p k c
Step-IsCounted (connects {p} i addr) c = got_conn-IsCounted i addr p c
Step-IsCounted (attaches {p} i addr k) c = attach_initial-IsCounted i addr p k c
Step-IsCounted (begins {p} i) c =
    mark-IsCounted p i (λ w. record w { cancel = true; rotate = false }) (λ w. refl) c
Step-IsCounted (ends {p} i) c = mark-IsCounted p i (λ w. record w { cancel = false }) (λ w. refl) c
Step-IsCounted (releases {p} i) c = release_address-IsCounted i p c
Step-IsCounted (removes {p} i) c = remove_worker-IsCounted i p c
Step-IsCounted (refreshes {p} []) c = c
Step-IsCounted (refreshes {p} (a ∷ rest)) c = install_order_locked-IsCounted (a ∷ rest) p c
Step-IsCounted (closes {p}) c = record {
  exact = All-nodes p.by_addr (λ n x. x) c.exact;
  placed = c.placed;
  elected = c.elected;
}
Step-IsCounted (culls {p} {q} node alternative now {told} e) c =
    culled-IsCounted node alternative now p q told e c

Reach-IsCounted : {p q : Placement} → Reach p q → IsCounted p → IsCounted q
Reach-IsCounted start c = c
Reach-IsCounted (followed r s) c = Step-IsCounted s (Reach-IsCounted r c)

abbrev empty_pool : Placement
empty_pool = record {
  election = none;
  election_pending = false;
  ordered = [];
  by_addr = [];
  workers = [];
  closed = false;
  membership_gen = 0;
  last_cull = 0;
}

new_placement-IsCounted :
    (election : Option ℕ) (in_use : Bool) (ordered : List ℕ)
    → listed election ordered ≡ true
    → IsCounted (new_placement election in_use ordered)
unfolding new_placement install_order_locked
new_placement-IsCounted election in_use ordered h =
    let d =
      install_from-IsCounted 0 ordered empty_pool
        (record { exact = tt; placed = tt; elected = refl }) in
    let k = install_from-adds election 0 ordered [] h in
    elim (Bool-cases (in_use && is_valid election)) [
      | inr e ↦
          rw (e, new_placement)
            (record {
              exact = All-nodes _ (λ n x. ground (arith, x)) d.exact;
              placed = tt;
              elected = k;
            })
      | inl e ↦
          rw (e, new_placement)
            (record {
              exact =
                  All-update_node (Exact empty_pool) _ election take_conn
                    (install_from 0 ordered []) (λ n x. ground (arith, x))
                    (All-nodes _ (λ n x. x) d.exact);
              placed = tt;
              elected =
                  known-update election election take_conn (install_from 0 ordered []) (λ n. refl)
                  ∙ k;
            })
    ]

-- From a new placement whose addresses include the election's, any sequence of operations, culls among
-- them, in which the winner of each dial and the remote of the election's connection are addresses that the
-- pool has at that time, leaves each node with a connection count that is the number of workers placed on it,
-- and one more while the election's connection is still waiting for its worker.
pub conns-Exact :
    (election : Option ℕ) (in_use : Bool) (ordered : List ℕ) {p : Placement}
    → listed election ordered ≡ true
    → Reach (new_placement election in_use ordered) p
    → All (Exact p) p.by_addr
conns-Exact election in_use ordered h r =
    (Reach-IsCounted r (new_placement-IsCounted election in_use ordered h)).exact
