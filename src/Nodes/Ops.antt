-- ===== src/Nodes/Ops.antt =====
-- nodes.go: the operations of nodePlacement. Each starts with p.mu taken and takes the time, if it
-- reads it, as an argument. A worker is given by its id.
use go_download.Base.{
  ℕ, suc, ◌+◌, Bool, true, false, ◌&&◌, ◌||◌, not, if◌then◌else◌, Option, none, some, List, [], ◌∷◌,
}
use go_download.Nodes.{
  NodeAddress, PlacedWorker, Placement, has_node, update_node, find_worker, update_worker,
  delete_worker, worker_locked, best_locked, assign_locked, take_conn, release_conn, is_valid,
  node_availability_cooldown,
}

-- The address that `reserve` settles on for the worker w.
unfoldable pub reserve_choice : ℕ → PlacedWorker → Placement → Option NodeAddress
unfolding best_locked
reserve_choice now w p = elim (best_locked now w.avoid_next p) [
  | some n ↦ some n
  | none ↦ if is_valid w.avoid_next then best_locked now none p else none
]

abbrev pub clear_avoid : PlacedWorker → PlacedWorker
clear_avoid w = record w { avoid_next = none }

-- `none` as the result is an error.
unfoldable pub reserve_for : ℕ → PlacedWorker → Placement → Placement × Option ℕ
unfolding reserve_choice update_worker assign_locked
reserve_for now w p = elim w.addr [
  | some a ↦ (p, some a)
  | none ↦
      let q : Placement = record p { workers = update_worker w.id clear_avoid p.workers } in
      elim (reserve_choice now w p) [
        | none ↦ (q, none)
        | some n ↦ (assign_locked (clear_avoid w) (some n.addr) false q, some n.addr)
      ]
]

unfoldable pub reserve : ℕ → ℕ → Placement → Placement × Option ℕ
unfolding worker_locked reserve_for
reserve now i p =
    if p.closed then (p, none) else let (q, w) = worker_locked i p in reserve_for now w q

unfoldable pub avoid_current_on_next_reservation : ℕ → Placement → Placement
unfolding update_worker
avoid_current_on_next_reservation i p = record p {
  workers = update_worker i (λ w. record w { avoid_next = w.addr }) p.workers;
}

unfoldable pub fallback : ℕ → Option ℕ → Placement → Option ℕ
unfolding best_locked
fallback now primary p =
    if p.closed
    then none
    else elim (best_locked now primary p) [ none ↦ none | some n ↦ some n.addr ]

abbrev pub cool_down : ℕ → NodeAddress → NodeAddress
cool_down now n = record n { unavailable_until = now + node_availability_cooldown }

-- An address that is not valid, or not in the pool, updates nothing.
unfoldable pub mark_availability_failure : ℕ → Option ℕ → Placement → Placement
unfolding update_node
mark_availability_failure now addr p = record p {
  by_addr = update_node addr (cool_down now) p.by_addr;
}

unfoldable pub mark_dial_winner : ℕ → Option ℕ → Placement → Placement
unfolding worker_locked assign_locked
mark_dial_winner i addr p =
    if p.closed || not (is_valid addr)
    then p
    else let (q, w) = worker_locked i p in assign_locked w addr true q

-- `addr` is what canonicalRemoteAddr finds in the remote's name.
unfoldable pub got_conn : ℕ → Option ℕ → Placement → Placement
unfolding worker_locked assign_locked has_node
got_conn i addr p =
    if not (is_valid addr) || p.closed
    then p
    else let (q, w) = worker_locked i p in
      assign_locked w (if has_node addr q.by_addr then addr else none) false q

-- The first half of `attachInitial`.
unfoldable pub drop_election : Placement → Placement
unfolding update_node
drop_election p =
    if p.election_pending
    then record p {
      by_addr = update_node p.election release_conn p.by_addr;
      election_pending = false;
    }
    else p

unfoldable pub attach_initial : ℕ → Option ℕ → Placement → Placement
unfolding drop_election worker_locked assign_locked
attach_initial i addr p =
    let q : Placement = drop_election p in
    if not q.closed && is_valid addr
    then (let (q', w) = worker_locked i q in assign_locked w addr false q')
    else q

-- The second result tells that the attempt is cancelled at once.
unfoldable pub begin_attempt : ℕ → Placement → Placement × Bool
unfolding find_worker update_worker
begin_attempt i p = (
  record p {
    workers = update_worker i (λ w. record w { cancel = true; rotate = false }) p.workers;
  },
  elim (find_worker i p.workers) [ none ↦ false | some w ↦ w.rotate ],
)

unfoldable pub end_attempt : ℕ → Placement → Placement
unfolding update_worker
end_attempt i p = record p {
  workers = update_worker i (λ w. record w { cancel = false }) p.workers;
}

unfoldable pub release_address : ℕ → Placement → Placement
unfolding find_worker assign_locked
release_address i p = elim (find_worker i p.workers) [
  | none ↦ p
  | some w ↦ if is_valid w.addr then assign_locked w none false p else p
]

unfoldable pub remove_worker : ℕ → Placement → Placement
unfolding find_worker update_node delete_worker
remove_worker i p = elim (find_worker i p.workers) [
  | none ↦ p
  | some w ↦ record p {
    by_addr = update_node w.addr release_conn p.by_addr;
    workers = delete_worker i p.workers;
    membership_gen = suc p.membership_gen;
  }
]

abbrev pub new_node : ℕ → NodeAddress
new_node a = record {
  addr = a;
  order = 0;
  conns = 0;
  unavailable_until = 0;
  slow_strikes = 0;
  healthy_sample = 0;
  below_sample = 0;
}

-- The loop of `installOrderLocked` from index k on, on p.byAddr.
unfoldable pub install_from : ℕ → List ℕ → List NodeAddress → List NodeAddress
unfolding has_node update_node
install_from k [] ns = ns
install_from k (a ∷ rest) ns =
    let ns' = if has_node (some a) ns then ns else new_node a ∷ ns in
    install_from (suc k) rest (update_node (some a) (λ n. record n { order = k }) ns')

unfoldable pub install_order_locked : List ℕ → Placement → Placement
unfolding install_from
install_order_locked addrs p = record p {
  ordered = addrs;
  by_addr = install_from 0 addrs p.by_addr;
}

unfoldable pub new_placement : Option ℕ → Bool → List ℕ → Placement
unfolding install_order_locked update_node
new_placement election in_use ordered =
    let p : Placement = install_order_locked ordered (record {
      election = election;
      election_pending = in_use && is_valid election;
      ordered = [];
      by_addr = [];
      workers = [];
      closed = false;
      membership_gen = 0;
      last_cull = 0;
    }) in
    if p.election_pending
    then record p { by_addr = update_node election take_conn p.by_addr }
    else p

-- `refresh` with what orderNodeAddresses makes of a new resolution.
unfoldable pub refresh : List ℕ → Placement → Placement
unfolding install_order_locked
refresh [] p = p
refresh (a ∷ rest) p = install_order_locked (a ∷ rest) p

abbrev pub close : Placement → Placement
close p = record p { closed = true }
