-- ===== src/Nodes.antt =====
-- nodes.go: nodePlacement, the addresses of the final host and the workers placed on them. Each
-- operation runs under p.mu. A valid netip.Addr is a number, the zero Addr is `none`; `by_addr` has the
-- nodes, and `ordered` their addresses in order, which stand for the pointers of p.ordered. A pointer to
-- a placedWorker is its worker's id: removeWorker is the last call that a worker makes. Transports and
-- dialing are not modelled.
pub mod Ops
pub mod Counts
pub mod Steps
pub mod Runs
pub mod Exact
pub mod Best
pub mod Order
use go_download.Base.{
  ℕ, suc, ◌+◌, ◌-◌, Bool, true, false, ◌&&◌, ◌||◌, not, ltb, leb, ◌==◌, bit, if◌then◌else◌, Option,
  none, some, List, [], ◌∷◌, ◌++◌, map, contains, sum_by,
}

abbrev pub node_availability_cooldown : ℕ
node_availability_cooldown = 30_000_000_000

pub record NodeAddress : Type 0 where
  pub addr : ℕ
  pub order : ℕ
  pub conns : ℕ
  pub unavailable_until : ℕ
  pub slow_strikes : ℕ
  pub healthy_sample : ℕ
  pub below_sample : ℕ

-- `counter` is the generation of the counter, `none` while there is none.
pub record PlacedWorker : Type 0 where
  pub id : ℕ
  pub addr : Option ℕ
  pub counter : Option ℕ
  pub next_gen : ℕ
  pub avoid_next : Option ℕ
  pub rotate : Bool
  pub cancel : Bool

pub record Placement : Type 0 where
  pub election : Option ℕ
  pub election_pending : Bool
  pub ordered : List ℕ
  pub by_addr : List NodeAddress
  pub workers : List PlacedWorker
  pub closed : Bool
  pub membership_gen : ℕ
  pub last_cull : ℕ

abbrev pub banned : NodeAddress → Bool
banned n = leb 2 n.slow_strikes

abbrev pub probing : NodeAddress → Bool
probing n = ltb 0 n.slow_strikes && ltb 0 n.conns

-- a == b, for an address that may be zero and a valid one.
abbrev pub on : Option ℕ → ℕ → Bool
on none b = false
on (some a) b = a == b

abbrev pub eq_addr : Option ℕ → Option ℕ → Bool
eq_addr none none = true
eq_addr none (some b) = false
eq_addr (some a) none = false
eq_addr (some a) (some b) = a == b

abbrev pub is_valid : Option ℕ → Bool
is_valid none = false
is_valid (some a) = true

-- p.byAddr[addr]
unfoldable pub find_node : ℕ → List NodeAddress → Option NodeAddress
find_node a [] = none
find_node a (n ∷ ns) = let rest = find_node a ns in if n.addr == a then some n else rest

unfoldable pub has_node : Option ℕ → List NodeAddress → Bool
has_node a [] = false
has_node a (n ∷ ns) = on a n.addr || has_node a ns

-- A write through p.byAddr[addr].
unfoldable pub update_node :
    Option ℕ → (NodeAddress → NodeAddress) → List NodeAddress → List NodeAddress
update_node a f [] = []
update_node a f (n ∷ ns) = (if on a n.addr then f n else n) ∷ update_node a f ns

-- p.workers[id]
unfoldable pub find_worker : ℕ → List PlacedWorker → Option PlacedWorker
find_worker i [] = none
find_worker i (w ∷ ws) = let rest = find_worker i ws in if w.id == i then some w else rest

unfoldable pub update_worker :
    ℕ → (PlacedWorker → PlacedWorker) → List PlacedWorker → List PlacedWorker
update_worker i f [] = []
update_worker i f (w ∷ ws) = if w.id == i then f w ∷ ws else w ∷ update_worker i f ws

unfoldable pub delete_worker : ℕ → List PlacedWorker → List PlacedWorker
delete_worker i [] = []
delete_worker i (w ∷ ws) = if w.id == i then ws else w ∷ delete_worker i ws

abbrev pub new_worker : ℕ → PlacedWorker
new_worker i = record {
  id = i;
  addr = none;
  counter = some 0;
  next_gen = 0;
  avoid_next = none;
  rotate = false;
  cancel = false;
}

-- `workerLocked`, also `registerWorker`.
unfoldable pub worker_locked : ℕ → Placement → Placement × PlacedWorker
worker_locked i p = elim (find_worker i p.workers) [
  | some w ↦ (p, w)
  | none ↦ (
    record p { workers = new_worker i ∷ p.workers; membership_gen = suc p.membership_gen },
    new_worker i,
  )
]

abbrev pub eligible : ℕ → NodeAddress → Bool
eligible now n = not (banned n) && leb n.unavailable_until now

-- What the loop of `bestLocked` does not pass over.
abbrev pub candidate : ℕ → Option ℕ → NodeAddress → Bool
candidate now exclude n = not (on exclude n.addr) && eligible now n && not (probing n)

abbrev pub is_before : NodeAddress → NodeAddress → Bool
is_before n c = ltb n.conns c.conns || (n.conns == c.conns && ltb n.order c.order)

unfoldable pub consider : ℕ → Option ℕ → NodeAddress → Option NodeAddress → Option NodeAddress
consider now exclude n none = if candidate now exclude n then some n else none
consider now exclude n (some c) =
    if candidate now exclude n && is_before n c then some n else some c

unfoldable pub best_from :
    List NodeAddress → ℕ → Option ℕ → List ℕ → Option NodeAddress → Option NodeAddress
unfolding consider
best_from ns now exclude [] chosen = chosen
best_from ns now exclude (a ∷ rest) chosen = elim (find_node a ns) [
  | none ↦ best_from ns now exclude rest chosen
  | some n ↦ best_from ns now exclude rest (consider now exclude n chosen)
]

unfoldable pub best_locked : ℕ → Option ℕ → Placement → Option NodeAddress
unfolding best_from
best_locked now exclude p = best_from p.by_addr now exclude p.ordered none

-- A node that loses a connection; at 0 it stays.
abbrev pub release_conn : NodeAddress → NodeAddress
release_conn n = record n { conns = n.conns - 1 }

abbrev pub take_conn : NodeAddress → NodeAddress
take_conn n = record n { conns = n.conns + 1 }

abbrev pub move_to : Option ℕ → PlacedWorker → PlacedWorker
move_to addr w = record w {
  addr = addr;
  next_gen = suc w.next_gen;
  counter = if is_valid addr then some (suc w.next_gen) else none;
}

-- `assignLocked` for the worker w, which is the one with its id.
unfoldable pub assign_locked : PlacedWorker → Option ℕ → Bool → Placement → Placement
unfolding update_node update_worker
assign_locked w addr force p = if eq_addr w.addr addr && not force then p else record p {
  by_addr =
      if eq_addr w.addr addr
      then p.by_addr
      else update_node addr take_conn (update_node w.addr release_conn p.by_addr);
  workers = update_worker w.id (move_to addr) p.workers;
  membership_gen = suc p.membership_gen;
}
