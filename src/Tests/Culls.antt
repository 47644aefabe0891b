-- ===== src/Tests/Culls.antt =====
-- A cull with two addresses, each with one worker.
use go_download.Base.{ℕ, ◌≡◌, refl, true, false, some, List, [], ◌∷◌, arith}
use go_download.Nodes.{NodeAddress, PlacedWorker, Placement, find_node, update_node, new_worker}
use go_download.Cull.{
  judge_locked, judge_rate, cull_locked, can_move, strike, rotate_workers, cancelled,
}
use go_download.Cull.Moves.{IsMoved, cull_locked-IsMoved}

abbrev node_at : ℕ → ℕ → NodeAddress
node_at a k = record {
  addr = a;
  order = k;
  conns = 1;
  unavailable_until = 0;
  slow_strikes = 0;
  healthy_sample = 0;
  below_sample = 0;
}

abbrev worker_on : ℕ → ℕ → PlacedWorker
worker_on i a = record (new_worker i) { addr = some a; cancel = true }

abbrev two_nodes : Placement
two_nodes = record {
  election = some 7;
  election_pending = false;
  ordered = 7 ∷ 9 ∷ [];
  by_addr = node_at 7 0 ∷ node_at 9 1 ∷ [];
  workers = worker_on 0 7 ∷ worker_on 1 9 ∷ [];
  closed = false;
  membership_gen = 4;
  last_cull = 0;
}

abbrev after_cull : Placement
after_cull = record two_nodes {
  by_addr =
      record (node_at 7 0) { slow_strikes = 1; unavailable_until = 30_000_000_005 }
      ∷ node_at 9 1
      ∷ [];
  workers = record (worker_on 0 7) { rotate = true } ∷ worker_on 1 9 ∷ [];
  last_cull = 5;
}

culled :
    cull_locked (node_at 7 0) (some (node_at 9 1)) 5 two_nodes ≡ some (after_cull, (0 ∷ [], false))
unfolding cull_locked can_move strike rotate_workers cancelled update_node
culled = refl

found : (a k : ℕ) (rest : List NodeAddress) → find_node a (node_at a k ∷ rest) ≡ some (node_at a k)
unfolding find_node
found a k rest = ground arith

found_second : find_node 9 two_nodes.by_addr ≡ some (node_at 9 1)
unfolding find_node
found_second = refl

judged_twice : (judge_locked false false (judge_locked false false (node_at 7 0)).0).1 ≡ true
unfolding judge_locked judge_rate
judged_twice = refl

cull_locked-IsMoved_example : IsMoved (node_at 7 0) (node_at 9 1) 5 after_cull
cull_locked-IsMoved_example =
    cull_locked-IsMoved (node_at 7 0) (node_at 9 1) 5 two_nodes (found 7 0 (node_at 9 1 ∷ []))
      found_second culled
