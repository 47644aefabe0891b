-- ===== src/Tests/Pool.antt =====
-- The address pool on a run with two addresses.
use go_download.Base.{
  ℕ, ◌-◌, ◌≡◌, refl, Bool, ◌&&◌, All, Option, none, some, List, [], ◌∷◌, true, ltb, leb,
  if◌then◌else◌, map, arith,
}
use go_download.Nodes.{
  Placement, best_locked, best_from, find_node, update_node, update_worker, find_worker,
  worker_locked, assign_locked, has_node, consider,
}
use go_download.Nodes.Ops.{
  new_placement, reserve, reserve_for, reserve_choice, attach_initial, drop_election, install_from,
  install_order_locked,
}
use go_download.Nodes.Counts.{Exact}
use go_download.Nodes.Exact.{Reach, start, followed, reserves, attaches, conns-Exact}
use go_download.Nodes.Best.{Allowed, Unbeaten, best_locked_lem}
use go_download.Nodes.Order.{order_node_addresses, append_family, append_addr}

abbrev fresh_pool : Placement
fresh_pool = new_placement (some 7) true (7 ∷ 9 ∷ [])

-- Worker 1 reserves while the election's connection waits, then worker 0 takes that connection.
abbrev reserved_pool : Placement
reserved_pool = (reserve 5 1 fresh_pool).0

abbrev attached_pool : Placement
attached_pool = attach_initial 0 (some 7) reserved_pool

-- The load goes to the other address.
second_address : (reserve 5 1 fresh_pool).1 ≡ some 9
unfolding new_placement reserve reserve_for reserve_choice install_from install_order_locked
    best_locked best_from find_node update_node update_worker find_worker worker_locked
    assign_locked has_node consider
second_address = refl

one_each : map (λ n. n.conns) attached_pool.by_addr ≡ 1 ∷ 1 ∷ []
unfolding new_placement reserve reserve_for reserve_choice install_from install_order_locked
    best_locked best_from find_node update_node update_worker find_worker worker_locked
    assign_locked has_node consider attach_initial drop_election
one_each = refl

pool_run : Reach fresh_pool attached_pool
unfolding new_placement reserve reserve_for reserve_choice install_from install_order_locked
    best_locked best_from find_node update_node update_worker find_worker worker_locked
    assign_locked has_node consider attach_initial drop_election
pool_run = followed (followed start (reserves 5 1)) (attaches 0 (some 7) refl)

conns-Exact_example : All (Exact attached_pool) attached_pool.by_addr
conns-Exact_example = conns-Exact (some 7) true (7 ∷ 9 ∷ []) refl pool_run

best_locked_lem_example :
    Allowed 5 none (best_locked 5 none fresh_pool)
    × All (Unbeaten fresh_pool.by_addr 5 none (best_locked 5 none fresh_pool)) fresh_pool.ordered
best_locked_lem_example = best_locked_lem 5 none fresh_pool

-- IPv4 addresses are the numbers below 1000, and those mapped into IPv6 are 1000 more.
abbrev unmapped : ℕ → ℕ
unmapped a = if leb 1000 a && ltb a 2000 then a - 1000 else a

abbrev is_ipv4 : ℕ → Bool
is_ipv4 a = ltb a 1000

abbrev answers : List (Option ℕ)
answers = some 5000 ∷ some 1009 ∷ some 7 ∷ some 9 ∷ []

unmapped_twice : (a : ℕ) → unmapped (unmapped a) ≡ unmapped a
unmapped_twice a = ground arith

family_first : order_node_addresses unmapped is_ipv4 (some 1007) answers ≡ 7 ∷ 9 ∷ 5000 ∷ []
unfolding order_node_addresses append_family append_addr
family_first = refl
