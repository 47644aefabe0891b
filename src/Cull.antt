-- ===== src/Cull.antt =====
-- cull.go: the judgment of one address and the cull of a slow one. The rates of a window are not
-- modelled: `healthy` is the test perConnBPS >= best.perConnBPS*nodeCullRatio.
pub mod Moves
use go_download.Base.{
  ℕ, suc, ◌+◌, Bool, true, false, ◌&&◌, ◌||◌, not, ltb, leb, ◌==◌, if◌then◌else◌, Option, none,
  some, List, [], ◌∷◌,
}
use go_download.Nodes.{
  NodeAddress, PlacedWorker, Placement, find_node, update_node, banned, probing, eligible, on,
}

abbrev pub node_cull_evaluations : ℕ
node_cull_evaluations = 2

-- nodeCullCooldown, in nanoseconds.
abbrev pub node_cull_cooldown : ℕ
node_cull_cooldown = 30_000_000_000

-- The end of `judgeLocked`, for an address that is not settled by its probe.
unfoldable pub judge_rate : Bool → Bool → NodeAddress → NodeAddress × Bool
judge_rate healthy tails_only n =
    if healthy || tails_only then (record n { below_sample = 0 }, false) else (
      record n { below_sample = suc n.below_sample },
      leb node_cull_evaluations (suc n.below_sample),
    )

-- A probing address that samples healthy.
unfoldable pub judge_probe : NodeAddress → NodeAddress
judge_probe n =
    if leb node_cull_evaluations (suc n.healthy_sample)
    then record n { slow_strikes = 0; healthy_sample = 0; below_sample = 0 }
    else record n { healthy_sample = suc n.healthy_sample; below_sample = 0 }

-- `judgeLocked`: the node after the window, and whether it is to be culled.
unfoldable pub judge_locked : Bool → Bool → NodeAddress → NodeAddress × Bool
unfolding judge_rate judge_probe
judge_locked healthy tails_only n =
    if not (probing n)
    then judge_rate healthy tails_only n
    else if healthy
    then (judge_probe n, false)
    else judge_rate healthy tails_only (record n { healthy_sample = 0 })

-- The first test of `cullLocked`, where both addresses are nodes.
unfoldable pub can_move : ℕ → NodeAddress → NodeAddress → Bool
can_move now node alternative = not (
    node.conns == 0
    || alternative.addr == node.addr
    || alternative.conns == 0
    || not (alternative.slow_strikes == 0)
    || not (eligible now alternative))

unfoldable pub strike : ℕ → NodeAddress → NodeAddress
strike now n =
    let m : NodeAddress = record n {
      slow_strikes = suc n.slow_strikes;
      below_sample = 0;
      healthy_sample = 0;
    } in
    if banned m then m else record m { unavailable_until = now + node_cull_cooldown }

-- The loop over the workers: those on the address are to rotate.
unfoldable pub rotate_workers : ℕ → List PlacedWorker → List PlacedWorker
rotate_workers a [] = []
rotate_workers a (w ∷ ws) =
    (if on w.addr a then record w { rotate = true } else w) ∷ rotate_workers a ws

-- The workers whose attempt is cancelled.
unfoldable pub cancelled : ℕ → List PlacedWorker → List ℕ
cancelled a [] = []
cancelled a (w ∷ ws) = if on w.addr a && w.cancel then w.id ∷ cancelled a ws else cancelled a ws

-- `cullLocked` for the node of an address; none as the result is that nothing is done.
unfoldable pub cull_locked :
    NodeAddress → Option NodeAddress → ℕ → Placement → Option (Placement × (List ℕ × Bool))
unfolding can_move strike rotate_workers cancelled update_node
cull_locked node none now p = none
cull_locked node (some alternative) now p =
    if can_move now node alternative
    then some (
      record p {
        by_addr = update_node (some node.addr) (strike now) p.by_addr;
        workers = rotate_workers node.addr p.workers;
        last_cull = now;
      },
      (cancelled node.addr p.workers, banned (strike now node)),
    )
    else none
