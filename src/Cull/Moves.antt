-- ===== src/Cull/Moves.antt =====
-- A cull is earned by two slow windows in a row, and leaves the work a place to go.
use go_download.Base.{
  ℕ, ◌≤◌, ◌≡◌, refl, Bool, true, false, ◌||◌, not, ◌==◌, Option, none, some, List, [], ◌∷◌, All,
  arith, Bool-cases, inl, inr, subst, sym, ap, ◌∙◌,
}
use go_download.Nodes.{NodeAddress, PlacedWorker, Placement, find_node, update_node, eligible, on}
use go_download.Cull.{
  judge_rate, judge_probe, judge_locked, can_move, strike, rotate_workers, cull_locked,
}

-- If an address that is judged in two windows is to be culled after the second, then it was slow and
-- more than a tail in both of them.
pub judge_locked-twice :
    (healthy1 tails1 healthy2 tails2 : Bool) (n : NodeAddress)
    → (judge_locked healthy2 tails2 (judge_locked healthy1 tails1 n).0).1 ≡ true
    → (healthy1 ≡ false) × (tails1 ≡ false) × (healthy2 ≡ false) × (tails2 ≡ false)
unfolding judge_locked judge_rate judge_probe
judge_locked-twice healthy1 tails1 healthy2 tails2 n h = ground arith

find_node-strike :
    (a now : ℕ) (ns : List NodeAddress) {n : NodeAddress}
    → find_node a ns ≡ some n
    → find_node a (update_node (some a) (strike now) ns) ≡ some (strike now n)
unfolding find_node update_node strike
find_node-strike a now [] h = ground arith
find_node-strike a now (x ∷ ns) {n} h = ground (arith, find_node-strike a now ns {n = n})

find_node-other :
    (a b now : ℕ) (ns : List NodeAddress) {n : NodeAddress}
    → find_node b ns ≡ some n
    → (b == a) ≡ false
    → find_node b (update_node (some a) (strike now) ns) ≡ some n
unfolding find_node update_node strike
find_node-other a b now [] h e = ground arith
find_node-other a b now (x ∷ ns) {n} h e = ground (arith, find_node-other a b now ns {n = n})

struck-ineligible : (now : ℕ) (n : NodeAddress) → eligible now (strike now n) ≡ false
unfolding strike
struck-ineligible now n = ground arith

-- A worker on the address is to rotate.
abbrev pub leaves : ℕ → PlacedWorker → Bool
leaves a w = not (on w.addr a) || w.rotate

rotated : (a : ℕ) (ws : List PlacedWorker) → All (λ w. leaves a w ≡ true) (rotate_workers a ws)
unfolding rotate_workers
rotated a [] = tt
rotated a (w ∷ ws) = (ground arith, rotated a ws)

-- What a cull of a node of the pool leaves behind.
pub record IsMoved (node alternative : NodeAddress) (now : ℕ) (q : Placement) : Type 0 where
  pub parked :
      (n : NodeAddress) × (find_node node.addr q.by_addr ≡ some n) × (eligible now n ≡ false)
  pub place_to_go :
      (find_node alternative.addr q.by_addr ≡ some alternative) × (eligible now alternative ≡ true)
  pub live : 1 ≤ alternative.conns
  pub all_leave : All (λ w. leaves node.addr w ≡ true) q.workers

-- The placement after a cull of the node.
abbrev pub struck : NodeAddress → ℕ → Placement → Placement
struck node now p = record p {
  by_addr = update_node (some node.addr) (strike now) p.by_addr;
  workers = rotate_workers node.addr p.workers;
  last_cull = now;
}

struck-IsMoved :
    (node alternative : NodeAddress) (now : ℕ) (p : Placement)
    → find_node node.addr p.by_addr ≡ some node
    → find_node alternative.addr p.by_addr ≡ some alternative
    → can_move now node alternative ≡ true
    → IsMoved node alternative now (struck node now p)
unfolding can_move
struck-IsMoved node alternative now p h k e = record {
  parked =
      (strike now node, find_node-strike node.addr now p.by_addr h, struck-ineligible now node);
  place_to_go = (
    find_node-other node.addr alternative.addr now p.by_addr k (ground (arith, e)),
    ground (arith, e),
  );
  live = ground (arith, e);
  all_leave = rotated node.addr p.workers;
}

abbrev pub placement_of : Placement → Option (Placement × (List ℕ × Bool)) → Placement
placement_of p none = p
placement_of p (some r) = r.0

pub refused_cull :
    (node alternative : NodeAddress) (now : ℕ) (p : Placement)
    → can_move now node alternative ≡ false
    → cull_locked node (some alternative) now p ≡ none
unfolding cull_locked
refused_cull node alternative now p e = rw (e, cull_locked) refl

pub allowed_cull :
    (node alternative : NodeAddress) (now : ℕ) (p : Placement)
    → can_move now node alternative ≡ true
    → placement_of p (cull_locked node (some alternative) now p) ≡ struck node now p
unfolding cull_locked
allowed_cull node alternative now p e = rw (e, cull_locked) refl

pub none-some {ℓ} : {A B : Type ℓ} {o : Option A} {a : A} → o ≡ none → o ≡ some a → B
none-some e f = ground (arith, e, f)

-- If a slow node of the pool is culled in favour of another, the node is no longer eligible, the
-- other one is unchanged, eligible and has a connection, and every worker on the node is to rotate.
pub cull_locked-IsMoved :
    (node alternative : NodeAddress) (now : ℕ) (p : Placement) {q : Placement} {r : List ℕ × Bool}
    → find_node node.addr p.by_addr ≡ some node
    → find_node alternative.addr p.by_addr ≡ some alternative
    → cull_locked node (some alternative) now p ≡ some (q, r)
    → IsMoved node alternative now q
unfolding cull_locked
cull_locked-IsMoved node alternative now p {q} {r} h k e =
    elim (Bool-cases (can_move now node alternative)) [
      | inr c ↦ none-some (refused_cull node alternative now p c) e
      | inl c ↦
          subst (IsMoved node alternative now)
            (sym (allowed_cull node alternative now p c) ∙ ap (placement_of p) e)
            (struck-IsMoved node alternative now p h k c)
    ]
