-- ===== src/Attempt/Rest.antt =====
-- An address that has failed rests whatever the pool does meanwhile.
use go_download.Base.{
  ℕ, ◌+◌, ◌≤◌, ◌<◌, ◌≡◌, refl, Bool, true, Option, none, some, List, [], ◌∷◌, arith, Bool-cases,
  inl, inr, sym, subst, ap, ◌∙◌,
}
use go_download.Cull.{strike, can_move, cull_locked}
use go_download.Cull.Moves.{placement_of, refused_cull, allowed_cull, none-some}
use go_download.Nodes.{NodeAddress, Placement, has_node, update_node, node_availability_cooldown}
use go_download.Nodes.Ops.{
  reserve, mark_availability_failure, cool_down, install_order_locked, refresh,
  avoid_current_on_next_reservation, begin_attempt, end_attempt,
}
use go_download.Nodes.Counts.{has_node-update}
use go_download.Nodes.Exact.{
  Step, registers, reserves, avoids, fails, dials, connects, attaches, begins, ends, releases,
  removes, refreshes, closes, culls,
}
use go_download.Attempt.{Worker, drop_placement_transport, current_address, rotation_error}
use go_download.Attempt.Cooled.{Rests, cooled, worker-current, NotAt, reserve-NotAt}
use go_download.Attempt.Rested.{
  Rested, write-Rested, reserve-Rested, dial-Rested, conn-Rested, attach-Rested, release-Rested,
  remove-Rested, install-Rested,
}

-- A failure or a cull comes at this time or later; the other operations leave no time behind.
abbrev pub IsAfter : {p q : Placement} → ℕ → Step p q → Type 0
IsAfter now (registers i) = Unit
IsAfter now (reserves t i) = Unit
IsAfter now (avoids i) = Unit
IsAfter now (fails t addr) = now ≤ t
IsAfter now (dials i addr k) = Unit
IsAfter now (connects i addr) = Unit
IsAfter now (attaches i addr k) = Unit
IsAfter now (begins i) = Unit
IsAfter now (ends i) = Unit
IsAfter now (releases i) = Unit
IsAfter now (removes i) = Unit
IsAfter now (refreshes addrs) = Unit
IsAfter now closes = Unit
IsAfter now (culls node alternative t e) = now ≤ t

-- What the pool does from that time on.
pub data Later (now : ℕ) : Placement → Placement → Type 0 where
  start : {p : Placement} → Later now p p
  followed : {p q r : Placement} → Later now p q → (s : Step q r) → IsAfter now s → Later now p r

strike-addr : (t : ℕ) (m : NodeAddress) → (strike t m).addr ≡ m.addr
unfolding strike
strike-addr t m = ground arith

module _ (a later now : ℕ) (soon : later < now + node_availability_cooldown) where
  strike-Rests :
      (t : ℕ) → now ≤ t → (n : NodeAddress) → Rests a later n → Rests a later (strike t n)
  unfolding strike
  strike-Rests t l n r = ground (arith, r, l, soon)

  cull-Rested :
      (node : NodeAddress) (alternative : Option NodeAddress) (t : ℕ) (p q : Placement)
      (told : List ℕ × Bool)
      → now ≤ t
      → cull_locked node alternative t p ≡ some (q, told)
      → Rested a later p.by_addr
      → Rested a later q.by_addr
  cull-Rested node none t p q told l e h = unfold cull_locked in ground (arith, e)
  cull-Rested node (some n) t p q told l e h = elim (Bool-cases (can_move t node n)) [
    | inr k ↦ none-some (refused_cull node n t p k) e
    | inl k ↦
        subst (λ x. Rested a later x.by_addr)
          (sym (allowed_cull node n t p k) ∙ ap (placement_of p) e)
          (write-Rested a later (some node.addr) (strike t) p.by_addr (λ m. strike-addr t m)
            (λ m x. strike-Rests t l m x) h)
  ]

  Step-Rested :
      {p q : Placement} (s : Step p q)
      → IsAfter now s
      → Rested a later p.by_addr
      → Rested a later q.by_addr
  unfolding mark_availability_failure avoid_current_on_next_reservation begin_attempt end_attempt
      refresh install_order_locked
  Step-Rested {p} (registers i) l h = subst (Rested a later) (sym (worker-current i p).1) h
  Step-Rested {p} (reserves t i) l h = reserve-Rested a later t i p h
  Step-Rested (avoids i) l h = h
  Step-Rested {p} (fails t addr) l h =
      write-Rested a later addr (cool_down t) p.by_addr (λ n. refl)
        (λ n r. ground (arith, r, l, soon)) h
  Step-Rested {p} (dials i addr k) l h = dial-Rested a later i addr p h
  Step-Rested {p} (connects i addr) l h = conn-Rested a later i addr p h
  Step-Rested {p} (attaches i addr k) l h = attach-Rested a later i addr p h
  Step-Rested (begins i) l h = h
  Step-Rested (ends i) l h = h
  Step-Rested {p} (releases i) l h = release-Rested a later i p h
  Step-Rested {p} (removes i) l h = remove-Rested a later i p h
  Step-Rested (refreshes []) l h = h
  Step-Rested {p} (refreshes (b ∷ rest)) l h = install-Rested a later 0 (b ∷ rest) p.by_addr h
  Step-Rested closes l h = h
  Step-Rested {p} {q} (culls node alternative t {told} e) l h =
      cull-Rested node alternative t p q told l e h

  Later-Rested :
      {p q : Placement} → Later now p q → Rested a later p.by_addr → Rested a later q.by_addr
  Later-Rested start h = h
  Later-Rested (followed r s l) h = Step-Rested s l (Later-Rested r h)

abbrev Pooled : ℕ → ℕ → Option Placement → Type 0
Pooled a later none = Unit
Pooled a later (some p) = Rested a later p.by_addr

-- After an address of the pool has failed a worker, no worker that has no address reserves it for the next 30
-- seconds, whatever operations of the pool come in between, reservations, refreshes and culls included, in
-- which winners of dials and the election's remote are addresses of the pool, if the failures and culls among
-- them come at no earlier time.
pub rotation_error-rests :
    (now later i a : ℕ) (cause : Option ℕ) (p q r : Placement) (w : Worker)
    → current_address w.id p ≡ some a
    → has_node (some a) p.by_addr ≡ true
    → (rotation_error now cause p w).0.pool ≡ some q
    → Later now q r
    → later < now + node_availability_cooldown
    → current_address i r ≡ none
    → NotAt a (reserve later i r).1
unfolding rotation_error drop_placement_transport mark_availability_failure
rotation_error-rests now later i a cause p q r w e k h s l c =
    let begun : Rested a later (update_node (some a) (cool_down now) p.by_addr) = (
      has_node-update (some a) (some a) (cool_down now) p.by_addr (λ n. refl) ∙ k,
      cooled a now later p.by_addr l,
    ) in
    let after : Rested a later q.by_addr = subst (Pooled a later) h (
      release-Rested a later w.id (mark_availability_failure now (current_address w.id p) p)
        (rw e begun)) in
    reserve-NotAt a later i r c (Later-Rested a later now l s after).1
