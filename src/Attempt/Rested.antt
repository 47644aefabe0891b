-- ===== src/Attempt/Rested.antt =====
-- What each operation of the pool does to an address that rests.
use go_download.Base.{
  ℕ, suc, ◌≡◌, refl, Bool, true, false, ◌&&◌, ◌||◌, not, ◌==◌, if◌then◌else◌, Option, none, some,
  List, [], ◌∷◌, All, arith, Bool-cases, Option-cases, inl, inr, sym, subst, ap, ◌∙◌,
}
use go_download.Nodes.{
  NodeAddress, Placement, PlacedWorker, has_node, update_node, update_worker, find_worker,
  worker_locked, assign_locked, is_valid, eq_addr, on, take_conn, release_conn,
}
use go_download.Nodes.Ops.{
  clear_avoid, release_address, reserve, reserve_for, reserve_choice, mark_dial_winner, got_conn,
  drop_election, attach_initial, remove_worker, new_node, install_from,
}
use go_download.Nodes.Counts.{All-update_node, has_node-update}
use go_download.Attempt.Cooled.{Rests, assign-same, assign-moved, worker-current}

-- The address is in the pool and rests.
abbrev pub Rested : ℕ → ℕ → List NodeAddress → Type 0
Rested a later ns = (has_node (some a) ns ≡ true) × All (Rests a later) ns

module _ (a later : ℕ) where
  pub write-Rested :
      (o : Option ℕ) (f : NodeAddress → NodeAddress) (ns : List NodeAddress)
      → ((n : NodeAddress) → (f n).addr ≡ n.addr)
      → ((n : NodeAddress) → Rests a later n → Rests a later (f n))
      → Rested a later ns
      → Rested a later (update_node o f ns)
  write-Rested o f ns g h (k, r) = (
    has_node-update o (some a) f ns g ∙ k,
    All-update_node (Rests a later) (Rests a later) o f ns
        (λ n x. elim (Bool-cases (on o n.addr)) [ inl e ↦ rw e (h n x) | inr e ↦ rw e x ]) r,
  )

  assign-Rested :
      (w : PlacedWorker) (addr : Option ℕ) (force : Bool) (p : Placement)
      → Rested a later p.by_addr
      → Rested a later (assign_locked w addr force p).by_addr
  assign-Rested w addr force p h = elim (Bool-cases (eq_addr w.addr addr)) [
    | inl f ↦ subst (Rested a later) (sym (assign-same w addr force p f)) h
    | inr f ↦ subst (Rested a later) (sym (assign-moved w addr force p f)) (
        write-Rested addr take_conn _ (λ n. refl) (λ n x. x)
          (write-Rested w.addr release_conn p.by_addr (λ n. refl) (λ n x. x) h))
  ]

  -- The worker of an id is moved.
  move-Rested :
      (i : ℕ) (addr : Option ℕ) (force : Bool) (p : Placement)
      → Rested a later p.by_addr
      → Rested a later
          (assign_locked (worker_locked i p).1 addr force (worker_locked i p).0).by_addr
  move-Rested i addr force p h =
      assign-Rested (worker_locked i p).1 addr force (worker_locked i p).0
        (subst (Rested a later) (sym (worker-current i p).1) h)

  reserve_for-Rested :
      (now : ℕ) (w : PlacedWorker) (p : Placement)
      → Rested a later p.by_addr
      → Rested a later (reserve_for now w p).0.by_addr
  unfolding reserve_for
  reserve_for-Rested now w p h = elim (Option-cases w.addr) [
    | inr (b, e) ↦ rw (e, reserve_for) h
    | inl e ↦ elim (Option-cases (reserve_choice now w p)) [
      | inl f ↦ rw (e, f, reserve_for) h
      | inr (n, f) ↦
          rw (e, f, reserve_for)
            (assign-Rested (clear_avoid w) (some n.addr) false
              (record p { workers = update_worker w.id clear_avoid p.workers }) h)
    ]
  ]

  pub reserve-Rested :
      (now i : ℕ) (p : Placement)
      → Rested a later p.by_addr
      → Rested a later (reserve now i p).0.by_addr
  unfolding reserve
  reserve-Rested now i p h = elim (Bool-cases p.closed) [
    | inl e ↦ simp (e, reserve) h
    | inr e ↦
        simp (e, reserve)
          (reserve_for-Rested now (worker_locked i p).1 (worker_locked i p).0
            (subst (Rested a later) (sym (worker-current i p).1) h))
  ]

  pub dial-Rested :
      (i : ℕ) (addr : Option ℕ) (p : Placement)
      → Rested a later p.by_addr
      → Rested a later (mark_dial_winner i addr p).by_addr
  unfolding mark_dial_winner
  dial-Rested i addr p h = elim (Bool-cases (p.closed || not (is_valid addr))) [
    | inl e ↦ rw (e, mark_dial_winner) h
    | inr e ↦ rw (e, mark_dial_winner) (move-Rested i addr true p h)
  ]

  pub conn-Rested :
      (i : ℕ) (addr : Option ℕ) (p : Placement)
      → Rested a later p.by_addr
      → Rested a later (got_conn i addr p).by_addr
  unfolding got_conn
  conn-Rested i addr p h = elim (Bool-cases (not (is_valid addr) || p.closed)) [
    | inl e ↦ rw (e, got_conn) h
    | inr e ↦ rw (e, got_conn) (move-Rested i _ false p h)
  ]

  drop_election-Rested :
      (p : Placement) → Rested a later p.by_addr → Rested a later (drop_election p).by_addr
  unfolding drop_election
  drop_election-Rested p h = elim (Bool-cases p.election_pending) [
    | inr e ↦ rw (e, drop_election) h
    | inl e ↦
        rw (e, drop_election)
          (write-Rested p.election release_conn p.by_addr (λ n. refl) (λ n x. x) h)
  ]

  pub attach-Rested :
      (i : ℕ) (addr : Option ℕ) (p : Placement)
      → Rested a later p.by_addr
      → Rested a later (attach_initial i addr p).by_addr
  unfolding attach_initial
  attach-Rested i addr p h =
      let d = drop_election-Rested p h in
      elim (Bool-cases (not (drop_election p).closed && is_valid addr)) [
        | inr e ↦ rw (e, attach_initial) d
        | inl e ↦ rw (e, attach_initial) (move-Rested i addr false (drop_election p) d)
      ]

  pub release-Rested :
      (i : ℕ) (p : Placement)
      → Rested a later p.by_addr
      → Rested a later (release_address i p).by_addr
  unfolding release_address
  release-Rested i p h = elim (Option-cases (find_worker i p.workers)) [
    | inl e ↦ rw (e, release_address) h
    | inr (w, e) ↦ elim (Bool-cases (is_valid w.addr)) [
      | inr f ↦ rw (e, f, release_address) h
      | inl f ↦ rw (e, f, release_address) (assign-Rested w none false p h)
    ]
  ]

  pub remove-Rested :
      (i : ℕ) (p : Placement)
      → Rested a later p.by_addr
      → Rested a later (remove_worker i p).by_addr
  unfolding remove_worker
  remove-Rested i p h = elim (Option-cases (find_worker i p.workers)) [
    | inl e ↦ rw (e, remove_worker) h
    | inr (w, e) ↦
        rw (e, remove_worker) (write-Rested w.addr release_conn p.by_addr (λ n. refl) (λ n x. x) h)
  ]

  -- An address that is new to the pool is another one.
  separate :
      (b : ℕ) (ns : List NodeAddress)
      → has_node (some a) ns ≡ true
      → has_node (some b) ns ≡ false
      → Rests a later (new_node b)
  separate b ns k e = elim (Bool-cases (b == a)) [
    | inr f ↦ ground (arith, f)
    | inl f ↦
        let same : b ≡ a = ground (arith, f) in
        absurd (ground (arith, k, ap (λ x. has_node (some x) ns) (sym same) ∙ e))
  ]

  add-Rested :
      (b : ℕ) (ns : List NodeAddress)
      → Rested a later ns
      → Rested a later (if has_node (some b) ns then ns else new_node b ∷ ns)
  unfolding has_node
  add-Rested b ns (k, r) = elim (Bool-cases (has_node (some b) ns)) [
    | inl e ↦ rw e (k, r)
    | inr e ↦ rw e (ground (arith, k), (separate b ns k e, r))
  ]

  pub install-Rested :
      (k : ℕ) (addrs : List ℕ) (ns : List NodeAddress)
      → Rested a later ns
      → Rested a later (install_from k addrs ns)
  unfolding install_from
  install-Rested k [] ns h = h
  install-Rested k (b ∷ rest) ns h = install-Rested (suc k) rest _ (
      write-Rested (some b) (λ n. record n { order = k }) _ (λ n. refl) (λ n x. x)
        (add-Rested b ns h))
