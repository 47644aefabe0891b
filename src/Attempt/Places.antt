-- ===== src/Attempt/Places.antt =====
-- A worker whose attempt has failed at its address has given the address up.
use go_download.Base.{
  ℕ, ◌≡◌, refl, Bool, true, false, ◌||◌, ◌==◌, Option, none, some, List, [], ◌∷◌, arith, Bool-cases,
  Option-cases, inl, inr, sym, ap, subst, ◌∙◌,
}
use go_download.Ladder.{bump_timeout}
use go_download.Nodes.{
  Placement, PlacedWorker, find_worker, update_worker, assign_locked, is_valid, move_to,
}
use go_download.Nodes.Ops.{
  release_address, avoid_current_on_next_reservation, mark_availability_failure,
}
use go_download.Nodes.Counts.{find_worker-id}
use go_download.Attempt.{
  Trouble, Worker, on_pool, drop_placement_transport, current_address, rotation_error,
  rotate_after_stall, is_stalled, is_culled, classify_stall, classify_certificate,
  classify_rotation, classify,
}

find-update :
    (i : ℕ) (g : PlacedWorker → PlacedWorker) (ws : List PlacedWorker) {w : PlacedWorker}
    → ((x : PlacedWorker) → (g x).id ≡ x.id)
    → find_worker i ws ≡ some w
    → find_worker i (update_worker i g ws) ≡ some (g w)
unfolding find_worker update_worker
find-update i g [] h k = ground (arith, k)
find-update i g (x ∷ ws) {w} h k = elim (Bool-cases (x.id == i)) [
  | inl e ↦ ground (arith, e, k, h x)
  | inr e ↦ ground (arith, e, k, find-update i g ws {w = w} h)
]

current-found :
    (i : ℕ) (p : Placement) {w : PlacedWorker}
    → find_worker i p.workers ≡ some w
    → current_address i p ≡ w.addr
unfolding current_address
current-found i p e = rw (e, current_address) refl

current-missing :
    (i : ℕ) (p : Placement) → find_worker i p.workers ≡ none → current_address i p ≡ none
unfolding current_address
current-missing i p e = rw (e, current_address) refl

moved-workers :
    (p : Placement) (w : PlacedWorker)
    → is_valid w.addr ≡ true
    → (assign_locked w none false p).workers ≡ update_worker w.id (move_to none) p.workers
unfolding assign_locked
moved-workers p w v = ground (arith, v)

invalid-none : (a : Option ℕ) → is_valid a ≡ false → a ≡ none
invalid-none none h = refl
invalid-none (some a) h = ground (arith, h)

pub release_address-current :
    (i : ℕ) (p : Placement) → current_address i (release_address i p) ≡ none
unfolding release_address
release_address-current i p = elim (Option-cases (find_worker i p.workers)) [
  | inl e ↦ simp (e, release_address) (current-missing i p e)
  | inr (w, e) ↦ elim (Bool-cases (is_valid w.addr)) [
    | inr f ↦ simp (e, f, release_address) (current-found i p e ∙ invalid-none w.addr f)
    | inl f ↦
        let same : w.id ≡ i = find_worker-id i p.workers e in
        simp (e, f, release_address)
          (current-found i (assign_locked w none false p) (
            ap (find_worker i) (moved-workers p w f)
            ∙ subst
                (λ j.
                  find_worker i (update_worker j (move_to none) p.workers) ≡ some (move_to none w))
                (sym same) (find-update i (move_to none) p.workers (λ x. refl) e)))
  ]
]

-- No client and no address, in a placed run.
abbrev pub IsDropped : Worker → Type 0
IsDropped w = elim w.pool [
  | none ↦ Unit
  | some p ↦ (w.client ≡ false) × (current_address w.id p ≡ none)
]

unplaced : (w : Worker) → w.pool ≡ none → IsDropped w
unplaced w e = rw e tt

pub drop-IsDropped : (w : Worker) → IsDropped (drop_placement_transport w)
unfolding drop_placement_transport
drop-IsDropped w = elim (Option-cases w.pool) [
  | inl e ↦ simp (e, drop_placement_transport) (unplaced w e)
  | inr (p, e) ↦ simp (e, drop_placement_transport) (refl, release_address-current w.id p)
]

rotation_error-IsDropped :
    (now : ℕ) (cause : Option ℕ) (p : Placement) (w : Worker)
    → IsDropped (rotation_error now cause p w).0
unfolding rotation_error
rotation_error-IsDropped now cause p w =
    drop-IsDropped
      (record w { pool = some (mark_availability_failure now (current_address w.id p) p) })

rotate_after_stall-IsDropped : (w : Worker) → IsDropped (rotate_after_stall w)
unfolding rotate_after_stall
rotate_after_stall-IsDropped w = drop-IsDropped (on_pool (avoid_current_on_next_reservation w.id) w)

abbrev pub has_rotation : Option (List ℕ × Option ℕ) → Bool
has_rotation none = false
has_rotation (some r) = true

stall-IsDropped :
    (base : ℕ) (t : Trouble) (w : Worker)
    → is_stalled t.cause ≡ true
    → IsDropped (classify_stall base t w).0
stall-IsDropped base t w h =
    rw h (rotate_after_stall-IsDropped (record w { ladder = bump_timeout base w.ladder }))

certificate-IsDropped :
    (base now : ℕ) (t : Trouble) (w : Worker) (o : Option Placement)
    → w.pool ≡ o
    → (is_stalled t.cause || t.certificate) ≡ true
    → IsDropped (classify_certificate base now t w o).0
certificate-IsDropped base now t w none e h = elim (Bool-cases (is_stalled t.cause)) [
  | inl f ↦ stall-IsDropped base t w f
  | inr f ↦ simp (f, classify_stall) (unplaced w e)
]
certificate-IsDropped base now t w (some p) e h = elim (Bool-cases t.certificate) [
  | inl f ↦ simp (f, classify_certificate) (rotation_error-IsDropped now (some t.error) p w)
  | inr f ↦ simp (f, classify_certificate) (stall-IsDropped base t w (ground (arith, f, h)))
]

-- If an attempt fails for a cull, a stall, a failed dial or a bad certificate, then a placed worker is left
-- without a client and without an address, so that its next attempt reserves one afresh.
pub classify-IsDropped :
    (base now : ℕ) (t : Trouble) (w : Worker)
    → t.permanent ≡ false
    → (is_culled t.cause || is_stalled t.cause || has_rotation t.rotation || t.certificate) ≡ true
    → IsDropped (classify base now t w).0
unfolding classify
classify-IsDropped base now t w n h = elim (Bool-cases (is_culled t.cause)) [
  | inl e ↦ simp (n, e, classify) (drop-IsDropped w)
  | inr e ↦ elim (Option-cases t.rotation) [
    | inr (r, f) ↦ simp (n, e, f, classify, classify_rotation) (drop-IsDropped w)
    | inl f ↦
        simp (n, e, f, classify, classify_rotation)
          (certificate-IsDropped base now t w w.pool refl (ground (arith, e, f, h)))
  ]
]
