-- ===== src/Attempt/Capped.antt =====
-- Which attempts end with errRangeCapped: not those that `classify` judges.
use go_download.Base.{
  ℕ, ◌≡◌, refl, Bool, true, false, ◌||◌, not, Option, none, some, Bool-cases, Option-cases, inl,
  inr,
}
use go_download.Nodes.{Placement}
use go_download.Nodes.Ops.{reserve}
use go_download.Retry.{
  Failure, permanent, range_capped, slow_node, too_many_requests, transient, node_rotation,
}
use go_download.Attempt.{
  Trouble, Worker, rotation_error, is_stalled, is_culled, is_running, classify_stall,
  classify_certificate, classify_rotation, classify, rotate_unconnected, classify_connection,
  ensure_client,
}

abbrev pub is_capped_failure : Failure → Bool
is_capped_failure (permanent c) = false
is_capped_failure range_capped = true
is_capped_failure slow_node = false
is_capped_failure too_many_requests = false
is_capped_failure transient = false
is_capped_failure (node_rotation addrs cause) = false

-- The attempt's result is errRangeCapped.
abbrev pub ends_capped : Option Failure → Bool
ends_capped none = false
ends_capped (some f) = is_capped_failure f

pub rotation_error-capped :
    (now : ℕ) (cause : Option ℕ) (p : Placement) (w : Worker)
    → is_capped_failure (rotation_error now cause p w).1 ≡ false
unfolding rotation_error
rotation_error-capped now cause p w = refl

stall-capped :
    (base : ℕ) (t : Trouble) (w : Worker) → is_capped_failure (classify_stall base t w).1 ≡ false
stall-capped base t w = elim (Bool-cases (is_stalled t.cause)) [
  | inl e ↦ simp (e, classify_stall) refl
  | inr e ↦ simp (e, classify_stall) refl
]

certificate-capped :
    (base now : ℕ) (t : Trouble) (w : Worker) (o : Option Placement)
    → is_capped_failure (classify_certificate base now t w o).1 ≡ false
certificate-capped base now t w none = stall-capped base t w
certificate-capped base now t w (some p) = elim (Bool-cases t.certificate) [
  | inl e ↦ simp (e, classify_certificate) (rotation_error-capped now (some t.error) p w)
  | inr e ↦ simp (e, classify_certificate) (stall-capped base t w)
]

rotation-capped :
    (base now : ℕ) (t : Trouble) (w : Worker)
    → is_capped_failure (classify_rotation base now t w).1 ≡ false
rotation-capped base now t w = elim (Option-cases t.rotation) [
  | inl e ↦ simp (e, classify_rotation) (certificate-capped base now t w w.pool)
  | inr (r, e) ↦ simp (e, classify_rotation) refl
]

pub classify-capped :
    (base now : ℕ) (t : Trouble) (w : Worker) → is_capped_failure (classify base now t w).1 ≡ false
unfolding classify
classify-capped base now t w = elim (Bool-cases t.permanent) [
  | inl e ↦ simp (e, classify) refl
  | inr e ↦ elim (Bool-cases (is_culled t.cause)) [
    | inl f ↦ simp (e, f, classify) refl
    | inr f ↦ simp (e, f, classify) (rotation-capped base now t w)
  ]
]

unconnected-capped :
    (now : ℕ) (p : Placement) (x : Worker × Failure)
    → is_capped_failure (rotate_unconnected now p x).1 ≡ false
unfolding rotate_unconnected
unconnected-capped now p (w, permanent c) = refl
unconnected-capped now p (w, node_rotation addrs cause) = refl
unconnected-capped now p (w, range_capped) = rotation_error-capped now none p w
unconnected-capped now p (w, slow_node) = rotation_error-capped now none p w
unconnected-capped now p (w, too_many_requests) = rotation_error-capped now none p w
unconnected-capped now p (w, transient) = rotation_error-capped now none p w

pub classify_connection-capped :
    (base now : ℕ) (got : Bool) (t : Trouble) (w : Worker)
    → is_capped_failure (classify_connection base now got t w).1 ≡ false
unfolding classify_connection
classify_connection-capped base now got t w = elim (Option-cases (classify base now t w).0.pool) [
  | inl e ↦ simp (e, classify_connection) (classify-capped base now t w)
  | inr (p, e) ↦ elim (Bool-cases (got || not (is_running t.cause))) [
    | inl f ↦ simp (e, f, classify_connection) (classify-capped base now t w)
    | inr f ↦ simp (e, f, classify_connection) (unconnected-capped now p (classify base now t w))
  ]
]

pub ensure_client-capped : (now : ℕ) (w : Worker) → ends_capped (ensure_client now w).1 ≡ false
unfolding ensure_client
ensure_client-capped now w = elim (Bool-cases w.client) [
  | inl e ↦ simp (e, ensure_client) refl
  | inr e ↦ elim (Option-cases w.pool) [
    | inl f ↦ simp (e, f, ensure_client) refl
    | inr (p, f) ↦ elim (Option-cases (reserve now w.id p).1) [
      | inl g ↦ simp (e, f, g, ensure_client) refl
      | inr (a, g) ↦ simp (e, f, g, ensure_client) refl
    ]
  ]
]
