-- ===== src/Attempt.antt =====
-- worker.go: attempt, initialRangeAttempt, classify, classifyConnection, rotationError, ensureClient,
-- dropPlacementTransport and rotateAfterStall. The transport and the server are inputs of an attempt: the
-- connections that it gets, its response or error, and what its context's cause is in the end. The pool is
-- as this worker finds it, with no other worker's operation in between.
pub mod Places
pub mod Cooled
pub mod Rested
pub mod Rest
pub mod Runs
pub mod Capped
pub mod Parts
pub mod Writes
pub mod Chunks
use go_download.Base.{
  ℕ, suc, ◌+◌, pos, Bool, true, false, ◌&&◌, ◌||◌, not, ◌==◌, if◌then◌else◌, Option, none, some,
  List, [], ◌∷◌, Bytes,
}
use go_download.Chunk.{Chunk, cursor}
use go_download.Ladder.{Ladder, bump_timeout}
use go_download.Nodes.{Placement, find_worker, update_worker, is_valid}
use go_download.Nodes.Ops.{
  reserve, avoid_current_on_next_reservation, mark_availability_failure, got_conn, attach_initial,
  begin_attempt, end_attempt, release_address,
}
use go_download.Partial.{
  Pull, Writing, Wanted, PartEnd, part_done, wrong_part, write_failure, capped, short, broken_off,
  hanging, read_partial_response,
}
use go_download.Response.{
  Reply, status_ok, status_partial_content, status_too_many_requests, is_retryable_status,
}
use go_download.Retry.{
  Failure, permanent, range_capped, slow_node, too_many_requests, transient, node_rotation,
}

-- context.Cause of the attempt's context; `running` is nil.
pub data Cause : Type 0 where
  running culled stalled other : Cause

-- What `classify` asks of an error and of the context. The error itself is a number, for the permanent
-- cause that a rotation retains.
pub record Trouble : Type 0 where
  pub error : ℕ
  pub permanent : Bool
  pub rotation : Option (List ℕ × Option ℕ)
  pub certificate : Bool
  pub cause : Cause

-- The fields of `worker`; `client` says that it has one, and no pool is a nil placement.
pub record Worker : Type 0 where
  pub id : ℕ
  pub pool : Option Placement
  pub client : Bool
  pub ladder : Ladder

-- A call of a method of the placement, which does nothing on nil.
abbrev pub on_pool : (Placement → Placement) → Worker → Worker
on_pool f w = elim w.pool [ none ↦ w | some p ↦ record w { pool = some (f p) } ]

-- `dropPlacementTransport`.
unfoldable pub drop_placement_transport : Worker → Worker
unfolding release_address
drop_placement_transport w = elim w.pool [
  | none ↦ w
  | some p ↦ record w { pool = some (release_address w.id p); client = false }
]

-- `currentAddress`.
unfoldable pub current_address : ℕ → Placement → Option ℕ
unfolding find_worker
current_address i p = elim (find_worker i p.workers) [ none ↦ none | some w ↦ w.addr ]

abbrev pub listed : Option ℕ → List ℕ
listed none = []
listed (some a) = a ∷ []

-- `rotationError`, which is only called with a placement.
unfoldable pub rotation_error : ℕ → Option ℕ → Placement → Worker → Worker × Failure
unfolding mark_availability_failure drop_placement_transport current_address
rotation_error now cause p w = (
  drop_placement_transport
      (record w { pool = some (mark_availability_failure now (current_address w.id p) p) }),
  node_rotation (listed (current_address w.id p)) cause,
)

-- `rotateAfterStall`.
unfoldable pub rotate_after_stall : Worker → Worker
unfolding avoid_current_on_next_reservation drop_placement_transport
rotate_after_stall w = drop_placement_transport (on_pool (avoid_current_on_next_reservation w.id) w)

abbrev pub is_stalled : Cause → Bool
is_stalled running = false
is_stalled culled = false
is_stalled stalled = true
is_stalled other = false

abbrev pub is_culled : Cause → Bool
is_culled running = false
is_culled culled = true
is_culled stalled = false
is_culled other = false

abbrev pub is_running : Cause → Bool
is_running running = true
is_running culled = false
is_running stalled = false
is_running other = false

-- The rest of `classify`, from the test for a stall on.
abbrev pub classify_stall : ℕ → Trouble → Worker → Worker × Failure
classify_stall base t w =
    if is_stalled t.cause
    then (rotate_after_stall (record w { ladder = bump_timeout base w.ladder }), transient)
    else (w, transient)

abbrev pub classify_certificate : ℕ → ℕ → Trouble → Worker → Option Placement → Worker × Failure
classify_certificate base now t w none = classify_stall base t w
classify_certificate base now t w (some p) =
    if t.certificate then rotation_error now (some t.error) p w else classify_stall base t w

abbrev pub classify_rotation : ℕ → ℕ → Trouble → Worker → Worker × Failure
classify_rotation base now t w = elim t.rotation [
  | none ↦ classify_certificate base now t w w.pool
  | some (addrs, cause) ↦ (drop_placement_transport w, node_rotation addrs cause)
]

-- `classify` at the time `now`; `base` is Options.Timeout.
unfoldable pub classify : ℕ → ℕ → Trouble → Worker → Worker × Failure
unfolding rotation_error rotate_after_stall drop_placement_transport bump_timeout
classify base now t w =
    if t.permanent
    then (w, permanent t.error)
    else if is_culled t.cause
    then (drop_placement_transport w, slow_node)
    else classify_rotation base now t w

-- The end of `classifyConnection` on what classify has returned.
unfoldable pub rotate_unconnected : ℕ → Placement → Worker × Failure → Worker × Failure
unfolding rotation_error
rotate_unconnected now p (w, permanent c) = (w, permanent c)
rotate_unconnected now p (w, node_rotation addrs cause) = (w, node_rotation addrs cause)
rotate_unconnected now p (w, range_capped) = rotation_error now none p w
rotate_unconnected now p (w, slow_node) = rotation_error now none p w
rotate_unconnected now p (w, too_many_requests) = rotation_error now none p w
rotate_unconnected now p (w, transient) = rotation_error now none p w

-- `classifyConnection`; its context is not done while its cause is `running`.
unfoldable pub classify_connection : ℕ → ℕ → Bool → Trouble → Worker → Worker × Failure
unfolding classify rotate_unconnected
classify_connection base now got t w =
    let c = classify base now t w in
    elim c.0.pool [
      | none ↦ c
      | some p ↦ if got || not (is_running t.cause) then c else rotate_unconnected now p c
    ]

-- `ensureClient`.
unfoldable pub ensure_client : ℕ → Worker → Worker × Option Failure
unfolding reserve
ensure_client now w = if w.client then (w, none) else elim w.pool [
  | none ↦ (record w { client = true }, none)
  | some p ↦
      let (q, addr) = reserve now w.id p in
      let v : Worker = record w { pool = some q } in
      elim addr [
        | none ↦ (v, some (node_rotation [] none))
        | some a ↦ (record v { client = true }, none)
      ]
]
