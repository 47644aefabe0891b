-- ===== src/Attempt/Runs.antt =====
-- worker.go: attempt and initialRangeAttempt as a whole.
use go_download.Base.{
  ℕ, Bool, true, false, not, ◌==◌, if◌then◌else◌, Option, none, some, List, [], ◌∷◌, Bytes,
}
use go_download.Chunk.{cursor}
use go_download.Nodes.{find_worker, update_worker}
use go_download.Nodes.Ops.{got_conn, attach_initial, begin_attempt, end_attempt, release_address}
use go_download.Partial.{
  Pull, Writing, Wanted, PartEnd, part_done, wrong_part, write_failure, capped, short, broken_off,
  hanging, read_partial_response,
}
use go_download.Response.{
  Reply, status_ok, status_partial_content, status_too_many_requests, is_retryable_status,
}
use go_download.Retry.{Failure, permanent, range_capped, too_many_requests, transient}
use go_download.Attempt.{
  culled, Trouble, Worker, on_pool, drop_placement_transport, classify, classify_connection,
  ensure_client,
}

-- What an attempt reads of its run: Options.Timeout, the length of the worker's buffer, r.total, whether
-- r.validator() is set and whether there is a ramp.
pub record Settings : Type 0 where
  pub timeout : ℕ
  pub size : ℕ
  pub total : ℕ
  pub bound : Bool
  pub ramp : Bool

-- What comes back: the remotes that GotConn reports, the response if client.Do returns one, the reads
-- of its body, and how client.Do or the body fails.
pub record Sent : Type 0 where
  pub remotes : List (Option ℕ)
  pub reply : Option Reply
  pub pulls : List Pull
  pub trouble : Trouble

-- The attempt's result; `rejected` says that it has called ramp.rejectThrottled.
pub record Tried : Type 0 where
  pub worker : Worker
  pub writing : Writing
  pub failure : Option Failure
  pub rejected : Bool

-- Numbers for the permanent errors that are not statuses.
abbrev pub content_changed : ℕ
content_changed = 1

abbrev pub wrong_content_range : ℕ
wrong_content_range = 2

abbrev pub write_error_cause : ℕ
write_error_cause = 3

abbrev pub tried : Worker → Writing → Option Failure → Tried
tried w s f = record { worker = w; writing = s; failure = f; rejected = false }

abbrev pub classified : Writing → Worker × Failure → Tried
classified s (w, f) = tried w s (some f)

-- An io.EOF of the body.
abbrev pub end_of_body : Trouble → Trouble
end_of_body t = record t { permanent = false; rotation = none; certificate = false }

-- The end of `readPartialResponse`.
unfoldable pub after_part : Settings → ℕ → Trouble → Worker → Writing × PartEnd → Tried
unfolding classify
after_part c now t w (s, part_done) = tried w s none
after_part c now t w (s, wrong_part) = tried w s (some (permanent wrong_content_range))
after_part c now t w (s, write_failure) = tried w s (some (permanent write_error_cause))
after_part c now t w (s, capped) = tried w s (some range_capped)
after_part c now t w (s, short) = classified s (classify c.timeout now (end_of_body t) w)
after_part c now t w (s, broken_off) = classified s (classify c.timeout now t w)
after_part c now t w (s, hanging) = classified s (classify c.timeout now t w)

-- `readPartialResponse` with the worker's timers.
unfoldable pub read_part : Settings → ℕ → Wanted → Bytes → Sent → Worker → Writing → Tried
unfolding read_partial_response after_part
read_part c now q header sent w s =
    let x =
      read_partial_response c.timeout c.size q header sent.pulls (record s { ladder = w.ladder }) in
    after_part c now sent.trouble (record w { ladder = x.0.ladder }) x

-- The switch on the status.
unfoldable pub use_response : Settings → ℕ → Wanted → Reply → Sent → Worker → Writing → Tried
unfolding read_part is_retryable_status
use_response c now q r sent w s =
    if r.status == status_partial_content
    then read_part c now q r.content_range sent w s
    else if r.status == status_ok
    then tried w s (some (if c.bound then permanent content_changed else transient))
    else if r.status == status_too_many_requests
    then record { worker = w; writing = s; failure = some too_many_requests; rejected = c.ramp }
    else tried w s (some (if is_retryable_status r.status then transient else permanent r.status))

-- `recordGotConn` for each connection.
unfoldable pub connect : List (Option ℕ) → Worker → Worker
unfolding got_conn
connect [] w = w
connect (a ∷ rest) w = connect rest (on_pool (got_conn w.id a) w)

-- `beginAttempt`: a rotation that was flagged cancels the context at once.
unfoldable pub start : Worker → Worker × Bool
unfolding begin_attempt
start w = elim w.pool [
  | none ↦ (w, false)
  | some p ↦ let (q, cancelled) = begin_attempt w.id p in (record w { pool = some q }, cancelled)
]

abbrev pub cancel : Bool → Sent → Sent
cancel true sent = record sent { trouble = record sent.trouble { cause = culled } }
cancel false sent = sent

-- What `beginAttempt` returns, deferred.
unfoldable pub stop : Tried → Tried
unfolding end_attempt
stop x = record x { worker = on_pool (end_attempt x.worker.id) x.worker }

abbrev pub has_connected : List (Option ℕ) → Bool
has_connected [] = false
has_connected (a ∷ rest) = true

-- What becomes of the request.
unfoldable pub respond : Settings → ℕ → Wanted → Sent → Worker → Writing → Option Reply → Tried
unfolding use_response classify_connection
respond c now q sent w s none =
    classified s (classify_connection c.timeout now (has_connected sent.remotes) sent.trouble w)
respond c now q sent w s (some r) = use_response c now q r sent w s

-- `attempt` from beginAttempt on.
unfoldable pub request : Settings → ℕ → Wanted → Sent → Worker → Writing → Tried
unfolding connect start stop respond
request c now q sent w s =
    let (v, cancelled) = start w in
    let told = cancel cancelled sent in
    stop (respond c now q told (connect told.remotes v) s told.reply)

-- The election's response with its remote, which is none for an empty name, else the address in it.
pub record Initial : Type 0 where
  pub reply : Reply
  pub remote : Option (Option ℕ)

abbrev pub attach : Option (Option ℕ) → Worker → Worker
attach none w = w
attach (some a) w = on_pool (attach_initial w.id a) w

-- `releaseAddress`, deferred if the election's connection was attached.
abbrev pub release : Option (Option ℕ) → Tried → Tried
release none x = x
release (some a) x = record x { worker = on_pool (release_address x.worker.id) x.worker }

-- `initialRangeAttempt`, with the release of the address that it defers.
unfoldable pub initial_range_attempt :
    Settings → ℕ → Wanted → Initial → Sent → Worker → Writing → Tried
unfolding attach_initial start stop read_part release_address
initial_range_attempt c now q i sent w s =
    let (v, cancelled) = start (attach i.remote w) in
    release i.remote (
      stop (
        if i.reply.status == status_partial_content
        then read_part c now (record q { requested = c.total }) i.reply.content_range
            (cancel cancelled sent) v s
        else tried v s (some (permanent i.reply.status))))

-- placed.rotate.Swap(false), and the drop of the transport of a worker that a cull has hit meanwhile.
unfoldable pub honour_rotate : Worker → Worker
unfolding find_worker update_worker drop_placement_transport
honour_rotate w = elim w.pool [
  | none ↦ w
  | some p ↦ elim (find_worker w.id p.workers) [
    | none ↦ w
    | some x ↦
        if x.rotate
        then drop_placement_transport (record w {
          pool = some (record p {
            workers = update_worker w.id (λ y. record y { rotate = false }) p.workers;
          });
        })
        else w
  ]
]

abbrev pub starts_at_zero : ℕ → Option Initial → Option Initial
starts_at_zero cursor none = none
starts_at_zero cursor (some i) = if cursor == 0 then some i else none

-- `attempt` on the owner's chunk; `initial` is what takeInitial would give; it gives that to one attempt only.
unfoldable pub attempt : Settings → ℕ → Option Initial → Sent → Worker → Writing → Tried
unfolding honour_rotate initial_range_attempt ensure_client request
attempt c now initial sent w s =
    let (from, end, todo) = cursor s.chunk in
    let q : Wanted = record { cursor = from; requested = end; end = end; total = c.total } in
    let v = honour_rotate w in
    let (u, failed) = ensure_client now v in
    if not todo then tried w s none else elim (starts_at_zero from initial) [
      | some i ↦ initial_range_attempt c now q i sent v s
      | none ↦ elim failed [ some f ↦ tried u s (some f) | none ↦ request c now q sent u s ]
    ]
