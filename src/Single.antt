-- ===== src/Single.antt =====
-- worker.go: the single stream (singleAttempt, singleSink, pump, singleStream). The staging file is
-- the list of its bytes. A response's body is the reads that it gives: for a known length those of
-- readLoop, in which an unexpected EOF is an EOF, else those of body.Read.

pub mod Pumps
pub mod Streams
pub mod Retries
pub mod Whole
use go_download.Base.{
  ℕ, suc, ◌+◌, ℤ, pos, negsuc, Bool, true, false, ◌&&◌, ◌||◌, not, ◌==◌, leb, if◌then◌else◌, Option,
  none, some, List, [], ◌∷◌, ◌++◌, leb_ℤ, ltb_ℤ, eq_ℤ, length, eq_bytes, Bytes,
}
use go_download.Finalize.{Files, Faults, Expected, Finish, io_error, verify_and_finalize}
use go_download.State.{is_strong_etag, validator}
use go_download.Response.{
  Reply, Answer, proceed, empty_resource, retry_later, give_up, wrong_range, check_single_status,
}

pub data ReadError : Type 0 where
  eof broken : ReadError

-- One read: its bytes, its error, and whether a WriteAt of the bytes fails.
pub record Read : Type 0 where
  pub bytes : Bytes
  pub error : Option ReadError
  pub write_fails : Bool

-- What the attempt changes: the staging file, the sidecar and r.total.
pub record Staged : Type 0 where
  pub file : Bytes
  pub sidecar : Bool
  pub total : ℤ

-- How an attempt ends. `blocked` is a body that has given all its reads and neither ended nor failed;
-- the stall timer turns it into an error.
pub data End : Type 0 where
  finished permanent retryable short_body blocked : End

abbrev pub is_finished : End → Bool
is_finished finished = true
is_finished permanent = false
is_finished retryable = false
is_finished short_body = false
is_finished blocked = false

-- How `pump` ends: the sink is done, a write fails, the body ends, fails, or gives no more.
pub data PumpEnd : Type 0 where
  sink_done write_error body_eof body_broken starved : PumpEnd

-- `singleSink`'s answer: the declared length is reached.
abbrev pub reached : ℤ → Bytes → Bool
reached expected file = leb_ℤ (pos 0) expected && leb_ℤ expected (pos (length file))

abbrev pub is_empty : Bytes → Bool
is_empty [] = true
is_empty (c ∷ s) = false

-- `pump` with `singleSink`, from a buffer that is not empty.
unfoldable pub pump : ℤ → List Read → Bytes → Bytes × PumpEnd
pump expected [] file = (file, starved)
pump expected (r ∷ rs) file =
    let next = file ++ r.bytes in
    let rest = pump expected rs next in
    if not (is_empty r.bytes) && r.write_fails
    then (file, write_error)
    else if reached expected next
    then (next, sink_done)
    else elim r.error [
      | none ↦ rest
      | some eof ↦ (next, body_eof)
      | some broken ↦ (next, body_broken)
    ]

-- An attempt's response: whether the client gets one, what it declares and its body.
pub record Exchange : Type 0 where
  pub initial : Bool
  pub connects : Bool
  pub reply : Reply
  pub reads : List Read
  pub invalidate_fails : Bool
  pub truncate_fails : Bool

-- The last switch of `singleAttempt`.
unfoldable pub close_stream : ℤ → Staged → Bytes × PumpEnd → Staged × End
close_stream expected s (file, sink_done) = (
  record s { file = file; total = if ltb_ℤ s.total (pos 0) then expected else s.total },
  finished,
)
close_stream expected s (file, write_error) = (record s { file = file }, permanent)
close_stream expected s (file, body_broken) = (record s { file = file }, retryable)
close_stream expected s (file, body_eof) =
    if ltb_ℤ expected (pos 0)
    then (record s { file = file; total = pos (length file) }, finished)
    else (record s { file = file }, short_body)
close_stream expected s (file, starved) = (record s { file = file }, blocked)

-- resp.ContentLength replaces an unknown total.
abbrev pub expected_length : ℤ → Reply → ℤ
expected_length total r =
    if ltb_ℤ total (pos 0) && leb_ℤ (pos 0) r.content_length then r.content_length else total

-- From the removal of the sidecar on.
unfoldable pub stream : Exchange → Staged → Staged × End
unfolding pump close_stream
stream x s =
    if x.invalidate_fails
    then (s, permanent)
    else if x.truncate_fails
    then (record s { sidecar = false }, permanent)
    else close_stream (expected_length s.total x.reply) (record s { file = []; sidecar = false })
        (pump (expected_length s.total x.reply) x.reads [])

-- A fresh response that does not have the election's validator.
unfoldable pub changed : Bytes → Exchange → Bool
unfolding validator
changed v x = not (is_empty v) && not (eq_bytes (validator x.reply.etag x.reply.last_modified) v)

-- `completeEmptySingle`.
unfoldable pub complete_empty : Exchange → Staged → Staged × End
complete_empty x s =
    if x.invalidate_fails
    then (s, permanent)
    else if x.truncate_fails
    then (record s { sidecar = false }, permanent)
    else (record s { file = []; sidecar = false }, finished)

-- What follows `checkSingleStatus`.
unfoldable pub use_answer : Bytes → Exchange → Staged → Answer → Staged × End
unfolding complete_empty changed stream
use_answer v x s retry_later = (s, retryable)
use_answer v x s give_up = (s, permanent)
use_answer v x s wrong_range = (s, permanent)
use_answer v x s empty_resource = complete_empty x s
use_answer v x s proceed =
    if x.initial
    then stream x s
    else if changed v x
    then (s, permanent)
    else stream x (record s { total = negsuc 0 })

-- `singleAttempt`; v is the validator of the run.
unfoldable pub single_attempt : Bytes → Exchange → Staged → Staged × End
unfolding check_single_status use_answer
single_attempt v x s =
    if not x.initial && not x.connects
    then (s, retryable)
    else use_answer v x s (check_single_status x.reply x.initial s.total)

abbrev pub is_permanent : End → Bool
is_permanent finished = false
is_permanent permanent = true
is_permanent retryable = false
is_permanent short_body = false
is_permanent blocked = false

-- One round of `singleStream`: what the attempt leaves, ctx.Err() != nil and the sleep's outcome.
pub record Round : Type 0 where
  pub exchange : Exchange
  pub cancelled : Bool
  pub sleep_fails : Bool

pub data StreamEnd : Type 0 where
  complete interrupted failed max_retry running : StreamEnd

abbrev pub is_complete : StreamEnd → Bool
is_complete complete = true
is_complete interrupted = false
is_complete failed = false
is_complete max_retry = false
is_complete running = false

abbrev pub is_running : StreamEnd → Bool
is_running complete = false
is_running interrupted = false
is_running failed = false
is_running max_retry = false
is_running running = true

-- What the loop does with an attempt's end; running goes on.
unfoldable pub after_attempt : ℕ → ℕ → Round → End → StreamEnd
after_attempt max_retries attempt r finished = complete
after_attempt max_retries attempt r e =
    if r.cancelled
    then interrupted
    else if is_permanent e
    then failed
    else if leb max_retries (attempt + 1)
    then max_retry
    else if r.sleep_fails
    then interrupted
    else running

-- `singleStream` from the attempt of that number on.
unfoldable pub single_stream : ℕ → Bytes → ℕ → List Round → Staged → Staged × StreamEnd
unfolding single_attempt after_attempt
single_stream max_retries v attempt [] s = (s, running)
single_stream max_retries v attempt (r ∷ rs) s =
    let a = single_attempt v r.exchange s in
    let rest = single_stream max_retries v (suc attempt) rs a.0 in
    if is_running (after_attempt max_retries attempt r a.1)
    then rest
    else (a.0, after_attempt max_retries attempt r a.1)

-- `single` after the staging file is opened and locked. r.total is the run's, and s the files that the
-- run finds.
unfoldable pub single :
    (Bytes → Bytes)
    → (Bytes → Bytes)
    → (Bytes → Bytes)
    → ℕ
    → Bytes
    → List Round
    → Expected
    → Faults
    → Files
    → Files × Finish
unfolding single_stream verify_and_finalize
single sha256 sha1 md5 max_retries v rounds r f s =
    let (t, e) =
      single_stream max_retries v 0 rounds
        (record { file = s.part; sidecar = s.sidecar; total = r.total }) in
    let staged : Files = record s { part = t.file; sidecar = t.sidecar } in
    if is_complete e
    then verify_and_finalize sha256 sha1 md5 (record r { total = t.total }) f staged
    else (staged, io_error)
