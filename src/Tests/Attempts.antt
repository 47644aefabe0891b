-- ===== src/Tests/Attempts.antt =====
-- Attempts at a chunk of eight bytes, in a pool of two addresses.
use go_download.Base.{
  ◌≤◌, Bytes, ◌≡◌, refl, arith, pos, true, false, some, none, Option, List, [], ◌∷◌, codes,
}
use go_download.Chunk.{Chunk}
use go_download.Ladder.{Ladder}
use go_download.Nodes.{Placement, find_node, has_node}
use go_download.Nodes.Ops.{new_placement, reserve, refresh, release_address}
use go_download.Partial.{Pull, Writing, read_partial_response}
use go_download.Response.{Reply}
use go_download.Single.{eof}
use go_download.Attempt.{Trouble, stalled, Worker, classify, rotation_error, current_address}
use go_download.Attempt.Runs.{Settings, Sent, attempt}
use go_download.Attempt.Parts.{IsTried}
use go_download.Attempt.Writes.{attempt-IsTried}
use go_download.Attempt.Chunks.{Input, Loop, run_chunk, outcomes, try_once, run_chunk-ends}
use go_download.Retry.{new_retry, done, goes_on, range_capped}
use go_download.Attempt.Cooled.{NotAt}
use go_download.Attempt.Rest.{Later, start, followed, rotation_error-rests}
use go_download.Nodes.Exact.{reserves, releases, refreshes}

attempt_defs : Unit {0}
unfolding attempt classify rotation_error current_address find_node new_placement reserve
    read_partial_response
attempt_defs = tt

abbrev timers : Ladder
timers = record { timeout = 30_000_000_000; dtt = 16; attempt = 0 }

abbrev half_done : Chunk
half_done = record { id = 0; owner = 1; off = 8; end = 16; done = 2; written = 2 }

abbrev at_start : Writing
at_start = record { chunk = half_done; log = []; ladder = timers }

-- The body has four bytes, and another worker takes all but three of the chunk's bytes before the second read.
abbrev reads : List Pull
reads =
    (record { bytes = codes "ab"; error = none; spare = 6; write_fails = false })
    ∷ (record { bytes = codes "cd"; error = some eof; spare = 1; write_fails = false })
    ∷ []

abbrev stall : Trouble
stall = record {
  error = 0;
  permanent = false;
  rotation = none;
  certificate = false;
  cause = stalled;
}

abbrev part : Reply
part = record {
  status = 206;
  content_range = codes "bytes 10-13/64";
  content_length = pos 4;
  etag = codes "\"a\"";
  last_modified = [];
}

abbrev answer : Sent
answer = record { remotes = some 7 ∷ []; reply = some part; pulls = reads; trouble = stall }

abbrev settings : Settings
settings = record { timeout = 30_000_000_000; size = 2; total = 64; bound = true; ramp = true }

abbrev pool : Placement
pool = (reserve 5 1 (new_placement (some 7) false (7 ∷ 9 ∷ []))).0

abbrev worker_one : Worker
worker_one = record { id = 1; pool = some pool; client = true; ladder = timers }

three_bytes :
    (attempt settings 5 none answer worker_one at_start).writing.log
    ≡ (10, codes "ab") ∷ (12, codes "c") ∷ []
unfolding attempt_defs
three_bytes = refl

attempt-IsTried_example :
    IsTried 10 16 2 (some part) reads (attempt settings 5 none answer worker_one at_start)
attempt-IsTried_example =
    attempt-IsTried settings 5 none answer worker_one at_start refl (omega arith)

-- A body that goes on beyond its Content-Range is cut there.
abbrev long_reads : List Pull
long_reads = record { bytes = codes "abcdef"; error = none; spare = 6; write_fails = false } ∷ []

four_bytes :
    (attempt settings 5 none (record answer { pulls = long_reads }) worker_one at_start).writing.log
    ≡ (10, codes "abcd") ∷ []
unfolding attempt_defs
four_bytes = refl

abbrev after_failure : Option Placement
after_failure = (rotation_error 5 none pool worker_one).0.pool

abbrev failed_pool : Option Placement → Placement
failed_pool none = pool
failed_pool (some p) = p

holds_seven : current_address 1 pool ≡ some 7
unfolding attempt_defs
holds_seven = refl

pool_left : after_failure ≡ some (failed_pool after_failure)
unfolding attempt_defs
pool_left = refl

-- Worker 2 reserves the other address and gives it back, and a refresh names both.
abbrev pool_between : Placement
pool_between = refresh (7 ∷ 9 ∷ []) (release_address 2 (reserve 6 2 (failed_pool after_failure)).0)

pool_steps : Later 5 (failed_pool after_failure) pool_between
pool_steps =
    followed (followed (followed start (reserves 6 2) tt) (releases 2) tt) (refreshes (7 ∷ 9 ∷ []))
      tt

seven_known : has_node (some 7) pool.by_addr ≡ true
unfolding attempt_defs
seven_known = refl

worker_two : current_address 2 pool_between ≡ none
unfolding attempt_defs refresh release_address
worker_two = refl

rotation_error-rests_example : NotAt 7 (reserve 1_000_000_000 2 pool_between).1
rotation_error-rests_example =
    rotation_error-rests 5 1_000_000_000 2 7 none pool (failed_pool after_failure) pool_between
      worker_one holds_seven seven_known pool_left pool_steps (omega arith) worker_two

-- A chunk with two bytes left: an attempt that is cut off by the response's end, one that goes on behind it,
-- and what would come after.
abbrev nearly_done : Writing
nearly_done = record at_start { chunk = record half_done { end = 12 } }

abbrev one_byte : Bytes → Bytes → Input
one_byte header bytes = record {
  now = 5;
  initial = none;
  sent = record answer {
    reply = some (record part { content_range = header });
    pulls = record { bytes = bytes; error = some eof; spare = 6; write_fails = false } ∷ [];
  };
  spare = 6;
  cancelled = false;
  progress = 4;
  later_progress = 4;
  sleep_fails = false;
}

abbrev last_bytes : List Input
last_bytes =
    one_byte (codes "bytes 10-10/64") (codes "a")
    ∷ one_byte (codes "bytes 11-11/64") (codes "b")
    ∷ one_byte [] []
    ∷ one_byte [] []
    ∷ []

abbrev loop_start : Loop
loop_start = record { worker = worker_one; writing = nearly_done; retry = new_retry 4 0 }

capped_first :
    (try_once settings
      (one_byte (codes "bytes 10-10/64") (codes "a"))
      worker_one
      nearly_done).failure
    ≡ some range_capped
unfolding attempt_defs
capped_first = refl

chunk_done : (run_chunk settings 0 true last_bytes loop_start).1 ≡ done
unfolding attempt_defs run_chunk
chunk_done = refl

four : 4 ≤ 4
four = omega arith

run_chunk-ends_example : goes_on (run_chunk settings 0 true last_bytes loop_start).1 ≡ false
unfolding attempt_defs outcomes
run_chunk-ends_example =
    run_chunk-ends 0 [] 4 settings true last_bytes loop_start (omega arith)
      (four, four, four, (four, four, four, (four, four, four, (four, four, four, tt))))
      (tt, (tt, (tt, (tt, tt)))) (omega arith)
