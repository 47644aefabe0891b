-- ===== src/Attempt/Chunks.antt =====
-- worker.go: downloadChunk over attempt itself. The list has what comes to each attempt in turn.
use go_download.Base.{
  ℕ, suc, ◌-◌, ◌≤◌, ◌<◌, bit, min, sum_by, length, All, true, false, none, some, arith, ap, ◌∙◌,
  ◌+◌, ◌≡◌, refl, Bool, if◌then◌else◌, Option, List, [], ◌∷◌, Bool-cases, inl, inr,
}
use go_download.Chunk.{position}
use go_download.Partial.{Writing}
use go_download.Attempt.Capped.{ends_capped}
use go_download.Attempt.Writes.{attempt-IsTried}
use go_download.Retry.Ends.{uncharged, fuel, Rises, Within, download_chunk-ends}
use go_download.Retry.{
  permanent, range_capped, slow_node, too_many_requests, transient, node_rotation, Failure, Attempt,
  Retry, Verdict, again, goes_on, round, download_chunk,
}
use go_download.Attempt.{Worker}
use go_download.Attempt.Runs.{Settings, Sent, Tried, Initial, attempt}

-- The time, the election's response if it is still there, what comes back, and what the loop reads after
-- the attempt; `spare` is what the other workers have left of the chunk when the attempt starts.
pub record Input : Type 0 where
  pub now : ℕ
  pub initial : Option Initial
  pub sent : Sent
  pub spare : ℕ
  pub cancelled : Bool
  pub progress : ℕ
  pub later_progress : ℕ
  pub sleep_fails : Bool

-- The worker, its writes to the chunk and the variables of the loop.
pub record Loop : Type 0 where
  pub worker : Worker
  pub writing : Writing
  pub retry : Retry

-- Other workers only ever lower the chunk's end.
abbrev pub next_writing : ℕ → Writing → Writing
next_writing spare s = record s {
  chunk = record s.chunk { end = min s.chunk.end (position s.chunk + spare) };
  log = [];
}

abbrev pub try_once : Settings → Input → Worker → Writing → Tried
try_once c i w s = attempt c i.now i.initial i.sent w (next_writing i.spare s)

abbrev pub outcome : Input → Tried → Attempt
outcome i x = record {
  result = x.failure;
  cancelled = i.cancelled;
  progress = i.progress;
  later_progress = i.later_progress;
  sleep_fails = i.sleep_fails;
}

-- `downloadChunk`: the attempts and the loop around them; `placed` is place != nil.
unfoldable pub run_chunk : Settings → ℕ → Bool → List Input → Loop → Loop × Verdict
unfolding attempt round
run_chunk c max_retries placed [] l = (l, again)
run_chunk c max_retries placed (i ∷ rest) l =
    let x = try_once c i l.worker l.writing in
    let r = round max_retries placed (outcome i x) l.retry in
    let next : Loop = record { worker = x.worker; writing = x.writing; retry = r.0 } in
    let later = run_chunk c max_retries placed rest next in
    if goes_on r.1 then later else (next, r.1)

-- What the attempts return, one after the other.
unfoldable pub outcomes : Settings → List Input → Worker → Writing → List Attempt
unfolding attempt
outcomes c [] w s = []
outcomes c (i ∷ rest) w s =
    let x = try_once c i w s in outcome i x ∷ outcomes c rest x.worker x.writing

abbrev pub loop_result : Loop × Verdict → Retry × Verdict
loop_result (l, v) = (l.retry, v)

-- The loop over real attempts, as the loop of Retry on what these attempts return.
run_chunk-download_chunk :
    (c : Settings) (max_retries : ℕ) (placed : Bool) (inputs : List Input) (l : Loop)
    → loop_result (run_chunk c max_retries placed inputs l)
      ≡ download_chunk max_retries placed (outcomes c inputs l.worker l.writing) l.retry
unfolding run_chunk outcomes download_chunk
run_chunk-download_chunk c max_retries placed [] l = refl
run_chunk-download_chunk c max_retries placed (i ∷ rest) l =
    let x = try_once c i l.worker l.writing in
    let r = round max_retries placed (outcome i x) l.retry in
    elim (Bool-cases (goes_on r.1)) [
      | inl e ↦
          simp (e, run_chunk, download_chunk)
            (run_chunk-download_chunk c max_retries placed rest
              (record { worker = x.worker; writing = x.writing; retry = r.0 }))
      | inr e ↦ simp (e, run_chunk, download_chunk) refl
    ]

-- An attempt that a cull of its address has cut off.
abbrev pub is_slow : Option Failure → ℕ
is_slow none = 0
is_slow (some (permanent c)) = 0
is_slow (some range_capped) = 0
is_slow (some slow_node) = 1
is_slow (some too_many_requests) = 0
is_slow (some transient) = 0
is_slow (some (node_rotation addrs cause)) = 0

uncharged-split : (o : Option Failure) → uncharged o ≤ is_slow o + bit (ends_capped o)
uncharged-split none = omega arith
uncharged-split (some (permanent c)) = omega arith
uncharged-split (some range_capped) = omega arith
uncharged-split (some slow_node) = omega arith
uncharged-split (some too_many_requests) = omega arith
uncharged-split (some transient) = omega arith
uncharged-split (some (node_rotation addrs cause)) = omega arith

capped-moves : (b : Bool) {m n : ℕ} → m ≤ n → (b ≡ true → m < n) → bit b + m ≤ n
capped-moves true h k = omega (arith, k refl)
capped-moves false h k = omega (arith, h)

-- Each capped range costs a byte of what the chunk has left.
outcomes-uncharged :
    (c : Settings) (inputs : List Input) (w : Worker) (s : Writing)
    → position s.chunk ≤ s.chunk.end
    → sum_by (λ a. uncharged a.result) (outcomes c inputs w s) + position s.chunk
      ≤ s.chunk.end + sum_by (λ a. is_slow a.result) (outcomes c inputs w s)
unfolding outcomes
outcomes-uncharged c [] w s h = omega (arith, h)
outcomes-uncharged c (i ∷ rest) w s h =
    let begun = next_writing i.spare s in
    let x = try_once c i w s in
    let t = attempt-IsTried c i.now i.initial i.sent w begun refl (ground (arith, h)) in
    let later = outcomes-uncharged c rest x.worker x.writing t.right.within in
    let moved = capped-moves (ends_capped x.failure) t.right.from t.moved in
    let few : begun.chunk.end ≤ s.chunk.end = ground arith in
    omega (arith, later, moved, few, t.right.within, t.right.shrinks, uncharged-split x.failure)

length-outcomes :
    (c : Settings) (inputs : List Input) (w : Worker) (s : Writing)
    → length (outcomes c inputs w s) ≡ length inputs
unfolding outcomes
length-outcomes c [] w s = refl
length-outcomes c (i ∷ rest) w s =
    let x = try_once c i w s in ap (λ n. suc n) (length-outcomes c rest x.worker x.writing)

-- The download of a chunk is over, with a result, before it has used more attempts than the retry budget, one
-- for each address that a rotation can try, one for a refresh, one for each byte of progress, one for each
-- byte that the chunk has left and one for each attempt that a cull cuts off: errRangeCapped, which is
-- retried without a charge, cannot go on for ever, since every capped response has moved the cursor. The
-- bytes of the run only rise, up to `total`, and the rotations only try addresses of the list u.
pub run_chunk-ends :
    (max_retries : ℕ) (u : List ℕ) (total : ℕ) (c : Settings) (placed : Bool) (inputs : List Input)
    (l : Loop)
    → position l.writing.chunk ≤ l.writing.chunk.end
    → Rises l.retry.charged_at total (outcomes c inputs l.worker l.writing)
    → All (λ a. Within u a.result) (outcomes c inputs l.worker l.writing)
    → fuel max_retries u total l.retry
        + (l.writing.chunk.end - position l.writing.chunk)
        + sum_by (λ a. is_slow a.result) (outcomes c inputs l.worker l.writing)
      < length inputs
    → goes_on (run_chunk c max_retries placed inputs l).1 ≡ false
run_chunk-ends max_retries u total c placed inputs l h g w enough =
    let es = outcomes c inputs l.worker l.writing in
    ap (λ x. goes_on x.1) (run_chunk-download_chunk c max_retries placed inputs l)
    ∙ download_chunk-ends max_retries u total placed es l.retry g w (
        omega (
          arith,
          enough,
          h,
          outcomes-uncharged c inputs l.worker l.writing h,
          length-outcomes c inputs l.worker l.writing,
        ))
