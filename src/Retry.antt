-- ===== src/Retry.antt =====
-- worker.go: downloadChunk, the loop of attempts at one chunk, and rotationBudget. An attempt is given
-- by what the loop sees of it: its error and what it reads after it.
pub mod Rotations
pub mod Ends
pub mod Charges
use go_download.Base.{
  ℕ, suc, ◌+◌, Bool, true, false, ◌&&◌, not, ltb, leb, if◌then◌else◌, Option, none, some, List, [],
  ◌∷◌, contains,
}
use go_download.Ladder.{backoff_delay}

-- The errors that the loop tells apart. The chain of an error has at most one of the sentinels. A
-- permanent cause is a number. An address failure has the addresses that failed and the permanent
-- cause that it retains, if any.
pub data Failure : Type 0 where
  permanent : ℕ → Failure
  range_capped slow_node too_many_requests transient : Failure
  node_rotation : List ℕ → Option ℕ → Failure

-- `result` is none for an attempt without an error, `cancelled` is ctx.Err() != nil, `progress` the bytes of
-- the whole run when a 429 asks for them, `later_progress` those when the attempt is charged, `sleep_fails`
-- what a sleep after the attempt returns.
pub record Attempt : Type 0 where
  pub result : Option Failure
  pub cancelled : Bool
  pub progress : ℕ
  pub later_progress : ℕ
  pub sleep_fails : Bool

pub record RotationBudget : Type 0 where
  pub tried : List ℕ
  pub refreshed : Bool
  pub retained : Option ℕ

-- The loop over r.addrs: whether one of them is new, and all that are tried now.
unfoldable pub try_addrs : List ℕ → List ℕ → Bool × List ℕ
try_addrs [] tried = (false, tried)
try_addrs (a ∷ rest) tried =
    let (free, all) = try_addrs rest (if contains tried a then tried else a ∷ tried) in
    (if contains tried a then free else true, all)

abbrev pub retain : Option ℕ → Option ℕ → Option ℕ
retain none old = old
retain (some c) old = some c

-- `rotationBudget.admit`; `placed` is place != nil.
unfoldable pub admit_rotation :
    Bool → List ℕ → Option ℕ → RotationBudget → RotationBudget × (Bool × Option ℕ)
unfolding try_addrs
admit_rotation placed addrs cause b =
    let (free, tried) = try_addrs addrs b.tried in
    let c : RotationBudget = record {
      tried = tried;
      refreshed = b.refreshed;
      retained = retain cause b.retained;
    } in
    if free
    then (c, (true, none))
    else if not b.refreshed && placed
    then (record c { refreshed = true }, (true, none))
    else (c, (false, c.retained))

-- The variables of the loop, and the worker's backoff.
pub record Retry : Type 0 where
  pub attempt : ℕ
  pub rotations : RotationBudget
  pub charged_at : ℕ
  pub backoff : ℕ

pub data Verdict : Type 0 where
  done interrupted max_retry again : Verdict
  failed : ℕ → Verdict
  waits : ℕ → Verdict

abbrev pub one_second : ℕ
one_second = 1_000_000_000

-- A sleep that ends the loop if it fails.
abbrev pub sleep : Bool → ℕ → Verdict
sleep true d = interrupted
sleep false d = waits d

-- From `chargedAt = w.r.progress.Load()` on.
unfoldable pub charge : ℕ → Bool → Attempt → Retry → Retry × Verdict
unfolding backoff_delay
charge max_retries throttled a s =
    let t : Retry = record s { charged_at = a.later_progress; attempt = suc s.attempt } in
    if leb max_retries t.attempt
    then (t, max_retry)
    else if throttled
    then (t, sleep a.sleep_fails one_second)
    else (record t { backoff = suc s.backoff }, sleep a.sleep_fails (backoff_delay s.backoff))

-- A 429 is free while the run makes progress.
unfoldable pub throttle : ℕ → Attempt → Retry → Retry × Verdict
unfolding charge
throttle max_retries a s =
    if ltb s.charged_at a.progress
    then (record s { charged_at = a.progress }, sleep a.sleep_fails one_second)
    else charge max_retries true a s

unfoldable pub rotate : ℕ → Bool → List ℕ → Option ℕ → Attempt → Retry → Retry × Verdict
unfolding admit_rotation charge
rotate max_retries placed addrs cause a s =
    let (b, (free, perm)) = admit_rotation placed addrs cause s.rotations in
    let t : Retry = record s { rotations = b } in
    elim perm [
      | some c ↦ (t, failed c)
      | none ↦ if free then (t, again) else charge max_retries false a t
    ]

-- What follows an error that is not permanent, in a context that is not cancelled.
unfoldable pub retry : ℕ → Bool → Failure → Attempt → Retry → Retry × Verdict
unfolding throttle rotate charge
retry max_retries placed (permanent c) a s = (s, failed c)
retry max_retries placed range_capped a s = (s, again)
retry max_retries placed slow_node a s = (s, again)
retry max_retries placed too_many_requests a s = throttle max_retries a s
retry max_retries placed transient a s = charge max_retries false a s
retry max_retries placed (node_rotation addrs cause) a s = rotate max_retries placed addrs cause a s

abbrev pub is_permanent : Failure → Bool
is_permanent (permanent c) = true
is_permanent range_capped = false
is_permanent slow_node = false
is_permanent too_many_requests = false
is_permanent transient = false
is_permanent (node_rotation addrs cause) = false

-- One round of the loop.
unfoldable pub round : ℕ → Bool → Attempt → Retry → Retry × Verdict
unfolding retry
round max_retries placed a s = elim a.result [
  | none ↦ (record s { backoff = 0 }, done)
  | some f ↦
      if not (is_permanent f) && a.cancelled
      then (s, interrupted)
      else retry max_retries placed f a s
]

abbrev pub goes_on : Verdict → Bool
goes_on done = false
goes_on interrupted = false
goes_on max_retry = false
goes_on again = true
goes_on (failed c) = false
goes_on (waits d) = true

-- `downloadChunk` on the attempts to come, up to the end of the list: the state and the last verdict.
unfoldable pub download_chunk : ℕ → Bool → List Attempt → Retry → Retry × Verdict
unfolding round
download_chunk max_retries placed [] s = (s, again)
download_chunk max_retries placed (a ∷ rest) s =
    let r = round max_retries placed a s in
    let later = download_chunk max_retries placed rest r.0 in if goes_on r.1 then later else r

abbrev pub new_retry : ℕ → ℕ → Retry
new_retry progress backoff = record {
  attempt = 0;
  rotations = record { tried = []; refreshed = false; retained = none };
  charged_at = progress;
  backoff = backoff;
}
