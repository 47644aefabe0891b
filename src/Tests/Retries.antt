-- ===== src/Tests/Retries.antt =====
-- The loop of attempts on concrete errors.
use go_download.Base.{
  ℕ, ◌≤◌, ◌+◌, ◌≡◌, refl, true, false, none, some, List, [], ◌∷◌, arith, sum_by, ap,
}
use go_download.Ladder.{backoff_delay, grown}
use go_download.Retry.{
  goes_on, Attempt, Failure, too_many_requests, transient, node_rotation, range_capped, max_retry,
  failed, new_retry, download_chunk, round, retry, throttle, rotate, charge, admit_rotation,
  try_addrs,
}
use go_download.Retry.Ends.{download_chunk-ends}
use go_download.Retry.Charges.{gives_up, chargeable, download_chunk-gives_up}

abbrev after : ℕ → Failure → Attempt
after progress f = record {
  result = some f;
  cancelled = false;
  progress = progress;
  later_progress = progress;
  sleep_fails = false;
}

-- A rotation to a new address, a capped range, a 429 while the run moves on, and two errors that count.
abbrev hard_chunk : List Attempt
hard_chunk =
    after 10 (node_rotation (7 ∷ []) none)
    ∷ after 20 range_capped
    ∷ after 30 too_many_requests
    ∷ after 30 transient
    ∷ after 30 transient
    ∷ after 30 transient
    ∷ after 30 transient
    ∷ []

hard_chunk_fails : (download_chunk 2 true hard_chunk (new_retry 10 0)).1 ≡ max_retry
unfolding download_chunk round retry throttle rotate charge admit_rotation try_addrs backoff_delay
    grown
hard_chunk_fails = refl

-- A bad certificate surfaces once the address and the refresh are spent.
bad_certificate :
    (download_chunk 9 true
      (after 0 (node_rotation (7 ∷ []) (some 3))
        ∷ after 0 (node_rotation (7 ∷ []) none)
        ∷ after 0 (node_rotation (7 ∷ []) none)
        ∷ [])
      (new_retry 0 0)).1
    ≡ failed 3
unfolding download_chunk round retry throttle rotate charge admit_rotation try_addrs backoff_delay
    grown
bad_certificate = refl

throttled_waits :
    (download_chunk 9 true (after 0 too_many_requests ∷ []) (new_retry 0 4)).0.backoff ≡ 4
unfolding download_chunk round retry throttle rotate charge admit_rotation try_addrs backoff_delay
    grown
throttled_waits = refl

ten : 10 ≤ 10
ten = omega arith

download_chunk-ends_example :
    goes_on
      (download_chunk 2 true
        (after 10 transient ∷ after 10 transient ∷ after 10 transient ∷ after 10 transient ∷ [])
        (new_retry 10 0)).1
    ≡ false
download_chunk-ends_example =
    download_chunk-ends 2 [] 10 true
      (after 10 transient ∷ after 10 transient ∷ after 10 transient ∷ after 10 transient ∷ [])
      (new_retry 10 0) (ten, ten, ten, (ten, ten, ten, (ten, ten, ten, (ten, ten, ten, tt))))
      (tt, (tt, (tt, (tt, tt)))) (omega arith)

download_chunk-gives_up_example : 2 ≤ 0 + sum_by (λ a. chargeable a.result) hard_chunk
download_chunk-gives_up_example =
    download_chunk-gives_up 2 true hard_chunk (new_retry 10 0)
      (ap (λ v. gives_up v) hard_chunk_fails)
