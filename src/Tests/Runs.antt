-- ===== src/Tests/Runs.antt =====
-- Two small runs, and the scheduler's theorems applied to the states that they reach.
use go_download.Base.{
  ℕ, ◌+◌, ◌-◌, ◌/◌, ◌^◌, ◌≤◌, ◌<◌, ◌≡◌, ◌≢◌, ◌⊎◌, refl, int64, pos, [], ◌∷◌, none, some, true,
  false, arith, bit, ltb, sum_by, length, leb_ℤ,
}
use go_download.Chunk.{Chunk, find, update, largest, leftover, lower_half}
use go_download.Chunk.Largest.{IsLargest}
use go_download.State.{StateFile, load_state, state_version}
use go_download.State.Order.{state_holds}
use go_download.Sched.{
  Sched, new_scheduler, add_pending, prepare, next, demote, claim_active, remaining_bytes, snapshot,
  complete, seed_fresh, twice_min,
}
use go_download.Sched.Invariant.{Inv}
use go_download.Sched.Prepare.{prepare_grants}
use go_download.Sched.Bytes.{left, remaining_bytes_conserved}
use go_download.Sched.Sizes.{stolen_sizes, next_overflow}
use go_download.System.{System, hands_out, demotes, Reach, here, next_step, commit, start_fresh}
use go_download.System.Inv.{Reach-IsSound}
use go_download.System.Coverage.{snapshot_exact, active_apart, start_fresh-IsSound}
use go_download.System.Exits.{leave, finished, leave-finished}
use go_download.System.Sidecar.{unclaimed_retired_refused}

-- Names for what a run computes with.
run_defs : Unit {0}
unfolding start_fresh prepare next demote find update largest new_scheduler add_pending seed_fresh
    int64 claim_active complete commit
run_defs = tt

-- Eight bytes in two ranges, for workers 0 and 1; then worker 1 is retired before it claims a byte.
abbrev fresh : System
fresh = start_fresh 8 1 2

abbrev one_granted : System
one_granted = record fresh { sched = (next 0 fresh.sched).0 }

abbrev both_granted : System
both_granted = record one_granted { sched = (next 1 one_granted.sched).0 }

abbrev demoted : System
demoted = record both_granted { sched = (demote 1 both_granted.sched).0 }

both_granted_reached : Reach fresh both_granted
both_granted_reached = next_step (next_step here (hands_out 0 fresh)) (hands_out 1 one_granted)

demoted_reached : Reach fresh demoted
demoted_reached = next_step both_granted_reached (demotes 1 both_granted)

abbrev retired_chunk : Chunk
retired_chunk = record { id = 1; owner = 1; off = 4; end = 4; done = 0; written = 0 }

retired_found : find 1 demoted.sched.active ≡ some retired_chunk
unfolding run_defs
retired_found = refl

demoted_snapshot :
    snapshot demoted.sched
    ≡ record { off = pos 4; end = pos 8; done = pos 0 }
      ∷ record { off = pos 4; end = pos 4; done = pos 0 }
      ∷ record { off = pos 0; end = pos 4; done = pos 0 }
      ∷ []
unfolding run_defs snapshot
demoted_snapshot = refl

leave-finished_example :
    ((leave true true false retired_chunk demoted).1 ≡ finished)
    × Reach fresh (leave true true false retired_chunk demoted).0
unfolding run_defs
leave-finished_example =
    leave-finished 8 1 2 demoted 1 retired_chunk true demoted_reached retired_found refl refl

unclaimed_sidecar : StateFile
unclaimed_sidecar = record {
  version = state_version;
  source_id = [];
  size = pos 8;
  etag = [];
  last_modified = [];
  chunks = snapshot demoted.sched;
}

unclaimed_retired_refused_example : load_state unclaimed_sidecar ≡ none
unfolding run_defs unclaimed_sidecar
unclaimed_retired_refused_example =
    unclaimed_retired_refused 8 1 2 demoted 1 retired_chunk unclaimed_sidecar demoted_reached
      retired_found refl refl refl

abbrev first_half : Chunk
first_half = record { id = 0; owner = 0; off = 0; end = 4; done = 0; written = 0 }

abbrev second_half : Chunk
second_half = record { id = 1; owner = 1; off = 4; end = 8; done = 0; written = 0 }

active_apart_example : ¬ ((second_half.off ≤ 2) × (2 < second_half.end))
unfolding run_defs
active_apart_example =
    active_apart 0 1 first_half second_half (start_fresh-IsSound 8 1 2) both_granted_reached
      (λ e. absurd (omega arith)) refl refl 2 (omega arith) (omega arith)

both_granted-Inv : Inv 8 both_granted.disk both_granted.sched
both_granted-Inv = Reach-IsSound (start_fresh-IsSound 8 1 2) both_granted_reached

remaining_bytes_conserved_example :
    (remaining_bytes (next 1 both_granted.sched).0 ≡ remaining_bytes both_granted.sched)
    × (remaining_bytes (demote 1 both_granted.sched).0 ≡ remaining_bytes both_granted.sched)
    × (remaining_bytes (prepare 1 both_granted.sched).0 ≡ remaining_bytes both_granted.sched)
remaining_bytes_conserved_example = remaining_bytes_conserved 1 both_granted-Inv

snapshot_exact_example :
    sum_by (state_holds 5) (snapshot demoted.sched) + bit (demoted.disk 5) ≡ bit (ltb 5 8)
snapshot_exact_example = snapshot_exact (start_fresh-IsSound 8 1 2) demoted_reached 5

-- A third worker, with nothing pending, takes half of a largest remainder.
stolen_sizes_example :
    (v : Chunk) × (find v.id both_granted.sched.active ≡ some v)
    × IsLargest v both_granted.sched.active
    × ((next 2 both_granted.sched).0.active
        ≡ record { id = 2; owner = 2; off = 6; end = 8; done = 0; written = 0 }
          ∷ update v.id lower_half both_granted.sched.active)
    × (6 ≡ v.off + v.done + (v.end - (v.off + v.done)) / 2)
    × ((lower_half v).end ≡ 6)
    × (8 ≡ v.end)
    × ((◌≡◌ {A = ℕ} 0 0) × (◌≡◌ {A = ℕ} 2 2))
    × (both_granted.sched.min_size ≤ left (lower_half v))
    × (both_granted.sched.min_size ≤ 2)
    × (left (lower_half v) + 2 ≡ left v)
unfolding run_defs
stolen_sizes_example = stolen_sizes 2 both_granted-Inv (omega arith) refl refl

abbrev never_split : System
never_split = start_fresh 8 (2 ^ 63 - 1) 1

abbrev never_split_granted : Sched
never_split_granted = (next 0 never_split.sched).0

next_overflow_example : (next 1 never_split_granted).1 ≢ none
unfolding run_defs
next_overflow_example =
    next_overflow 1
      (Reach-IsSound (start_fresh-IsSound 8 (2 ^ 63 - 1) 1)
        (next_step here (hands_out 0 never_split)))
      (omega arith) (omega arith) (omega arith) refl

prepare_grants_example :
    let (t, k) = prepare 3 (seed_fresh 8 (new_scheduler 2)) in
    (1 ≤ k)
    × (k ≤ 3)
    × (k ≤ length t.pending)
    × ((k ≡ 3)
        ⊎ ((c : Chunk) × (largest t.pending ≡ some c) × (leb_ℤ (twice_min t) (leftover c) ≡ false)))
unfolding run_defs
prepare_grants_example =
    prepare_grants 3 (seed_fresh 8 (new_scheduler 2)) (omega arith) (omega arith)
