-- ===== src/Tests/LockRuns.antt =====
-- Three callers of the lock registry: two of one destination, and one of another.
use go_download.Base.{◌+◌, ◌≤◌, ◌≡◌, refl, true, bit, List, [], ◌∷◌, ◌++◌, some, sum_by, All}
use go_download.Locks.{
  Entry, lookup, find_entry, update_entry, waiting, holding, Caller, Locks, ref_destination,
  in_phase, take_token, drop_ref, refers, takes, gives_up, Reach, here, next_step, no_locks,
}
use go_download.Locks.Steps.{holds_entry}
use go_download.Locks.Exclusion.{holds_key, Reach-holds_key, Reach-token}

lock_defs : Unit {0}
unfolding ref_destination lookup find_entry update_entry
lock_defs = tt

abbrev asked : Locks
asked = ref_destination 5 (ref_destination 9 (ref_destination 5 no_locks))

abbrev first_caller : Caller
first_caller = record { key = 5; entry = 0; phase = waiting }

abbrev others : List Caller
others =
    (record { key = 5; entry = 0; phase = waiting })
    ∷ (record { key = 9; entry = 1; phase = waiting })
    ∷ []

abbrev shared_entry : Entry
shared_entry = record { id = 0; key = 5; token = true; refs = 2; mapped = true }

asked_callers : asked.callers ≡ others ++ (first_caller ∷ [])
unfolding lock_defs
asked_callers = refl

asked_found : find_entry 0 asked.heap ≡ some shared_entry
unfolding lock_defs
asked_found = refl

asked_reached : Reach no_locks asked
asked_reached =
    next_step
      (next_step (next_step here (refers 5 no_locks)) (refers 9 (ref_destination 5 no_locks)))
      (refers 5 (ref_destination 9 (ref_destination 5 no_locks)))

abbrev owned : Locks
owned = record asked {
  heap = update_entry 0 take_token asked.heap;
  callers = others ++ (in_phase holding first_caller ∷ []);
}

owned_reached : Reach no_locks owned
owned_reached =
    next_step asked_reached
      (takes others [] first_caller asked shared_entry asked_callers refl asked_found refl)

owned_once : sum_by (holds_key 5) owned.callers ≡ 1
owned_once = refl

-- The other caller of the destination gives up, and the owner unlocks.
abbrev alone : Locks
alone = record owned {
  heap = update_entry 0 drop_ref owned.heap;
  callers = (record { key = 9; entry = 1; phase = waiting }) ∷ in_phase holding first_caller ∷ [];
}

alone_reached : Reach no_locks alone
alone_reached = next_step owned_reached (
    gives_up []
      ((record { key = 9; entry = 1; phase = waiting }) ∷ in_phase holding first_caller ∷ [])
      (record { key = 5; entry = 0; phase = waiting }) owned refl refl)

Reach-holds_key_example : sum_by (holds_key 5) owned.callers ≤ 1
Reach-holds_key_example = Reach-holds_key 5 owned_reached

Reach-token_example :
    All
      (λ c.
        (e : Entry) × (find_entry c.entry owned.heap ≡ some e)
        × (bit e.token + sum_by (holds_entry c.entry) owned.callers ≡ 1))
      owned.callers
Reach-token_example = Reach-token owned_reached
