-- ===== src/Tests/Transfers.antt =====
-- One worker downloads a file of three bytes, and a run resumes from its sidecar.
use go_download.Base.{
  ◌-ℤ◌, suc, if◌then◌else◌, ◌-ℤ◌, ℕ, int64, ◌+◌, ◌≡◌, refl, pos, List, [], ◌∷◌, some, true, false,
  inl, arith, leb, min,
}
use go_download.Chunk.{Chunk, claim, find, update, remove, largest}
use go_download.State.{StateFile, load_state, state_version}
use go_download.State.Order.{IsResumable, load_state-IsResumable}
use go_download.Sched.{
  new_scheduler, add_pending, prepare, next, claim_active, snapshot, complete, idle, seed,
  seed_fresh,
}
use go_download.Sched.Seed.{saved}
use go_download.Sched.Bytes.{left}
use go_download.System.Sink.{chunk_sink_lem}
use go_download.System.{
  is_drained, System, hands_out, claims, writes, completes, Reach, here, next_step, commit,
  start_fresh, start_resumed, chunk_sink, goes_on, chunk_done,
}
use go_download.System.Inv.{Reach-IsSound}
use go_download.System.Coverage.{
  fresh_run_complete, resumed_run_complete, claimed_unwritten, start_fresh-IsSound,
}
use go_download.System.Sidecar.{save_load_roundtrip, IsSavedBy}

transfer_defs : Unit {0}
unfolding start_fresh prepare next find update remove largest new_scheduler add_pending seed
    seed_fresh int64 claim_active claim complete commit start_resumed idle ◌-ℤ◌
transfer_defs = tt

abbrev begun : System
begun = start_fresh 3 1 1

abbrev granted : System
granted = record begun { sched = (next 0 begun.sched).0 }

-- The state after a claim of n bytes of chunk 0 by worker 0, and after their write.
abbrev chunk : ℕ → ℕ → Chunk
chunk done written = record { id = 0; owner = 0; off = 0; end = 3; done = done; written = written }

abbrev with_chunk : Chunk → System → System
with_chunk c t = record t { sched = record t.sched { active = c ∷ [] } }

abbrev claimed : System
claimed = with_chunk (chunk 2 0) granted

abbrev written : System
written = commit 0 0 2 claimed

abbrev claimed_all : System
claimed_all = record written { sched = record granted.sched { active = chunk 3 2 ∷ [] } }

abbrev written_all : System
written_all = commit 0 2 1 claimed_all

abbrev finished : System
finished = record written_all { sched = complete 0 written_all.sched }

granted_reached : Reach begun granted
granted_reached = next_step here (hands_out 0 begun)

claimed_reached : Reach begun claimed
unfolding transfer_defs
claimed_reached = next_step granted_reached (
    claims 0 2 (chunk 0 0) claimed.sched (record { offset = 0; write = pos 2; stop = false })
      granted refl refl refl)

written_reached : Reach begun written
unfolding transfer_defs
written_reached = next_step claimed_reached (writes 0 (chunk 2 0) claimed refl)

claimed_all_reached : Reach begun claimed_all
unfolding transfer_defs
claimed_all_reached = next_step written_reached (
    claims 0 9 (chunk 2 2) claimed_all.sched (record { offset = 2; write = pos 1; stop = true })
      written refl refl refl)

finished_reached : Reach begun finished
unfolding transfer_defs
finished_reached =
    next_step (next_step claimed_all_reached (writes 0 (chunk 3 2) claimed_all refl))
      (completes 0 (chunk 3 3) written_all refl refl)

fresh_run_complete_example : finished.disk 2 ≡ true
unfolding transfer_defs
fresh_run_complete_example = fresh_run_complete 3 1 1 finished finished_reached refl 2 (omega arith)

claimed_unwritten_example : claimed.disk 1 ≡ false
unfolding transfer_defs
claimed_unwritten_example =
    claimed_unwritten 0 (chunk 2 0) (start_fresh-IsSound 3 1 1) claimed_reached refl 1 (omega arith)
      (omega arith)

chunk_sink_lem_example :
    (u : System) × (d : Chunk) × (chunk_sink 0 9 false written
      ≡ some (u, if leb (left (chunk 2 2)) 9 then chunk_done else goes_on))
    × Reach written u
    × (find 0 u.sched.active ≡ some d)
    × (d ≡ chunk (2 + min 9 (left (chunk 2 2))) (2 + min 9 (left (chunk 2 2))))
    × (is_drained d ≡ leb (left (chunk 2 2)) 9)
unfolding transfer_defs
chunk_sink_lem_example =
    chunk_sink_lem (Reach-IsSound (start_fresh-IsSound 3 1 1) written_reached) 0 9 (chunk 2 2) refl
      refl (omega arith)

abbrev zeros : ℕ → List ℕ
zeros ℕ.zero = []
zeros (suc n) = 0 ∷ zeros n

-- The sidecar that is saved after the first write.
abbrev sidecar : StateFile
sidecar = record {
  version = state_version;
  source_id = zeros 64;
  size = pos 3;
  etag = b'"' ∷ b'"' ∷ [];
  last_modified = [];
  chunks = record { off = pos 0; end = pos 3; done = pos 2 } ∷ [];
}

sidecar-IsSavedBy : IsSavedBy 3 written.sched sidecar
unfolding transfer_defs snapshot
sidecar-IsSavedBy = record {
  version = refl;
  source_id = refl;
  size_is = refl;
  validated = inl (λ e. absurd (omega arith));
  chunks = refl;
}

save_load_roundtrip_example :
    (load_state sidecar ≡ some sidecar) × (saved sidecar 1 ≡ written.disk 1)
unfolding transfer_defs
save_load_roundtrip_example =
    save_load_roundtrip 2 sidecar (start_fresh-IsSound 3 1 1) written_reached tt (omega arith, tt)
      sidecar-IsSavedBy 1

sidecar-loaded : load_state sidecar ≡ some sidecar
unfolding load_state ◌-ℤ◌
sidecar-loaded = refl

sidecar-IsResumable : IsResumable sidecar
sidecar-IsResumable = (load_state-IsResumable sidecar sidecar sidecar-loaded).1

load_state-IsResumable_example : (sidecar ≡ sidecar) × IsResumable sidecar
load_state-IsResumable_example = load_state-IsResumable sidecar sidecar sidecar-loaded

abbrev resumed : System
resumed = start_resumed sidecar (saved sidecar) 1 1

abbrev resumed_granted : System
resumed_granted = record resumed { sched = (next 0 resumed.sched).0 }

abbrev resumed_claimed : System
resumed_claimed = with_chunk (chunk 3 2) resumed_granted

abbrev resumed_written : System
resumed_written = commit 0 2 1 resumed_claimed

abbrev resumed_finished : System
resumed_finished = record resumed_written { sched = complete 0 resumed_written.sched }

resumed_reached : Reach resumed resumed_finished
unfolding transfer_defs
resumed_reached =
    next_step
      (next_step
        (next_step (next_step here (hands_out 0 resumed)) (
          claims 0 9 (chunk 2 2) resumed_claimed.sched
            (record { offset = 2; write = pos 1; stop = true }) resumed_granted refl refl refl))
        (writes 0 (chunk 3 2) resumed_claimed refl))
      (completes 0 (chunk 3 3) resumed_written refl refl)

resumed_run_complete_example : resumed_finished.disk 0 ≡ true
unfolding transfer_defs
resumed_run_complete_example =
    resumed_run_complete sidecar 1 1 resumed_finished sidecar-IsResumable resumed_reached refl 0
      (omega arith)
