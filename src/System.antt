-- ===== src/System.antt =====
-- The workers' side of the scheduler (worker.go: chunkSink and the end of run and downloadChunk) and
-- every interleaving of the workers, the ramp and the runtime's map order. `disk b` says that a
-- WriteAt which covered byte b has returned and has been counted in `written`.
pub mod Inv
pub mod Coverage
pub mod Retired
pub mod Exits
pub mod Sidecar
pub mod Sink
use go_download.Base.{
  ℕ, ◌+◌, ◌-◌, ◌≡◌, Bool, true, false, leb, ltb, ◌==◌, ◌&&◌, ◌||◌, not, if◌then◌else◌, ℤ, pos, List,
  ◌++◌, ◌∷◌, [], Option, none, some, ltb_ℤ, shift, pos_part,
}
use go_download.Chunk.{Chunk, Claimed, find, update, cursor}
use go_download.State.{StateFile}
use go_download.Sched.{
  new_scheduler, seed, seed_fresh, prepare, Sched, next, exit, demote, claim_active, complete,
}

pub record System : Type 0 where
  pub sched : Sched
  pub disk : ℕ → Bool

-- The bytes of [from, to) are written.
abbrev pub mark : ℕ → ℕ → (ℕ → Bool) → ℕ → Bool
mark from to disk b = (leb from b && ltb b to) || disk b

-- c.written.Add(n), through the owner's pointer.
unfoldable pub add_written : ℕ → ℕ → Sched → Sched
add_written i n s = record s {
  active = update i (λ c. record c { written = c.written + n }) s.active;
}

-- WriteAt of n bytes at the claimed offset, and the count of it.
unfoldable pub commit : ℕ → ℕ → ℕ → System → System
unfolding add_written
commit i offset n t = record {
  sched = add_written i n t.sched;
  disk = mark offset (offset + n) t.disk;
}

pub data Outcome : Type 0 where
  goes_on chunk_done write_failed : Outcome

-- `chunkSink` for a read of n bytes. `fails` is the outcome of WriteAt.
unfoldable pub chunk_sink : ℕ → ℕ → Bool → System → Option (System × Outcome)
unfolding commit
chunk_sink i n fails t =
    if n == 0
    then some (t, goes_on)
    else elim (claim_active i n t.sched) [ none ↦ none | some (s, r) ↦ some (write_claimed s r) ]
  where
    write_claimed : Sched → Claimed → System × Outcome
    write_claimed s r =
        let claimed : System = record t { sched = s } in
        let more : Bool = ltb_ℤ (pos 0) r.write in
        let ends : Outcome = if r.stop then chunk_done else goes_on in
        if more && fails
        then (claimed, write_failed)
        else (if more then commit i r.offset (pos_part r.write) claimed else claimed, ends)

-- `run` and `downloadChunk` complete a chunk whose cursor is at its end with every claim written.
abbrev pub is_drained : Chunk → Bool
is_drained c = not (cursor c).2 && c.written == c.done

-- The start of `runWorkers` after multipart has filled the scheduler: `parts` is MinParts.
unfoldable pub start_fresh : ℕ → ℕ → ℕ → System
start_fresh total min_size parts = record {
  sched = (prepare parts (seed_fresh total (new_scheduler min_size))).0;
  disk = λ b. false;
}

unfoldable pub start_resumed : StateFile → (ℕ → Bool) → ℕ → ℕ → System
start_resumed st on_disk min_size parts = record {
  sched = (prepare parts (seed st.chunks (new_scheduler min_size))).0;
  disk = on_disk;
}

-- One critical section of the scheduler, one counted write, or another order of the active map.
pub data Step : System → System → Type 0 where
  hands_out : (w : ℕ) (t : System) → Step t (record t { sched = (next w t.sched).0 })
  exits : (w : ℕ) (t : System) → Step t (record t { sched = exit w t.sched })
  demotes : (keep : ℕ) (t : System) → Step t (record t { sched = (demote keep t.sched).0 })
  -- The owner claims when its last write is counted.
  claims :
      (i n : ℕ) (c : Chunk) (s : Sched) (r : Claimed) (t : System)
      → find i t.sched.active ≡ some c
      → c.written ≡ c.done
      → claim_active i n t.sched ≡ some (s, r)
      → Step t (record t { sched = s })
  -- The write of what the owner has claimed.
  writes :
      (i : ℕ) (c : Chunk) (t : System)
      → find i t.sched.active ≡ some c
      → Step t (commit i (c.off + c.written) (c.done - c.written) t)
  completes :
      (i : ℕ) (c : Chunk) (t : System)
      → find i t.sched.active ≡ some c
      → is_drained c ≡ true
      → Step t (record t { sched = complete i t.sched })
  reorders :
      (xs ys : List Chunk) (a b : Chunk) (t : System)
      → t.sched.active ≡ xs ++ (a ∷ b ∷ ys)
      → Step t (record t { sched = record t.sched { active = xs ++ (b ∷ a ∷ ys) } })

pub data Reach (t : System) : System → Type 0 where
  here : Reach t t
  next_step : {u v : System} → Reach t u → Step u v → Reach t v
