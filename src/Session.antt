-- ===== src/Session.antt =====
-- download.go: multipart and the flusher of runWorkers, with the resume sidecar beside the workers. The
-- sidecar is what a new process would decode if this one were killed, since save renames a complete file.
pub mod Truth
use go_download.Base.{
  ℕ, ◌≡◌, ℤ, pos, pos_part, Bool, true, false, not, if◌then◌else◌, Option, none, some, List, [],
  ◌∷◌, length,
}
use go_download.State.{ChunkState, StateFile, state_version, load_state, usable, resumable}
use go_download.Sched.{snapshot}
use go_download.Sched.Seed.{saved}
use go_download.System.{System, Step, start_fresh, start_resumed}

-- What multipart finds: the decoded sidecar if there is one, the size that Stat gives of the staging file, the
-- identity and the validators of the resource, the settings, and which of its first calls fail.
pub record Origin : Type 0 where
  pub sidecar : Option StateFile
  pub part_size : Option ℤ
  pub total : ℕ
  pub source_id : List ℕ
  pub etag : List ℕ
  pub last_modified : List ℕ
  pub min_size : ℕ
  pub parts : ℕ
  pub invalidate_fails : Bool
  pub truncate_fails : Bool

-- `held` is a snapshot that has been taken and not yet saved.
pub record Session : Type 0 where
  pub system : System
  pub sidecar : Option StateFile
  pub held : Option (List ChunkState)

-- An error of multipart before the workers start leaves the sidecar that is given.
pub data Opened : Type 0 where
  refused : Option StateFile → Opened
  opened : Session → Opened

-- The sidecar to resume from: one that loadState accepts and that is usable.
unfoldable pub resumes : Origin → Option StateFile → Option StateFile
unfolding load_state usable
resumes o none = none
resumes o (some old) = elim (load_state old) [
  | none ↦ none
  | some st ↦
      if usable st o.part_size o.source_id (pos o.total) o.etag o.last_modified
      then some st
      else none
]

-- The branch of multipart that does not resume.
unfoldable pub open_fresh : Origin → Opened
unfolding start_fresh
open_fresh o =
    if o.invalidate_fails
    then refused o.sidecar
    else if o.truncate_fails
    then refused none
    else opened
        (record { system = start_fresh o.total o.min_size o.parts; sidecar = none; held = none })

-- `multipart` up to the workers' start. A sidecar that is resumed from stays in place; the bytes that it does
-- not list are taken to be in the staging file.
unfoldable pub open_session : Origin → Opened
unfolding resumes open_fresh start_resumed
open_session o = elim (resumes o o.sidecar) [
  | none ↦ open_fresh o
  | some st ↦ opened (record {
    system = start_resumed st (saved st) o.min_size o.parts;
    sidecar = o.sidecar;
    held = none;
  })
]

-- The stateFile of the run.
abbrev pub state_of : Origin → List ChunkState → StateFile
state_of o chunks = record {
  version = state_version;
  source_id = o.source_id;
  size = pos o.total;
  etag = o.etag;
  last_modified = o.last_modified;
  chunks = chunks;
}

-- What happens while the session runs: a step of the workers, or the flusher or the end of multipart takes a
-- snapshot, or saves the one it holds. A save that fails does nothing, and one that is skipped is none.
pub data Act (o : Origin) : Session → Session → Type 0 where
  works : (s : Session) (u : System) → Step s.system u → Act o s (record s { system = u })
  snaps :
      (s : Session)
      → resumable o.etag o.last_modified ≡ true
      → Act o s (record s { held = some (snapshot s.system.sched) })
  saves :
      (s : Session) (chunks : List ChunkState)
      → s.held ≡ some chunks
      → Act o s (record s { sidecar = some (state_of o chunks); held = none })

pub data Acts (o : Origin) (s : Session) : Session → Type 0 where
  idle : Acts o s s
  next_act : {t u : Session} → Acts o s t → Act o t u → Acts o s u
