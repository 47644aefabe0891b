-- ===== src/Dial.antt =====
-- dial_preferred.go: dialPreferred, the race of the preferred dial and one fallback, as the loop over the events
-- that its select receives. A dial that is under way is `pending`; only such a dial can return.
pub mod Ends
use go_download.Base.{
  ℕ, suc, ◌+◌, ◌≡◌, Bool, true, false, ◌&&◌, ◌||◌, not, ◌==◌, if◌then◌else◌, List, [], ◌∷◌, ◌++◌,
}

pub data Side : Type 0 where
  primary fallback : Side

-- ctx.Done, the timer, or a result with its address and whether it has a connection.
pub data Event : Type 0 where
  done due : Event
  returns : Side → Bool → Event

pub record Race : Type 0 where
  pub primary_pending : Bool
  pub fallback_pending : Bool
  pub fallback_started : Bool
  pub started : ℕ
  pub finished : ℕ
  pub failed : List Side

-- `exhausted` is the error that joins those of all dials.
pub data Outcome : Type 0 where
  racing cancelled exhausted : Outcome
  won : Side → Outcome

-- The state when the loop starts.
abbrev pub started_primary : Race
started_primary = record {
  primary_pending = true;
  fallback_pending = false;
  fallback_started = false;
  started = 1;
  finished = 0;
  failed = [];
}

abbrev pub start_fallback : Race → Race
start_fallback r = record r {
  fallback_pending = true;
  fallback_started = true;
  started = r.started + 1;
}

abbrev pub is_primary : Side → Bool
is_primary primary = true
is_primary fallback = false

-- A result is received.
abbrev pub receive : Side → Race → Race
receive primary r = record r { primary_pending = false; finished = r.finished + 1 }
receive fallback r = record r { fallback_pending = false; finished = r.finished + 1 }

-- The end of the case of a failed result.
abbrev pub conclude : Bool → Race → Race × Outcome
conclude has_fallback r = (
  r,
  if r.finished == r.started && (not has_fallback || r.fallback_started) then exhausted else racing,
)

-- The start of the fallback in place of a primary that has failed.
abbrev pub replace_if : Bool → Race → Race
replace_if true r = start_fallback r
replace_if false r = r

-- A failed dial, counted.
abbrev pub fail : Bool → Side → Race → Race
fail has_fallback side r =
    replace_if (is_primary side && has_fallback && not r.fallback_started)
      (record r { failed = r.failed ++ side ∷ [] })

-- One round of the loop; `has_fallback` is fallback != "".
unfoldable pub handle : Bool → Event → Race → Race × Outcome
handle has_fallback done r = (r, cancelled)
handle has_fallback due r =
    (if has_fallback && not r.fallback_started then start_fallback r else r, racing)
handle has_fallback (returns side true) r = (receive side r, won side)
handle has_fallback (returns side false) r =
    conclude has_fallback (fail has_fallback side (receive side r))

-- The events that can come.
abbrev pub IsPossible : Event → Race → Type 0
IsPossible done r = Unit
IsPossible due r = Unit
IsPossible (returns primary ok) r = r.primary_pending ≡ true
IsPossible (returns fallback ok) r = r.fallback_pending ≡ true

-- The states in which the loop goes on.
pub data Reach (has_fallback : Bool) : Race → Type 0 where
  here : Reach has_fallback started_primary
  next_event :
      {r : Race} (e : Event)
      → Reach has_fallback r
      → IsPossible e r
      → (handle has_fallback e r).1 ≡ racing
      → Reach has_fallback (handle has_fallback e r).0
