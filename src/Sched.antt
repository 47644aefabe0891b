-- ===== src/Sched.antt =====
-- scheduler.go: the scheduler that hands byte ranges to workers. Each method runs in one critical
-- section, so it is one function from the state before to the state after and its result.
-- A map or a set of the source is a list here, and its iteration order is the order of the list;
-- the theorems hold of every order, and `System.Step.reorder` lets the order change at any time.
pub mod Handout
pub mod Invariant
pub mod Demote
pub mod Prepare
pub mod Seed
pub mod Retire
pub mod Bytes
pub mod Sizes
use go_download.Base.{
  ℕ, suc, ◌-◌, ◌*◌, ℤ, pos, Bool, true, false, ◌&&◌, ◌||◌, not, ltb, ◌==◌, if◌then◌else◌, sub_ℕ,
  min, max, int64, leb_ℤ, ltb_ℤ, min_ℤ, ◌-ℤ◌, pos_part, ◌+ℤ◌, max_ℤ, List, [], ◌∷◌, ◌++◌, map,
  Option, none, some, length, contains, insert, delete, count_if,
}
use go_download.Chunk.{
  shrunk, moved, Chunk, Claimed, position, leftover, lower_half, upper_half, claim, largest, find,
  update, remove,
}
use go_download.State.{ChunkState}

-- The Reporter calls that the scheduler makes under its lock.
pub data Event : Type 0 where
  granted : (id off : ℕ) (length : ℤ) (written : ℕ) → Event
  resized : (id : ℕ) (length : ℤ) → Event

-- `announces` and `resizes` say whether onGrant and onResize are set. `events` is the calls made,
-- the last one first. A limit of 0 is no limit.
pub record Sched : Type 0 where
  pub pending : List Chunk
  pub active : List Chunk
  pub live : List ℕ
  pub retiring : List ℕ
  pub limit : ℕ
  pub min_size : ℕ
  pub next_id : ℕ
  pub announces : Bool
  pub resizes : Bool
  pub events : List Event

unfoldable pub new_scheduler : ℕ → Sched
new_scheduler min_size = record {
  pending = [];
  active = [];
  live = [];
  retiring = [];
  limit = 0;
  min_size = min_size;
  next_id = 0;
  announces = false;
  resizes = false;
  events = [];
}

unfoldable pub add_pending : ℕ → ℕ → ℕ → Sched → Sched
add_pending off end done s = record s { pending = s.pending ++ c ∷ []; next_id = suc s.next_id }
  where
    c : Chunk
    c = record { id = s.next_id; owner = 0; off = off; end = end; done = done; written = done }

-- 2*s.minSize, an int64 product.
abbrev pub twice_min : Sched → ℤ
twice_min s = int64 (2 * s.min_size)

abbrev pub emit : Bool → Event → List Event → List Event
emit set e es = if set then e ∷ es else es

unfoldable pub grant_locked : Chunk → Sched → Sched
grant_locked c s = record s {
  events = emit s.announces (granted c.id c.off (sub_ℕ c.end c.off) c.written) s.events;
}

unfoldable pub resize_locked : Chunk → Sched → Sched
resize_locked c s = record s { events = emit s.resizes (resized c.id (sub_ℕ c.end c.off)) s.events }

unfoldable pub split_pending : Sched → Chunk → Sched
split_pending s c = record s {
  pending = update c.id lower_half s.pending ++ upper_half s.next_id c ∷ [];
  next_id = suc s.next_id;
}

-- The loop of `prepare`. Each round adds a chunk, so n rounds are enough.
unfoldable pub prepare_loop : ℕ → ℕ → Sched → Sched
unfolding split_pending
prepare_loop ℕ.zero n s = s
prepare_loop (suc rounds) n s =
    if ltb (length s.pending) n
    then elim (largest s.pending) [
      | none ↦ s
      | some c ↦
          let rest = prepare_loop rounds n (split_pending s c) in
          if leb_ℤ (twice_min s) (leftover c) then rest else s
    ]
    else s

unfoldable pub prepare : ℕ → Sched → Sched × ℕ
unfolding prepare_loop
prepare n s = let s' = prepare_loop n n s in (s', max (min (length s'.pending) n) 1)

unfoldable pub deregister : ℕ → Sched → Sched
deregister w s = record s { live = delete w s.live; retiring = delete w s.retiring }

abbrev pub non_retiring_live : Sched → ℕ
non_retiring_live s = length s.live - count_if (contains s.live) s.retiring

-- `next` with nothing pending: half of the largest remainder in flight, if it is large enough.
unfoldable pub steal : ℕ → Sched → Option Chunk → Sched × Option Chunk
unfolding deregister grant_locked resize_locked
steal w s none = (deregister w s, none)
steal w s (some victim) =
    if leb_ℤ (twice_min s) (leftover victim)
    then (grant_locked c (resize_locked (lower_half victim) s'), some c)
    else (deregister w s, none)
  where
    c : Chunk
    c = record (upper_half s.next_id victim) { owner = w }

    s' : Sched
    s' = record s { active = c ∷ update victim.id lower_half s.active; next_id = suc s.next_id }

unfoldable pub take_pending : ℕ → Sched → List Chunk → Sched × Option Chunk
unfolding steal grant_locked
take_pending w s [] = steal w s (largest s.active)
take_pending w s (p ∷ rest) =
    (grant_locked c (record s { pending = rest; active = c ∷ s.active }), some c)
  where
    c : Chunk
    c = record p { owner = w }

abbrev pub register : ℕ → Sched → Sched
register w s = record s { live = insert w s.live }

-- Whether `next` turns a registered worker away: it is to retire, or there are too many workers.
abbrev pub refused : ℕ → Sched → Bool
refused w s = contains s.retiring w || (ltb 0 s.limit && ltb s.limit (non_retiring_live s))

unfoldable pub next : ℕ → Sched → Sched × Option Chunk
unfolding take_pending deregister
next w s =
    let s' = register w s in
    if refused w s' then (deregister w s', none) else take_pending w s' s'.pending

abbrev pub exit : ℕ → Sched → Sched
exit = deregister

-- The highest id that is live, not retiring and not yet a victim.
unfoldable pub best_victim : List ℕ → List ℕ → Option ℕ → List ℕ → Option ℕ
best_victim retiring victims best [] = best
best_victim retiring victims best (i ∷ live) =
    best_victim retiring victims
      (if contains retiring i || contains victims i || not (higher best) then best else some i) live
  where
    higher : Option ℕ → Bool
    higher none = true
    higher (some b) = ltb b i

-- The loop that picks the victims: `rounds` is excess - len(victims).
unfoldable pub pick_victims : ℕ → List ℕ → List ℕ → List ℕ → List ℕ × List ℕ
unfolding best_victim
pick_victims ℕ.zero live retiring victims = (retiring, victims)
pick_victims (suc rounds) live retiring victims = elim (best_victim retiring victims none live) [
  | none ↦ (retiring, victims)
  | some b ↦ pick_victims rounds live (insert b retiring) (victims ++ b ∷ [])
]

-- One chunk of `demote`: a retiring owner's unclaimed remainder becomes a new pending chunk.
unfoldable pub shed_one : Sched → Chunk → Sched × Chunk
unfolding resize_locked
shed_one s c =
    if contains s.retiring c.owner && ltb (position c) c.end
    then (
      resize_locked (shrunk c)
          (record s { pending = s.pending ++ moved s.next_id c ∷ []; next_id = suc s.next_id }),
      shrunk c,
    )
    else (s, c)

unfoldable pub shed : Sched → List Chunk → Sched × List Chunk
unfolding shed_one
shed s [] = (s, [])
shed s (c ∷ cs) = let (s', c') = shed_one s c in let (s'', cs') = shed s' cs in (s'', c' ∷ cs')

-- The limit that `demote keep` sets.
abbrev pub lowered_limit : ℕ → ℕ → ℕ
lowered_limit keep limit = if limit == 0 || ltb keep limit then keep else limit

-- The new state and the victims.
unfoldable pub demote : ℕ → Sched → Sched × List ℕ
unfolding shed pick_victims
demote n s =
    let keep = max n 1 in
    let s1 : Sched = record s { limit = lowered_limit keep s.limit } in
    let excess = non_retiring_live s1 - keep in
    let (retiring, victims) = pick_victims excess s1.live s1.retiring [] in
    let (s2, active) = shed (record s1 { retiring = retiring }) s1.active in
    if excess == 0 then (s1, []) else (record s2 { active = active }, victims)

-- `claim` through the owner's pointer; `none` for a chunk that is not in flight, which no worker has.
unfoldable pub claim_active : ℕ → ℕ → Sched → Option (Sched × Claimed)
unfolding find update claim
claim_active i n s = elim (find i s.active) [
  | none ↦ none
  | some c ↦ some (record s { active = update i (λ d. (claim d n).0) s.active }, (claim c n).1)
]

-- The unclaimed tail of the first chunk in flight that the worker owns.
unfoldable pub worker_remaining : ℕ → List Chunk → ℤ
worker_remaining w [] = pos 0
worker_remaining w (c ∷ cs) =
    if c.owner == w then max_ℤ (leftover c) (pos 0) else worker_remaining w cs

unfoldable pub complete : ℕ → Sched → Sched
unfolding remove
complete i s = record s { active = remove i s.active }

unfoldable pub bytes_left : List Chunk → ℤ
bytes_left [] = pos 0
bytes_left (c ∷ cs) = leftover c +ℤ bytes_left cs

unfoldable pub remaining_bytes : Sched → ℤ
unfolding bytes_left
remaining_bytes s = bytes_left s.pending +ℤ bytes_left s.active

unfoldable pub idle : Sched → Bool
idle s = length s.pending == 0 && length s.active == 0

abbrev pub pending_state : Chunk → ChunkState
pending_state c = record { off = pos c.off; end = pos c.end; done = pos c.written }

abbrev pub active_state : Chunk → ChunkState
active_state c = record {
  off = pos c.off;
  end = pos c.end;
  done = min_ℤ (pos c.written) (sub_ℕ c.end c.off);
}

unfoldable pub snapshot : Sched → List ChunkState
snapshot s = map pending_state s.pending ++ map active_state s.active

-- multipart: the chunks that a usable sidecar leaves to download, or the whole file. A sidecar that
-- `load_state` passes has no negative number.
unfoldable pub seed : List ChunkState → Sched → Sched
unfolding add_pending
seed [] s = s
seed (c ∷ cs) s = seed cs (
    if ltb_ℤ c.done (c.end -ℤ c.off)
    then add_pending (pos_part c.off) (pos_part c.end) (pos_part c.done) s
    else s)

unfoldable pub seed_fresh : ℕ → Sched → Sched
unfolding add_pending
seed_fresh total s = add_pending 0 total 0 s
