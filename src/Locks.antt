-- ===== src/Locks.antt =====
-- pathlock.go: the registry of destination locks. A key is the canonical path, a number up to
-- equality; resolving it is outside. The heap holds every pathLockEntry ever made: `mapped` says that
-- the registry's map has it under its key, and `token` that its channel holds the token.

pub mod Heap
pub mod Steps
pub mod Kept
pub mod Exclusion
use go_download.Base.{
  ℕ, suc, ◌+◌, ◌-◌, Bool, true, false, ◌&&◌, ◌||◌, not, ◌==◌, bit, if◌then◌else◌, Option, none,
  some, List, [], ◌∷◌, ◌++◌, ◌≡◌, sum_by,
}

pub record Entry : Type 0 where
  pub id : ℕ
  pub key : ℕ
  pub token : Bool
  pub refs : ℕ
  pub mapped : Bool

-- destinationLocks.locks[key]
unfoldable pub lookup : ℕ → List Entry → Option Entry
lookup k [] = none
lookup k (e ∷ es) = let rest = lookup k es in if e.mapped && e.key == k then some e else rest

unfoldable pub find_entry : ℕ → List Entry → Option Entry
find_entry i [] = none
find_entry i (e ∷ es) = let rest = find_entry i es in if e.id == i then some e else rest

-- A write through a pointer to an entry.
unfoldable pub update_entry : ℕ → (Entry → Entry) → List Entry → List Entry
update_entry i f [] = []
update_entry i f (e ∷ es) = (if e.id == i then f e else e) ∷ update_entry i f es

-- Where a caller stands: it has its reference and waits for the token, it has the token, or it has put
-- the token back and has still to release its reference.
pub data Phase : Type 0 where
  waiting holding leaving : Phase

pub record Caller : Type 0 where
  pub key : ℕ
  pub entry : ℕ
  pub phase : Phase

pub record Locks : Type 0 where
  pub heap : List Entry
  pub next_id : ℕ
  pub callers : List Caller

abbrev pub new_entry : ℕ → ℕ → Entry
new_entry i k = record { id = i; key = k; token = true; refs = 0; mapped = true }

abbrev pub add_ref : Entry → Entry
add_ref e = record e { refs = e.refs + 1 }

abbrev pub take_token : Entry → Entry
take_token e = record e { token = false }

abbrev pub put_token : Entry → Entry
put_token e = record e { token = true }

-- `releaseDestinationRef`: the entry leaves the map with its last reference.
abbrev pub drop_ref : Entry → Entry
drop_ref e = record e { refs = e.refs - 1; mapped = e.mapped && not (e.refs - 1 == 0) }

-- `refDestination` under the registry's mutex; the caller comes to wait.
unfoldable pub ref_destination : ℕ → Locks → Locks
unfolding lookup update_entry
ref_destination k s = elim (lookup k s.heap) [
  | some e ↦ record s {
    heap = update_entry e.id add_ref s.heap;
    callers = (record { key = k; entry = e.id; phase = waiting }) ∷ s.callers;
  }
  | none ↦ record {
    heap = add_ref (new_entry s.next_id k) ∷ s.heap;
    next_id = suc s.next_id;
    callers = (record { key = k; entry = s.next_id; phase = waiting }) ∷ s.callers;
  }
]

abbrev pub in_phase : Phase → Caller → Caller
in_phase p c = record c { phase = p }

-- One atomic step of a caller. It takes the token if it is there; it gives up in place of waiting,
-- when its context is done or, in tryAcquireDestination, when the token is not there; it puts the
-- token back, to unlock or because its context was done when it got the token; it releases.
pub data Step : Locks → Locks → Type 0 where
  refers : (k : ℕ) (s : Locks) → Step s (ref_destination k s)
  takes :
      (xs ys : List Caller) (c : Caller) (s : Locks) (e : Entry)
      → s.callers ≡ xs ++ (c ∷ ys)
      → c.phase ≡ waiting
      → find_entry c.entry s.heap ≡ some e
      → e.token ≡ true
      → Step s (record s {
        heap = update_entry c.entry take_token s.heap;
        callers = xs ++ (in_phase holding c ∷ ys);
      })
  gives_up :
      (xs ys : List Caller) (c : Caller) (s : Locks)
      → s.callers ≡ xs ++ (c ∷ ys)
      → c.phase ≡ waiting
      → Step s (record s { heap = update_entry c.entry drop_ref s.heap; callers = xs ++ ys })
  puts_back :
      (xs ys : List Caller) (c : Caller) (s : Locks)
      → s.callers ≡ xs ++ (c ∷ ys)
      → c.phase ≡ holding
      → Step s (record s {
        heap = update_entry c.entry put_token s.heap;
        callers = xs ++ (in_phase leaving c ∷ ys);
      })
  releases :
      (xs ys : List Caller) (c : Caller) (s : Locks)
      → s.callers ≡ xs ++ (c ∷ ys)
      → c.phase ≡ leaving
      → Step s (record s { heap = update_entry c.entry drop_ref s.heap; callers = xs ++ ys })

pub data Reach (s : Locks) : Locks → Type 0 where
  here : Reach s s
  next_step : {t u : Locks} → Reach s t → Step t u → Reach s u

abbrev pub no_locks : Locks
no_locks = record { heap = []; next_id = 0; callers = [] }
