-- ===== src/Chunk.antt =====
-- scheduler.go: the chunk, a half-open byte range [off, end) with its claim cursor, and what the
-- scheduler does to one chunk. Offsets are int64 and never negative, so they are natural numbers;
-- a difference of two of them is signed.
pub mod Lists
pub mod Largest
pub mod Ranges
use go_download.Base.{
  ltb, ℕ, ◌+◌, ◌-◌, ◌/◌, ℤ, pos, Bool, leb, if◌then◌else◌, sub_ℕ, min_ℤ, shift, List, [], ◌∷◌,
  Option, none, some, ◌==◌, ltb_ℤ,
}

-- `owner` is 0 before the first grant, as in Go.
pub record Chunk : Type 0 where
  pub id : ℕ
  pub owner : ℕ
  pub off : ℕ
  pub end : ℕ
  pub done : ℕ
  pub written : ℕ

-- c.off + c.done
abbrev pub position : Chunk → ℕ
position c = c.off + c.done

-- c.end - (c.off + c.done): the unclaimed remainder.
abbrev pub leftover : Chunk → ℤ
leftover c = sub_ℕ c.end (position c)

-- cursor + (end - cursor) / 2, with Go's division, which rounds towards zero.
abbrev pub half_way : ℕ → ℕ → ℕ
half_way cursor end =
    if leb cursor end then cursor + (end - cursor) / 2 else cursor - (cursor - end) / 2

-- `splitLocked` on the two chunks: the chunk keeps the lower half, the new chunk takes the upper.
abbrev pub lower_half : Chunk → Chunk
lower_half c = record c { end = half_way (position c) c.end }

abbrev pub upper_half : ℕ → Chunk → Chunk
upper_half id c = record {
  id = id;
  owner = 0;
  off = half_way (position c) c.end;
  end = c.end;
  done = 0;
  written = 0;
}

-- A demoted owner's chunk ends at its claim cursor, and a new chunk takes what it had left.
abbrev pub shrunk : Chunk → Chunk
shrunk c = record c { end = position c }

abbrev pub moved : ℕ → Chunk → Chunk
moved id c = record { id = id; owner = 0; off = position c; end = c.end; done = 0; written = 0 }

pub record Claimed : Type 0 where
  pub offset : ℕ
  pub write : ℤ
  pub stop : Bool

-- `claim`: the chunk with its cursor moved on, and what the owner may write.
unfoldable pub claim : Chunk → ℕ → Chunk × Claimed
claim c n =
    let write : ℤ = min_ℤ (pos n) (leftover c) in
    let c' : Chunk = record c { done = shift c.done write } in
    (c', record { offset = position c; write = write; stop = leb c.end (position c') })

-- The next byte to request, the end of the range, and whether work remains.
abbrev pub cursor : Chunk → ℕ × ℕ × Bool
cursor c = (position c, c.end, ltb (position c) c.end)

-- `for _, c := range cs { if victim == nil || left(c) > left(victim) { victim = c } }`
unfoldable pub largest_from : Option Chunk → List Chunk → Option Chunk
largest_from v [] = v
largest_from none (c ∷ cs) = largest_from (some c) cs
largest_from (some v) (c ∷ cs) =
    largest_from (some (if ltb_ℤ (leftover v) (leftover c) then c else v)) cs

unfoldable pub largest : List Chunk → Option Chunk
unfolding largest_from
largest = largest_from none

-- A chunk is reached through a pointer in the source and by its id here.
unfoldable pub find : ℕ → List Chunk → Option Chunk
find i [] = none
find i (c ∷ cs) = if c.id == i then some c else find i cs

-- A write through the pointer.
unfoldable pub update : ℕ → (Chunk → Chunk) → List Chunk → List Chunk
update i g [] = []
update i g (c ∷ cs) = if c.id == i then g c ∷ cs else c ∷ update i g cs

-- `delete(s.active, c.id)`
unfoldable pub remove : ℕ → List Chunk → List Chunk
remove i [] = []
remove i (c ∷ cs) = if c.id == i then cs else c ∷ remove i cs
