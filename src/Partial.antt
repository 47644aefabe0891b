-- ===== src/Partial.antt =====
-- worker.go: readPartialResponse, readLoop, pump and chunkSink for the worker that owns a chunk. The other
-- workers can only lower the chunk's end between two reads, never to before the owner's cursor
-- (Sched.Invariant), so a read says how much of the chunk they have left unclaimed when its sink claims.
pub mod Slices
pub mod Claims
pub mod Reads
pub mod Fetched
use go_download.Base.{
  ℕ, suc, zero, ◌+◌, ◌-◌, ℤ, pos, negsuc, Bool, true, false, ◌&&◌, ◌||◌, not, ◌==◌, ltb, leb,
  if◌then◌else◌, Option, none, some, List, [], ◌∷◌, ◌++◌, leb_ℤ, ltb_ℤ, eq_ℤ, pos_part, min, length,
  Bytes,
}
use go_download.Chunk.{Chunk, Claimed, position, claim}
use go_download.Ladder.{Ladder, decay_timeout}
use go_download.Response.{ContentRange, parse_content_range}
use go_download.Single.{
  ReadError, eof, broken, PumpEnd, sink_done, write_error, body_eof, body_broken, starved, is_empty,
}
use go_download.System.{Outcome, goes_on, chunk_done, write_failed}

-- One io.ReadFull of the body: its bytes, its error, what other workers have left of the chunk when the sink claims, and
-- whether WriteAt fails.
pub record Pull : Type 0 where
  pub bytes : Bytes
  pub error : Option ReadError
  pub spare : ℕ
  pub write_fails : Bool

-- The chunk, the writes to the file in their order, each with its offset, and the worker's timers.
pub record Writing : Type 0 where
  pub chunk : Chunk
  pub log : List (ℕ × Bytes)
  pub ladder : Ladder

-- buf[:n]
abbrev pub take : ℕ → Bytes → Bytes
take zero s = []
take (suc n) [] = []
take (suc n) (c ∷ s) = c ∷ take n s

-- The chunk's end when the sink claims: other workers only ever lower it.
abbrev pub end_then : Pull → Chunk → ℕ
end_then p c = min c.end (position c + p.spare)

-- The owner's claim in the chunk as it is then.
abbrev pub claim_read : Pull → Chunk → Chunk × Claimed
claim_read p c = claim (record c { end = end_then p c }) (length p.bytes)

-- WriteAt of n bytes, and the count of it.
abbrev pub write_at : ℕ → ℕ → Bytes → Writing → Writing
write_at offset n buf s = record s {
  chunk = record s.chunk { written = s.chunk.written + n };
  log = s.log ++ (offset, take n buf) ∷ [];
}

-- The end of the sink: `decayTimeout` for a buffer that was filled.
abbrev pub settle : ℕ → ℕ → Bytes → Bool → Writing → Writing × Outcome
settle base size buf true s = (s, chunk_done)
settle base size buf false s =
    (if length buf == size then record s { ladder = decay_timeout base s.ladder } else s, goes_on)

-- The sink with its claim.
abbrev pub use_claim : ℕ → ℕ → Pull → Writing → Chunk × Claimed → Writing × Outcome
use_claim base size p s (c, r) =
    let claimed : Writing = record s { chunk = c } in
    let more : Bool = ltb_ℤ (pos 0) r.write in
    if more && p.write_fails
    then (claimed, write_failed)
    else settle base size p.bytes r.stop
        (if more then write_at r.offset (pos_part r.write) p.bytes claimed else claimed)

-- `chunkSink` on one read; `base` is Options.Timeout and `size` the length of the worker's buffer. A
-- write that fails is not counted.
unfoldable pub sink : ℕ → ℕ → Pull → Writing → Writing × Outcome
unfolding claim decay_timeout
sink base size p s =
    if is_empty p.bytes then (s, goes_on) else use_claim base size p s (claim_read p s.chunk)

-- io.LimitReader on the body, in front of the reads: the read that goes beyond the limit is cut there and
-- ends in EOF, and so does the read after one that ends at the limit.
unfoldable pub limit_reads : ℕ → List Pull → List Pull
limit_reads zero ps = record { bytes = []; error = some eof; spare = 0; write_fails = false } ∷ []
limit_reads (suc n) [] = []
limit_reads (suc n) (p ∷ ps) =
    let rest = limit_reads (suc n - length p.bytes) ps in
    if leb (length p.bytes) (suc n)
    then p ∷ rest
    else record p { bytes = take (suc n) p.bytes; error = some eof } ∷ []

-- What `pump` does after the sink, `rest` being the reads that follow.
unfoldable pub after_sink : Pull → Writing × PumpEnd → Writing × Outcome → Writing × PumpEnd
after_sink p rest (s, write_failed) = (s, write_error)
after_sink p rest (s, chunk_done) = (s, sink_done)
after_sink p rest (s, goes_on) = elim p.error [
  | none ↦ rest
  | some eof ↦ (s, body_eof)
  | some broken ↦ (s, body_broken)
]

-- `readLoop`, that is `pump` with `chunkSink`, from a buffer that is not empty.
unfoldable pub read_loop : ℕ → ℕ → List Pull → Writing → Writing × PumpEnd
unfolding sink after_sink
read_loop base size [] s = (s, starved)
read_loop base size (p ∷ ps) s =
    let w = sink base size p s in let rest = read_loop base size ps w.0 in after_sink p rest w

-- The arguments of `readPartialResponse` and r.total.
pub record Wanted : Type 0 where
  pub cursor : ℕ
  pub requested : ℕ
  pub end : ℕ
  pub total : ℕ

pub data PartEnd : Type 0 where
  part_done wrong_part write_failure capped short broken_off hanging : PartEnd

-- The condition that refuses a Content-Range.
abbrev pub is_wrong : Wanted → ContentRange → Bool
is_wrong q r =
    not (eq_ℤ r.start (pos q.cursor))
    || ltb_ℤ r.end r.start
    || leb_ℤ (pos q.requested) r.end
    || (not (eq_ℤ r.total (negsuc 0)) && not (eq_ℤ r.total (pos q.total)))

-- min(e+1, end); e is not negative and below an int64.
abbrev pub response_end : Wanted → ContentRange → ℕ
response_end q r = min (pos_part r.end + 1) q.end

-- What follows the loop, up to `classify`.
unfoldable pub close_part : Wanted → ℕ → Writing × PumpEnd → Writing × PartEnd
close_part q limit (s, sink_done) = (s, part_done)
close_part q limit (s, write_error) = (s, write_failure)
close_part q limit (s, body_broken) = (s, broken_off)
close_part q limit (s, starved) = (s, hanging)
close_part q limit (s, body_eof) =
    (s, if ltb limit q.end && leb limit (position s.chunk) then capped else short)

-- `readPartialResponse` with the header's value.
unfoldable pub read_partial_response :
    ℕ → ℕ → Wanted → Bytes → List Pull → Writing → Writing × PartEnd
unfolding parse_content_range limit_reads read_loop close_part
read_partial_response base size q header pulls s = elim (parse_content_range header) [
  | none ↦ (s, wrong_part)
  | some r ↦
      if is_wrong q r
      then (s, wrong_part)
      else close_part q (response_end q r)
          (read_loop base size (limit_reads (response_end q r - q.cursor) pulls) s)
]
