-- ===== src/Partial/Claims.antt =====
-- What one read of a partial response claims and writes.
use go_download.Base.{
  ℕ, ◌+◌, ◌-◌, ◌≤◌, All-map, ◌≡◌, pos, Bool, true, false, ◌&&◌, leb, if◌then◌else◌, [], ◌∷◌, ◌++◌,
  ltb_ℤ, min, length, sum_by, sum_by-append, All, All-append, Bytes, arith, sym, ap, subst,
  Bool-cases, inl, inr,
}
use go_download.Chunk.{Chunk, position, claim}
use go_download.Single.{is_empty}
use go_download.System.{Outcome, goes_on, chunk_done, write_failed}
use go_download.Partial.{
  end_then, Pull, Writing, take, claim_read, write_at, settle, use_claim, sink,
}
use go_download.Partial.Slices.{IsSlice, length-take, read-IsSlice}

-- Every write is a slice of the body behind which the cursor stands, the chunk counts the bytes of the
-- writes, and its cursor has moved on from `start` and not beyond its end, which is at most `end`.
pub record IsLogged (start end base : ℕ) (whole : Bytes) (s : Writing) : Type 0 where
  pub from : start ≤ position s.chunk
  pub within : position s.chunk ≤ s.chunk.end
  pub shrinks : s.chunk.end ≤ end
  pub behind : All (λ w. w.0 + length w.1 ≤ position s.chunk) s.log
  pub slices : All (IsSlice start whole) s.log
  pub counted : s.chunk.written ≡ base + sum_by (λ w. length w.1) s.log

-- What the chunk has left for a claim of the owner, and what the claim takes.
abbrev room : Pull → Chunk → ℕ
room p c = end_then p c - position c

abbrev taken : Pull → Chunk → ℕ
taken p c = min (length p.bytes) (room p c)

claim_read-lem :
    (p : Pull) (c : Chunk)
    → position c ≤ c.end
    → claim_read p c ≡ (
      record c { end = end_then p c; done = c.done + taken p c },
      record { offset = position c; write = pos (taken p c); stop = leb (room p c) (taken p c) },
    )
unfolding claim
claim_read-lem p c h = ground arith

abbrev pub keeps_on : Outcome → Bool
keeps_on goes_on = true
keeps_on chunk_done = false
keeps_on write_failed = false

abbrev pub more : Pull → Chunk → Bool
more p c = ltb_ℤ (pos 0) (pos (taken p c))

abbrev pub stops : Pull → Chunk → Bool
stops p c = leb (room p c) (taken p c)

abbrev claimed : Pull → Writing → Writing
claimed p s = record s {
  chunk = record s.chunk { end = end_then p s.chunk; done = s.chunk.done + taken p s.chunk };
}

abbrev pub wrote : Pull → Writing → Writing
wrote p s =
    if more p s.chunk
    then write_at (position s.chunk) (taken p s.chunk) p.bytes (claimed p s)
    else claimed p s

pub sink-lem :
    (base size : ℕ) (p : Pull) (s : Writing)
    → position s.chunk ≤ s.chunk.end
    → sink base size p s ≡ (
        if is_empty p.bytes
        then (s, goes_on)
        else if more p s.chunk && p.write_fails
        then (claimed p s, write_failed)
        else settle base size p.bytes (stops p s.chunk) (wrote p s))
unfolding sink
sink-lem base size p s h =
    ap (λ x. if is_empty p.bytes then (s, goes_on) else use_claim base size p s x)
      (claim_read-lem p s.chunk h)

-- A state of the loop after the bytes `before`.
pub record IsPlaced (start end base : ℕ) (before whole : Bytes) (s : Writing) : Type 0 where
  pub place : position s.chunk ≡ start + length before
  pub logged : IsLogged start end base whole s

-- The claim of a read moves the cursor on and keeps it within the end.
claimed-bounds :
    (p : Pull) (s : Writing)
    → position s.chunk ≤ s.chunk.end
    → (position (claimed p s).chunk ≤ (claimed p s).chunk.end)
      × ((claimed p s).chunk.end ≤ s.chunk.end)
      × (position (claimed p s).chunk ≡ position s.chunk + taken p s.chunk)
      × (taken p s.chunk ≤ length p.bytes)
claimed-bounds p s h = (ground (arith, h), ground (arith, h), ground (arith, h), ground (arith, h))

pub claimed-IsLogged :
    {start end base : ℕ} {whole : Bytes} (p : Pull) (s : Writing)
    → IsLogged start end base whole s
    → IsLogged start end base whole (claimed p s)
claimed-IsLogged p s i =
    let (b, e, c, l) = claimed-bounds p s i.within in
    record {
      from = omega (arith, c, i.from);
      within = b;
      shrinks = omega (arith, e, i.shrinks);
      behind = All-map _ _ s.log (λ w x. omega (arith, c, x)) i.behind;
      slices = i.slices;
      counted = i.counted;
    }

pub wrote-IsLogged :
    (start end base : ℕ) (before after : Bytes) (p : Pull) (s : Writing)
    → IsPlaced start end base before (before ++ (p.bytes ++ after)) s
    → IsLogged start end base (before ++ (p.bytes ++ after)) (wrote p s)
wrote-IsLogged start end base before after p s i = elim (Bool-cases (more p s.chunk)) [
  | inr e ↦ simp e (claimed-IsLogged p s i.logged)
  | inl e ↦
      let d = claimed-IsLogged p s i.logged in
      let (b, f, c, l) = claimed-bounds p s i.logged.within in
      let n = length-take (taken p s.chunk) p.bytes l in
      simp e (record {
        from = d.from;
        within = d.within;
        shrinks = d.shrinks;
        behind = All-append _ s.log _ d.behind (omega (arith, c, n), tt);
        slices = All-append _ s.log _ i.logged.slices (
          subst
              (λ o.
                IsSlice start (before ++ (p.bytes ++ after)) (o, take (taken p s.chunk) p.bytes))
              (sym i.place) (read-IsSlice start (taken p s.chunk) before p.bytes after),
          tt,
        );
        counted = omega (
          arith,
          i.logged.counted,
          length-take (taken p s.chunk) p.bytes (ground arith),
          sum_by-append (λ w. length w.1) s.log
              ((position s.chunk, take (taken p s.chunk) p.bytes) ∷ []),
        );
      })
]
