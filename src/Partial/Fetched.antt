-- ===== src/Partial/Fetched.antt =====
-- What a partial response leaves in the file, and what a capped one is.
use go_download.Base.{
  eq_ℤ-pos, ℕ, pos, pos_part, eq_ℤ, some, ◌⊎◌, ◌-◌, ◌+◌, ◌≤◌, ◌<◌, ◌≡◌, refl, Bool, true, false,
  ◌&&◌, ltb, leb, if◌then◌else◌, List, [], length, sum_by, All, All-map, Bytes, arith, sym, ap,
  subst, Bool-cases, Option-cases, inl, inr,
}
use go_download.Chunk.{position}
use go_download.Response.{ContentRange, parse_content_range}
use go_download.Single.{PumpEnd, sink_done, write_error, body_eof, body_broken, starved}
use go_download.Partial.{
  Pull, Writing, limit_reads, read_loop, Wanted, PartEnd, part_done, wrong_part, write_failure,
  capped, short, broken_off, hanging, is_wrong, response_end, close_part, read_partial_response,
}
use go_download.Partial.Slices.{body, IsSlice, slice-bound, IsSlice-append, limit_reads-body}
use go_download.Partial.Reads.{read_loop-IsLogged}

close_part-same : (q : Wanted) (limit : ℕ) (x : Writing × PumpEnd) → (close_part q limit x).0 ≡ x.0
unfolding close_part
close_part-same q limit (s, sink_done) = refl
close_part-same q limit (s, write_error) = refl
close_part-same q limit (s, body_broken) = refl
close_part-same q limit (s, starved) = refl
close_part-same q limit (s, body_eof) = refl

-- What a response may leave of the chunk with this cursor and this end: every write puts bytes of the body
-- to their place behind the old cursor and before the new one, the new cursor is not beyond the chunk's end
-- of then, which is not beyond the old one, and the chunk counts the bytes written.
pub record IsRight (start end base : ℕ) (pulls : List Pull) (s : Writing) : Type 0 where
  pub slices : All (IsSlice start (body pulls)) s.log
  pub behind : All (λ w. w.0 + length w.1 ≤ position s.chunk) s.log
  pub from : start ≤ position s.chunk
  pub within : position s.chunk ≤ s.chunk.end
  pub shrinks : s.chunk.end ≤ end
  pub counted : s.chunk.written ≡ base + sum_by (λ w. length w.1) s.log

-- The header's range begins at this offset of the resource, and no write goes beyond its end.
pub record IsDeclared (start : ℕ) (header : Bytes) (s : Writing) : Type 0 where
  pub range : ContentRange
  pub parsed : parse_content_range header ≡ some range
  pub begins : range.start ≡ pos start
  pub inside : All (λ w. w.0 + length w.1 ≤ pos_part range.end + 1) s.log

-- A response is used only if its range is as asked for.
abbrev pub IsFetched : ℕ → ℕ → ℕ → Bytes → List Pull → Writing → Type 0
IsFetched start end base header pulls s =
    IsRight start end base pulls s × ((s.log ≡ []) ⊎ IsDeclared start header s)

pub untouched-IsRight :
    (pulls : List Pull) (s : Writing)
    → s.log ≡ []
    → position s.chunk ≤ s.chunk.end
    → IsRight (position s.chunk) s.chunk.end s.chunk.written pulls s
untouched-IsRight pulls s l h = record {
  slices = rw l tt;
  behind = rw l tt;
  from = omega arith;
  within = h;
  shrinks = omega arith;
  counted = rw l (omega arith);
}

wrong-begins :
    (q : Wanted) (r : ContentRange) → is_wrong q r ≡ false → eq_ℤ r.start (pos q.cursor) ≡ true
wrong-begins q r h = ground (arith, h)

response_end-beyond :
    (q : Wanted) (r : ContentRange)
    → q.cursor < q.end
    → is_wrong q r ≡ false
    → q.cursor < response_end q r
response_end-beyond q r todo f = ground (arith, f, todo)

response_end-declared : (q : Wanted) (r : ContentRange) → response_end q r ≤ pos_part r.end + 1
response_end-declared q r = ground arith

read_loop-IsFetched :
    (timeout size : ℕ) (q : Wanted) (r : ContentRange) (header : Bytes) (pulls : List Pull)
    (s : Writing)
    → position s.chunk ≡ q.cursor
    → s.log ≡ []
    → q.cursor < q.end
    → s.chunk.end ≡ q.end
    → parse_content_range header ≡ some r
    → is_wrong q r ≡ false
    → IsFetched q.cursor q.end s.chunk.written header pulls
        (read_loop timeout size (limit_reads (response_end q r - q.cursor) pulls) s).0
read_loop-IsFetched timeout size q r header pulls s c l todo whole e f =
    let n = response_end q r - q.cursor in
    let ps = limit_reads n pulls in
    let t = (read_loop timeout size ps s).0 in
    let (rest, same, few) = limit_reads-body n pulls in
    let beyond = response_end-beyond q r todo f in
    let i = read_loop-IsLogged q.cursor q.end s.chunk.written timeout size [] ps s (record {
      place = omega (arith, c);
      logged = record {
        from = omega (arith, c);
        within = omega (arith, c, todo, whole);
        shrinks = omega (arith, whole);
        behind = rw l tt;
        slices = rw l tt;
        counted = rw l (omega arith);
      };
    }) in
    (
      record {
        slices =
            subst (λ b. All (IsSlice q.cursor b) t.log) (sym same)
              (All-map _ _ t.log (λ w x. IsSlice-append rest w x) i.slices);
        behind = i.behind;
        from = i.from;
        within = i.within;
        shrinks = i.shrinks;
        counted = i.counted;
      },
      inr (record {
        range = r;
        parsed = e;
        begins = eq_ℤ-pos r.start q.cursor (wrong-begins q r f);
        inside =
            All-map _ _ t.log
              (λ w x. omega (
                arith,
                (slice-bound q.cursor (body ps) w x).1,
                few,
                beyond,
                response_end-declared q r,
              ))
              i.slices;
      }),
    )

-- The writes that a 206 leads to, however the other workers split or take over the chunk meanwhile and
-- however the response ends.
pub read_partial_response-IsFetched :
    (timeout size : ℕ) (q : Wanted) (header : Bytes) (pulls : List Pull) (s : Writing)
    → position s.chunk ≡ q.cursor
    → s.log ≡ []
    → q.cursor < q.end
    → s.chunk.end ≡ q.end
    → IsFetched q.cursor q.end s.chunk.written header pulls
        (read_partial_response timeout size q header pulls s).0
unfolding read_partial_response
read_partial_response-IsFetched timeout size q header pulls s c l todo whole =
    let same : IsRight q.cursor q.end s.chunk.written pulls s =
      subst (λ n. IsRight n q.end s.chunk.written pulls s) c
        (subst (λ n. IsRight (position s.chunk) n s.chunk.written pulls s) whole
          (untouched-IsRight pulls s l (omega (arith, c, todo, whole)))) in
    elim (Option-cases (parse_content_range header)) [
      | inl e ↦ simp (e, read_partial_response) (same, inl l)
      | inr (r, e) ↦ elim (Bool-cases (is_wrong q r)) [
        | inl f ↦ simp (e, f, read_partial_response) (same, inl l)
        | inr f ↦
            let x = read_loop timeout size (limit_reads (response_end q r - q.cursor) pulls) s in
            rw (e, f, read_partial_response)
              (subst (IsFetched q.cursor q.end s.chunk.written header pulls)
                (sym (close_part-same q (response_end q r) x))
                (read_loop-IsFetched timeout size q r header pulls s c l todo whole e f))
      ]
    ]

abbrev is_capped : PartEnd → Bool
is_capped part_done = false
is_capped wrong_part = false
is_capped write_failure = false
is_capped capped = true
is_capped short = false
is_capped broken_off = false
is_capped hanging = false

if-capped : (t : Bool) → (if t then capped else short) ≡ capped → t ≡ true
if-capped true h = refl
if-capped false h = ground (arith, ap is_capped h)

close_part-capped :
    (q : Wanted) (limit : ℕ) (x : Writing × PumpEnd)
    → (close_part q limit x).1 ≡ capped
    → (limit ≤ position (close_part q limit x).0.chunk) × (limit < q.end)
unfolding close_part
close_part-capped q limit (s, sink_done) h = ground (arith, ap is_capped h)
close_part-capped q limit (s, write_error) h = ground (arith, ap is_capped h)
close_part-capped q limit (s, body_broken) h = ground (arith, ap is_capped h)
close_part-capped q limit (s, starved) h = ground (arith, ap is_capped h)
close_part-capped q limit (s, body_eof) h =
    ground (arith, if-capped (ltb limit q.end && leb limit (position s.chunk)) h)

reaches : {a b c : ℕ} → a < b → b ≤ c → a < c
reaches h k = omega (arith, h, k)

-- A response that ends in errRangeCapped has moved the owner's cursor.
pub read_partial_response-capped :
    (timeout size : ℕ) (q : Wanted) (header : Bytes) (pulls : List Pull) (s : Writing)
    → q.cursor < q.end
    → (read_partial_response timeout size q header pulls s).1 ≡ capped
    → q.cursor < position (read_partial_response timeout size q header pulls s).0.chunk
unfolding read_partial_response
read_partial_response-capped timeout size q header pulls s todo =
    elim (Option-cases (parse_content_range header)) [
      | inl e ↦ simp (e, read_partial_response) (λ h. ground (arith, ap is_capped h))
      | inr (r, e) ↦ elim (Bool-cases (is_wrong q r)) [
        | inl f ↦ simp (e, f, read_partial_response) (λ h. ground (arith, ap is_capped h))
        | inr f ↦
            simp (e, f, read_partial_response)
              (λ h.
                reaches (response_end-beyond q r todo f)
                  (close_part-capped q (response_end q r)
                    (read_loop timeout size (limit_reads (response_end q r - q.cursor) pulls) s)
                    h).0)
      ]
    ]
