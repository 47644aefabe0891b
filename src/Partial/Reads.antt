-- ===== src/Partial/Reads.antt =====
-- What the reads of a partial response leave in the file.
use go_download.Base.{
  ℕ, ◌+◌, ◌≤◌, ◌≡◌, refl, Bool, true, false, ◌&&◌, ◌==◌, List, [], ◌∷◌, ◌++◌, length, length-append,
  sum_by, All, Bytes, arith, sym, ap, subst, ◌∙◌, Bool-cases, Option-cases, inl, inr,
}
use mathlib.Core.List.{append_assoc}
use go_download.Chunk.{position}
use go_download.Single.{eof, broken, PumpEnd, is_empty}
use go_download.System.{Outcome, goes_on, chunk_done, write_failed}
use go_download.Partial.{Pull, Writing, settle, sink, after_sink, read_loop}
use go_download.Partial.Slices.{body, IsSlice}
use go_download.Partial.Claims.{
  IsLogged, keeps_on, more, stops, wrote, sink-lem, IsPlaced, claimed-IsLogged, wrote-IsLogged,
}

settle-logged :
    (base size : ℕ) (buf : Bytes) (stop : Bool) (s : Writing)
    → ((settle base size buf stop s).0.log ≡ s.log)
      × ((settle base size buf stop s).0.chunk ≡ s.chunk)
settle-logged base size buf true s = (refl, refl)
settle-logged base size buf false s = elim (Bool-cases (length buf == size)) [
  | inl e ↦ simp e (refl, refl)
  | inr e ↦ simp e (refl, refl)
]

settle-goes_on :
    (base size : ℕ) (buf : Bytes) (stop : Bool) (s : Writing)
    → keeps_on (settle base size buf stop s).1 ≡ true
    → stop ≡ false
settle-goes_on base size buf true s h = ground (arith, h)
settle-goes_on base size buf false s h = refl

IsLogged-same :
    {start end base : ℕ} {whole : Bytes} {s t : Writing}
    → t.log ≡ s.log
    → t.chunk ≡ s.chunk
    → IsLogged start end base whole s
    → IsLogged start end base whole t
IsLogged-same {start} {end} {base} {whole} {s} {t} l c i = record {
  from = rw c i.from;
  within = rw c i.within;
  shrinks = rw c i.shrinks;
  behind = rw (l, c) i.behind;
  slices = subst (All (IsSlice start whole)) (sym l) i.slices;
  counted =
      ap (λ c. c.written) c ∙ (i.counted ∙ ap (λ x. base + sum_by (λ w. length w.1) x) (sym l));
}

-- The loop's state behind a read: placed behind it if the loop goes on, and well logged in any case.
record IsSunk (start end base : ℕ) (before whole : Bytes) (x : Writing × Outcome) : Type 0 where
  logged : IsLogged start end base whole x.0
  place : keeps_on x.1 ≡ true → position x.0.chunk ≡ start + length before

moves_on :
    (p : Pull) (s : Writing)
    → position s.chunk ≤ s.chunk.end
    → stops p s.chunk ≡ false
    → position (wrote p s).chunk ≡ position s.chunk + length p.bytes
moves_on p s w h = elim (Bool-cases (more p s.chunk)) [
  | inl e ↦ simp e (ground (arith, w, h))
  | inr e ↦ simp e (ground (arith, w, h, e))
]

empty-length : (s : Bytes) → is_empty s ≡ true → length s ≡ 0
empty-length [] h = refl
empty-length (c ∷ s) h = ground (arith, h)

sink-IsSunk :
    (start end base timeout size : ℕ) (before after : Bytes) (p : Pull) (s : Writing)
    → IsPlaced start end base before (before ++ (p.bytes ++ after)) s
    → IsSunk start end base
        (before ++ p.bytes)
        (before ++ (p.bytes ++ after))
        (sink timeout size p s)
sink-IsSunk start end base timeout size before after p s i =
    subst (IsSunk start end base (before ++ p.bytes) (before ++ (p.bytes ++ after)))
      (sym (sink-lem timeout size p s i.logged.within))
      (elim (Bool-cases (is_empty p.bytes)) [
        | inl e ↦ simp e (record {
          logged = i.logged;
          place = λ h. omega (arith, i.place, length-append before p.bytes, empty-length p.bytes e);
        })
        | inr e ↦ elim (Bool-cases (more p s.chunk && p.write_fails)) [
          | inl f ↦
              simp (e, f)
                (record { logged = claimed-IsLogged p s i.logged; place = λ h. ground (arith, h) })
          | inr f ↦
              let x = settle timeout size p.bytes (stops p s.chunk) (wrote p s) in
              let (l, c) = settle-logged timeout size p.bytes (stops p s.chunk) (wrote p s) in
              simp (e, f)
                (record {
                  logged = IsLogged-same l c (wrote-IsLogged start end base before after p s i);
                  place = λ h.
                      let m =
                        moves_on p s i.logged.within
                          (settle-goes_on timeout size p.bytes (stops p s.chunk) (wrote p s) h) in
                      omega (arith, ap position c, m, i.place, length-append before p.bytes);
                })
        ]
      ])

pub read_loop-IsLogged :
    (start end base timeout size : ℕ) (before : Bytes) (pulls : List Pull) (s : Writing)
    → IsPlaced start end base before (before ++ body pulls) s
    → IsLogged start end base (before ++ body pulls) (read_loop timeout size pulls s).0
unfolding read_loop
read_loop-IsLogged start end base timeout size before [] s i = i.logged
read_loop-IsLogged start end base timeout size before (p ∷ ps) s i =
    let x = sink timeout size p s in
    let w = sink-IsSunk start end base timeout size before (body ps) p s i in
    let whole : Bytes = before ++ (p.bytes ++ body ps) in
    after_sink-IsLogged start end base whole p (read_loop timeout size ps x.0) x w.logged (λ h.
      subst (λ b. IsLogged start end base b (read_loop timeout size ps x.0).0)
        (append_assoc before p.bytes (body ps))
        (read_loop-IsLogged start end base timeout size (before ++ p.bytes) ps x.0 (record {
          place = w.place h;
          logged =
              subst (λ b. IsLogged start end base b x.0)
                (sym (append_assoc before p.bytes (body ps))) w.logged;
        })))
  where
    after_sink-IsLogged :
        (start end base : ℕ) (whole : Bytes) (p : Pull) (rest : Writing × PumpEnd)
        (x : Writing × Outcome)
        → IsLogged start end base whole x.0
        → (keeps_on x.1 ≡ true → IsLogged start end base whole rest.0)
        → IsLogged start end base whole (after_sink p rest x).0
    after_sink-IsLogged start end base whole p rest (s, write_failed) l r = l
    after_sink-IsLogged start end base whole p rest (s, chunk_done) l r = l
    after_sink-IsLogged start end base whole p rest (s, goes_on) l r = elim (Option-cases p.error) [
      | inl e ↦ simp (e, after_sink) (r refl)
      | inr (eof, e) ↦ simp (e, after_sink) l
      | inr (broken, e) ↦ simp (e, after_sink) l
    ]
