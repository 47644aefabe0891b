-- ===== src/Partial/Slices.antt =====
-- Parts of a body.
use go_download.Base.{
  ℕ, suc, zero, ◌+◌, ◌-◌, ◌≤◌, ◌≡◌, refl, sym, leb, Bool-cases, inl, inr, List, [], ◌∷◌, ◌++◌,
  length, length-append, Bytes, arith, ap, ◌∙◌,
}
use mathlib.Core.List.{append_assoc, append-nil}
use go_download.Partial.{Pull, take, limit_reads}

-- All bytes that the reads give.
abbrev pub body : List Pull → Bytes
body [] = []
body (p ∷ ps) = p.bytes ++ body ps

-- A write puts bytes of the body to their place, the body's first byte being at `start`.
pub record IsSlice (start : ℕ) (whole : Bytes) (w : ℕ × Bytes) : Type 0 where
  pub before : Bytes
  pub after : Bytes
  pub place : w.0 ≡ start + length before
  pub content : whole ≡ before ++ (w.1 ++ after)

-- What `take` leaves.
abbrev pub drop : ℕ → Bytes → Bytes
drop zero s = s
drop (suc n) [] = []
drop (suc n) (c ∷ s) = drop n s

pub take-drop : (n : ℕ) (s : Bytes) → s ≡ take n s ++ drop n s
take-drop zero s = refl
take-drop (suc n) [] = refl
take-drop (suc n) (c ∷ s) = ap (λ t. c ∷ t) (take-drop n s)

pub length-take : (n : ℕ) (s : Bytes) → n ≤ length s → length (take n s) ≡ n
length-take zero s h = refl
length-take (suc n) [] h = omega (arith, h)
length-take (suc n) (c ∷ s) h = omega (arith, length-take n s (omega (arith, h)))

-- The first n bytes of a read that stands after `before`.
pub read-IsSlice :
    (start n : ℕ) (before buf after : Bytes)
    → IsSlice start (before ++ (buf ++ after)) (start + length before, take n buf)
read-IsSlice start n before buf after = record {
  before = before;
  after = drop n buf ++ after;
  place = refl;
  content =
      ap (λ t. before ++ t)
        (ap (λ t. t ++ after) (take-drop n buf) ∙ append_assoc (take n buf) (drop n buf) after);
}

-- Where a slice ends.
pub slice-bound :
    (start : ℕ) (whole : Bytes) (w : ℕ × Bytes)
    → IsSlice start whole w
    → (start ≤ w.0) × (w.0 + length w.1 ≤ start + length whole)
slice-bound start whole w s =
    let l = ap length s.content in
    let m = length-append s.before (w.1 ++ s.after) in
    let n = length-append w.1 s.after in (omega (arith, s.place), omega (arith, s.place, l, m, n))

-- A slice of the first part of a body is one of the body.
pub IsSlice-append :
    {start : ℕ} {part : Bytes} (rest : Bytes) (w : ℕ × Bytes)
    → IsSlice start part w
    → IsSlice start (part ++ rest) w
IsSlice-append rest w s = record {
  before = s.before;
  after = s.after ++ rest;
  place = s.place;
  content =
      ap (λ t. t ++ rest) s.content
      ∙ append_assoc s.before (w.1 ++ s.after) rest
      ∙ ap (λ t. s.before ++ t) (append_assoc w.1 s.after rest);
}

-- What the limited reads give is the first part of the body, and no more than the limit.
pub limit_reads-body :
    (n : ℕ) (ps : List Pull)
    → (rest : Bytes) × (body ps ≡ body (limit_reads n ps) ++ rest)
      × (length (body (limit_reads n ps)) ≤ n)
unfolding limit_reads
limit_reads-body zero ps = (body ps, refl, omega arith)
limit_reads-body (suc n) [] = ([], refl, omega arith)
limit_reads-body (suc n) (p ∷ ps) = elim (Bool-cases (leb (length p.bytes) (suc n))) [
  | inl e ↦
      let (rest, q, l) = limit_reads-body (suc n - length p.bytes) ps in
      let later = body (limit_reads (suc n - length p.bytes) ps) in
      rw (e, limit_reads)
        (
          rest,
          ap (λ t. p.bytes ++ t) q ∙ sym (append_assoc p.bytes later rest),
          ground (arith, e, l, length-append p.bytes later),
        )
  | inr e ↦
      let cut = take (suc n) p.bytes in
      rw (e, limit_reads)
        (
          drop (suc n) p.bytes ++ body ps,
          ap (λ t. t ++ body ps) (take-drop (suc n) p.bytes)
              ∙ append_assoc cut (drop (suc n) p.bytes) (body ps)
              ∙ ap (λ t. t ++ (drop (suc n) p.bytes ++ body ps)) (sym (append-nil cut)),
          ground (arith, length-append cut [], length-take (suc n) p.bytes (ground (arith, e))),
        )
]
