-- ===== src/Single/Pumps.antt =====
-- What `pump` puts into the file of a single stream.
use go_download.Base.{
  ◌≡◌, refl, ℤ, true, ◌&&◌, not, none, some, List, [], ◌∷◌, ◌++◌, Bytes, Bool-cases, Option-cases,
  inl, inr, sym, ◌∙◌,
}
use mathlib.Core.List.{append_assoc}
use go_download.Single.{
  eof, broken, Read, PumpEnd, sink_done, write_error, body_eof, body_broken, starved, reached,
  is_empty, pump,
}

-- All bytes that the reads of a body give.
abbrev pub body : List Read → Bytes
body [] = []
body (r ∷ rs) = r.bytes ++ body rs

abbrev pub Prefix : Bytes → Bytes → Type 0
Prefix p s = (rest : Bytes) × (s ≡ p ++ rest)

pub pump-Prefix :
    (expected : ℤ) (rs : List Read) (file : Bytes)
    → Prefix (pump expected rs file).0 (file ++ body rs)
unfolding pump
pump-Prefix expected [] file = ([], refl)
pump-Prefix expected (r ∷ rs) file =
    let shift = sym (append_assoc file r.bytes (body rs)) in
    elim (Bool-cases (not (is_empty r.bytes) && r.write_fails)) [
      | inl w ↦ simp (w, pump) (r.bytes ++ body rs, refl)
      | inr w ↦ elim (Bool-cases (reached expected (file ++ r.bytes))) [
        | inl d ↦ simp (w, d, pump) (body rs, shift)
        | inr d ↦ elim (Option-cases r.error) [
          | inl e ↦
              let (rest, ih) = pump-Prefix expected rs (file ++ r.bytes) in
              simp (w, d, e, pump) (rest, shift ∙ ih)
          | inr (eof, e) ↦ simp (w, d, e, pump) (body rs, shift)
          | inr (broken, e) ↦ simp (w, d, e, pump) (body rs, shift)
        ]
      ]
    ]

-- A body that ends, after these bytes, with the EOF of a read that comes before any failure.
pub data Ends : List Read → Bytes → Type 0 where
  last : {r : Read} {rs : List Read} → r.error ≡ some eof → Ends (r ∷ rs) r.bytes
  more :
      {r : Read} {rs : List Read} {s : Bytes}
      → r.error ≡ none
      → Ends rs s
      → Ends (r ∷ rs) (r.bytes ++ s)

-- The sink is done only when the declared length is reached, and the body is over only at its EOF.
pub record IsReached (expected : ℤ) (file : Bytes) : Type 0 where
  pub enough : reached expected file ≡ true

abbrev pub Pumped : ℤ → List Read → Bytes → Bytes × PumpEnd → Type 0
Pumped expected rs before (file, sink_done) = IsReached expected file
Pumped expected rs before (file, body_eof) = (s : Bytes) × (file ≡ before ++ s) × Ends rs s
Pumped expected rs before (file, write_error) = Unit
Pumped expected rs before (file, body_broken) = Unit
Pumped expected rs before (file, starved) = Unit

Pumped-more :
    (expected : ℤ) (r : Read) (rs : List Read) (before : Bytes) (x : Bytes × PumpEnd)
    → r.error ≡ none
    → Pumped expected rs (before ++ r.bytes) x
    → Pumped expected (r ∷ rs) before x
Pumped-more expected r rs before (file, sink_done) e p = p
Pumped-more expected r rs before (file, write_error) e p = tt
Pumped-more expected r rs before (file, body_broken) e p = tt
Pumped-more expected r rs before (file, starved) e p = tt
Pumped-more expected r rs before (file, body_eof) e (s, q, n) =
    (r.bytes ++ s, q ∙ append_assoc before r.bytes s, more e n)

pub pump-Pumped :
    (expected : ℤ) (rs : List Read) (file : Bytes) → Pumped expected rs file (pump expected rs file)
unfolding pump
pump-Pumped expected [] file = tt
pump-Pumped expected (r ∷ rs) file = elim (Bool-cases (not (is_empty r.bytes) && r.write_fails)) [
  | inl w ↦ simp (w, pump) tt
  | inr w ↦ elim (Bool-cases (reached expected (file ++ r.bytes))) [
    | inl d ↦ simp (w, d, pump) (record { enough = d })
    | inr d ↦ elim (Option-cases r.error) [
      | inl e ↦
          simp (w, d, e, pump)
            (Pumped-more expected r rs file (pump expected rs (file ++ r.bytes)) e
              (pump-Pumped expected rs (file ++ r.bytes)))
      | inr (eof, e) ↦ simp (w, d, e, pump) (r.bytes, refl, last e)
      | inr (broken, e) ↦ simp (w, d, e, pump) tt
    ]
  ]
]
