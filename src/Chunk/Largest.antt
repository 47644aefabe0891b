-- ===== src/Chunk/Largest.antt =====
-- The victim that a scan of the chunks selects, and how its pointer is found again by its id.
use go_download.Base.{
  length, ◌≢◌, ℤ, All, ℕ, ◌≤◌, ◌≡◌, refl, List, [], ◌∷◌, none, some, ◌==◌, arith, sum_by, bit, ◌⊎◌,
  inl, inr, leb_ℤ, true, ltb_ℤ, if◌then◌else◌, false, Bool-cases,
}
use go_download.Chunk.{Chunk, find, largest, largest_from, leftover}

abbrev pub Member : Chunk → List Chunk → Type 0
Member v [] = ⊥
Member v (c ∷ cs) = (c ≡ v) ⊎ Member v cs

-- 1 for the chunk with the id, so that sums of it count the chunks with the id.
abbrev pub has_id : ℕ → Chunk → ℕ
has_id i c = bit (c.id == i)

Member-counted : (v : Chunk) (cs : List Chunk) → Member v cs → 1 ≤ sum_by (has_id v.id) cs
Member-counted v [] m = elim m [ ]
Member-counted v (c ∷ cs) (inl e) = ground arith
Member-counted v (c ∷ cs) (inr m) = omega (arith, Member-counted v cs m)

-- Where an id stands only once, a chunk of the list is found by its id.
pub find-Member :
    (v : Chunk) (cs : List Chunk)
    → Member v cs
    → sum_by (has_id v.id) cs ≤ 1
    → find v.id cs ≡ some v
unfolding find
find-Member v [] m h = elim m [ ]
find-Member v (c ∷ cs) (inl e) h = ground arith
find-Member v (c ∷ cs) (inr m) h = ground (arith, Member-counted v cs m, find-Member v cs m)

-- The accumulator of the scan, or a chunk of the list.
largest_from-Member :
    (a : Chunk) (cs : List Chunk) {v : Chunk}
    → largest_from (some a) cs ≡ some v
    → (a ≡ v) ⊎ Member v cs
unfolding largest_from
largest_from-Member a [] h = inl (ground arith)
largest_from-Member a (c ∷ cs) {v} h = elim (Bool-cases (ltb_ℤ (leftover a) (leftover c))) [
  | inl t ↦ inr (largest_from-Member c cs {v = v} (ground arith))
  | inr t ↦ elim (largest_from-Member a cs {v = v} (ground arith)) [
    | inl e ↦ inl e
    | inr m ↦ inr (inr m)
  ]
]

pub largest-Member : (cs : List Chunk) {v : Chunk} → largest cs ≡ some v → Member v cs
unfolding largest largest_from
largest-Member [] h = ground arith
largest-Member (c ∷ cs) {v} h = largest_from-Member c cs {v = v} h

largest_from-total :
    (a : Chunk) (cs : List Chunk) → (v : Chunk) × (largest_from (some a) cs ≡ some v)
unfolding largest_from
largest_from-total a [] = (a, refl)
largest_from-total a (c ∷ cs) =
    largest_from-total (if ltb_ℤ (leftover a) (leftover c) then c else a) cs

-- No chunk of the list has more left than `v`.
abbrev pub IsLargest : Chunk → List Chunk → Type 0
IsLargest v cs = All (λ c. leb_ℤ (leftover c) (leftover v) ≡ true) cs

leb_ℤ_trans : (a b c : ℤ) → leb_ℤ a b ≡ true → leb_ℤ b c ≡ true → leb_ℤ a c ≡ true
leb_ℤ_trans a b c h k = ground arith

leb_ℤ_of_ltb : (a b : ℤ) → ltb_ℤ a b ≡ true → leb_ℤ a b ≡ true
leb_ℤ_of_ltb a b h = ground arith

leb_ℤ_of_not : (a b : ℤ) → ltb_ℤ a b ≡ false → leb_ℤ b a ≡ true
leb_ℤ_of_not a b h = ground arith

largest_from_max :
    (a : Chunk) (cs : List Chunk) {v : Chunk}
    → largest_from (some a) cs ≡ some v
    → (leb_ℤ (leftover a) (leftover v) ≡ true) × IsLargest v cs
unfolding largest_from
largest_from_max a [] {v} h = (ground arith, tt)
largest_from_max a (c ∷ cs) {v} h = elim (Bool-cases (ltb_ℤ (leftover a) (leftover c))) [
  | inl t ↦
      let (top, rest) = largest_from_max c cs {v = v} (ground arith) in
      (
        leb_ℤ_trans (leftover a) (leftover c) (leftover v)
            (leb_ℤ_of_ltb (leftover a) (leftover c) t) top,
        (top, rest),
      )
  | inr t ↦
      let (top, rest) = largest_from_max a cs {v = v} (ground arith) in
      (
        top,
        (
          leb_ℤ_trans (leftover c) (leftover a) (leftover v)
              (leb_ℤ_of_not (leftover a) (leftover c) t) top,
          rest,
        ),
      )
]

pub largest_max : (cs : List Chunk) {v : Chunk} → largest cs ≡ some v → IsLargest v cs
unfolding largest largest_from
largest_max [] h = tt
largest_max (c ∷ cs) {v} h = largest_from_max c cs {v = v} h

pub largest-ne-none : (cs : List Chunk) → 1 ≤ length cs → largest cs ≢ none
unfolding largest largest_from
largest-ne-none [] h e = absurd (omega arith)
largest-ne-none (c ∷ cs) h e = let (v, t) = largest_from-total c cs in cc (t, e)
