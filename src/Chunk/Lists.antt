-- ===== src/Chunk/Lists.antt =====
-- Sums and properties of a list of chunks under the three pointer operations.
use go_download.Base.{◌≢◌, length, refl, ℕ, ◌+◌, ◌≡◌, List, [], ◌∷◌, some, arith, sum_by, All}
use go_download.Chunk.{Chunk, find, update, remove}

module _ (f : Chunk → ℕ) where
  -- A write through a pointer changes a sum by what it changes the chunk.
  pub sum_by-update :
      (i : ℕ) (g : Chunk → Chunk) (cs : List Chunk) {c : Chunk}
      → find i cs ≡ some c
      → sum_by f (update i g cs) + f c ≡ sum_by f cs + f (g c)
  unfolding find update
  sum_by-update i g [] h = ground arith
  sum_by-update i g (x ∷ cs) {c} h = ground (arith, sum_by-update i g cs {c = c})

  pub sum_by-remove :
      (i : ℕ) (cs : List Chunk) {c : Chunk}
      → find i cs ≡ some c
      → sum_by f (remove i cs) + f c ≡ sum_by f cs
  unfolding find remove
  sum_by-remove i [] h = ground arith
  sum_by-remove i (x ∷ cs) {c} h = ground (arith, sum_by-remove i cs {c = c})

module _ {ℓ} (P : Chunk → Type ℓ) where
  pub All-find : (i : ℕ) (cs : List Chunk) {c : Chunk} → find i cs ≡ some c → All P cs → P c
  unfolding find
  All-find i [] h a = ground arith
  All-find i (x ∷ cs) {c} h a = ground (arith, All-find i cs {c = c})

  pub All-update :
      (i : ℕ) (g : Chunk → Chunk) (cs : List Chunk) {c : Chunk}
      → find i cs ≡ some c
      → All P cs
      → P (g c)
      → All P (update i g cs)
  unfolding find update
  All-update i g [] h a p = tt
  All-update i g (x ∷ cs) {c} h a p = ground (arith, All-update i g cs {c = c})

  pub All-remove : (i : ℕ) (cs : List Chunk) → All P cs → All P (remove i cs)
  unfolding remove
  All-remove i [] a = tt
  All-remove i (x ∷ cs) a = ground (arith, All-remove i cs)

pub length-update :
    (i : ℕ) (g : Chunk → Chunk) (cs : List Chunk) → length (update i g cs) ≡ length cs
unfolding update
length-update i g [] = refl
length-update i g (x ∷ cs) = ground (arith, length-update i g cs)

pub find-remove_ne :
    (i j : ℕ) (cs : List Chunk) {c : Chunk}
    → i ≢ j
    → find j cs ≡ some c
    → find j (remove i cs) ≡ some c
unfolding find remove
find-remove_ne i j [] ne h = ground arith
find-remove_ne i j (x ∷ cs) {c} ne h = ground (arith, find-remove_ne i j cs {c = c} ne)

pub find-update :
    (i : ℕ) (g : Chunk → Chunk) (cs : List Chunk) {c : Chunk}
    → find i cs ≡ some c
    → (g c).id ≡ c.id
    → find i (update i g cs) ≡ some (g c)
unfolding find update
find-update i g [] h k = ground arith
find-update i g (x ∷ cs) {c} h k = ground (arith, find-update i g cs {c = c})
