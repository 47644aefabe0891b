-- ===== src/State/Order.antt =====
-- What `load_state` accepts: ranges within the file that do not overlap, in whatever order they are.
use go_download.Base.{
  zero, ℕ, suc, ◌+◌, ◌≤◌, ◌≡◌, refl, ℤ, pos, negsuc, pos_part, true, false, ◌&&◌, leb, ltb, leb_ℤ,
  ◌-ℤ◌, List, [], ◌∷◌, some, sum_by, All, bit, arith,
}
use go_download.State.{
  ChunkState, StateFile, insert_by_off, sort_by_off, ranges_ok, is_malformed, load_state,
}

-- The bytes of a saved range that still need downloading, and all of its bytes.
abbrev pub state_holds : ℕ → ChunkState → ℕ
state_holds b c = bit (leb (pos_part c.off + pos_part c.done) b && ltb b (pos_part c.end))

abbrev pub state_spans : ℕ → ChunkState → ℕ
state_spans b c = bit (leb (pos_part c.off) b && ltb b (pos_part c.end))

-- A saved range as the code reads it after the checks: 0 ≤ off < end ≤ size, 0 ≤ done ≤ end - off.
pub record IsRange (size : ℕ) (c : ChunkState) : Type 0 where
  pub off_pos : c.off ≡ pos (pos_part c.off)
  pub end_pos : c.end ≡ pos (pos_part c.end)
  pub done_pos : c.done ≡ pos (pos_part c.done)
  pub nonempty : suc (pos_part c.off) ≤ pos_part c.end
  pub fits : pos_part c.end ≤ size
  pub within : pos_part c.off + pos_part c.done ≤ pos_part c.end

module _ (f : ChunkState → ℕ) where
  sum_by-insert :
      (c : ChunkState) (cs : List ChunkState) → sum_by f (insert_by_off c cs) ≡ f c + sum_by f cs
  unfolding insert_by_off
  sum_by-insert c [] = refl
  sum_by-insert c (d ∷ ds) = ground (arith, sum_by-insert c ds)

  pub sum_by-sort : (cs : List ChunkState) → sum_by f (sort_by_off cs) ≡ sum_by f cs
  unfolding sort_by_off
  sum_by-sort [] = refl
  sum_by-sort (c ∷ cs) = omega (arith, sum_by-insert c (sort_by_off cs), sum_by-sort cs)

module _ {ℓ} (P : ChunkState → Type ℓ) where
  All-of_insert :
      (c : ChunkState) (cs : List ChunkState) → All P (insert_by_off c cs) → P c × All P cs
  unfolding insert_by_off
  All-of_insert c [] h = h
  All-of_insert c (d ∷ ds) h = ground (arith, All-of_insert c ds)

  pub All-of_sort : (cs : List ChunkState) → All P (sort_by_off cs) → All P cs
  unfolding sort_by_off
  All-of_sort [] h = tt
  All-of_sort (c ∷ cs) h =
      let (first, rest) = All-of_insert c (sort_by_off cs) h in (first, All-of_sort cs rest)

is_malformed-IsRange :
    (size : ℕ) (c : ChunkState) → is_malformed (pos size) c ≡ false → IsRange size c
unfolding ◌-ℤ◌
is_malformed-IsRange size c h = ground arith

ranges_ok-All :
    (size : ℕ) (prev : ℤ) (cs : List ChunkState)
    → ranges_ok (pos size) prev cs ≡ true
    → All (IsRange size) cs
unfolding ranges_ok
ranges_ok-All size prev [] h = tt
ranges_ok-All size prev (c ∷ cs) h =
    (is_malformed-IsRange size c (ground arith), ranges_ok-All size c.end cs (ground arith))

adjacent :
    (p o e size b n : ℕ)
    → p ≤ o
    → suc o ≤ e
    → e ≤ size
    → n ≤ bit (leb e b && ltb b size)
    → bit (leb o b && ltb b e) + n ≤ bit (leb p b && ltb b size)
adjacent p o e size b n h k l m = ground arith

-- Each byte from `prev` on lies in one of the ranges at most.
ranges_ok-spans :
    (size : ℕ) (prev : ℤ) (cs : List ChunkState) (b : ℕ)
    → ranges_ok (pos size) prev cs ≡ true
    → sum_by (state_spans b) cs ≤ bit (leb (pos_part prev) b && ltb b size)
unfolding ranges_ok
ranges_ok-spans size prev [] b h = omega arith
ranges_ok-spans size prev (c ∷ cs) b h =
    let r : IsRange size c = is_malformed-IsRange size c (ground arith) in
    let rest : sum_by (state_spans b) cs ≤ bit (leb (pos_part c.end) b && ltb b size) =
      ranges_ok-spans size c.end cs b (ground arith) in
    let start : pos_part prev ≤ pos_part c.off = ground arith in
    adjacent (pos_part prev) (pos_part c.off) (pos_part c.end) size b _ start r.nonempty r.fits rest

-- What `load_state` promises of a sidecar that it returns.
pub record IsResumable (st : StateFile) : Type 0 where
  pub size_pos : st.size ≡ pos (pos_part st.size)
  pub nonempty : 1 ≤ pos_part st.size
  pub ranges : All (IsRange (pos_part st.size)) st.chunks
  pub apart : (b : ℕ) → sum_by (state_spans b) st.chunks ≤ bit (ltb b (pos_part st.size))

sorted-IsResumable :
    (st : StateFile) (n : ℕ)
    → st.size ≡ pos (suc n)
    → ranges_ok st.size (negsuc 0) (sort_by_off st.chunks) ≡ true
    → IsResumable st
sorted-IsResumable st n e h = record {
  size_pos = rw e refl;
  nonempty = rw e (omega arith);
  ranges = rw e (
      All-of_sort (IsRange (suc n)) st.chunks
        (ranges_ok-All (suc n) (negsuc 0) (sort_by_off st.chunks) (rw e at h)));
  apart = λ b. rw e (
      ground (
        arith,
        sum_by-sort (state_spans b) st.chunks,
        ranges_ok-spans (suc n) (negsuc 0) (sort_by_off st.chunks) b (rw e at h),
      ));
}

positive : (z : ℤ) → leb_ℤ z (pos 0) ≡ false → (n : ℕ) × (z ≡ pos (suc n))
positive (pos zero) h = ground arith
positive (pos (suc n)) h = (n, refl)
positive (negsuc n) h = ground arith

-- `load_state` returns the sidecar as it is, and only one whose ranges lie in the file, hold at least
-- one byte, count no more bytes as done than they have, and do not overlap.
pub load_state-IsResumable :
    (st st' : StateFile) → load_state st ≡ some st' → (st' ≡ st) × IsResumable st
unfolding load_state
load_state-IsResumable st st' h =
    let (n, e) = positive st.size (ground arith) in
    (ground arith, sorted-IsResumable st n e (ground arith))
