-- ===== src/State/Save.antt =====
-- The converse of `load_state-IsResumable`: what `load_state` accepts, whatever the order it is in.
use go_download.Base.{
  ◌⊎◌, ℕ, suc, ◌+◌, ◌≤◌, ◌≡◌, refl, ℤ, pos, negsuc, pos_part, true, false, leb_ℤ, ltb_ℤ, ◌-ℤ◌, List,
  [], ◌∷◌, some, sum_by, All, All-map, arith, Bool-cases, inl, inr, length, ◌≢◌,
}
use go_download.State.{
  ChunkState, StateFile, insert_by_off, sort_by_off, ranges_ok, is_malformed, load_state,
  source_id_len, state_version,
}
use go_download.State.Order.{state_spans, IsRange, sum_by-sort}

abbrev AtLeast : ChunkState → ChunkState → Type 0
AtLeast c d = leb_ℤ c.off d.off ≡ true

abbrev IsSorted : List ChunkState → Type 0
IsSorted [] = Unit
IsSorted (c ∷ cs) = All (AtLeast c) cs × IsSorted cs

module _ {ℓ} (P : ChunkState → Type ℓ) where
  All-insert : (c : ChunkState) (cs : List ChunkState) → P c → All P cs → All P (insert_by_off c cs)
  unfolding insert_by_off
  All-insert c [] p h = (p, tt)
  All-insert c (d ∷ ds) p h = ground (arith, All-insert c ds p h.1)

  All-sort : (cs : List ChunkState) → All P cs → All P (sort_by_off cs)
  unfolding sort_by_off
  All-sort [] h = tt
  All-sort (c ∷ cs) h = All-insert c (sort_by_off cs) h.0 (All-sort cs h.1)

AtLeast-trans : (a b c : ChunkState) → AtLeast a b → AtLeast b c → AtLeast a c
AtLeast-trans a b c h k = ground arith

AtLeast-total : (a b : ChunkState) → leb_ℤ a.off b.off ≡ false → AtLeast b a
AtLeast-total a b h = ground arith

insert-IsSorted :
    (c : ChunkState) (cs : List ChunkState) → IsSorted cs → IsSorted (insert_by_off c cs)
unfolding insert_by_off
insert-IsSorted c [] h = (tt, tt)
insert-IsSorted c (d ∷ ds) h = elim (Bool-cases (leb_ℤ c.off d.off)) [
  | inl e ↦
      rw (e, insert_by_off)
        ((e, All-map (AtLeast d) (AtLeast c) ds (λ x k. AtLeast-trans c d x e k) h.0), h)
  | inr e ↦
      rw (e, insert_by_off)
        (All-insert (AtLeast d) c ds (AtLeast-total c d e) h.0, insert-IsSorted c ds h.1)
]

sort-IsSorted : (cs : List ChunkState) → IsSorted (sort_by_off cs)
unfolding sort_by_off
sort-IsSorted [] = tt
sort-IsSorted (c ∷ cs) = insert-IsSorted c (sort_by_off cs) (sort-IsSorted cs)

IsRange-is_malformed :
    (size : ℕ) (c : ChunkState) → IsRange size c → is_malformed (pos size) c ≡ false
unfolding ◌-ℤ◌
IsRange-is_malformed size c r = ground (arith, r)

-- Two sorted ranges that share no byte.
not_before :
    (size : ℕ) (c d : ChunkState) (n : ℕ)
    → IsRange size c
    → IsRange size d
    → AtLeast c d
    → state_spans (pos_part d.off) c + (state_spans (pos_part d.off) d + n) ≤ 1
    → ltb_ℤ d.off c.end ≡ false
not_before size c d n r q h k = ground (arith, r, q)

sorted-ranges_ok :
    (size : ℕ) (prev : ℤ) (cs : List ChunkState)
    → All (IsRange size) cs
    → IsSorted cs
    → ((b : ℕ) → sum_by (state_spans b) cs ≤ 1)
    → All (λ c. ltb_ℤ c.off prev ≡ false) cs
    → ranges_ok (pos size) prev cs ≡ true
unfolding ranges_ok
sorted-ranges_ok size prev [] r s a p = refl
sorted-ranges_ok size prev (c ∷ cs) r s a p =
    rw (IsRange-is_malformed size c r.0, p.0)
      (sorted-ranges_ok size c.end cs r.1 s.1 (λ b. omega (arith, a b)) (after cs r.1 s.0 a))
  where
    after :
        (ds : List ChunkState)
        → All (IsRange size) ds
        → All (AtLeast c) ds
        → ((b : ℕ) → state_spans b c + sum_by (state_spans b) ds ≤ 1)
        → All (λ d. ltb_ℤ d.off c.end ≡ false) ds
    after [] q h k = tt
    after (d ∷ ds) q h k = (
      not_before size c d (sum_by (state_spans (pos_part d.off)) ds) r.0 q.0 h.0
          (k (pos_part d.off)),
      after ds q.1 h.1 (λ b. omega (arith, k b)),
    )

-- A sidecar with the right version, an identity of the right length, a positive size and a validator
-- is loaded as it is if its ranges lie in the file, are not empty and share no byte.
pub load_state-accepts :
    (st : StateFile) (n : ℕ)
    → st.version ≡ state_version
    → length st.source_id ≡ source_id_len
    → st.size ≡ pos (suc n)
    → (length st.etag ≢ 0) ⊎ (length st.last_modified ≢ 0)
    → All (IsRange (suc n)) st.chunks
    → ((b : ℕ) → sum_by (state_spans b) st.chunks ≤ 1)
    → load_state st ≡ some st
unfolding load_state
load_state-accepts st n ve so si va ra ap =
    let ok : ranges_ok st.size (negsuc 0) (sort_by_off st.chunks) ≡ true = rw si (
      sorted-ranges_ok (suc n) (negsuc 0) (sort_by_off st.chunks)
        (All-sort (IsRange (suc n)) st.chunks ra) (sort-IsSorted st.chunks)
        (λ b. omega (arith, ap b, sum_by-sort (state_spans b) st.chunks))
        (All-sort (λ c. ltb_ℤ c.off (negsuc 0) ≡ false) st.chunks
          (All-map (IsRange (suc n)) (λ c. ltb_ℤ c.off (negsuc 0) ≡ false) st.chunks
            (λ c r. ground (arith, r)) ra))) in
    ground arith
