-- ===== src/Headers/Hosts.antt =====
-- The hosts that may see credentials.
use go_download.Base.{
  ℕ, zero, suc, ◌-◌, ◌≡◌, ◌≢◌, ◌↔◌, refl, true, false, ◌||◌, not, ◌==◌, [], ◌∷◌, ◌++◌, length,
  length-append, eq_bytes, eq_bytes→eq, eq_bytes_refl, Bytes, arith, Bool-cases, inl, inr, sym, ap,
  ◌∙◌,
}
use go_download.Single.{is_empty}
use go_download.Headers.{drop, has_at, has_suffix, has_zone, copies_to}

-- The same host, or a name below it that is no address with a port or zone.
pub data Covers (parent sub : Bytes) : Type 0 where
  same : parent ≢ [] → sub ≡ parent → Covers parent sub
  below :
      (labels : Bytes)
      → parent ≢ []
      → sub ≡ labels ++ b'.' ∷ parent
      → has_zone sub ≡ false
      → Covers parent sub

split_at :
    (n c : ℕ) (s : Bytes)
    → has_at n c s ≡ true
    → (before : Bytes) × (s ≡ before ++ c ∷ drop (suc n) s)
unfolding has_at
split_at n c [] h = ground (arith, h)
split_at zero c (d ∷ s) h = ([], ap (λ x. x ∷ s) (same_byte d c h))
  where
    same_byte : (d c : ℕ) → (d == c) ≡ true → d ≡ c
    same_byte d c h = ground (arith, h)
split_at (suc n) c (d ∷ s) h = let (before, e) = split_at n c s h in (d ∷ before, ap (λ t. d ∷ t) e)

nonempty : (s : Bytes) → is_empty s ≡ false → s ≢ []
nonempty [] h e = ground (arith, h)
nonempty (c ∷ s) h e = ground (arith, sym (ap is_empty e))

not_empty : (s : Bytes) → s ≢ [] → is_empty s ≡ false
not_empty [] h = absurd (h refl)
not_empty (c ∷ s) h = refl

drop-append : (s t : Bytes) (c : ℕ) → drop (suc (length s)) (s ++ c ∷ t) ≡ t
drop-append [] t c = refl
drop-append (d ∷ s) t c = drop-append s t c

has_at-append : (s t : Bytes) (c : ℕ) → has_at (length s) c (s ++ c ∷ t) ≡ true
unfolding has_at
has_at-append [] t c = ground arith
has_at-append (d ∷ s) t c = has_at-append s t c

copies_to-Covers : (parent sub : Bytes) → copies_to parent sub ≡ true → Covers parent sub
unfolding copies_to
copies_to-Covers parent sub h = elim (Bool-cases (is_empty parent || is_empty sub)) [
  | inl e ↦ ground (arith, h, e)
  | inr e ↦
      let full = nonempty parent (ground (arith, e)) in
      elim (Bool-cases (eq_bytes sub parent)) [
        | inl f ↦ same full (eq_bytes→eq sub parent f)
        | inr f ↦ elim (Bool-cases (has_zone sub || not (has_suffix sub parent))) [
          | inl g ↦ ground (arith, h, e, f, g)
          | inr g ↦
              let (labels, k) =
                split_at (length sub - length parent - 1) b'.' sub (ground (arith, h, e, f, g)) in
              let tail =
                eq_bytes→eq (drop (length sub - length parent) sub) parent (ground (arith, g)) in
              let long : suc (length sub - length parent - 1) ≡ length sub - length parent =
                ground (arith, h, e, f, g) in
              below labels full
                (k ∙ ap (λ t. labels ++ b'.' ∷ t) (ap (λ n. drop n sub) long ∙ tail))
                (ground (arith, g))
        ]
      ]
]

tail-suffix :
    (labels parent : Bytes)
    → has_suffix (labels ++ b'.' ∷ parent) parent ≡ true
      × (has_at
            (length (labels ++ b'.' ∷ parent) - length parent - 1)
            b'.'
            (labels ++ b'.' ∷ parent)
          ≡ true)
tail-suffix labels parent =
    let l = length-append labels (b'.' ∷ parent) in
    let m : length (labels ++ b'.' ∷ parent) - length parent ≡ suc (length labels) =
      omega (arith, l) in
    let n : length (labels ++ b'.' ∷ parent) - length parent - 1 ≡ length labels =
      omega (arith, l) in
    (
      ground (
        arith,
        l,
        ap (λ x. eq_bytes (drop x (labels ++ b'.' ∷ parent)) parent) m,
        ap (λ x. eq_bytes x parent) (drop-append labels parent b'.'),
        eq_bytes_refl parent,
      ),
      ap (λ x. has_at x b'.' (labels ++ b'.' ∷ parent)) n ∙ has_at-append labels parent b'.',
    )

Covers-copies_to : (parent sub : Bytes) → Covers parent sub → copies_to parent sub ≡ true
unfolding copies_to
Covers-copies_to parent sub (same full e) = ground (
  arith,
  not_empty parent full,
  ap is_empty e,
  ap (λ s. eq_bytes s parent) e,
  eq_bytes_refl parent,
)
Covers-copies_to parent sub (below labels full e z) =
    let (s, a) = tail-suffix labels parent in
    let l = length-append labels (b'.' ∷ parent) in
    ground (
      arith,
      not_empty parent full,
      z,
      ap (λ x. has_suffix x parent) e ∙ s,
      ap (λ x. has_at (length x - length parent - 1) b'.' x) e ∙ a,
      ap length e,
      l,
      filled labels parent,
      ap is_empty e,
    )
  where
    filled : (labels parent : Bytes) → is_empty (labels ++ b'.' ∷ parent) ≡ false
    filled [] parent = refl
    filled (c ∷ labels) parent = refl

-- The host test of shouldCopySensitiveHeaders accepts a host exactly if it is the nonempty host of the source,
-- or labels, a dot and that host, without a colon or a percent sign.
pub copies_to↔Covers : (parent sub : Bytes) → (copies_to parent sub ≡ true) ↔ Covers parent sub
copies_to↔Covers parent sub = (copies_to-Covers parent sub, Covers-copies_to parent sub)
