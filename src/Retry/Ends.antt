-- ===== src/Retry/Ends.antt =====
-- The loop of attempts ends: what each attempt that is not the last uses up.
use go_download.Base.{
  ℕ, suc, ◌+◌, ◌-◌, ◌≤◌, ◌<◌, ◌≡◌, refl, Bool, true, false, ◌&&◌, not, ltb, leb, Option, none, some,
  List, [], ◌∷◌, contains, All, arith, Bool-cases, inl, inr, sum_by, length, Option-cases, subst,
}
use go_download.Retry.{
  Failure, permanent, range_capped, slow_node, too_many_requests, transient, node_rotation, Attempt,
  admit_rotation, Retry, Verdict, charge, throttle, rotate, retry, round, goes_on, download_chunk,
  is_permanent,
}
use go_download.Retry.Rotations.{rotations_left, admit_rotation-left}

-- 1 for an attempt that the loop repeats without any charge: a capped range, which moved the cursor,
-- or a move away from a slow node.
abbrev pub uncharged : Option Failure → ℕ
uncharged none = 0
uncharged (some (permanent c)) = 0
uncharged (some range_capped) = 1
uncharged (some slow_node) = 1
uncharged (some too_many_requests) = 0
uncharged (some transient) = 0
uncharged (some (node_rotation addrs cause)) = 0

-- The addresses of a rotation are in the universe.
abbrev pub Within : List ℕ → Option Failure → Type 0
Within u none = Unit
Within u (some (permanent c)) = Unit
Within u (some range_capped) = Unit
Within u (some slow_node) = Unit
Within u (some too_many_requests) = Unit
Within u (some transient) = Unit
Within u (some (node_rotation addrs cause)) = All (λ a. contains u a ≡ true) addrs

-- The progress of the run rises from `low` and stays within `total`.
abbrev pub Rises : ℕ → ℕ → List Attempt → Type 0
Rises low total [] = Unit
Rises low total (a ∷ rest) =
    (low ≤ a.progress)
    × (a.progress ≤ a.later_progress)
    × (a.later_progress ≤ total)
    × Rises a.later_progress total rest

Rises-from :
    (low mid total : ℕ) (es : List Attempt) → low ≤ mid → Rises mid total es → Rises low total es
Rises-from low mid total [] h g = tt
Rises-from low mid total (a ∷ es) h (x, y, z, r) = (omega arith, y, z, r)

-- Charges, new addresses, the refresh and the bytes of progress that are left.
abbrev pub fuel : ℕ → List ℕ → ℕ → Retry → ℕ
fuel max_retries u total s =
    (max_retries - s.attempt) + rotations_left u s.rotations + (total - s.charged_at)

module _ (max_retries : ℕ) (u : List ℕ) (total : ℕ) where
  -- A step that goes on uses up at least one, but for what is free.
  data Burns (free : ℕ) (a : Attempt) (s : Retry) (r : Retry × Verdict) : Type 0 where
    stops : goes_on r.1 ≡ false → Burns free a s r
    burns :
        fuel max_retries u total r.0 + 1 ≤ fuel max_retries u total s + free
        → r.0.charged_at ≤ a.later_progress
        → Burns free a s r

  charge-Burns :
      (throttled : Bool) (a : Attempt) (s t : Retry)
      → s.charged_at ≤ a.later_progress
      → t.attempt ≡ s.attempt
      → rotations_left u t.rotations ≤ rotations_left u s.rotations
      → Burns 0 a s (charge max_retries throttled a t)
  unfolding charge
  charge-Burns throttled a s t h k l = elim (Bool-cases (leb max_retries (suc t.attempt))) [
    | inl e ↦ rw (e, charge) (stops refl)
    | inr e ↦ elim (Bool-cases throttled) [
      | inl f ↦ rw (e, f, charge) (burns (ground arith) (ground arith))
      | inr f ↦ rw (e, f, charge) (burns (ground arith) (ground arith))
    ]
  ]

  throttle-Burns :
      (a : Attempt) (s : Retry)
      → s.charged_at ≤ a.progress
      → a.progress ≤ a.later_progress
      → a.later_progress ≤ total
      → Burns 0 a s (throttle max_retries a s)
  unfolding throttle
  throttle-Burns a s h k l = elim (Bool-cases (ltb s.charged_at a.progress)) [
    | inl e ↦ rw (e, throttle) (burns (ground arith) (ground arith))
    | inr e ↦ rw (e, throttle) (charge-Burns true a s s (omega (arith, h, k)) refl (omega arith))
  ]

  rotate-Burns :
      (placed : Bool) (addrs : List ℕ) (cause : Option ℕ) (a : Attempt) (s : Retry)
      → s.charged_at ≤ a.later_progress
      → All (λ x. contains u x ≡ true) addrs
      → Burns 0 a s (rotate max_retries placed addrs cause a s)
  unfolding rotate
  rotate-Burns placed addrs cause a s h w =
      let left = admit_rotation-left u placed addrs cause s.rotations w in
      let r = admit_rotation placed addrs cause s.rotations in
      elim (Option-cases r.1.1) [
        | inr (c, g) ↦ rw (g, rotate) (stops refl)
        | inl g ↦ elim (Bool-cases r.1.0) [
          | inl e ↦ rw (g, e, rotate) (burns (ground (arith, left, e)) h)
          | inr e ↦
              rw (g, e, rotate)
                (charge-Burns false a s (record s { rotations = r.0 }) h refl
                  (ground (arith, left)))
        ]
      ]

  retry-Burns :
      (placed : Bool) (f : Failure) (a : Attempt) (s : Retry)
      → s.charged_at ≤ a.progress
      → a.progress ≤ a.later_progress
      → a.later_progress ≤ total
      → Within u (some f)
      → Burns (uncharged (some f)) a s (retry max_retries placed f a s)
  unfolding retry
  retry-Burns placed (permanent c) a s h k l w = stops refl
  retry-Burns placed range_capped a s h k l w = burns (omega arith) (omega (arith, h, k))
  retry-Burns placed slow_node a s h k l w = burns (omega arith) (omega (arith, h, k))
  retry-Burns placed too_many_requests a s h k l w = throttle-Burns a s h k l
  retry-Burns placed transient a s h k l w =
      charge-Burns false a s s (omega (arith, h, k)) refl (omega arith)
  retry-Burns placed (node_rotation addrs cause) a s h k l w =
      rotate-Burns placed addrs cause a s (omega (arith, h, k)) w

  round-Burns :
      (placed : Bool) (a : Attempt) (s : Retry)
      → s.charged_at ≤ a.progress
      → a.progress ≤ a.later_progress
      → a.later_progress ≤ total
      → Within u a.result
      → Burns (uncharged a.result) a s (round max_retries placed a s)
  unfolding round
  round-Burns placed a s h k l w = elim (Option-cases a.result) [
    | inl e ↦ rw (e, round) (stops refl)
    | inr (f, e) ↦ elim (Bool-cases (not (is_permanent f) && a.cancelled)) [
      | inl c ↦ rw (e, c, round) (stops refl)
      | inr c ↦ simp (e, c, round) (retry-Burns placed f a s h k l (subst (Within u) e w))
    ]
  ]

  -- Where the progress of the run only rises, up to a total, the loop is over, with a result, before it has used more attempts than the retry budget, one for
  -- each address that a rotation can try, one for a refresh, one for each byte of progress and one for
  -- each attempt that is repeated without charge.
  pub download_chunk-ends :
      (placed : Bool) (es : List Attempt) (s : Retry)
      → Rises s.charged_at total es
      → All (λ a. Within u a.result) es
      → fuel max_retries u total s + sum_by (λ a. uncharged a.result) es < length es
      → goes_on (download_chunk max_retries placed es s).1 ≡ false
  unfolding download_chunk
  download_chunk-ends placed [] s g w enough = ground arith
  download_chunk-ends placed (a ∷ es) s g w enough = elim (round-Burns placed a s g.0 g.1 g.2 w.0) [
    | stops e ↦ rw (e, download_chunk) e
    | burns less at ↦ elim (Bool-cases (goes_on (round max_retries placed a s).1)) [
      | inr e ↦ rw (e, download_chunk) e
      | inl e ↦
          rw (e, download_chunk)
            (download_chunk-ends placed es (round max_retries placed a s).0
              (Rises-from _ _ total es at g.3) w.1 (omega arith))
    ]
  ]
