-- ===== src/Retry/Charges.antt =====
-- What the loop charges, and when it gives up.
use go_download.Base.{
  ℕ, suc, ◌+◌, ◌-◌, ◌≤◌, ◌≡◌, refl, Bool, true, false, ◌&&◌, ◌⊎◌, not, ltb, leb, Option, List, [],
  ◌∷◌, arith, Bool-cases, inl, inr, sum_by, Option-cases, ap, sym, ◌∙◌,
}
use go_download.Retry.{
  Failure, permanent, range_capped, slow_node, too_many_requests, transient, node_rotation, Attempt,
  admit_rotation, Retry, Verdict, done, interrupted, max_retry, again, failed, waits, charge,
  throttle, rotate, retry, round, goes_on, download_chunk, is_permanent,
}
use go_download.Retry.Ends.{uncharged}

abbrev pub gives_up : Verdict → Bool
gives_up done = false
gives_up interrupted = false
gives_up max_retry = true
gives_up again = false
gives_up (failed c) = false
gives_up (waits d) = false

-- A round raises the attempt by at most one, and gives up only at the budget.
record IsFair (max_retries : ℕ) (s : Retry) (r : Retry × Verdict) : Type 0 where
  counts : r.0.attempt ≤ suc s.attempt
  late : (gives_up r.1 ≡ false) ⊎ (max_retries ≤ r.0.attempt)

charge-IsFair :
    (max_retries : ℕ) (throttled : Bool) (a : Attempt) (s t : Retry)
    → t.attempt ≡ s.attempt
    → IsFair max_retries s (charge max_retries throttled a t)
unfolding charge
charge-IsFair max_retries throttled a s t h = elim (Bool-cases (leb max_retries (suc t.attempt))) [
  | inl e ↦ rw (e, charge) (record { counts = omega arith; late = inr (ground arith) })
  | inr e ↦ elim (Bool-cases throttled) [
    | inl f ↦ rw (e, f, charge) (record { counts = omega arith; late = ground arith })
    | inr f ↦ rw (e, f, charge) (record { counts = omega arith; late = ground arith })
  ]
]

throttle-IsFair :
    (max_retries : ℕ) (a : Attempt) (s : Retry) → IsFair max_retries s (throttle max_retries a s)
unfolding throttle
throttle-IsFair max_retries a s = elim (Bool-cases (ltb s.charged_at a.progress)) [
  | inl e ↦ rw (e, throttle) (record { counts = omega arith; late = ground arith })
  | inr e ↦ rw (e, throttle) (charge-IsFair max_retries true a s s refl)
]

rotate-IsFair :
    (max_retries : ℕ) (placed : Bool) (addrs : List ℕ) (cause : Option ℕ) (a : Attempt) (s : Retry)
    → IsFair max_retries s (rotate max_retries placed addrs cause a s)
unfolding rotate
rotate-IsFair max_retries placed addrs cause a s =
    let r = admit_rotation placed addrs cause s.rotations in
    elim (Option-cases r.1.1) [
      | inr (c, g) ↦ rw (g, rotate) (record { counts = omega arith; late = inl refl })
      | inl g ↦ elim (Bool-cases r.1.0) [
        | inl e ↦ rw (g, e, rotate) (record { counts = omega arith; late = inl refl })
        | inr e ↦
            rw (g, e, rotate)
              (charge-IsFair max_retries false a s (record s { rotations = r.0 }) refl)
      ]
    ]

-- What a failure may raise the attempt by.
abbrev pub chargeable : Option Failure → ℕ
chargeable f = 1 - uncharged f

retry-IsFair :
    (max_retries : ℕ) (placed : Bool) (f : Failure) (a : Attempt) (s : Retry)
    → IsFair max_retries s (retry max_retries placed f a s)
unfolding retry
retry-IsFair max_retries placed (permanent c) a s = record { counts = omega arith; late = inl refl }
retry-IsFair max_retries placed range_capped a s = record { counts = omega arith; late = inl refl }
retry-IsFair max_retries placed slow_node a s = record { counts = omega arith; late = inl refl }
retry-IsFair max_retries placed too_many_requests a s = throttle-IsFair max_retries a s
retry-IsFair max_retries placed transient a s = charge-IsFair max_retries false a s s refl
retry-IsFair max_retries placed (node_rotation addrs cause) a s =
    rotate-IsFair max_retries placed addrs cause a s

round-IsFair :
    (max_retries : ℕ) (placed : Bool) (a : Attempt) (s : Retry)
    → IsFair max_retries s (round max_retries placed a s)
unfolding round
round-IsFair max_retries placed a s = elim (Option-cases a.result) [
  | inl e ↦ rw (e, round) (record { counts = omega arith; late = inl refl })
  | inr (f, e) ↦ elim (Bool-cases (not (is_permanent f) && a.cancelled)) [
    | inl c ↦ rw (e, c, round) (record { counts = omega arith; late = inl refl })
    | inr c ↦ simp (e, c, round) (retry-IsFair max_retries placed f a s)
  ]
]

round-uncharged :
    (max_retries : ℕ) (placed : Bool) (a : Attempt) (s : Retry)
    → uncharged a.result ≡ 1
    → (round max_retries placed a s).0.attempt ≤ s.attempt
unfolding round retry
round-uncharged max_retries placed a s h = ground arith

uncharged-cases : (f : Option Failure) → (uncharged f ≡ 0) ⊎ (uncharged f ≡ 1)
uncharged-cases f = ground arith

round-charges :
    (max_retries : ℕ) (placed : Bool) (a : Attempt) (s : Retry)
    → (round max_retries placed a s).0.attempt ≤ s.attempt + chargeable a.result
round-charges max_retries placed a s = elim (uncharged-cases a.result) [
  | inl e ↦ omega (arith, e, (round-IsFair max_retries placed a s).counts)
  | inr e ↦ omega (arith, e, round-uncharged max_retries placed a s e)
]

goes_further :
    (max_retries : ℕ) (placed : Bool) (a : Attempt) (es : List Attempt) (s : Retry)
    → goes_on (round max_retries placed a s).1 ≡ true
    → download_chunk max_retries placed (a ∷ es) s
      ≡ download_chunk max_retries placed es (round max_retries placed a s).0
unfolding download_chunk
goes_further max_retries placed a es s e = rw (e, download_chunk) refl

stops_here :
    (max_retries : ℕ) (placed : Bool) (a : Attempt) (es : List Attempt) (s : Retry)
    → goes_on (round max_retries placed a s).1 ≡ false
    → download_chunk max_retries placed (a ∷ es) s ≡ round max_retries placed a s
unfolding download_chunk
stops_here max_retries placed a es s e = rw (e, download_chunk) refl

-- If the loop gives up, the attempts made so far and those of the list that can be charged, which
-- capped ranges and moves away from slow nodes cannot, are at least as many as MaxRetries.
pub download_chunk-gives_up :
    (max_retries : ℕ) (placed : Bool) (es : List Attempt) (s : Retry)
    → gives_up (download_chunk max_retries placed es s).1 ≡ true
    → max_retries ≤ s.attempt + sum_by (λ a. chargeable a.result) es
unfolding download_chunk
download_chunk-gives_up max_retries placed [] s h = ground (arith, h)
download_chunk-gives_up max_retries placed (a ∷ es) s h =
    let r = round max_retries placed a s in
    let fair = round-IsFair max_retries placed a s in
    elim (Bool-cases (goes_on r.1)) [
      | inl e ↦
          let ih =
            download_chunk-gives_up max_retries placed es r.0
              (ap (λ x. gives_up x.1) (sym (goes_further max_retries placed a es s e)) ∙ h) in
          omega (arith, ih, round-charges max_retries placed a s)
      | inr e ↦
          let g = ap (λ x. gives_up x.1) (sym (stops_here max_retries placed a es s e)) ∙ h in
          ground (arith, g, fair.late, round-charges max_retries placed a s)
    ]
