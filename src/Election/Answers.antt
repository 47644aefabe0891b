-- ===== src/Election/Answers.antt =====
-- What the election leads to.
use go_download.Base.{
  ℕ, zero, suc, ◌≡◌, ◌≤◌, refl, ℤ, pos, Bool, true, false, ◌&&◌, not, ◌==◌, List, [], ◌∷◌, ltb_ℤ,
  length, arith, Bool-cases, Option-cases, inl, inr, ap, subst, ◌∙◌,
}
use go_download.Response.{
  Reply, Answer, proceed, empty_resource, retry_later, give_up, wrong_range, mode_of, plan,
  check_single_status, unknown_mode, status_ok, status_partial_content,
  status_range_not_satisfiable, is_retryable_status,
}
use go_download.Response.Plans.{plan-check_single_status, plan-bound}
use go_download.Election.{
  Try, Ballot, elected, turned_away, interrupted, build_error, exhausted, pending, accepts, judge,
  elect_from, elect, election_attempts,
}

abbrev pub is_pending : Ballot → Bool
is_pending (elected r) = false
is_pending (turned_away n) = false
is_pending interrupted = false
is_pending build_error = false
is_pending exhausted = false
is_pending pending = true

-- A ballot that names a response names an accepted one.
abbrev pub IsAccepted : Ballot → Type 0
IsAccepted (elected r) = accepts r ≡ true
IsAccepted (turned_away n) = Unit
IsAccepted interrupted = Unit
IsAccepted build_error = Unit
IsAccepted exhausted = Unit
IsAccepted pending = Unit

judge-IsAccepted : (rest : Ballot) (r : Reply) → IsAccepted rest → IsAccepted (judge rest r)
unfolding judge
judge-IsAccepted rest r h = elim (Bool-cases (accepts r)) [
  | inl e ↦ simp (e, judge) refl
  | inr e ↦ elim (Bool-cases (is_retryable_status r.status)) [
    | inl f ↦ simp (e, f, judge) h
    | inr f ↦ simp (e, f, judge) tt
  ]
]

elect_from-IsAccepted :
    (left : ℕ) (first : Bool) (tries : List Try) → IsAccepted (elect_from left first tries)
unfolding elect_from
elect_from-IsAccepted zero first tries = tt
elect_from-IsAccepted (suc left) first [] = tt
elect_from-IsAccepted (suc left) first (t ∷ tries) =
    elim (Bool-cases (not first && t.sleep_fails)) [
      | inl e ↦ simp (e, elect_from) tt
      | inr e ↦ elim (Bool-cases t.build_fails) [
        | inl f ↦ simp (e, f, elect_from) tt
        | inr f ↦ elim (Option-cases t.reply) [
          | inr (r, g) ↦
              simp (e, f, g, elect_from)
                (judge-IsAccepted (elect_from left false tries) r
                  (elect_from-IsAccepted left false tries))
          | inl g ↦ elim (Bool-cases t.cancelled) [
            | inl k ↦ simp (e, f, g, k, elect_from) tt
            | inr k ↦ simp (e, f, g, k, elect_from) (elect_from-IsAccepted left false tries)
          ]
        ]
      ]
    ]

-- checkSingleStatus goes on to the body, or takes the resource to be empty.
abbrev pub is_usable : Answer → Bool
is_usable proceed = true
is_usable empty_resource = true
is_usable retry_later = false
is_usable give_up = false
is_usable wrong_range = false

check-ok :
    (r : Reply) (total : ℤ)
    → (r.status == status_ok) ≡ true
    → check_single_status r true total ≡ proceed
unfolding check_single_status
check-ok r total e = simp (e, check_single_status) refl

mode_of-empty :
    (r : Reply)
    → r.status ≡ status_range_not_satisfiable
    → mode_of r ≡ record unknown_mode { total = pos 0; initial_usable = true }
unfolding mode_of
mode_of-empty r e = simp (e, mode_of) refl

check-empty :
    (r : Reply)
    → r.status ≡ status_range_not_satisfiable
    → check_single_status r true (pos 0) ≡ empty_resource
unfolding check_single_status
check-empty r e = simp (e, check_single_status) refl

plan-empty :
    (checksum : Bool) (r : Reply)
    → r.status ≡ status_range_not_satisfiable
    → (plan checksum r).total ≡ pos 0
plan-empty checksum r e =
    let m = mode_of-empty r e in
    ap (λ x. x.total)
      (plan-bound checksum r (ground (arith, ap (λ x. ltb_ℤ (pos 0) x.total) m)) ∙ m)

same_status : (a b : ℕ) → (a == b) ≡ true → a ≡ b
same_status a b h = ground (arith, h)

accepted-usable :
    (checksum : Bool) (r : Reply)
    → accepts r ≡ true
    → (plan checksum r).multipart ≡ false
    → (plan checksum r).initial_usable ≡ true
    → is_usable (check_single_status r true (plan checksum r).total) ≡ true
unfolding accepts
accepted-usable checksum r h m u = elim (Bool-cases (r.status == status_ok)) [
  | inl e ↦ ap is_usable (check-ok r (plan checksum r).total e)
  | inr e ↦ elim (Bool-cases (r.status == status_partial_content)) [
    | inl f ↦
        ap is_usable
          (plan-check_single_status checksum r (same_status r.status status_partial_content f) m u)
    | inr f ↦
        let s = same_status r.status status_range_not_satisfiable (ground (arith, e, f, h)) in
        ap is_usable (ap (check_single_status r true) (plan-empty checksum r s) ∙ check-empty r s)
  ]
]

-- A response that the election returns, and that get keeps open for a single stream, is one that the first
-- attempt of the single stream uses: as the whole body, or as an empty resource.
pub elect-is_usable :
    (checksum : Bool) (tries : List Try) {r : Reply}
    → elect tries ≡ elected r
    → (plan checksum r).multipart ≡ false
    → (plan checksum r).initial_usable ≡ true
    → is_usable (check_single_status r true (plan checksum r).total) ≡ true
unfolding elect
elect-is_usable checksum tries {r} e m u =
    accepted-usable checksum r
      (subst IsAccepted e (elect_from-IsAccepted election_attempts true tries)) m u

judge-ends :
    (rest : Ballot) (r : Reply) → is_pending rest ≡ false → is_pending (judge rest r) ≡ false
unfolding judge
judge-ends rest r h = elim (Bool-cases (accepts r)) [
  | inl e ↦ simp (e, judge) refl
  | inr e ↦ elim (Bool-cases (is_retryable_status r.status)) [
    | inl f ↦ simp (e, f, judge) h
    | inr f ↦ simp (e, f, judge) refl
  ]
]

elect_from-ends :
    (left : ℕ) (first : Bool) (tries : List Try)
    → left ≤ length tries
    → is_pending (elect_from left first tries) ≡ false
unfolding elect_from
elect_from-ends zero first tries h = refl
elect_from-ends (suc left) first [] h = ground (arith, h)
elect_from-ends (suc left) first (t ∷ tries) h =
    let rest = elect_from-ends left false tries (omega (arith, h)) in
    elim (Bool-cases (not first && t.sleep_fails)) [
      | inl e ↦ simp (e, elect_from) refl
      | inr e ↦ elim (Bool-cases t.build_fails) [
        | inl f ↦ simp (e, f, elect_from) refl
        | inr f ↦ elim (Option-cases t.reply) [
          | inr (r, g) ↦
              simp (e, f, g, elect_from) (judge-ends (elect_from left false tries) r rest)
          | inl g ↦ elim (Bool-cases t.cancelled) [
            | inl k ↦ simp (e, f, g, k, elect_from) refl
            | inr k ↦ simp (e, f, g, k, elect_from) rest
          ]
        ]
      ]
    ]

-- The election is over after three rounds.
pub elect-ends : (tries : List Try) → 3 ≤ length tries → is_pending (elect tries) ≡ false
unfolding elect
elect-ends tries h = elect_from-ends election_attempts true tries h
