-- ===== src/Response/Plans.antt =====
-- The mode that an election leads to.
use go_download.Base.{
  ==→eq, eq_ℤ-pos, ◌≡◌, refl, ℤ, pos, Bool, true, false, ◌&&◌, not, Option, none, some, ◌==◌, leb_ℤ,
  ltb_ℤ, eq_ℤ, ◌+ℤ◌, ◌-ℤ◌, length, arith, Bool-cases, inl, inr, sym, ap, subst, ◌∙◌,
}
use go_download.State.{validator}
use go_download.Response.{
  ContentRange, Reply, Mode, parse_content_range, mode_of, mode_of_range, plan, check_single_status,
  check_full_range, proceed, status_partial_content, status_range_not_satisfiable, status_ok,
}

-- A range that begins at byte zero and ends before the end of a resource of this size.
pub record IsFirst (total : ℤ) (c : ContentRange) : Type 0 where
  pub start : c.start ≡ pos 0
  pub end : leb_ℤ (pos 0) c.end ≡ true
  pub inside : ltb_ℤ c.end total ≡ true
  pub size : c.total ≡ total

-- The range of a reply is such.
abbrev pub BeginsAtZero : ℤ → Reply → Type 0
BeginsAtZero total r =
    (c : ContentRange) × (parse_content_range r.content_range ≡ some c) × IsFirst total c

-- What a mode of several requests has.
record IsBound (r : Reply) (m : Mode) : Type 0 where
  first : BeginsAtZero m.total r
  partial : r.status ≡ status_partial_content
  sized : ltb_ℤ (pos 0) m.total ≡ true
  usable : m.initial_usable ≡ true

mode_of_range-IsBound :
    (r : Reply) (c : Option ContentRange)
    → parse_content_range r.content_range ≡ c
    → r.status ≡ status_partial_content
    → (mode_of_range c).multipart ≡ true
    → IsBound r (mode_of_range c)
unfolding mode_of_range
mode_of_range-IsBound r none q p h = ground (arith, h)
mode_of_range-IsBound r (some c) q p h =
    elim (Bool-cases (
      eq_ℤ c.start (pos 0)
      && leb_ℤ (pos 0) c.end
      && ltb_ℤ (pos 0) c.total
      && ltb_ℤ c.end c.total)) [
        | inl e ↦
            rw (e, mode_of_range)
              (record {
                first = (
                  c,
                  q,
                  record {
                    start = eq_ℤ-pos c.start 0 (ground (arith, e));
                    end = ground (arith, e);
                    inside = ground (arith, e);
                    size = refl;
                  },
                );
                partial = p;
                sized = ground (arith, e);
                usable = refl;
              })
        | inr e ↦ ground (arith, e, h)
      ]

mode_of-partial :
    (r : Reply)
    → (r.status == status_partial_content) ≡ true
    → mode_of r ≡ mode_of_range (parse_content_range r.content_range)
unfolding mode_of
mode_of-partial r e = rw (e, mode_of) refl

mode_of-other :
    (r : Reply) → (r.status == status_partial_content) ≡ false → (mode_of r).multipart ≡ false
unfolding mode_of
mode_of-other r e = elim (Bool-cases (r.status == status_range_not_satisfiable)) [
  | inl f ↦ rw (e, f, mode_of) refl
  | inr f ↦ elim (Bool-cases (r.status == status_ok)) [
    | inl g ↦ rw (e, f, g, mode_of) refl
    | inr g ↦ rw (e, f, g, mode_of) refl
  ]
]

true-ne-false {ℓ} : {A : Type ℓ} (b : Bool) → b ≡ true → b ≡ false → A
true-ne-false b h k = ground (arith, h, k)

mode_of-IsBound : (r : Reply) → (mode_of r).multipart ≡ true → IsBound r (mode_of r)
mode_of-IsBound r h = elim (Bool-cases (r.status == status_partial_content)) [
  | inl e ↦ subst (IsBound r) (sym (mode_of-partial r e)) (
      mode_of_range-IsBound r (parse_content_range r.content_range) refl
        (==→eq r.status status_partial_content e)
        (ap (λ m. m.multipart) (sym (mode_of-partial r e)) ∙ h))
  | inr e ↦ true-ne-false (mode_of r).multipart h (mode_of-other r e)
]

-- Without a validator or a checksum, where the size is known.
abbrev pub unbound : Bool → Reply → Bool
unbound checksum r =
    ltb_ℤ (pos 0) (mode_of r).total
    && length (validator r.etag r.last_modified) == 0
    && not checksum

plan-unbound :
    (checksum : Bool) (r : Reply) → unbound checksum r ≡ true → (plan checksum r).multipart ≡ false
unfolding plan
plan-unbound checksum r e =
    elim (Bool-cases (r.status == status_partial_content && not (mode_of r).full_initial_range)) [
      | inl f ↦ rw (e, f, plan) refl
      | inr f ↦ rw (e, f, plan) refl
    ]

pub plan-bound :
    (checksum : Bool) (r : Reply) → unbound checksum r ≡ false → plan checksum r ≡ mode_of r
unfolding plan
plan-bound checksum r e = rw (e, plan) refl

-- A run of several requests starts only from a 206 with a Content-Range that begins at byte zero, ends
-- inside and states the resource's size, which is positive and becomes the total; the response is open then, and the later requests are bound to it by a
-- validator or their bytes by a checksum.
pub plan-multipart :
    (checksum : Bool) (r : Reply)
    → (plan checksum r).multipart ≡ true
    → BeginsAtZero (plan checksum r).total r
      × (r.status ≡ status_partial_content)
      × (ltb_ℤ (pos 0) (plan checksum r).total ≡ true)
      × ((plan checksum r).initial_usable ≡ true)
      × (((length (validator r.etag r.last_modified) == 0) && not checksum) ≡ false)
plan-multipart checksum r h = elim (Bool-cases (unbound checksum r)) [
  | inl e ↦ true-ne-false (plan checksum r).multipart h (plan-unbound checksum r e)
  | inr e ↦
      let q = plan-bound checksum r e in
      let b = mode_of-IsBound r (ap (λ m. m.multipart) (sym q) ∙ h) in
      (
        subst (λ m. BeginsAtZero m.total r) (sym q) b.first,
        b.partial,
        ap (λ m. ltb_ℤ (pos 0) m.total) q ∙ b.sized,
        ap (λ m. m.initial_usable) q ∙ b.usable,
        ground (arith, e, b.sized),
      )
]

range_full :
    (c : Option ContentRange)
    → (mode_of_range c).full_initial_range ≡ true
    → check_full_range (mode_of_range c).total c ≡ proceed
unfolding mode_of_range check_full_range ◌+ℤ◌ ◌-ℤ◌
range_full none h = ground (arith, h)
range_full (some c) h =
    elim (Bool-cases (
      eq_ℤ c.start (pos 0)
      && leb_ℤ (pos 0) c.end
      && ltb_ℤ (pos 0) c.total
      && ltb_ℤ c.end c.total)) [ inl e ↦ ground (arith, e, h) | inr e ↦ ground (arith, e, h) ]

range_usable :
    (c : Option ContentRange) → (mode_of_range c).initial_usable ≡ (mode_of_range c).multipart
unfolding mode_of_range
range_usable none = refl
range_usable (some c) =
    elim (Bool-cases (
      eq_ℤ c.start (pos 0)
      && leb_ℤ (pos 0) c.end
      && ltb_ℤ (pos 0) c.total
      && ltb_ℤ c.end c.total)) [
        | inl e ↦ rw (e, mode_of_range) refl
        | inr e ↦ rw (e, mode_of_range) refl
      ]

plan-capped :
    (checksum : Bool) (r : Reply)
    → unbound checksum r ≡ true
    → (r.status == status_partial_content) ≡ true
    → (mode_of r).full_initial_range ≡ false
    → (plan checksum r).initial_usable ≡ false
unfolding plan
plan-capped checksum r e p f = rw (e, f, p, plan) refl

plan-full :
    (checksum : Bool) (r : Reply)
    → unbound checksum r ≡ true
    → (mode_of r).full_initial_range ≡ true
    → (plan checksum r).total ≡ (mode_of r).total
unfolding plan
plan-full checksum r e f = elim (Bool-cases (r.status == status_partial_content)) [
  | inl p ↦ rw (e, f, p, plan) refl
  | inr p ↦ rw (e, p, plan) refl
]

check_single_status-partial :
    (r : Reply) (total : ℤ)
    → r.status ≡ status_partial_content
    → check_single_status r true total
      ≡ check_full_range total (parse_content_range r.content_range)
unfolding check_single_status
check_single_status-partial r total p = rw p refl

-- A 206 that a single-stream run keeps open is one that checkSingleStatus accepts as the whole body.
pub plan-check_single_status :
    (checksum : Bool) (r : Reply)
    → r.status ≡ status_partial_content
    → (plan checksum r).multipart ≡ false
    → (plan checksum r).initial_usable ≡ true
    → check_single_status r true (plan checksum r).total ≡ proceed
plan-check_single_status checksum r p h k =
    let t : (r.status == status_partial_content) ≡ true = ground (arith, p) in
    let c = parse_content_range r.content_range in
    let m = mode_of-partial r t in
    elim (Bool-cases (unbound checksum r)) [
      | inr e ↦
          let q = plan-bound checksum r e ∙ m in
          true-ne-false (mode_of_range c).multipart
            (sym (range_usable c) ∙ (ap (λ x. x.initial_usable) (sym q) ∙ k))
            (ap (λ x. x.multipart) (sym q) ∙ h)
      | inl e ↦ elim (Bool-cases (mode_of r).full_initial_range) [
        | inr f ↦ true-ne-false (plan checksum r).initial_usable k (plan-capped checksum r e t f)
        | inl f ↦
            check_single_status-partial r (plan checksum r).total p
            ∙ (ap (λ x. check_full_range x c) (plan-full checksum r e f ∙ ap (λ x. x.total) m)
                ∙ range_full c (ap (λ x. x.full_initial_range) (sym m) ∙ f))
      ]
    ]
