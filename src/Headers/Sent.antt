-- ===== src/Headers/Sent.antt =====
-- The headers that a request carries.
use go_download.Base.{
  ◌≡◌, ◌⊎◌, refl, Bool, true, false, ◌&&◌, not, Option, none, some, List, [], ◌∷◌, eq_bytes,
  eq_bytes→eq, Bytes, arith, Bool-cases, inl, inr, sym, ap, subst,
}
use go_download.Headers.{
  Header, get, copies_to, should_copy_sensitive_headers, is_sensitive, apply_from, apply_headers,
  set_all, canonical_header_clone, merge_headers,
}
use go_download.Headers.Hosts.{Covers, copies_to↔Covers}

-- The first of two values that is there.
abbrev pub or_else : Option (List Bytes) → Option (List Bytes) → Option (List Bytes)
or_else none y = y
or_else (some x) y = some x

module _ (canonical : Bytes → Bytes) where
  apply_from-get :
      (copy : Bool) (headers req : Header) (k : Bytes)
      → (not copy && is_sensitive canonical k) ≡ false
      → get k (apply_from canonical copy headers req) ≡ or_else (get k headers) (get k req)
  unfolding apply_from get
  apply_from-get copy [] req k h = refl
  apply_from-get copy ((a, vs) ∷ rest) req k h = elim (Bool-cases (eq_bytes a k)) [
    | inl e ↦ ground (
      arith,
      e,
      h,
      ap (is_sensitive canonical) (eq_bytes→eq a k e),
      apply_from-get copy rest req k h,
    )
    | inr e ↦ ground (arith, e, apply_from-get copy rest req k h)
  ]

  apply_from-withheld :
      (headers req : Header) (k : Bytes)
      → is_sensitive canonical k ≡ true
      → get k (apply_from canonical false headers req) ≡ get k req
  unfolding apply_from get
  apply_from-withheld [] req k h = refl
  apply_from-withheld ((a, vs) ∷ rest) req k h = elim (Bool-cases (eq_bytes a k)) [
    | inl e ↦ ground (
      arith,
      e,
      h,
      ap (is_sensitive canonical) (eq_bytes→eq a k e),
      apply_from-withheld rest req k h,
    )
    | inr e ↦ ground (arith, e, apply_from-withheld rest req k h)
  ]

  -- Whether the source's host covers the destination's.
  abbrev pub Related : Option Bytes → Option Bytes → Type 0
  Related none dest = ⊥
  Related (some parent) none = ⊥
  Related (some parent) (some sub) = Covers parent sub

  copies-Related :
      (source dest : Option Bytes)
      → ((should_copy_sensitive_headers source dest ≡ true) × Related source dest)
        ⊎ ((should_copy_sensitive_headers source dest ≡ false) × (¬ Related source dest))
  unfolding should_copy_sensitive_headers
  copies-Related none dest = inr (refl, λ r. r)
  copies-Related (some parent) none = inr (refl, λ r. r)
  copies-Related (some parent) (some sub) = elim (Bool-cases (copies_to parent sub)) [
    | inl e ↦ inl (e, (copies_to↔Covers parent sub).0 e)
    | inr e ↦ inr (e, λ r. apart (copies_to parent sub) ((copies_to↔Covers parent sub).1 r) e)
  ]
    where
      apart : (b : Bool) → b ≡ true → b ≡ false → ⊥
      apart b h k = ground (arith, h, k)

  -- What a request carries under a key: the caller's values, or, for a credential that would go to an unrelated
  -- host, what the request has by itself.
  pub data IsCarried (source dest : Option Bytes) (headers req : Header) (k : Bytes)
      : Option (List Bytes) → Type 0 where
    carried :
        (Related source dest) ⊎ (is_sensitive canonical k ≡ false)
        → IsCarried source dest headers req k (or_else (get k headers) (get k req))
    withheld :
        (¬ Related source dest)
        → is_sensitive canonical k ≡ true
        → IsCarried source dest headers req k (get k req)

  -- A request carries each of the caller's headers in place of its own, except that a sensitive one is not added
  -- for a destination whose host is neither the source's nor a subdomain of it.
  pub apply_headers-IsCarried :
      (source dest : Option Bytes) (headers req : Header) (k : Bytes)
      → IsCarried source dest headers req k
          (get k (apply_headers canonical source dest headers req))
  unfolding apply_headers
  apply_headers-IsCarried source dest headers req k = elim (copies-Related source dest) [
    | inl (e, r) ↦
        simp (e, apply_headers)
          (subst (IsCarried source dest headers req k)
            (sym (apply_from-get true headers req k refl)) (carried (inl r)))
    | inr (e, r) ↦ elim (Bool-cases (is_sensitive canonical k)) [
      | inl s ↦
          simp (e, apply_headers)
            (subst (IsCarried source dest headers req k) (sym (apply_from-withheld headers req k s))
              (withheld r s))
      | inr s ↦
          simp (e, apply_headers)
            (subst (IsCarried source dest headers req k)
              (sym (apply_from-get false headers req k (ground (arith, s)))) (carried (inr s)))
    ]
  ]

  set_all-get :
      (over m : Header) (k : Bytes)
      → get k (set_all canonical over m) ≡ or_else (get k over) (get k m)
  unfolding set_all get
  set_all-get [] m k = refl
  set_all-get ((a, vs) ∷ rest) m k = elim (Bool-cases (eq_bytes a k)) [
    | inl e ↦ ground (arith, e)
    | inr e ↦ ground (arith, e, set_all-get rest m k)
  ]

  -- A request's values of a canonical key replace all of the options' values of that key.
  pub merge_headers-get :
      (options request : Header) (k : Bytes)
      → get k (merge_headers canonical options request)
        ≡ or_else
            (get k (canonical_header_clone canonical request))
            (get k (canonical_header_clone canonical options))
  unfolding merge_headers
  merge_headers-get options request k =
      set_all-get (canonical_header_clone canonical request)
        (canonical_header_clone canonical options) k
