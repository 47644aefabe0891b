-- ===== src/Nodes/Order.antt =====
-- nodes.go: orderNodeAddresses. `unmap` and `is4` stand for the methods Unmap and Is4 of a valid
-- netip.Addr; Is4 is false for the zero Addr.
use go_download.Base.{
  ℕ, ◌≡◌, refl, Bool, true, false, ◌&&◌, ◌||◌, not, ◌==◌, bit, if◌then◌else◌, Option, none, some,
  List, [], ◌∷◌, ◌++◌, contains, arith, Bool-cases, inl, inr, ◌∙◌, ap, sum_by, sum_by-append,
}
use go_download.Nodes.{is_valid, on}

module _ (unmap : ℕ → ℕ) (is4 : ℕ → Bool) where
  abbrev pub unmap_addr : Option ℕ → Option ℕ
  unmap_addr none = none
  unmap_addr (some a) = some (unmap a)

  abbrev pub is4_addr : Option ℕ → Bool
  is4_addr none = false
  is4_addr (some a) = is4 a

  -- `appendAddr`: what it has seen is what it has appended.
  unfoldable pub append_addr : Option ℕ → List ℕ → List ℕ
  append_addr none ordered = ordered
  append_addr (some a) ordered =
      if contains ordered (unmap a) then ordered else ordered ++ unmap a ∷ []

  abbrev pub eq_bool : Bool → Bool → Bool
  eq_bool true b = b
  eq_bool false b = not b

  abbrev pub skips : Option ℕ → Bool → Option ℕ → Bool
  skips election same_family addr =
      is_valid election && not (eq_bool (eq_bool (is4_addr addr) (is4_addr election)) same_family)

  -- One round of the outer loop.
  unfoldable pub append_family : Option ℕ → Bool → List (Option ℕ) → List ℕ → List ℕ
  unfolding append_addr
  append_family election same_family [] ordered = ordered
  append_family election same_family (addr ∷ rest) ordered =
      append_family election same_family rest (
        if skips election same_family (unmap_addr addr)
        then ordered
        else append_addr (unmap_addr addr) ordered)

  unfoldable pub order_node_addresses : Option ℕ → List (Option ℕ) → List ℕ
  unfolding append_addr append_family
  order_node_addresses election resolved =
      let e = unmap_addr election in
      append_family e false resolved (append_family e true resolved (append_addr e []))

  -- How often an address stands in a list.
  abbrev pub times : ℕ → List ℕ → ℕ
  times b xs = sum_by (λ x. bit (x == b)) xs

  abbrev pub resolves : List (Option ℕ) → ℕ → Bool
  resolves [] b = false
  resolves (o ∷ os) b = on (unmap_addr o) b || resolves os b

  -- Which addresses a round appends.
  abbrev pub takes : Option ℕ → Bool → List (Option ℕ) → ℕ → Bool
  takes election same_family [] b = false
  takes election same_family (o ∷ os) b =
      (not (skips election same_family (unmap_addr o)) && on (unmap_addr o) b)
      || takes election same_family os b

  module _ (b : ℕ) where
    contains-append : (xs ys : List ℕ) → contains (xs ++ ys) b ≡ (contains xs b || contains ys b)
    contains-append [] ys = refl
    contains-append (x ∷ xs) ys = ground (arith, contains-append xs ys)

    append_addr-contains :
        (o : Option ℕ) (xs : List ℕ)
        → contains (append_addr o xs) b ≡ (contains xs b || on (unmap_addr o) b)
    unfolding append_addr
    append_addr-contains none xs = ground arith
    append_addr-contains (some a) xs = ground (arith, contains-append xs (unmap a ∷ []))

    append_addr-times :
        (o : Option ℕ) (xs : List ℕ)
        → times b xs ≡ bit (contains xs b)
        → times b (append_addr o xs) ≡ bit (contains (append_addr o xs) b)
    unfolding append_addr
    append_addr-times none xs h = h
    append_addr-times (some a) xs h = ground (
      arith,
      contains-append xs (unmap a ∷ []),
      sum_by-append (λ x. bit (x == b)) xs (unmap a ∷ []),
    )

    append_family-times :
        (e : Option ℕ) (same : Bool) (os : List (Option ℕ)) (xs : List ℕ)
        → times b xs ≡ bit (contains xs b)
        → times b (append_family e same os xs) ≡ bit (contains (append_family e same os xs) b)
    unfolding append_family
    append_family-times e same [] xs h = h
    append_family-times e same (o ∷ os) xs h = elim (Bool-cases (skips e same (unmap_addr o))) [
      | inl s ↦ rw (s, append_family) (append_family-times e same os xs h)
      | inr s ↦
          rw (s, append_family)
            (append_family-times e same os (append_addr (unmap_addr o) xs)
              (append_addr-times (unmap_addr o) xs h))
    ]

  module _ (b : ℕ) (idem : (a : ℕ) → unmap (unmap a) ≡ unmap a) where
    unmap_twice : (o : Option ℕ) → unmap_addr (unmap_addr o) ≡ unmap_addr o
    unmap_twice none = refl
    unmap_twice (some a) = ap some (idem a)

    appended :
        (o : Option ℕ) (xs : List ℕ)
        → contains (append_addr (unmap_addr o) xs) b ≡ (contains xs b || on (unmap_addr o) b)
    appended o xs =
        append_addr-contains b (unmap_addr o) xs ∙ ap (λ x. contains xs b || on x b) (unmap_twice o)

    append_family-contains :
        (e : Option ℕ) (same : Bool) (os : List (Option ℕ)) (xs : List ℕ)
        → contains (append_family e same os xs) b ≡ (contains xs b || takes e same os b)
    unfolding append_family
    append_family-contains e same [] xs = ground arith
    append_family-contains e same (o ∷ os) xs = elim (Bool-cases (skips e same (unmap_addr o))) [
      | inl s ↦ rw (s, append_family) (append_family-contains e same os xs ∙ ground (arith, s))
      | inr s ↦
          rw (s, append_family)
            (append_family-contains e same os (append_addr (unmap_addr o) xs)
              ∙ ground (arith, s, appended o xs))
    ]

    -- The two rounds take everything between them.
    takes-both :
        (e : Option ℕ) (os : List (Option ℕ))
        → (takes e true os b || takes e false os b) ≡ resolves os b
    takes-both e [] = refl
    takes-both e (o ∷ os) = ground (arith, takes-both e os)

  abbrev pub first : List ℕ → Option ℕ
  first [] = none
  first (x ∷ xs) = some x

  append_addr-first : (o : Option ℕ) (x : ℕ) (xs : List ℕ) → first (append_addr o (x ∷ xs)) ≡ some x
  unfolding append_addr
  append_addr-first none x xs = refl
  append_addr-first (some a) x xs = ground arith

  append_family-first :
      (e : Option ℕ) (same : Bool) (os : List (Option ℕ)) (xs : List ℕ) (x : ℕ)
      → first xs ≡ some x
      → first (append_family e same os xs) ≡ some x
  unfolding append_family
  append_family-first e same [] xs x h = h
  append_family-first e same (o ∷ os) [] x h = ground arith
  append_family-first e same (o ∷ os) (y ∷ ys) x h =
      elim (Bool-cases (skips e same (unmap_addr o))) [
        | inl s ↦ rw (s, append_family) (append_family-first e same os (y ∷ ys) x h)
        | inr s ↦
            rw (s, append_family)
              (append_family-first e same os (append_addr (unmap_addr o) (y ∷ ys)) x
                (append_addr-first (unmap_addr o) y ys ∙ h))
      ]

  -- If Unmap is idempotent, an address stands once in the order if it is the canonical form of the
  -- election's address or of a resolved one, and not at all otherwise.
  pub order_once :
      (election : Option ℕ) (resolved : List (Option ℕ)) (b : ℕ)
      → ((a : ℕ) → unmap (unmap a) ≡ unmap a)
      → times b (order_node_addresses election resolved)
        ≡ bit (on (unmap_addr election) b || resolves resolved b)
  unfolding order_node_addresses
  order_once election resolved b idem =
      let e = unmap_addr election in
      let one = append_family e true resolved (append_addr e []) in
      append_family-times b e false resolved one
        (append_family-times b e true resolved (append_addr e []) (append_addr-times b e [] refl))
      ∙ ap bit (
          append_family-contains b idem e false resolved one
          ∙ ground (
            arith,
            append_family-contains b idem e true resolved (append_addr e []),
            appended b idem election [],
            takes-both b idem e resolved,
          ))

  -- If Unmap is idempotent, the canonical form of a valid election address comes first.
  pub order-first :
      (a : ℕ) (resolved : List (Option ℕ))
      → ((c : ℕ) → unmap (unmap c) ≡ unmap c)
      → first (order_node_addresses (some a) resolved) ≡ some (unmap a)
  unfolding order_node_addresses append_addr
  order-first a resolved idem =
      append_family-first (some (unmap a)) false resolved _ (unmap a)
        (append_family-first (some (unmap a)) true resolved _ (unmap a) (ap some (idem a)))
