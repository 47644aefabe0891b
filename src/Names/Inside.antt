-- ===== src/Names/Inside.antt =====
-- A derived name stays in its directory.
use go_download.Base.{
  ◌≡◌, ◌≢◌, ◌⊎◌, refl, Bool, true, false, ◌&&◌, ◌||◌, not, ◌==◌, if◌then◌else◌, Option, none, some,
  [], ◌∷◌, eq_bytes, eq_bytes_refl, Bytes, codes, arith, Bool-cases, inl, inr, sym, ap, ◌∙◌,
}
use go_download.Single.{is_empty}
use go_download.Names.{
  has_slash, strip_slashes, last_element, base, is_local, derived_base, Location, derive_name,
  Destination, as_is, inside, no_name, name_in, resolve_dest,
}

last_element-no_slash : (s : Bytes) → has_slash (last_element s) ≡ false
unfolding last_element
last_element-no_slash [] = unfold has_slash in refl
last_element-no_slash (c ∷ s) = elim (Bool-cases (has_slash s)) [
  | inl e ↦ simp (e, last_element) (last_element-no_slash s)
  | inr e ↦ elim (Bool-cases (c == b'/')) [
    | inl f ↦ simp (e, f, last_element) refl
    | inr f ↦ simp (e, f, last_element) (unfold has_slash in ground (arith, e, f))
  ]
]

-- A name of a file in a directory: no separator, and neither the directory nor its parent.
pub record IsFileName (s : Bytes) : Type 0 where
  pub nonempty : is_empty s ≡ false
  pub one_element : has_slash s ≡ false
  pub not_self : s ≢ codes "."
  pub not_parent : s ≢ codes ".."

differs : (s t : Bytes) → eq_bytes s t ≡ false → s ≢ t
differs s t h e = ground (arith, sym (ap (λ x. eq_bytes x t) e) ∙ h, eq_bytes_refl t)

base-one_element : (s : Bytes) → is_local (base s) ≡ true → has_slash (base s) ≡ false
unfolding base
base-one_element s h = elim (Bool-cases (is_empty s)) [
  | inl e ↦ simp (e, base) (unfold has_slash in refl)
  | inr e ↦ elim (Bool-cases (is_empty (last_element (strip_slashes s)))) [
    | inl f ↦ ground (arith, h, e, f)
    | inr f ↦ simp (e, f, base) (last_element-no_slash (strip_slashes s))
  ]
]

derived_base-IsFileName : (s : Bytes) → (derived_base s ≡ []) ⊎ IsFileName (derived_base s)
unfolding derived_base
derived_base-IsFileName s =
    elim (Bool-cases (
      eq_bytes (base s) (codes ".") || eq_bytes (base s) (codes "..") || not (is_local (base s)))) [
        | inl e ↦ inl (simp (e, derived_base) refl)
        | inr e ↦ inr (
            simp (e, derived_base)
              (record {
                nonempty = ground (arith, e);
                one_element = base-one_element s (ground (arith, e));
                not_self = differs (base s) (codes ".") (ground (arith, e));
                not_parent = differs (base s) (codes "..") (ground (arith, e));
              }))
      ]

-- The path that the caller gave, or a file in the directory that the caller chose.
abbrev pub IsInside : Bytes → Destination → Type 0
IsInside dest (as_is path) = path ≡ dest
IsInside dest (inside dir name) = (dir ≡ dest) × IsFileName name
IsInside dest no_name = Unit

IsDerived : Option Bytes → Type 0
IsDerived none = Unit
IsDerived (some s) = (s ≡ []) ⊎ IsFileName s

derive_name-IsDerived :
    (disposition : Bytes) (location : Option Location)
    → IsDerived (derive_name disposition location)
unfolding derive_name IsDerived
derive_name-IsDerived disposition none = elim (Bool-cases (not (is_empty disposition))) [
  | inl e ↦ simp (e, derive_name) (derived_base-IsFileName disposition)
  | inr e ↦ simp (e, derive_name) tt
]
derive_name-IsDerived disposition (some u) = elim (Bool-cases (not (is_empty disposition))) [
  | inl e ↦ simp (e, derive_name) (derived_base-IsFileName disposition)
  | inr e ↦
      simp (e, derive_name) (derived_base-IsFileName (if is_empty u.path then u.opaque else u.path))
]

name_in-IsInside : (dest : Bytes) (n : Option Bytes) → IsDerived n → IsInside dest (name_in dest n)
unfolding IsDerived
name_in-IsInside dest none h = tt
name_in-IsInside dest (some []) h = tt
name_in-IsInside dest (some (c ∷ s)) (inl e) = ground (arith, ap is_empty e)
name_in-IsInside dest (some (c ∷ s)) (inr i) = (refl, i)

-- Whatever the server's headers and URL name, the destination is the path that the caller gave or a name of
-- one element, neither "." nor "..", in the directory that the caller chose.
pub resolve_dest-IsInside :
    (dest : Bytes) (is_dir : Bool) (disposition : Bytes) (location : Option Location)
    → IsInside dest (resolve_dest dest is_dir disposition location)
unfolding resolve_dest
resolve_dest-IsInside dest is_dir disposition location =
    elim (Bool-cases (not (is_empty dest) && not is_dir)) [
      | inl e ↦ simp (e, resolve_dest) refl
      | inr e ↦
          simp (e, resolve_dest)
            (name_in-IsInside dest (derive_name disposition location)
              (derive_name-IsDerived disposition location))
    ]
