-- ===== src/Headers.antt =====
-- download.go: the headers of a request (canonicalHeaderClone, mergeHeaders, isSensitiveRequestHeader,
-- shouldCopySensitiveHeaders, applyHeaders). A http.Header is a list of keys with their values, in which the
-- first entry of a key counts. http.CanonicalHeaderKey is a parameter. A host is given in lower case; a nil
-- URL is none.
pub mod Hosts
pub mod Sent
use go_download.Base.{
  ℕ, zero, suc, ◌+◌, ◌-◌, Bool, true, false, ◌&&◌, ◌||◌, not, ltb, leb, ◌==◌, if◌then◌else◌, Option,
  none, some, List, [], ◌∷◌, ◌++◌, length, eq_bytes, Bytes, codes,
}
use go_download.Single.{is_empty}

abbrev pub Header : Type 0
Header = List (Bytes × List Bytes)

-- h[key]
unfoldable pub get : Bytes → Header → Option (List Bytes)
get k [] = none
get k ((a, vs) ∷ h) = let rest = get k h in if eq_bytes a k then some vs else rest

-- h[key] = vs, as an entry that comes before any other of the key.
abbrev pub set : Bytes → List Bytes → Header → Header
set k vs h = (k, vs) ∷ h

abbrev pub values : Option (List Bytes) → List Bytes
values none = []
values (some vs) = vs

-- s without its first n bytes.
abbrev pub drop : ℕ → Bytes → Bytes
drop zero s = s
drop (suc n) [] = []
drop (suc n) (c ∷ s) = drop n s

-- s[n] == c
unfoldable pub has_at : ℕ → ℕ → Bytes → Bool
has_at n c [] = false
has_at zero c (d ∷ s) = d == c
has_at (suc n) c (d ∷ s) = has_at n c s

-- `strings.HasSuffix`.
abbrev pub has_suffix : Bytes → Bytes → Bool
has_suffix s p = leb (length p) (length s) && eq_bytes (drop (length s - length p) s) p

-- strings.ContainsAny(s, ":%")
unfoldable pub has_zone : Bytes → Bool
has_zone [] = false
has_zone (c ∷ s) = c == b':' || c == b'%' || has_zone s

-- `shouldCopySensitiveHeaders` on the two host names.
unfoldable pub copies_to : Bytes → Bytes → Bool
unfolding has_at has_zone
copies_to parent sub =
    if is_empty parent || is_empty sub
    then false
    else if eq_bytes sub parent
    then true
    else if has_zone sub || not (has_suffix sub parent)
    then false
    else ltb (length parent) (length sub) && has_at (length sub - length parent - 1) b'.' sub

unfoldable pub should_copy_sensitive_headers : Option Bytes → Option Bytes → Bool
unfolding copies_to
should_copy_sensitive_headers none dest = false
should_copy_sensitive_headers (some parent) none = false
should_copy_sensitive_headers (some parent) (some sub) = copies_to parent sub

abbrev pub is_one_of : List Bytes → Bytes → Bool
is_one_of [] k = false
is_one_of (n ∷ ns) k = eq_bytes k n || is_one_of ns k

abbrev pub sensitive_names : List Bytes
sensitive_names =
    codes "Authorization"
    ∷ codes "Www-Authenticate"
    ∷ codes "Cookie"
    ∷ codes "Cookie2"
    ∷ codes "Proxy-Authorization"
    ∷ codes "Proxy-Authenticate"
    ∷ []

module _ (canonical : Bytes → Bytes) where
  -- `isSensitiveRequestHeader`.
  unfoldable pub is_sensitive : Bytes → Bool
  is_sensitive k = is_one_of sensitive_names (canonical k)

  -- The loop of `applyHeaders`.
  unfoldable pub apply_from : Bool → Header → Header → Header
  unfolding is_sensitive
  apply_from copy [] req = req
  apply_from copy ((k, vs) ∷ rest) req =
      let others = apply_from copy rest req in
      if not copy && is_sensitive k then others else set k vs others

  -- `applyHeaders`.
  unfoldable pub apply_headers : Option Bytes → Option Bytes → Header → Header → Header
  unfolding should_copy_sensitive_headers apply_from
  apply_headers source dest headers req =
      apply_from (should_copy_sensitive_headers source dest) headers req

  abbrev pub canonical_or_same : Bytes → Bytes
  canonical_or_same k = if is_empty (canonical k) then k else canonical k

  -- The loop of `canonicalHeaderClone` over the keys in their order; `out` is what it has built.
  unfoldable pub clone_from : Header → Header → Header
  unfolding get
  clone_from [] out = out
  clone_from ((k, vs) ∷ rest) out =
      clone_from rest (set (canonical_or_same k) (values (get (canonical_or_same k) out) ++ vs) out)

  -- `canonicalHeaderClone`.
  abbrev pub canonical_header_clone : Header → Header
  canonical_header_clone src = clone_from src []

  -- The loop of `mergeHeaders`; each key comes once, so its order does not matter.
  unfoldable pub set_all : Header → Header → Header
  set_all [] m = m
  set_all ((k, vs) ∷ rest) m = set k vs (set_all rest m)

  -- `mergeHeaders`.
  unfoldable pub merge_headers : Header → Header → Header
  unfolding clone_from set_all
  merge_headers options request =
      set_all (canonical_header_clone request) (canonical_header_clone options)
