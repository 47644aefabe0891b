-- ===== src/Names.antt =====
-- name.go: the name of the destination (derivedBase, deriveName, resolveDest) on Unix, where a path is separated
-- by slashes. What parseContentDisposition and the URL parser find is an input; filepath.Join of the directory
-- and the name is not taken.
pub mod Inside
use go_download.Base.{
  ℕ, Bool, true, false, ◌&&◌, ◌||◌, not, ◌==◌, if◌then◌else◌, Option, none, some, List, [], ◌∷◌,
  eq_bytes, Bytes, codes,
}
use go_download.Single.{is_empty}

unfoldable pub has_slash : Bytes → Bool
has_slash [] = false
has_slash (c ∷ s) = c == b'/' || has_slash s

-- A path without the slashes at its end.
unfoldable pub strip_slashes : Bytes → Bytes
strip_slashes [] = []
strip_slashes (c ∷ s) = keep c (strip_slashes s)
  where
    keep : ℕ → Bytes → Bytes
    keep c [] = if c == b'/' then [] else c ∷ []
    keep c (d ∷ s) = c ∷ d ∷ s

-- What stands behind the last slash.
unfoldable pub last_element : Bytes → Bytes
unfolding has_slash
last_element [] = []
last_element (c ∷ s) =
    let rest = last_element s in if has_slash s then rest else if c == b'/' then s else c ∷ s

-- `filepath.Base`.
unfoldable pub base : Bytes → Bytes
unfolding strip_slashes last_element
base path =
    if is_empty path
    then codes "."
    else if is_empty (last_element (strip_slashes path))
    then codes "/"
    else last_element (strip_slashes path)

abbrev pub starts_with_slash : Bytes → Bool
starts_with_slash [] = false
starts_with_slash (c ∷ s) = c == b'/'

-- `filepath.IsLocal` of a path of one element or of the root.
abbrev pub is_local : Bytes → Bool
is_local path =
    not (starts_with_slash path) && not (is_empty path) && not (eq_bytes path (codes ".."))

-- `derivedBase`.
unfoldable pub derived_base : Bytes → Bytes
unfolding base
derived_base name =
    if eq_bytes (base name) (codes ".")
      || eq_bytes (base name) (codes "..")
      || not (is_local (base name))
    then []
    else base name

-- The Path and Opaque of a URL.
pub record Location : Type 0 where
  pub path : Bytes
  pub opaque : Bytes

-- `deriveName`; none is an error of the parser.
unfoldable pub derive_name : Bytes → Option Location → Option Bytes
unfolding derived_base
derive_name disposition location =
    if not (is_empty disposition) then some (derived_base disposition) else elim location [
      | none ↦ none
      | some u ↦ some (derived_base (if is_empty u.path then u.opaque else u.path))
    ]

-- A path that is used as it is, or a name in a directory.
pub data Destination : Type 0 where
  as_is : Bytes → Destination
  inside : Bytes → Bytes → Destination
  no_name : Destination

abbrev pub name_in : Bytes → Option Bytes → Destination
name_in dir none = no_name
name_in dir (some []) = no_name
name_in dir (some (c ∷ s)) = inside dir (c ∷ s)

-- `resolveDest`; `is_dir` is what Stat says of dest.
unfoldable pub resolve_dest : Bytes → Bool → Bytes → Option Location → Destination
unfolding derive_name
resolve_dest dest is_dir disposition location =
    if not (is_empty dest) && not is_dir
    then as_is dest
    else name_in dest (derive_name disposition location)
