-- ===== src/Base/Strings.antt =====
-- Strings as lists of bytes: cutting them, and decimal numbers in them.
use Prim.Native.Char.{code}
use Prim.Native.String.{String}
use Prim.Native.Nat.{ℕ, ◌+◌, ◌-◌, ◌*◌, ◌^◌, ◌≤◌, ◌<◌}
use mathlib.Core.Path.{◌≡◌, refl}
use mathlib.Core.Logic.{◌≢◌, inl, inr}
use mathlib.Core.Bool.{Bool, true, false, ◌&&◌}
use mathlib.Core.Option.{Option, none, some}
use mathlib.Core.List.{List, [], ◌∷◌, ◌++◌}
use native.Mathlib.Omega.{arith}
use go_download.Base.Tests.{Bool-cases, Option-cases, leb, ◌==◌, if◌then◌else◌}
use go_download.Base.Lists.{All}
use go_download.Base.Int.{ℤ, pos, negsuc}

abbrev pub Bytes : Type 0
Bytes = List ℕ

-- The code points of a literal, which are its bytes, since it is ASCII.
abbrev pub codes : String → Bytes
codes String.[] = []
codes (String.◌∷◌ c s) = code c ∷ codes s

-- `strings.Cut` at a separator of one byte.
unfoldable pub cut : ℕ → Bytes → Option (Bytes × Bytes)
cut sep [] = none
cut sep (c ∷ s) =
    let rest = cut sep s in
    if c == sep then some ([], s) else elim rest [ none ↦ none | some r ↦ some (c ∷ r.0, r.1) ]

-- `strings.CutPrefix`.
unfoldable pub cut_prefix : Bytes → Bytes → Option Bytes
cut_prefix [] s = some s
cut_prefix (p ∷ ps) [] = none
cut_prefix (p ∷ ps) (c ∷ s) = let rest = cut_prefix ps s in if p == c then rest else none

-- The number that digits spell behind n; none if a byte is no digit.
unfoldable pub scan : Bytes → ℕ → Option ℕ
scan [] n = some n
scan (c ∷ s) n = if leb b'0' c && leb c b'9' then scan s (n * 10 + (c - b'0')) else none

abbrev pub max_int64 : ℕ
max_int64 = 2 ^ 63 - 1

unfoldable pub scan_all : Bytes → Option ℕ
unfolding scan
scan_all [] = none
scan_all (c ∷ s) = scan (c ∷ s) 0

abbrev pub int_of_scan : Bool → Option ℕ → Option ℤ
int_of_scan negative none = none
int_of_scan false (some n) = if leb n max_int64 then some (pos n) else none
int_of_scan true (some n) =
    if n == 0 then some (pos 0) else if leb n (2 ^ 63) then some (negsuc (n - 1)) else none

-- `strconv.ParseInt(s, 10, 64)`.
unfoldable pub parse_int : Bytes → Option ℤ
unfolding scan_all
parse_int [] = none
parse_int (c ∷ s) =
    if c == b'+'
    then int_of_scan false (scan_all s)
    else if c == b'-'
    then int_of_scan true (scan_all s)
    else int_of_scan false (scan_all (c ∷ s))

abbrev pub IsDigit : ℕ → Type 0
IsDigit c = (b'0' ≤ c) × (c ≤ b'9')

-- The number that digits spell behind n, with no bound.
abbrev pub value : ℕ → Bytes → ℕ
value n [] = n
value n (c ∷ s) = value (n * 10 + (c - b'0')) s

abbrev pub Lacks : ℕ → Bytes → Type 0
Lacks b = All (λ c. c ≢ b)

pub scan-value : (s : Bytes) (n : ℕ) → All IsDigit s → scan s n ≡ some (value n s)
unfolding scan
scan-value [] n h = refl
scan-value (c ∷ s) n h = ground (arith, scan-value s (n * 10 + (c - b'0')) h.1)

-- A nonempty text of digits whose number fits is read as that number.
pub parse_int-value :
    (c : ℕ) (s : Bytes)
    → All IsDigit (c ∷ s)
    → value 0 (c ∷ s) ≤ max_int64
    → parse_int (c ∷ s) ≡ some (pos (value 0 (c ∷ s)))
unfolding parse_int
parse_int-value c s h k = ground (arith, scan-value (c ∷ s) 0 h)

pub cut-append : (sep : ℕ) (a b : Bytes) → Lacks sep a → cut sep (a ++ sep ∷ b) ≡ some (a, b)
unfolding cut
cut-append sep [] b h = ground arith
cut-append sep (c ∷ a) b h = ground (arith, cut-append sep a b h.1)

pub IsDigit-Lacks : (b : ℕ) (s : Bytes) → b < b'0' → All IsDigit s → Lacks b s
IsDigit-Lacks b [] k h = tt
IsDigit-Lacks b (c ∷ s) k h = (ground arith, IsDigit-Lacks b s k h.1)

pub Lacks-append : (b : ℕ) (s t : Bytes) → Lacks b s → Lacks b t → Lacks b (s ++ t)
Lacks-append b [] t h k = k
Lacks-append b (c ∷ s) t h k = (h.0, Lacks-append b s t h.1 k)

-- A text that does not begin with a minus sign is no negative number.
pub parse_int-pos :
    (c : ℕ) (s : Bytes) (z : ℤ) → c ≢ b'-' → parse_int (c ∷ s) ≡ some z → (n : ℕ) × (z ≡ pos n)
unfolding parse_int
parse_int-pos c s (pos n) k h = (n, refl)
parse_int-pos c s (negsuc n) k h = ground (arith, h, k)

-- What stands before the cut has no separator.
pub cut-Lacks : (sep : ℕ) (s : Bytes) {r : Bytes × Bytes} → cut sep s ≡ some r → Lacks sep r.0
unfolding cut
cut-Lacks sep [] h = ground arith
cut-Lacks sep (c ∷ s) {r} h = elim (Bool-cases (c == sep)) [
  | inl e ↦ ground (arith, e, h)
  | inr e ↦ elim (Option-cases (cut sep s)) [
    | inl f ↦ ground (arith, e, f, h)
    | inr (q, f) ↦ ground (arith, e, f, h, cut-Lacks sep s f)
  ]
]
