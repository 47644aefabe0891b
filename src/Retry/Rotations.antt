-- ===== src/Retry/Rotations.antt =====
-- Free rotations use up addresses.
use go_download.Base.{
  ℕ, ◌+◌, ◌≤◌, ◌<◌, ◌≡◌, Bool, true, false, not, ◌==◌, if◌then◌else◌, Option, List, [], ◌∷◌,
  contains, count_if, bit, All, arith, Bool-cases, inl, inr,
}
use go_download.Retry.{RotationBudget, try_addrs, admit_rotation}

-- How many of the addresses are not tried yet.
abbrev pub untried : List ℕ → List ℕ → ℕ
untried universe tried = count_if (λ a. not (contains tried a)) universe

untried-cons : (a : ℕ) (u tried : List ℕ) → untried u (a ∷ tried) ≤ untried u tried
untried-cons a [] tried = omega arith
untried-cons a (x ∷ u) tried = ground (arith, untried-cons a u tried)

untried-new :
    (a : ℕ) (u tried : List ℕ)
    → contains u a ≡ true
    → contains tried a ≡ false
    → untried u (a ∷ tried) < untried u tried
untried-new a [] tried h k = ground arith
untried-new a (x ∷ u) tried h k = elim (Bool-cases (x == a)) [
  | inl e ↦ ground (arith, untried-cons a u tried)
  | inr e ↦ ground (arith, untried-new a u tried)
]

-- Trying addresses of the universe never adds to the untried ones, and takes one off if it is free.
pub try_addrs-untried :
    (u addrs tried : List ℕ)
    → All (λ a. contains u a ≡ true) addrs
    → untried u (try_addrs addrs tried).1 + (if (try_addrs addrs tried).0 then 1 else 0)
      ≤ untried u tried
unfolding try_addrs
try_addrs-untried u [] tried h = omega arith
try_addrs-untried u (a ∷ rest) tried h = elim (Bool-cases (contains tried a)) [
  | inl e ↦ rw e (try_addrs-untried u rest tried h.1)
  | inr e ↦
      rw e (ground (arith, try_addrs-untried u rest (a ∷ tried) h.1, untried-new a u tried h.0 e))
]

-- The free rotations that are left: one for each address not tried yet, and one for the refresh.
abbrev pub rotations_left : List ℕ → RotationBudget → ℕ
rotations_left u b = untried u b.tried + (if b.refreshed then 0 else 1)

pub admit_rotation-left :
    (u : List ℕ) (placed : Bool) (addrs : List ℕ) (cause : Option ℕ) (b : RotationBudget)
    → All (λ a. contains u a ≡ true) addrs
    → rotations_left u (admit_rotation placed addrs cause b).0
        + bit (admit_rotation placed addrs cause b).1.0
      ≤ rotations_left u b
unfolding admit_rotation
admit_rotation-left u placed addrs cause b w = ground (arith, try_addrs-untried u addrs b.tried w)
