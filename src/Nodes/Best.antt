-- ===== src/Nodes/Best.antt =====
-- The address that bestLocked and reserve choose.
use go_download.Base.{
  ℕ, ◌≡◌, refl, Bool, true, false, ◌&&◌, Option, none, some, List, [], ◌∷◌, All, arith,
  Option-cases, inl, inr, ap, sym, subst, ◌∙◌,
}
use go_download.Nodes.{
  NodeAddress, Placement, find_node, candidate, is_before, consider, best_from, best_locked,
}

-- No node of the list could be chosen in place of the result.
abbrev pub beats : ℕ → Option ℕ → Option NodeAddress → NodeAddress → Bool
beats now exclude none m = candidate now exclude m
beats now exclude (some n) m = candidate now exclude m && is_before m n

abbrev pub beats_at : ℕ → Option ℕ → Option NodeAddress → Option NodeAddress → Bool
beats_at now exclude chosen none = false
beats_at now exclude chosen (some m) = beats now exclude chosen m

abbrev pub Unbeaten : List NodeAddress → ℕ → Option ℕ → Option NodeAddress → ℕ → Type 0
Unbeaten ns now exclude chosen a = beats_at now exclude chosen (find_node a ns) ≡ false

abbrev pub Allowed : ℕ → Option ℕ → Option NodeAddress → Type 0
Allowed now exclude none = Unit
Allowed now exclude (some n) = candidate now exclude n ≡ true

consider-Allowed :
    (now : ℕ) (exclude : Option ℕ) (n : NodeAddress) (chosen : Option NodeAddress)
    → Allowed now exclude chosen
    → Allowed now exclude (consider now exclude n chosen)
unfolding consider
consider-Allowed now exclude n none h = ground arith
consider-Allowed now exclude n (some c) h = ground arith

-- A later choice only gets better.
consider-beats :
    (now : ℕ) (exclude : Option ℕ) (n m : NodeAddress) (chosen : Option NodeAddress)
    → beats now exclude chosen m ≡ false
    → beats now exclude (consider now exclude n chosen) m ≡ false
unfolding consider
consider-beats now exclude n m none h = ground arith
consider-beats now exclude n m (some c) h = ground arith

consider_self :
    (now : ℕ) (exclude : Option ℕ) (n : NodeAddress) (chosen : Option NodeAddress)
    → beats now exclude (consider now exclude n chosen) n ≡ false
unfolding consider
consider_self now exclude n none = ground arith
consider_self now exclude n (some c) = ground arith

module _ (ns : List NodeAddress) (now : ℕ) (exclude : Option ℕ) where
  best_from-beats :
      (rest : List ℕ) (m : NodeAddress) (chosen : Option NodeAddress)
      → beats now exclude chosen m ≡ false
      → beats now exclude (best_from ns now exclude rest chosen) m ≡ false
  unfolding best_from
  best_from-beats [] m chosen h = h
  best_from-beats (a ∷ rest) m chosen h = elim (Option-cases (find_node a ns)) [
    | inl e ↦ rw (e, best_from) (best_from-beats rest m chosen h)
    | inr (n, e) ↦
        rw (e, best_from)
          (best_from-beats rest m (consider now exclude n chosen)
            (consider-beats now exclude n m chosen h))
  ]

  best_from-Allowed :
      (rest : List ℕ) (chosen : Option NodeAddress)
      → Allowed now exclude chosen
      → Allowed now exclude (best_from ns now exclude rest chosen)
  unfolding best_from
  best_from-Allowed [] chosen h = h
  best_from-Allowed (a ∷ rest) chosen h = elim (Option-cases (find_node a ns)) [
    | inl e ↦ rw (e, best_from) (best_from-Allowed rest chosen h)
    | inr (n, e) ↦
        rw (e, best_from)
          (best_from-Allowed rest (consider now exclude n chosen)
            (consider-Allowed now exclude n chosen h))
  ]

  skip_missing :
      (a : ℕ) (rest : List ℕ) (chosen : Option NodeAddress)
      → find_node a ns ≡ none
      → best_from ns now exclude (a ∷ rest) chosen ≡ best_from ns now exclude rest chosen
  unfolding best_from
  skip_missing a rest chosen e = rw (e, best_from) refl

  take_next :
      (a : ℕ) (rest : List ℕ) (chosen : Option NodeAddress) (n : NodeAddress)
      → find_node a ns ≡ some n
      → best_from ns now exclude (a ∷ rest) chosen
        ≡ best_from ns now exclude rest (consider now exclude n chosen)
  unfolding best_from
  take_next a rest chosen n e = rw (e, best_from) refl

  best_from-Unbeaten :
      (rest : List ℕ) (chosen r : Option NodeAddress)
      → best_from ns now exclude rest chosen ≡ r
      → All (Unbeaten ns now exclude r) rest
  best_from-Unbeaten [] chosen r q = tt
  best_from-Unbeaten (a ∷ rest) chosen r q = elim (Option-cases (find_node a ns)) [
    | inl e ↦ (
      ap (beats_at now exclude r) e,
      best_from-Unbeaten rest chosen r (sym (skip_missing a rest chosen e) ∙ q),
    )
    | inr (n, e) ↦
        let f = sym (take_next a rest chosen n e) ∙ q in
        (
          ap (beats_at now exclude r) e
              ∙ subst (λ x. beats now exclude x n ≡ false) f
                  (best_from-beats rest n (consider now exclude n chosen)
                    (consider_self now exclude n chosen)),
          best_from-Unbeaten rest (consider now exclude n chosen) r f,
        )
  ]

-- bestLocked chooses a node that is not excluded, is eligible and carries no probe, and no such node
-- of the order has fewer connections, or as many and an earlier place; it chooses none only if there is
-- no such node.
pub best_locked_lem :
    (now : ℕ) (exclude : Option ℕ) (p : Placement)
    → Allowed now exclude (best_locked now exclude p)
      × All (Unbeaten p.by_addr now exclude (best_locked now exclude p)) p.ordered
unfolding best_locked
best_locked_lem now exclude p = (
  best_from-Allowed p.by_addr now exclude p.ordered none tt,
  best_from-Unbeaten p.by_addr now exclude p.ordered none _ refl,
)
