-- ===== src/Tests/Governor.antt =====
-- The ramp governor on a run of windows, with rates compared as exact fractions.
use go_download.Base.{
  if◌then◌else◌, ℕ, ◌*◌, ◌^◌, ◌≡◌, refl, pos_part, List, [], ◌∷◌, true, false, ltb, arith,
}
use go_download.Float64.{Float64}
use go_download.Ramp.{RampState, new_ramp, note_locked}
use go_download.Ramp.Inv.{IsValid, IsSensible, new_ramp-IsValid, note_locked-IsValid}
use go_download.Ramp.Settles.{
  run_notes, AreFull, run_notes-finishes, three_rejections, rejected_flows,
}

-- Non-negative fractions stand for the doubles: a numerator and a denominator.
abbrev fractions : Float64
fractions = record {
  F = ℕ × ℕ;
  of_int = λ z. (pos_part z, 1);
  seconds = λ z. (pos_part z, 1_000_000_000);
  decimal = λ m k. (m, 10 ^ k);
  div = λ a b. (a.0 * b.1, a.1 * b.0);
  mul = λ a b. (a.0 * b.0, a.1 * b.1);
  fmax = λ a b. if ltb (a.0 * b.1) (b.0 * a.1) then b else a;
  lt = λ a b. ltb (a.0 * b.1) (b.0 * a.1);
}

abbrev started : RampState
started = new_ramp 4 1 100 true 10 0

started-IsValid : IsValid started
started-IsValid = new_ramp-IsValid 4 1 100 true 10 0 (omega arith) (omega arith)

new_ramp-IsValid_example : IsValid (new_ramp 4 1 100 true 10 0)
new_ramp-IsValid_example = new_ramp-IsValid 4 1 100 true 10 0 (omega arith) (omega arith)

-- The second full window admits one worker.
abbrev warmed : RampState
warmed = (note_locked fractions 100 50 started).0

second_window :
    (note_locked fractions 200 100 warmed).1 ≡ record { spawn_from = 1; spawn_n = 1; demote_to = 0 }
unfolding note_locked new_ramp
second_window = refl

note_locked-IsValid_example :
    IsValid (note_locked fractions 100 50 started).0
    × IsSensible started
        (note_locked fractions 100 50 started).0
        (note_locked fractions 100 50 started).1
note_locked-IsValid_example = note_locked-IsValid fractions 100 50 started started-IsValid

-- A link that no second connection speeds up. The worker's first byte is never seen, so the batch is rejected.
abbrev windows : List (ℕ × ℕ)
windows =
    (100, 50)
    ∷ (200, 100)
    ∷ (300, 150)
    ∷ (400, 200)
    ∷ (500, 250)
    ∷ (600, 300)
    ∷ (700, 350)
    ∷ (800, 400)
    ∷ (900, 450)
    ∷ (1000, 500)
    ∷ []

abbrev pair_started : RampState
pair_started = new_ramp 2 1 100 true 10 0

windows-AreFull : AreFull fractions windows pair_started
unfolding note_locked new_ramp
windows-AreFull = (
  refl,
  refl,
  (
    refl,
    refl,
    (
      refl,
      refl,
      (
        refl,
        refl,
        (refl, refl, (refl, refl, (refl, refl, (refl, refl, (refl, refl, (refl, refl, tt)))))),
      ),
    ),
  ),
)

run_notes-finishes_example : (run_notes fractions windows pair_started).done ≡ true
unfolding new_ramp
run_notes-finishes_example =
    run_notes-finishes fractions windows pair_started
      (new_ramp-IsValid 2 1 100 true 10 0 (omega arith) (omega arith)) windows-AreFull (omega arith)

three_rejections_example :
    let s : RampState = new_ramp 4 3 100 false 10 0 in
    ((rejected_flows 0 (rejected_flows 0 (rejected_flows 0 (s, 3)))).1 ≡ 1)
    × ((rejected_flows 0 (rejected_flows 0 (rejected_flows 0 (s, 3)))).0.admitted ≡ 1)
unfolding new_ramp
three_rejections_example =
    three_rejections (new_ramp 4 3 100 false 10 0) 3
      (new_ramp-IsValid 4 3 100 false 10 0 (omega arith) (omega arith)) (omega arith) (omega arith)
