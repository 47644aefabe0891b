-- ===== src/Ramp/Settles.antt =====
-- The governor comes to rest: within a bounded number of full windows, and under 429s within three.
use go_download.Base.{
  ◌+ℤ◌, ℕ, ◌+◌, ◌-◌, ◌*◌, ◌≤◌, ◌<◌, ◌≡◌, inl, inr, refl, ap, ◌∙◌, ℤ, pos, true, false, arith, ltb,
  sub_ℕ, List, [], ◌∷◌, length, Bool-cases, ◌==◌, min, if◌then◌else◌, ltb_ℤ, ◌||◌,
}
use go_download.Float64.{Float64}
use go_download.Ramp.{
  RampState, RampSample, note_locked, note_window, settle, admit, decide, measure_and_decide,
  measure, reject_throttled, has_settled,
}
use go_download.Ramp.Inv.{IsValid, IsRunning, marked-IsRunning, marked-IsValid, note_locked-IsValid}

-- How many more full windows the governor can take: six for each connection that it may still
-- add, one for warming up, and what the phase of the last batch needs.
abbrev pub phase : RampState → ℕ
phase s = if s.settling then 5 - s.unready_windows else 2 - s.sample_count

abbrev pub budget : RampState → ℕ
budget s =
    if s.done then 0 else 6 * (s.parts - s.admitted) + phase s + (if s.warmed then 0 else 1) + 1

module _ (fl : Float64) where
  decide-budget :
      (r : RampSample) (now : ℕ) (s : RampState)
      → IsRunning s
      → s.admitted ≤ s.parts
      → 1 ≤ s.admitted
      → s.settling ≡ false
      → s.warmed ≡ true
      → s.sample_count ≡ 0
      → budget (decide fl r now s).0 < 6 * (s.parts - s.admitted) + 2
  unfolding decide admit
  decide-budget r now s w h k e z q = ground arith

  measure_and_decide-budget :
      (b e : ℤ) (now : ℕ) (s : RampState)
      → IsValid s
      → IsRunning s
      → s.settling ≡ false
      → s.warmed ≡ true
      → s.done ≡ false
      → budget (measure_and_decide fl b e now s).0 < budget s
  unfolding measure_and_decide measure
  measure_and_decide-budget b e now s v w k z d =
      let t : RampState = record s {
        sample_bytes = pos 0;
        sample_time = pos 0;
        sample_count = 0;
      } in
      elim (Bool-cases (ltb (s.sample_count + 1) 2)) [
        | inl q ↦ ground arith
        | inr q ↦
            rw (q, measure_and_decide, measure)
              (ground (
                arith,
                decide-budget (record { bytes = s.sample_bytes +ℤ b; elapsed = s.sample_time +ℤ e })
                    now t (ground (arith, w)) v.admitted_le v.admitted_pos k z refl,
              ))
      ]

  note_window-budget :
      (b e : ℤ) (now : ℕ) (s : RampState)
      → IsValid s
      → IsRunning s
      → s.done ≡ false
      → has_settled now s ≡ true
      → budget (note_window fl b e now s).0 < budget s
  unfolding note_window settle admit
  note_window-budget b e now s v w d h = ground (arith, measure_and_decide-budget b e now s v w)

  note_locked-budget :
      (total now : ℕ) (s : RampState)
      → IsValid s
      → s.done ≡ false
      → ltb_ℤ (sub_ℕ total s.mark_at) (pos s.window) ≡ false
      → has_settled now s ≡ true
      → budget (note_locked fl total now s).0 < budget s
  unfolding note_locked
  note_locked-budget total now s v d f h =
      let t : RampState = record s { mark_at = total; mark_time = now } in
      let g : (s.done || ltb_ℤ (sub_ℕ total s.mark_at) (pos s.window)) ≡ false = ground arith in
      rw (g, note_locked)
        (note_window-budget (sub_ℕ total s.mark_at) (sub_ℕ now s.mark_time) now t
          (marked-IsValid total now s v) (marked-IsRunning total now s (v.running d)) d h)

  -- The progress notes of a run, each with its total and its time.
  unfoldable pub run_notes : List (ℕ × ℕ) → RampState → RampState
  run_notes [] s = s
  run_notes ((total, now) ∷ ws) s = run_notes ws (note_locked fl total now s).0

  -- Every note comes a full window after the mark, and not before the last batch had time to settle.
  abbrev pub AreFull : List (ℕ × ℕ) → RampState → Type 0
  AreFull [] s = Unit
  AreFull ((total, now) ∷ ws) s =
      (ltb_ℤ (sub_ℕ total s.mark_at) (pos s.window) ≡ false)
      × (has_settled now s ≡ true)
      × AreFull ws (note_locked fl total now s).0

  done_stays : (total now : ℕ) (s : RampState) → s.done ≡ true → (note_locked fl total now s).0 ≡ s
  unfolding note_locked
  done_stays total now s d = ground arith

  run_notes-done :
      (ws : List (ℕ × ℕ)) (s : RampState) → s.done ≡ true → (run_notes ws s).done ≡ true
  unfolding run_notes
  run_notes-done [] s d = d
  run_notes-done ((total, now) ∷ ws) s d =
      run_notes-done ws (note_locked fl total now s).0
        (ap (λ t. t.done) (done_stays total now s d) ∙ d)

  budget_pos : (s : RampState) → s.done ≡ false → 1 ≤ budget s
  budget_pos s d = ground arith

  -- Notes of full windows, each late enough for a batch that settles, end the ramp after at most as
  -- many as the budget of the valid governor that they start from, whatever the rates are.
  pub run_notes-finishes :
      (ws : List (ℕ × ℕ)) (s : RampState)
      → IsValid s
      → AreFull ws s
      → budget s ≤ length ws
      → (run_notes ws s).done ≡ true
  unfolding run_notes
  run_notes-finishes [] s v f h = ground (arith, budget_pos s)
  run_notes-finishes ((total, now) ∷ ws) s v f h = elim (Bool-cases s.done) [
    | inl d ↦ run_notes-done ((total, now) ∷ ws) s d
    | inr d ↦
        run_notes-finishes ws (note_locked fl total now s).0
          (note_locked-IsValid fl total now s v).0 f.2
          (omega (arith, note_locked-budget total now s v d f.0 f.1))
  ]

-- The flows that go on when the run carries out a demotion to so many; 0 is none.
abbrev pub left_flowing : ℕ → ℕ → ℕ
left_flowing demote_to flows = if demote_to == 0 then flows else min demote_to flows

-- A 429 of a worker, with the flows that were under way.
abbrev pub rejected_flows : ℕ → RampState × ℕ → RampState × ℕ
rejected_flows id (s, flows) =
    let (t, e) = reject_throttled id s in (t, left_flowing e.demote_to (flows + e.spawn_n))

-- From a valid governor, three 429s of worker 0, each with its demotion carried out, leave exactly one flow
-- of those under way, if there is any and they are no more than were admitted, and one that is admitted.
pub three_rejections :
    (s : RampState) (flows : ℕ)
    → IsValid s
    → 1 ≤ flows
    → flows ≤ s.admitted
    → ((rejected_flows 0 (rejected_flows 0 (rejected_flows 0 (s, flows)))).1 ≡ 1)
      × ((rejected_flows 0 (rejected_flows 0 (rejected_flows 0 (s, flows)))).0.admitted ≡ 1)
unfolding reject_throttled
three_rejections s flows v h k = (ground arith, ground arith)
