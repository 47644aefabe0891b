-- ===== src/Ramp/Inv.antt =====
-- The governor's counts stay in their bounds, and what it asks for follows from them.
use go_download.Base.{
  Option-cases, ap, ◌∙◌, sub_ℕ, Bool-cases, ◌||◌, ltb_ℤ, Option-cases, ap, ◌∙◌, ℕ, ◌+◌, ◌≤◌, ◌<◌,
  ◌≡◌, ◌⊎◌, inl, inr, ℤ, pos, Bool, true, false, arith,
}
use go_download.Float64.{Float64}
use go_download.Ramp.{
  RampState, RampSample, Effects, new_ramp, note_locked, note_window, settle, admit, decide,
  measure_and_decide, measure, reject_throttled, note_worker_ready, is_none,
}

-- While the governor is at work a batch has been admitted exactly when there is an admission time.
pub record IsRunning (s : RampState) : Type 0 where
  pub above_floor : s.floor ≤ s.admitted
  pub unready_bounded : s.unready_windows ≤ 2
  pub sample_bounded : s.sample_count ≤ 1
  pub no_batch : is_none s.admitted_at ≡ true → (s.admitted ≡ s.floor) × (s.settling ≡ false)
  pub batch :
      is_none s.admitted_at ≡ false → (s.floor ≤ s.prev_admitted) × (s.prev_admitted < s.admitted)
  pub can_grow : is_none s.admitted_at ≡ true → s.floor < s.parts

pub record IsValid (s : RampState) : Type 0 where
  pub floor_pos : 1 ≤ s.floor
  pub floor_le : s.floor ≤ s.parts
  pub admitted_pos : 1 ≤ s.admitted
  pub admitted_le : s.admitted ≤ s.parts
  pub prev_lt : s.floor < s.admitted → s.prev_admitted < s.admitted
  pub running : s.done ≡ false → IsRunning s

-- The governor starts valid for 1 ≤ start ≤ parts eager workers.
pub new_ramp-IsValid :
    (parts start window : ℕ) (can_ramp : Bool) (settle_min now : ℕ)
    → 1 ≤ start
    → start ≤ parts
    → IsValid (new_ramp parts start window can_ramp settle_min now)
unfolding new_ramp
new_ramp-IsValid parts start window can_ramp m now h k = ground arith

pub note_worker_ready-IsValid :
    (id : ℕ) (s : RampState) → IsValid s → IsValid (note_worker_ready id s)
unfolding note_worker_ready
note_worker_ready-IsValid id s v = ground arith

pub reject_throttled-IsValid :
    (id : ℕ) (s : RampState) → IsValid s → IsValid (reject_throttled id s).0
unfolding reject_throttled
reject_throttled-IsValid id s v = ground arith

settle-IsValid :
    (now : ℕ) (s : RampState)
    → IsValid s
    → s.done ≡ false
    → s.settling ≡ true
    → IsValid (settle now s).0
unfolding settle
settle-IsValid now s v d e = ground (arith, v.running d)

admit-IsValid :
    (r : RampSample) (now : ℕ) (s : RampState)
    → IsValid s
    → IsRunning s
    → s.admitted < s.parts
    → IsValid (admit r now s).0
unfolding admit
admit-IsValid r now s v w k = ground arith

-- What the governor asks for: the workers that it spawns are the next ids, and the admitted count
-- grows by them; a demotion keeps at least the floor, and fewer than are admitted, and ends the ramp.
pub record IsSensible (s t : RampState) (e : Effects) : Type 0 where
  pub counted : t.admitted ≡ s.admitted + e.spawn_n
  pub in_order : (e.spawn_n ≡ 0) ⊎ (e.spawn_from ≡ s.admitted)
  pub demotes :
      (e.demote_to ≡ 0)
      ⊎ ((s.floor ≤ e.demote_to) × (e.demote_to < s.admitted) × (t.done ≡ true) × (e.spawn_n ≡ 0))

settle-IsSensible :
    (now : ℕ) (s : RampState)
    → IsRunning s
    → s.settling ≡ true
    → IsSensible s (settle now s).0 (settle now s).1
unfolding settle
settle-IsSensible now s w e = ground arith

module _ (fl : Float64) where
  decide-IsValid :
      (r : RampSample) (now : ℕ) (s : RampState)
      → IsValid s
      → IsRunning s
      → IsValid (decide fl r now s).0
  unfolding decide
  decide-IsValid r now s v w = ground (arith, admit-IsValid r now s v w)

  decide-IsSensible :
      (r : RampSample) (now : ℕ) (s : RampState)
      → IsRunning s
      → is_none s.admitted_at ≡ false
      → IsSensible s (decide fl r now s).0 (decide fl r now s).1
  unfolding decide
  decide-IsSensible r now s w e = ground arith

measure-IsRunning : (b e : ℤ) (s : RampState) → IsRunning s → IsRunning (measure b e s).0
unfolding measure
measure-IsRunning b e s w = ground arith

measure-IsValid : (b e : ℤ) (s : RampState) → IsValid s → IsRunning s → IsValid (measure b e s).0
unfolding measure
measure-IsValid b e s v w = ground arith

-- Measuring touches only the sample.
measure_keeps :
    (b e : ℤ) (s : RampState)
    → let t = (measure b e s).0 in
      (t.admitted ≡ s.admitted)
      × (t.floor ≡ s.floor)
      × (t.admitted_at ≡ s.admitted_at)
      × (t.prev_admitted ≡ s.prev_admitted)
unfolding measure
measure_keeps b e s = ground arith

-- The window's marks matter to none of this.
module _ (total now : ℕ) (s : RampState) where
  abbrev pub marked : RampState
  marked = record s { mark_at = total; mark_time = now }

  pub marked-IsRunning : IsRunning s → IsRunning marked
  marked-IsRunning w = ground arith

  pub marked-IsValid : IsValid s → IsValid marked
  marked-IsValid v = ground arith

  marked-IsSensible : (t : RampState) (e : Effects) → IsSensible marked t e → IsSensible s t e
  marked-IsSensible t e h = ground arith

module _ (fl : Float64) where
  measure_and_decide-IsValid :
      (b e : ℤ) (now : ℕ) (s : RampState)
      → IsValid s
      → IsRunning s
      → IsValid (measure_and_decide fl b e now s).0
  unfolding measure_and_decide
  measure_and_decide-IsValid b e now s v w =
      let t : RampState = (measure b e s).0 in
      elim (Option-cases (measure b e s).1) [
        | inl n ↦ rw (n, measure_and_decide) (measure-IsValid b e s v w)
        | inr (r, n) ↦
            rw (n, measure_and_decide)
              (decide-IsValid fl r now t (measure-IsValid b e s v w) (measure-IsRunning b e s w))
      ]

  measure_and_decide-IsSensible :
      (b e : ℤ) (now : ℕ) (s : RampState)
      → IsRunning s
      → is_none s.admitted_at ≡ false
      → IsSensible s (measure_and_decide fl b e now s).0 (measure_and_decide fl b e now s).1
  unfolding measure_and_decide
  measure_and_decide-IsSensible b e now s w k =
      let t : RampState = (measure b e s).0 in
      let same = measure_keeps b e s in
      elim (Option-cases (measure b e s).1) [
        | inl n ↦ rw (n, measure_and_decide) (ground (arith, same))
        | inr (r, n) ↦
            rw (n, measure_and_decide)
              (ground (
                arith,
                same,
                decide-IsSensible fl r now t (measure-IsRunning b e s w) (ap is_none same.2 ∙ k),
              ))
      ]

  note_window-IsValid :
      (b e : ℤ) (now : ℕ) (s : RampState)
      → IsValid s
      → IsRunning s
      → s.done ≡ false
      → IsValid (note_window fl b e now s).0
  unfolding note_window
  note_window-IsValid b e now s v w d = ground (
    arith,
    settle-IsValid now s v d,
    admit-IsValid (record { bytes = b; elapsed = e }) now s v w,
    measure_and_decide-IsValid b e now s v w,
  )

  note_window-IsSensible :
      (b e : ℤ) (now : ℕ) (s : RampState)
      → IsRunning s
      → IsSensible s (note_window fl b e now s).0 (note_window fl b e now s).1
  unfolding note_window admit
  note_window-IsSensible b e now s w =
      ground (arith, settle-IsSensible now s w, measure_and_decide-IsSensible b e now s w)

  -- Noting progress keeps the governor valid, whatever the rates are; the workers that it asks to start
  -- carry the next ids and are counted as admitted, and a demotion keeps the floor at least, fewer
  -- than are admitted, and ends the ramp.
  pub note_locked-IsValid :
      (total now : ℕ) (s : RampState)
      → IsValid s
      → IsValid (note_locked fl total now s).0
        × IsSensible s (note_locked fl total now s).0 (note_locked fl total now s).1
  unfolding note_locked
  note_locked-IsValid total now s v =
      elim (Bool-cases (s.done || ltb_ℤ (sub_ℕ total s.mark_at) (pos s.window))) [
        | inl e ↦ rw (e, note_locked) (v, ground arith)
        | inr e ↦
            let t : RampState = record s { mark_at = total; mark_time = now } in
            let w : IsRunning t = marked-IsRunning total now s (v.running (ground arith)) in
            rw (e, note_locked)
              (
                note_window-IsValid (sub_ℕ total s.mark_at) (sub_ℕ now s.mark_time) now t
                    (marked-IsValid total now s v) w (ground arith),
                marked-IsSensible total now s _ _ (
                    note_window-IsSensible (sub_ℕ total s.mark_at) (sub_ℕ now s.mark_time) now t w),
              )
      ]
