-- ===== src/Ramp.antt =====
-- download.go: rampState, the governor that adds and retires workers in batches. Each method runs
-- under rs.mu; what it does after the lock is released is its second result. A time is a number of
-- nanoseconds of a monotonic clock, `none` the zero time.
pub mod Inv
pub mod Settles
use go_download.Base.{
  ℕ, suc, ◌+◌, ◌-◌, ◌*◌, ◌/◌, ℤ, pos, Bool, true, false, ◌&&◌, ◌||◌, not, ltb, leb, ◌==◌,
  if◌then◌else◌, sub_ℕ, min, max, leb_ℤ, ltb_ℤ, ◌+ℤ◌, Option, none, some,
}
use go_download.Float64.{Float64}

pub record RampSample : Type 0 where
  pub bytes : ℤ
  pub elapsed : ℤ

abbrev pub no_sample : RampSample
no_sample = record { bytes = pos 0; elapsed = pos 0 }

pub record RampState : Type 0 where
  pub done : Bool
  pub parts : ℕ
  pub floor : ℕ
  pub window : ℕ
  pub warmed : Bool
  pub settling : Bool
  pub settle_min : ℤ
  pub admitted : ℕ
  pub admitted_at : Option ℕ
  pub unready_windows : ℕ
  pub prev_admitted : ℕ
  pub admission_baseline : RampSample
  pub sample_bytes : ℤ
  pub sample_time : ℤ
  pub sample_count : ℕ
  pub mark_at : ℕ
  pub mark_time : ℕ
  pub batch_ready : Bool

-- Workers spawn_from .. spawn_from + spawn_n - 1 are to be started; demote_to, if not 0, is the number
-- of flows to keep.
pub record Effects : Type 0 where
  pub spawn_from : ℕ
  pub spawn_n : ℕ
  pub demote_to : ℕ

abbrev pub no_effect : Effects
no_effect = record { spawn_from = 0; spawn_n = 0; demote_to = 0 }

abbrev pub ramp_measure_windows : ℕ
ramp_measure_windows = 2

-- rampSettleFloor and rampSettleCap, in nanoseconds.
abbrev pub ramp_settle_floor : ℕ
ramp_settle_floor = 1_000_000

abbrev pub ramp_settle_cap : ℕ
ramp_settle_cap = 200_000_000

-- remaining and min_part_size are int64 of which only min_part_size may be 0 here.
unfoldable pub ramp_eligible : ℕ → ℕ → ℕ → Bool
ramp_eligible remaining min_part_size parts =
    ltb 1 parts && ltb 0 min_part_size && leb parts (remaining / min_part_size)

unfoldable pub settle_floor_for : ℕ → ℕ
settle_floor_for elect_dur = min (max (2 * elect_dur) ramp_settle_floor) ramp_settle_cap

-- The state in which runWorkers makes the governor, for `start` eager workers.
unfoldable pub new_ramp : ℕ → ℕ → ℕ → Bool → ℕ → ℕ → RampState
new_ramp parts start window can_ramp settle_min now = record {
  done = leb parts start || not can_ramp;
  parts = parts;
  floor = start;
  window = window;
  warmed = false;
  settling = false;
  settle_min = pos settle_min;
  admitted = start;
  admitted_at = none;
  unready_windows = 0;
  prev_admitted = 0;
  admission_baseline = no_sample;
  sample_bytes = pos 0;
  sample_time = pos 0;
  sample_count = 0;
  mark_at = 0;
  mark_time = now;
  batch_ready = false;
}

unfoldable pub note_worker_ready : ℕ → RampState → RampState
note_worker_ready id s = elim s.admitted_at [
  | none ↦ s
  | some _ ↦
      if ltb id s.prev_admitted || leb s.admitted id then s else record s { batch_ready = true }
]

unfoldable pub reject_unready : RampState → RampState × Effects
reject_unready s =
    (record s { done = true }, record { spawn_from = 0; spawn_n = 0; demote_to = s.prev_admitted })

-- The flows that `rejectThrottled` keeps.
abbrev pub throttled_keep : RampState → ℕ
throttled_keep s = if ltb s.floor s.admitted then max s.prev_admitted s.floor else 1

-- The effect is the `demote keep` that follows.
unfoldable pub reject_throttled : ℕ → RampState → RampState × Effects
reject_throttled id s =
    if leb s.admitted id || leb s.admitted 1 then (record s { done = true }, no_effect) else (
      record s { done = true; admitted = throttled_keep s; prev_admitted = s.floor },
      record { spawn_from = 0; spawn_n = 0; demote_to = throttled_keep s },
    )

unfoldable pub measure : ℤ → ℤ → RampState → RampState × Option RampSample
measure bytes elapsed s =
    let total_bytes = s.sample_bytes +ℤ bytes in
    let total_time = s.sample_time +ℤ elapsed in
    let n = s.sample_count + 1 in
    if ltb n ramp_measure_windows
    then (record s { sample_bytes = total_bytes; sample_time = total_time; sample_count = n }, none)
    else (
      record s { sample_bytes = pos 0; sample_time = pos 0; sample_count = 0 },
      some (record { bytes = total_bytes; elapsed = total_time }),
    )

-- `parts - admitted` is not negative: the invariant has admitted ≤ parts.
unfoldable pub admit : RampSample → ℕ → RampState → RampState × Effects
admit sample now s =
    let add = min s.admitted (s.parts - s.admitted) in
    (
      record s {
        admission_baseline = sample;
        admitted_at = some now;
        prev_admitted = s.admitted;
        admitted = s.admitted + add;
        settling = true;
        unready_windows = 0;
        batch_ready = false;
      },
      record { spawn_from = s.admitted; spawn_n = add; demote_to = 0 },
    )

-- The test now.Sub(rs.admittedAt) >= rs.settleMin; the difference from the zero time is the largest
-- Duration.
abbrev pub has_settled : ℕ → RampState → Bool
has_settled now s = elim s.admitted_at [ none ↦ true | some at ↦ leb_ℤ s.settle_min (sub_ℕ now at) ]

-- The case of noteLocked in which a batch settles.
unfoldable pub settle : ℕ → RampState → RampState × Effects
unfolding reject_unready
settle now s =
    if not (has_settled now s)
    then (s, no_effect)
    else if s.batch_ready
    then (record s { settling = false; unready_windows = 0 }, no_effect)
    else let t : RampState = record s { unready_windows = s.unready_windows + 1 } in
      if ltb ramp_measure_windows t.unready_windows then reject_unready t else (t, no_effect)

abbrev pub is_none {ℓ} : {A : Type ℓ} → Option A → Bool
is_none none = true
is_none (some _) = false

module _ (fl : Float64) where
  open fl use {F, of_int, seconds, decimal, div, mul, fmax, lt}

  unfoldable pub rate : RampSample → F
  rate s = div (of_int s.bytes) (fmax (seconds s.elapsed) (decimal 1 9))

  unfoldable pub is_flat : RampSample → RampSample → Bool
  unfolding rate
  is_flat sample baseline = lt (rate sample) (mul (rate baseline) (decimal 102 2))

  unfoldable pub is_modest : RampSample → RampSample → Bool
  unfolding rate
  is_modest sample baseline = lt (rate sample) (mul (rate baseline) (decimal 115 2))

  unfoldable pub decide : RampSample → ℕ → RampState → RampState × Effects
  unfolding admit
  decide sample now s =
      if is_flat sample s.admission_baseline
      then (
        record s { done = true },
        record { spawn_from = 0; spawn_n = 0; demote_to = s.prev_admitted },
      )
      else if is_modest sample s.admission_baseline
      then (record s { done = true }, no_effect)
      else if ltb s.admitted s.parts
      then admit sample now s
      else (record s { done = true }, no_effect)

  unfoldable pub measure_and_decide : ℤ → ℤ → ℕ → RampState → RampState × Effects
  unfolding measure decide
  measure_and_decide bytes elapsed now s =
      let (t, sample) = measure bytes elapsed s in
      elim sample [ none ↦ (t, no_effect) | some r ↦ decide r now t ]

  -- The `switch` of noteLocked, after the window's marks are moved.
  unfoldable pub note_window : ℤ → ℤ → ℕ → RampState → RampState × Effects
  unfolding settle admit measure_and_decide
  note_window bytes elapsed now s =
      if not s.warmed
      then (record s { warmed = true }, no_effect)
      else if s.settling
      then settle now s
      else if s.admitted == s.floor && is_none s.admitted_at
      then admit (record { bytes = bytes; elapsed = elapsed }) now s
      else measure_and_decide bytes elapsed now s

  unfoldable pub note_locked : ℕ → ℕ → RampState → RampState × Effects
  unfolding note_window
  note_locked total now s =
      if s.done || ltb_ℤ (sub_ℕ total s.mark_at) (pos s.window)
      then (s, no_effect)
      else note_window (sub_ℕ total s.mark_at) (sub_ℕ now s.mark_time) now
          (record s { mark_at = total; mark_time = now })
