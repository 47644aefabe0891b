-- ===== src/Dial/Ends.antt =====
-- The race never waits for nothing, and it fails only with every dial.
use go_download.Base.{
  ℕ, suc, ◌+◌, ◌≤◌, ◌<◌, ◌≡◌, refl, Bool, true, false, ◌&&◌, ◌||◌, not, ◌==◌, bit, if◌then◌else◌,
  List, [], ◌∷◌, ◌++◌, length, length-append, arith, Bool-cases, inl, inr, ap,
}
use go_download.Dial.{
  Side, primary, fallback, Event, done, due, returns, Race, Outcome, racing, cancelled, exhausted,
  won, started_primary, start_fallback, receive, replace_if, fail, handle, IsPossible, Reach, here,
  next_event,
}

abbrev is_side : Side → Side → Bool
is_side primary primary = true
is_side primary fallback = false
is_side fallback primary = false
is_side fallback fallback = true

-- How many of the failed dials are of a side.
abbrev pub failures : Side → List Side → ℕ
failures side [] = 0
failures side (x ∷ xs) = bit (is_side side x) + failures side xs

failures-append :
    (side : Side) (xs ys : List Side)
    → failures side (xs ++ ys) ≡ failures side xs + failures side ys
failures-append side [] ys = omega arith
failures-append side (x ∷ xs) ys = omega (arith, failures-append side xs ys)

-- Each dial that was started is under way or has failed, and the fallback was started if it was counted.
pub record IsCounted (has_fallback : Bool) (r : Race) : Type 0 where
  pub started : r.started ≡ suc (bit r.fallback_started)
  pub pending : bit r.primary_pending + bit r.fallback_pending + r.finished ≡ r.started
  pub failed : length r.failed ≡ r.finished
  pub first : failures primary r.failed + bit r.primary_pending ≡ 1
  pub second : failures fallback r.failed + bit r.fallback_pending ≡ bit r.fallback_started
  pub late : (r.fallback_pending && not r.fallback_started) ≡ false
  pub wanted : (r.fallback_started && not has_fallback) ≡ false

started_primary-IsCounted : (has_fallback : Bool) → IsCounted has_fallback started_primary
started_primary-IsCounted b = record {
  started = refl;
  pending = refl;
  failed = refl;
  first = refl;
  second = refl;
  late = refl;
  wanted = refl;
}

start_fallback-IsCounted :
    (r : Race) → r.fallback_started ≡ false → IsCounted true r → IsCounted true (start_fallback r)
start_fallback-IsCounted r e c = record {
  started = ground (arith, e, c.started);
  pending = ground (arith, e, c.pending, c.late);
  failed = c.failed;
  first = c.first;
  second = ground (arith, e, c.second, c.late);
  late = refl;
  wanted = refl;
}

-- A dial that fails, before the loop decides how to go on.
mark-IsCounted :
    (has_fallback : Bool) (side : Side) (r : Race)
    → IsPossible (returns side false) r
    → IsCounted has_fallback r
    → IsCounted has_fallback (record (receive side r) { failed = r.failed ++ side ∷ [] })
mark-IsCounted b primary r p c = record {
  started = c.started;
  pending = ground (arith, p, c.pending);
  failed = omega (arith, c.failed, length-append r.failed (primary ∷ []));
  first = ground (arith, p, c.first, failures-append primary r.failed (primary ∷ []));
  second = ground (arith, p, c.second, failures-append fallback r.failed (primary ∷ []));
  late = c.late;
  wanted = c.wanted;
}
mark-IsCounted b fallback r p c = record {
  started = c.started;
  pending = ground (arith, p, c.pending);
  failed = omega (arith, c.failed, length-append r.failed (fallback ∷ []));
  first = ground (arith, p, c.first, failures-append primary r.failed (fallback ∷ []));
  second = ground (arith, p, c.second, failures-append fallback r.failed (fallback ∷ []));
  late = refl;
  wanted = c.wanted;
}

replace_if-IsCounted :
    (has_fallback t : Bool) (r : Race)
    → (t && not has_fallback) ≡ false
    → (t && r.fallback_started) ≡ false
    → IsCounted has_fallback r
    → IsCounted has_fallback (replace_if t r)
replace_if-IsCounted true true r h k c = start_fallback-IsCounted r k c
replace_if-IsCounted false true r h k c = ground (arith, h)
replace_if-IsCounted b false r h k c = c

fail-IsCounted :
    (has_fallback : Bool) (side : Side) (r : Race)
    → IsPossible (returns side false) r
    → IsCounted has_fallback r
    → IsCounted has_fallback (fail has_fallback side (receive side r))
fail-IsCounted b primary r p c =
    replace_if-IsCounted b (b && not r.fallback_started)
      (record (receive primary r) { failed = r.failed ++ primary ∷ [] }) (ground arith)
      (ground arith) (mark-IsCounted b primary r p c)
fail-IsCounted b fallback r p c = mark-IsCounted b fallback r p c

-- Behind a failed dial the fallback, if there is one, is under way or was.
replace_if-started :
    (b t : Bool) (r : Race)
    → t ≡ (b && not r.fallback_started)
    → (not b || (replace_if t r).fallback_started) ≡ true
replace_if-started b true r h = ground arith
replace_if-started b false r h = ground (arith, h)

fail-started :
    (has_fallback : Bool) (side : Side) (r : Race)
    → IsPossible (returns side false) r
    → IsCounted has_fallback r
    → (not has_fallback || (fail has_fallback side (receive side r)).fallback_started) ≡ true
fail-started b primary r p c =
    replace_if-started b (b && not r.fallback_started)
      (record (receive primary r) { failed = r.failed ++ primary ∷ [] }) refl
fail-started b fallback r p c = ground (arith, p, c.late)

abbrev is_racing : Outcome → Bool
is_racing racing = true
is_racing cancelled = false
is_racing exhausted = false
is_racing (won s) = false

abbrev is_cancelled : Outcome → Bool
is_cancelled racing = false
is_cancelled cancelled = true
is_cancelled exhausted = false
is_cancelled (won s) = false

abbrev is_won : Outcome → Bool
is_won racing = false
is_won cancelled = false
is_won exhausted = false
is_won (won s) = true

-- A race that goes on has a dial under way.
pub record IsRacing (has_fallback : Bool) (r : Race) : Type 0 where
  pub counted : IsCounted has_fallback r
  pub under_way : r.finished < r.started

conclude-racing : (b t : Bool) → (if b && t then exhausted else racing) ≡ racing → (b && t) ≡ false
conclude-racing true true h = ground (arith, ap is_racing h)
conclude-racing true false h = refl
conclude-racing false t h = refl

below : (m n : ℕ) → m ≤ n → (m == n) ≡ false → m < n
below m n h k = ground (arith, h, k)

handle-IsRacing :
    (has_fallback : Bool) (e : Event) (r : Race)
    → IsPossible e r
    → (handle has_fallback e r).1 ≡ racing
    → IsRacing has_fallback r
    → IsRacing has_fallback (handle has_fallback e r).0
unfolding handle
handle-IsRacing b done r p h i = ground (arith, ap is_racing h)
handle-IsRacing false due r p h i = i
handle-IsRacing true due r p h i = elim (Bool-cases r.fallback_started) [
  | inl e ↦ simp (e, handle) i
  | inr e ↦
      simp (e, handle)
        (record {
          counted = start_fallback-IsCounted r e i.counted;
          under_way = omega (arith, i.under_way);
        })
]
handle-IsRacing b (returns side true) r p h i = ground (arith, ap is_racing h)
handle-IsRacing b (returns side false) r p h i =
    let c = fail-IsCounted b side r p i.counted in
    let s = fail b side (receive side r) in
    record {
      counted = c;
      under_way = below s.finished s.started (ground (arith, c.pending)) (
          ground (
            arith,
            fail-started b side r p i.counted,
            conclude-racing (s.finished == s.started) (not b || s.fallback_started) h,
          ));
    }

Reach-IsRacing : {has_fallback : Bool} {r : Race} → Reach has_fallback r → IsRacing has_fallback r
Reach-IsRacing {has_fallback} here = record {
  counted = started_primary-IsCounted has_fallback;
  under_way = omega arith;
}
Reach-IsRacing {has_fallback} (next_event {r} e x p h) =
    handle-IsRacing has_fallback e r p h (Reach-IsRacing x)

-- As long as the race goes on, a dial is under way: the loop never waits for a result that cannot come.
pub Reach-under_way :
    {has_fallback : Bool} {r : Race}
    → Reach has_fallback r
    → (r.primary_pending || r.fallback_pending) ≡ true
Reach-under_way x = let i = Reach-IsRacing x in ground (arith, i.under_way, i.counted.pending)

conclude-exhausted :
    (b t : Bool) → (if b && t then exhausted else racing) ≡ exhausted → (b && t) ≡ true
conclude-exhausted true true h = refl
conclude-exhausted true false h = ground (arith, ap is_racing h)
conclude-exhausted false t h = ground (arith, ap is_racing h)

handle-exhausted :
    (has_fallback : Bool) (e : Event) (r : Race)
    → IsPossible e r
    → (handle has_fallback e r).1 ≡ exhausted
    → IsCounted has_fallback r
    → let s = (handle has_fallback e r).0 in
      (failures primary s.failed ≡ 1)
      × (failures fallback s.failed ≡ bit has_fallback)
      × (length s.failed ≡ suc (bit has_fallback))
unfolding handle
handle-exhausted b done r p h c = ground (arith, ap is_cancelled h)
handle-exhausted b due r p h c = ground (arith, ap is_racing h)
handle-exhausted b (returns side true) r p h c = ground (arith, ap is_won h)
handle-exhausted b (returns side false) r p h c =
    let d = fail-IsCounted b side r p c in
    let s = fail b side (receive side r) in
    let k = conclude-exhausted (s.finished == s.started) (not b || s.fallback_started) h in
    (
      ground (arith, d.pending, d.first, k),
      ground (arith, d.pending, d.second, d.wanted, k),
      ground (arith, d.failed, d.started, d.wanted, k),
    )

-- The race gives up for failed dials only when the primary has failed, once, and the fallback, if there
-- is one, has failed, once: the errors it joins are of these dials and no other.
pub Reach-exhausted :
    {has_fallback : Bool} {r : Race} (e : Event)
    → Reach has_fallback r
    → IsPossible e r
    → (handle has_fallback e r).1 ≡ exhausted
    → let s = (handle has_fallback e r).0 in
      (failures primary s.failed ≡ 1)
      × (failures fallback s.failed ≡ bit has_fallback)
      × (length s.failed ≡ suc (bit has_fallback))
Reach-exhausted {has_fallback} {r} e x p h =
    handle-exhausted has_fallback e r p h (Reach-IsRacing x).counted
