-- ===== src/Session/Truth.antt =====
-- A sidecar never takes a byte to be on disk that is not.
use go_download.Base.{
  ℕ, ◌<◌, ◌≡◌, refl, ℤ, pos, pos_part, Bool, true, ◌||◌, not, Option, none, some, List, sum_by,
  eq_ℤ, eq_bytes, arith, Bool-cases, Option-cases, inl, inr, sym, ap, subst, ◌∙◌,
}
use go_download.State.{ChunkState, StateFile, load_state, usable}
use go_download.State.Order.{state_holds, IsResumable, load_state-IsResumable}
use go_download.Sched.{snapshot}
use go_download.Sched.Seed.{saved}
use go_download.System.{
  System, Step, hands_out, exits, demotes, claims, writes, completes, reorders, commit, start_fresh,
  start_resumed, here,
}
use go_download.System.Inv.{IsSound, Step-IsSound}
use go_download.System.Coverage.{snapshot_exact, start_fresh-IsSound, start_resumed-IsSound}
use go_download.Session.{
  Origin, Session, Opened, refused, opened, resumes, open_fresh, open_session, Act, works, snaps,
  saves, Acts, idle, next_act,
}

-- A byte of the file that the ranges do not list is on disk.
abbrev pub Covers : ℕ → List ChunkState → (ℕ → Bool) → Type 0
Covers size chunks disk = (b : ℕ) → b < size → sum_by (state_holds b) chunks ≡ 0 → disk b ≡ true

-- The sidecar in place and the snapshot that is held.
abbrev pub InPlace : ℕ → Option StateFile → (ℕ → Bool) → Type 0
InPlace size none disk = Unit
InPlace size (some st) disk = Covers size st.chunks disk

abbrev pub Held : ℕ → Option (List ChunkState) → (ℕ → Bool) → Type 0
Held size none disk = Unit
Held size (some chunks) disk = Covers size chunks disk

-- A step of the workers never takes a byte off the disk.
Step-grows : {t u : System} → Step t u → (b : ℕ) → t.disk b ≡ true → u.disk b ≡ true
unfolding commit
Step-grows (hands_out w t) b h = h
Step-grows (exits w t) b h = h
Step-grows (demotes keep t) b h = h
Step-grows (claims i n c s r t e f g) b h = h
Step-grows (writes i c t e) b h = ground (arith, h)
Step-grows (completes i c t e f) b h = h
Step-grows (reorders xs ys x y t e) b h = h

record IsTrue (size : ℕ) (s : Session) : Type 0 where
  sound : IsSound size s.system
  in_place : InPlace size s.sidecar s.system.disk
  held : Held size s.held s.system.disk

InPlace-grows :
    {t u : System} (size : ℕ) (o : Option StateFile)
    → Step t u
    → InPlace size o t.disk
    → InPlace size o u.disk
InPlace-grows size none p h = tt
InPlace-grows size (some st) p h = λ b l z. Step-grows p b (h b l z)

Held-grows :
    {t u : System} (size : ℕ) (o : Option (List ChunkState))
    → Step t u
    → Held size o t.disk
    → Held size o u.disk
Held-grows size none p h = tt
Held-grows size (some chunks) p h = λ b l z. Step-grows p b (h b l z)

snapshot-Covers : (size : ℕ) (t : System) → IsSound size t → Covers size (snapshot t.sched) t.disk
snapshot-Covers size t v b l z = ground (arith, snapshot_exact v here b, l, z)

Act-IsTrue : {o : Origin} {s u : Session} → Act o s u → IsTrue o.total s → IsTrue o.total u
Act-IsTrue {o} (works s u p) h = record {
  sound = Step-IsSound p h.sound;
  in_place = InPlace-grows o.total s.sidecar p h.in_place;
  held = Held-grows o.total s.held p h.held;
}
Act-IsTrue {o} (snaps s k) h = record {
  sound = h.sound;
  in_place = h.in_place;
  held = snapshot-Covers o.total s.system h.sound;
}
Act-IsTrue {o} (saves s chunks e) h = record {
  sound = h.sound;
  in_place = subst (λ x. Held o.total x s.system.disk) e h.held;
  held = tt;
}

Acts-IsTrue : {o : Origin} {s u : Session} → Acts o s u → IsTrue o.total s → IsTrue o.total u
Acts-IsTrue idle h = h
Acts-IsTrue (next_act r p) h = Act-IsTrue p (Acts-IsTrue r h)

usable-size :
    (st : StateFile) (part_size : Option ℤ) (source_id : List ℕ) (size : ℤ)
    (etag last_modified : List ℕ)
    → usable st part_size source_id size etag last_modified ≡ true
    → eq_ℤ st.size size ≡ true
unfolding usable
usable-size st part_size source_id size etag last_modified h =
    elim (Bool-cases (not (eq_bytes st.source_id source_id) || not (eq_ℤ st.size size))) [
      | inl e ↦ ground (arith, e, h)
      | inr e ↦ ground (arith, e)
    ]

-- A sidecar that is resumed from.
record IsResumed (o : Origin) (st old : StateFile) : Type 0 where
  loads : load_state old ≡ some st
  sized : eq_ℤ st.size (pos o.total) ≡ true

resumes-IsResumed :
    (o : Origin) (x : Option StateFile) {st : StateFile}
    → resumes o x ≡ some st
    → (old : StateFile) × (x ≡ some old) × IsResumed o st old
unfolding resumes
resumes-IsResumed o none h = ground (arith, h)
resumes-IsResumed o (some old) {st} h = elim (Option-cases (load_state old)) [
  | inl e ↦ ground (arith, e, h)
  | inr (x, e) ↦
      elim (Bool-cases (usable x o.part_size o.source_id (pos o.total) o.etag o.last_modified)) [
        | inr f ↦ ground (arith, e, f, h)
        | inl f ↦
            let same : x ≡ st = ground (arith, e, f, h) in
            (
              old,
              refl,
              record {
                loads = e ∙ ap some same;
                sized =
                    subst (λ y. eq_ℤ y.size (pos o.total) ≡ true) same
                      (usable-size x o.part_size o.source_id (pos o.total) o.etag o.last_modified
                        f);
              },
            )
      ]
]

size-total :
    (st : StateFile) (n : ℕ) → IsResumable st → eq_ℤ st.size (pos n) ≡ true → pos_part st.size ≡ n
size-total st n r h = ground (arith, r.size_pos, h)

resumed-IsTrue :
    (o : Origin) (st old : StateFile)
    → IsResumed o st old
    → IsTrue o.total (record {
      system = start_resumed st (saved st) o.min_size o.parts;
      sidecar = some old;
      held = none;
    })
unfolding start_resumed
resumed-IsTrue o st old i =
    let (same, r) = load_state-IsResumable old st i.loads in
    let resumable = subst IsResumable (sym same) r in
    let size = size-total st o.total resumable i.sized in
    record {
      sound =
          subst (λ n. IsSound n (start_resumed st (saved st) o.min_size o.parts)) size
            (start_resumed-IsSound st o.min_size o.parts resumable);
      in_place =
          λ b l z. ground (arith, l, z, size, ap (λ x. sum_by (state_holds b) x.chunks) same);
      held = tt;
    }

fresh-IsTrue :
    (o : Origin)
    → IsTrue o.total
        (record { system = start_fresh o.total o.min_size o.parts; sidecar = none; held = none })
fresh-IsTrue o = record {
  sound = start_fresh-IsSound o.total o.min_size o.parts;
  in_place = tt;
  held = tt;
}

abbrev TrueIfOpened : ℕ → Opened → Type 0
TrueIfOpened size (refused x) = Unit
TrueIfOpened size (opened s) = IsTrue size s

open_session-IsTrue : (o : Origin) → TrueIfOpened o.total (open_session o)
unfolding open_session open_fresh
open_session-IsTrue o = elim (Option-cases (resumes o o.sidecar)) [
  | inl e ↦ elim (Bool-cases o.invalidate_fails) [
    | inl f ↦ simp (e, f, open_session, open_fresh) tt
    | inr f ↦ elim (Bool-cases o.truncate_fails) [
      | inl g ↦ simp (e, f, g, open_session, open_fresh) tt
      | inr g ↦ simp (e, f, g, open_session, open_fresh) (fresh-IsTrue o)
    ]
  ]
  | inr (st, e) ↦
      let (old, there, i) = resumes-IsResumed o o.sidecar e in
      simp (e, open_session)
        (subst
          (λ x. IsTrue o.total (record {
            system = start_resumed st (saved st) o.min_size o.parts;
            sidecar = x;
            held = none;
          }))
          (sym there) (resumed-IsTrue o st old i))
]

-- However the workers, the flusher and the end of a multipart run interleave, and wherever the process is killed:
-- each byte of the file that the sidecar in place does not list as missing is on disk, be it one that the run
-- has saved, or the one that it resumes from, whose unlisted bytes are taken to be on disk at the start.
pub Acts-InPlace :
    (o : Origin) {s u : Session}
    → open_session o ≡ opened s
    → Acts o s u
    → InPlace o.total u.sidecar u.system.disk
Acts-InPlace o e r =
    (Acts-IsTrue r (subst (TrueIfOpened o.total) e (open_session-IsTrue o))).in_place
