-- ===== src/System/Exits.antt =====
-- worker.go: what run does when downloadChunk returns an error.
use go_download.Base.{
  ℕ, ◌≡◌, List, [], ◌∷◌, refl, Bool, true, false, if◌then◌else◌, some, arith, sym, subst, contains,
}
use go_download.Chunk.{Chunk, find}
use go_download.Sched.{complete}
use go_download.System.{System, Step, completes, Reach, next_step, is_drained, start_fresh}
use go_download.System.Retired.{retired_drained}

-- How run ends: without an error, with the one of downloadChunk, or with the internal one.
pub data Left : Type 0 where
  finished failed stranded : Left

-- The branch of an error. `retired` says that the cause of the context is errWorkerRetired, `cancelled`
-- that the context is done, `permanent` that the error is a permanentError.
unfoldable pub leave : Bool → Bool → Bool → Chunk → System → System × Left
leave retired cancelled permanent c t =
    if retired
    then (if permanent
        then (t, failed)
        else if is_drained c
        then (record t { sched = complete c.id t.sched }, finished)
        else (t, stranded))
    else (if cancelled then (t, finished) else (t, failed))

find-id : (i : ℕ) (cs : List Chunk) {c : Chunk} → find i cs ≡ some c → c.id ≡ i
unfolding find
find-id i [] h = ground (arith, h)
find-id i (x ∷ cs) {c} h = ground (arith, h, find-id i cs {c = c})

-- In a run that starts fresh, when a worker that is to retire leaves with an error that is not permanent and
-- every claim of its chunk is written, the chunk is completed by a step of the system and the worker ends
-- without an error: the internal error that run has for this case is never returned.
pub leave-finished :
    (total min_size parts : ℕ) (u : System) (i : ℕ) (c : Chunk) (cancelled : Bool)
    → Reach (start_fresh total min_size parts) u
    → find i u.sched.active ≡ some c
    → contains u.sched.retiring c.owner ≡ true
    → c.written ≡ c.done
    → ((leave true cancelled false c u).1 ≡ finished)
      × Reach (start_fresh total min_size parts) (leave true cancelled false c u).0
unfolding leave
leave-finished total m n u i c cancelled r e k w =
    let d = retired_drained total m n u i c r e k w in
    simp (d, leave)
      (
        refl,
        next_step r (
            subst (λ j. Step u (record u { sched = complete j u.sched }))
              (sym (find-id i u.sched.active e)) (completes i c u e d)),
      )
