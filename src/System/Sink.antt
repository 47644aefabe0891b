-- ===== src/System/Sink.antt =====
-- `chunkSink` (worker.go) is a claim and then the write of exactly what was claimed.
use go_download.Base.{
  ℕ, ◌+◌, ◌-◌, ◌≤◌, ◌≡◌, refl, subst, ◌∙◌, ap, pos, some, false, inl, inr, arith, ltb, leb,
  Bool-cases, min, if◌then◌else◌,
}
use go_download.Chunk.{Chunk, Claimed, claim, find, update}
use go_download.Chunk.Lists.{find-update}
use go_download.Chunk.Ranges.{claim_lem}
use go_download.Sched.{Sched, claim_active}
use go_download.Sched.Bytes.{left}
use go_download.System.{
  System, Step, claims, writes, Reach, here, next_step, commit, chunk_sink, goes_on, chunk_done,
  is_drained,
}
use go_download.System.Inv.{IsSound, found-IsWithin}

module _ {size : ℕ} {t : System} (v : IsSound size t) (i n : ℕ) (c : Chunk)
    (e : find i t.sched.active ≡ some c) (settled : c.written ≡ c.done) where
  abbrev taken : ℕ
  taken = min n (left c)

  abbrev result : Claimed
  result = record {
    offset = c.off + c.done;
    write = pos taken;
    stop = leb c.end (c.off + (c.done + taken));
  }

  abbrev claimed : Sched
  claimed = record t.sched { active = update i (λ d. (claim d n).0) t.sched.active }

  claim-taken : claim c n ≡ (record c { done = c.done + taken }, result)
  claim-taken = claim_lem c n (found-IsWithin v i e).0

  claims_taken : claim_active i n t.sched ≡ some (claimed, result)
  unfolding claim_active
  claims_taken = ground (arith, e, claim-taken)

  find-claimed : find i claimed.active ≡ some (record c { done = c.done + taken })
  find-claimed =
      find-update i (λ d. (claim d n).0) t.sched.active e (ap (λ p. p.0.id) claim-taken)
      ∙ ap some (ap (λ p. p.0) claim-taken)

  claims-Step : Step t (record t { sched = claimed })
  claims-Step = claims i n c claimed result t e settled claims_taken

  -- What the owner has claimed is what it writes.
  writes-Step :
      Step
        (record t { sched = claimed })
        (commit i (c.off + c.done) taken (record t { sched = claimed }))
  writes-Step =
      subst
        (λ (k : ℕ).
          Step (record t { sched = claimed })
            (commit i (c.off + c.done) k (record t { sched = claimed })))
        same_count
        (subst
          (λ (o : ℕ).
            Step (record t { sched = claimed })
              (commit i (c.off + o) (c.done + taken - c.written) (record t { sched = claimed })))
          settled
          (writes i (record c { done = c.done + taken }) (record t { sched = claimed })
            find-claimed))
    where
      same_count : c.done + taken - c.written ≡ taken
      same_count = omega arith

  abbrev written_chunk : Chunk
  written_chunk = record c { done = c.done + taken; written = c.written + taken }

  find-written :
      find i (commit i (c.off + c.done) taken (record t { sched = claimed })).sched.active
      ≡ some written_chunk
  unfolding commit
  find-written =
      find-update i (λ d. record d { written = d.written + taken }) claimed.active find-claimed refl

  abbrev sink_result : System
  sink_result =
      if ltb 0 taken
      then commit i (c.off + c.done) taken (record t { sched = claimed })
      else record t { sched = claimed }

  sink_computes :
      1 ≤ n
      → chunk_sink i n false t ≡ some (sink_result, if leb (left c) n then chunk_done else goes_on)
  unfolding chunk_sink
  sink_computes h = ground (arith, claims_taken, (found-IsWithin v i e).0)

  sink_Reach : Reach t sink_result
  sink_Reach = elim (Bool-cases (ltb 0 taken)) [
    | inl k ↦ rw k (next_step (next_step here claims-Step) writes-Step)
    | inr k ↦ rw k (next_step here claims-Step)
  ]

  find-sink : find i sink_result.sched.active ≡ some written_chunk
  find-sink = elim (Bool-cases (ltb 0 taken)) [
    | inl k ↦ rw k find-written
    | inr k ↦ rw k (find-claimed ∙ ground arith)
  ]

  -- A successful sink of a read of n ≥ 1 bytes is a sequence of steps, and leaves the chunk with
  -- min n (left c) more bytes claimed and written. It says that the chunk is done exactly when nothing
  -- was left beyond these bytes, and then the chunk may be completed.
  pub chunk_sink_lem :
      1 ≤ n
      → (u : System) × (d : Chunk) × (chunk_sink i n false t
          ≡ some (u, if leb (left c) n then chunk_done else goes_on))
        × Reach t u
        × (find i u.sched.active ≡ some d)
        × (d ≡ record c { done = c.done + min n (left c); written = c.written + min n (left c) })
        × (is_drained d ≡ leb (left c) n)
  chunk_sink_lem h = (
    sink_result,
    written_chunk,
    sink_computes h,
    sink_Reach,
    find-sink,
    refl,
    ground (arith, settled, (found-IsWithin v i e).0),
  )
