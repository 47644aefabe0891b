-- ===== src/Attempt/Writes.antt =====
-- What an attempt writes.
use go_download.Base.{
  ==→eq, ℕ, ◌≤◌, ◌≡◌, refl, Bool, true, false, ◌==◌, Option, none, some, List, [], arith,
  Bool-cases, Option-cases, inl, inr, sym, subst, ap, ◌∙◌,
}
use go_download.Chunk.{position, cursor}
use go_download.Response.{Reply, status_partial_content}
use go_download.Retry.{permanent}
use go_download.Partial.{Pull, Writing, Wanted}
use go_download.Partial.Fetched.{untouched-IsRight}
use go_download.Attempt.{Worker, ensure_client}
use go_download.Attempt.Capped.{ends_capped, classify_connection-capped, ensure_client-capped}
use go_download.Attempt.Runs.{
  Settings, Sent, Tried, tried, read_part, connect, start, cancel, stop, respond, has_connected,
  request, Initial, attach, release, initial_range_attempt, honour_rotate, starts_at_zero, attempt,
}
use go_download.Attempt.Parts.{
  IsTried, not_capped, IsReady, untouched, read_part-IsTried, use_response-IsTried,
}

cancel-same :
    (b : Bool) (sent : Sent)
    → ((cancel b sent).pulls ≡ sent.pulls) × ((cancel b sent).reply ≡ sent.reply)
cancel-same true sent = (refl, refl)
cancel-same false sent = (refl, refl)

respond-IsTried :
    (c : Settings) (now : ℕ) (q : Wanted) (sent : Sent) (w : Worker) (s : Writing)
    (r : Option Reply)
    → IsReady q s
    → IsTried q.cursor q.end s.chunk.written r sent.pulls (respond c now q sent w s r)
unfolding respond
respond-IsTried c now q sent w s none i =
    untouched q none sent.pulls _ i
      (classify_connection-capped c.timeout now (has_connected sent.remotes) sent.trouble w)
respond-IsTried c now q sent w s (some r) i = use_response-IsTried c now q r sent w s i

stop-IsTried :
    {start end base : ℕ} {reply : Option Reply} {pulls : List Pull} (x : Tried)
    → IsTried start end base reply pulls x
    → IsTried start end base reply pulls (stop x)
unfolding stop
stop-IsTried x i = record { right = i.right; answered = i.answered; moved = i.moved }

release-IsTried :
    {start end base : ℕ} {reply : Option Reply} {pulls : List Pull} (o : Option (Option ℕ))
    (x : Tried)
    → IsTried start end base reply pulls x
    → IsTried start end base reply pulls (release o x)
release-IsTried none x i = i
release-IsTried (some a) x i = record { right = i.right; answered = i.answered; moved = i.moved }

request-IsTried :
    (c : Settings) (now : ℕ) (q : Wanted) (sent : Sent) (w : Worker) (s : Writing)
    → IsReady q s
    → IsTried q.cursor q.end s.chunk.written sent.reply sent.pulls (request c now q sent w s)
unfolding request
request-IsTried c now q sent w s i =
    let told = cancel (start w).1 sent in
    let (same, reply) = cancel-same (start w).1 sent in
    let x = respond c now q told (connect told.remotes (start w).0) s told.reply in
    stop-IsTried x (
      subst (λ p. IsTried q.cursor q.end s.chunk.written sent.reply p x) same
        (subst (λ r. IsTried q.cursor q.end s.chunk.written r told.pulls x) reply
          (respond-IsTried c now q told (connect told.remotes (start w).0) s told.reply i)))

initial-IsTried :
    (c : Settings) (now : ℕ) (q : Wanted) (i : Initial) (sent : Sent) (w : Worker) (s : Writing)
    → IsReady q s
    → IsTried q.cursor q.end s.chunk.written
        (some i.reply)
        sent.pulls
        (initial_range_attempt c now q i sent w s)
unfolding initial_range_attempt
initial-IsTried c now q i sent w s ready =
    let v = start (attach i.remote w) in
    let told = cancel v.1 sent in
    elim (Bool-cases (i.reply.status == status_partial_content)) [
      | inl e ↦
          let wide : Wanted = record q { requested = c.total } in
          let x = read_part c now wide i.reply.content_range told v.0 s in
          rw (e, initial_range_attempt)
            (release-IsTried i.remote (stop x) (
              stop-IsTried x (
                subst (λ p. IsTried q.cursor q.end s.chunk.written (some i.reply) p x)
                  (cancel-same v.1 sent).0
                  (read_part-IsTried c now wide i.reply told v.0 s
                    (==→eq i.reply.status status_partial_content e)
                    (record {
                      place = ready.place;
                      clear = ready.clear;
                      todo = ready.todo;
                      whole = ready.whole;
                    })))))
      | inr e ↦
          rw (e, initial_range_attempt)
            (let x = tried v.0 s (some (permanent i.reply.status)) in
              release-IsTried i.remote (stop x)
                (stop-IsTried x (untouched q (some i.reply) sent.pulls x ready refl)))
    ]

-- The response that the attempt has to do with: the election's, if it is still there and the chunk is to start
-- at byte zero, else that of a request of its own.
abbrev pub used_reply : ℕ → Option Initial → Sent → Option Reply
used_reply cursor initial sent = elim (starts_at_zero cursor initial) [
  | some i ↦ some i.reply
  | none ↦ sent.reply
]

-- An attempt at a chunk whose cursor is not beyond its end, from an empty log of writes, whatever response it
-- gets, the election's included, and however it ends. Each write puts bytes of the body to the offset of the
-- resource at which they stand: the body's first byte belongs to the chunk's cursor, and if anything is written
-- then the response is a 206 whose Content-Range begins there, and nothing is written beyond its end. All
-- writes are below the new cursor, which is not beyond the end that the chunk has then, which other workers may
-- have lowered, and `written` grows by what was written. An attempt that ends in errRangeCapped has moved the
-- cursor.
pub attempt-IsTried :
    (c : Settings) (now : ℕ) (initial : Option Initial) (sent : Sent) (w : Worker) (s : Writing)
    → s.log ≡ []
    → position s.chunk ≤ s.chunk.end
    → IsTried
        (position s.chunk)
        s.chunk.end
        s.chunk.written
        (used_reply (position s.chunk) initial sent)
        sent.pulls
        (attempt c now initial sent w s)
unfolding attempt
attempt-IsTried c now initial sent w s l h =
    let q : Wanted = record {
      cursor = position s.chunk;
      requested = s.chunk.end;
      end = s.chunk.end;
      total = c.total;
    } in
    let client = ensure_client now (honour_rotate w) in
    elim (Bool-cases (cursor s.chunk).2) [
      | inr e ↦
          rw (e, attempt)
            (record {
              right = untouched-IsRight sent.pulls s l h;
              answered = inl l;
              moved = λ k. not_capped {b = false} refl k;
            })
      | inl e ↦
          let ready : IsReady q s = record {
            place = refl;
            clear = l;
            todo = ground (arith, e);
            whole = refl;
          } in
          elim (Option-cases (starts_at_zero (position s.chunk) initial)) [
            | inr (i, f) ↦
                rw (e, f, attempt, used_reply)
                  (initial-IsTried c now q i sent (honour_rotate w) s ready)
            | inl f ↦ elim (Option-cases client.1) [
              | inr (x, g) ↦
                  rw (e, f, g, attempt, used_reply)
                    (untouched q sent.reply sent.pulls _ ready
                      (ap ends_capped (sym g) ∙ ensure_client-capped now (honour_rotate w)))
              | inl g ↦
                  rw (e, f, g, attempt, used_reply) (request-IsTried c now q sent client.0 s ready)
            ]
          ]
    ]
