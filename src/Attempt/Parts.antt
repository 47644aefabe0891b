-- ===== src/Attempt/Parts.antt =====
-- What an attempt may write, and that what it does with a response keeps to it.
use go_download.Base.{
  ==→eq, ℕ, ◌<◌, ◌≡◌, ◌⊎◌, refl, Bool, true, false, if◌then◌else◌, ◌==◌, Option, some, List, [],
  arith, Bool-cases, inl, inr, sym, subst,
}
use go_download.Chunk.{position}
use go_download.Response.{Reply, status_ok, status_partial_content, status_too_many_requests}
use go_download.Retry.{permanent, transient}
use go_download.Partial.{
  Pull, Writing, Wanted, PartEnd, part_done, wrong_part, write_failure, capped, short, broken_off,
  hanging, read_partial_response,
}
use go_download.Partial.Fetched.{
  IsRight, IsDeclared, untouched-IsRight, read_partial_response-IsFetched,
  read_partial_response-capped,
}
use go_download.Attempt.{Trouble, Worker}
use go_download.Attempt.Capped.{ends_capped, classify-capped}
use go_download.Attempt.Runs.{
  Settings, Sent, Tried, after_part, read_part, use_response, end_of_body,
}

-- The response is a 206 whose Content-Range begins at the cursor, and no write goes beyond its range.
pub record IsAnswered (start : ℕ) (reply : Option Reply) (s : Writing) : Type 0 where
  pub answer : Reply
  pub there : reply ≡ some answer
  pub partial : answer.status ≡ status_partial_content
  pub declared : IsDeclared start answer.content_range s

-- What an attempt at a chunk with this cursor, this end and this count leaves, and how it ends: its writes are
-- right, it writes only what such a response declares, and errRangeCapped means that the cursor has moved.
pub record IsTried (start end base : ℕ) (reply : Option Reply) (pulls : List Pull) (x : Tried)
    : Type 0 where
  pub right : IsRight start end base pulls x.writing
  pub answered : (x.writing.log ≡ []) ⊎ IsAnswered start reply x.writing
  pub moved : ends_capped x.failure ≡ true → start < position x.writing.chunk

after_part-writing :
    (c : Settings) (now : ℕ) (t : Trouble) (w : Worker) (x : Writing × PartEnd)
    → (after_part c now t w x).writing ≡ x.0
unfolding after_part
after_part-writing c now t w (s, part_done) = refl
after_part-writing c now t w (s, wrong_part) = refl
after_part-writing c now t w (s, write_failure) = refl
after_part-writing c now t w (s, capped) = refl
after_part-writing c now t w (s, short) = refl
after_part-writing c now t w (s, broken_off) = refl
after_part-writing c now t w (s, hanging) = refl

pub not_capped {ℓ} : {A : Type ℓ} {b : Bool} → b ≡ false → b ≡ true → A
not_capped e h = ground (arith, e, h)

after_part-capped :
    (c : Settings) (now : ℕ) (t : Trouble) (w : Worker) (x : Writing × PartEnd)
    → ends_capped (after_part c now t w x).failure ≡ true
    → x.1 ≡ capped
unfolding after_part
after_part-capped c now t w (s, part_done) h = ground (arith, h)
after_part-capped c now t w (s, wrong_part) h = ground (arith, h)
after_part-capped c now t w (s, write_failure) h = ground (arith, h)
after_part-capped c now t w (s, capped) h = refl
after_part-capped c now t w (s, short) h =
    not_capped (classify-capped c.timeout now (end_of_body t) w) h
after_part-capped c now t w (s, broken_off) h = not_capped (classify-capped c.timeout now t w) h
after_part-capped c now t w (s, hanging) h = not_capped (classify-capped c.timeout now t w) h

-- A chunk that the owner has not yet written to in this attempt, with something left.
pub record IsReady (q : Wanted) (s : Writing) : Type 0 where
  pub place : position s.chunk ≡ q.cursor
  pub clear : s.log ≡ []
  pub todo : q.cursor < q.end
  pub whole : s.chunk.end ≡ q.end

-- An attempt that leaves the chunk alone.
pub untouched :
    (q : Wanted) (reply : Option Reply) (pulls : List Pull) (x : Tried)
    → IsReady q x.writing
    → ends_capped x.failure ≡ false
    → IsTried q.cursor q.end x.writing.chunk.written reply pulls x
untouched q reply pulls x i e = record {
  right =
      subst (λ n. IsRight n q.end x.writing.chunk.written pulls x.writing) i.place
        (subst (λ n. IsRight (position x.writing.chunk) n x.writing.chunk.written pulls x.writing)
          i.whole
          (untouched-IsRight pulls x.writing i.clear (omega (arith, i.place, i.todo, i.whole))));
  answered = inl i.clear;
  moved = not_capped e;
}

pub read_part-IsTried :
    (c : Settings) (now : ℕ) (q : Wanted) (r : Reply) (sent : Sent) (w : Worker) (s : Writing)
    → r.status ≡ status_partial_content
    → IsReady q s
    → IsTried q.cursor q.end s.chunk.written
        (some r)
        sent.pulls
        (read_part c now q r.content_range sent w s)
unfolding read_part
read_part-IsTried c now q r sent w s p i =
    let begun : Writing = record s { ladder = w.ladder } in
    let x = read_partial_response c.timeout c.size q r.content_range sent.pulls begun in
    let v : Worker = record w { ladder = x.0.ladder } in
    let same = sym (after_part-writing c now sent.trouble v x) in
    let f =
      read_partial_response-IsFetched c.timeout c.size q r.content_range sent.pulls begun i.place
        i.clear i.todo i.whole in
    record {
      right = subst (IsRight q.cursor q.end s.chunk.written sent.pulls) same f.0;
      answered =
          subst (λ t. (t.log ≡ []) ⊎ IsAnswered q.cursor (some r) t) same
            (elim f.1 [
              | inl e ↦ inl e
              | inr d ↦ inr (record { answer = r; there = refl; partial = p; declared = d })
            ]);
      moved = λ h.
          subst (λ t. q.cursor < position t.chunk) same
            (read_partial_response-capped c.timeout c.size q r.content_range sent.pulls begun i.todo
              (after_part-capped c now sent.trouble v x h));
    }

plain : (b : Bool) (n : ℕ) → ends_capped (some (if b then transient else permanent n)) ≡ false
plain true n = refl
plain false n = refl

pub use_response-IsTried :
    (c : Settings) (now : ℕ) (q : Wanted) (r : Reply) (sent : Sent) (w : Worker) (s : Writing)
    → IsReady q s
    → IsTried q.cursor q.end s.chunk.written (some r) sent.pulls (use_response c now q r sent w s)
unfolding use_response
use_response-IsTried c now q r sent w s i = elim (Bool-cases (r.status == status_partial_content)) [
  | inl e ↦
      rw (e, use_response)
        (read_part-IsTried c now q r sent w s (==→eq r.status status_partial_content e) i)
  | inr e ↦ elim (Bool-cases (r.status == status_ok)) [
    | inl f ↦ elim (Bool-cases c.bound) [
      | inl b ↦ rw (e, f, b, use_response) (untouched q (some r) sent.pulls _ i refl)
      | inr b ↦ rw (e, f, b, use_response) (untouched q (some r) sent.pulls _ i refl)
    ]
    | inr f ↦ elim (Bool-cases (r.status == status_too_many_requests)) [
      | inl g ↦ rw (e, f, g, use_response) (untouched q (some r) sent.pulls _ i refl)
      | inr g ↦ rw (e, f, g, use_response) (untouched q (some r) sent.pulls _ i (plain _ r.status))
    ]
  ]
]
