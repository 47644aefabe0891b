-- ===== src/Single/Streams.antt =====
-- What a single stream leaves in the staging file.
use go_download.Base.{
  eq_ℤ-pos, ◌≡◌, ◌⊎◌, refl, ℤ, pos, negsuc, Bool, true, false, ◌&&◌, ◌||◌, not, ◌==◌, Option, none,
  some, List, [], leb_ℤ, ltb_ℤ, eq_ℤ, ◌-ℤ◌, length, Bytes, arith, Bool-cases, inl, inr, ap, sym,
  subst, ◌∙◌, if◌then◌else◌,
}
use go_download.Response.{
  Reply, Answer, proceed, empty_resource, retry_later, give_up, wrong_range, check_single_status,
  check_full_range, ContentRange, parse_content_range, is_retryable_status, status_ok,
  status_partial_content, status_range_not_satisfiable,
}
use go_download.Single.{
  Read, Staged, End, is_finished, PumpEnd, sink_done, write_error, body_eof, body_broken, starved,
  pump, Exchange, close_stream, expected_length, stream, changed, complete_empty, use_answer,
  single_attempt,
}
use go_download.Single.Pumps.{body, Prefix, pump-Prefix, Ends, Pumped, pump-Pumped}

-- The length that is known before the body is read: the run's, which only the election's response may
-- rely on, else the Content-Length of the response itself.
abbrev pub known_length : ℤ → Exchange → ℤ
known_length total x = expected_length (if x.initial then total else negsuc 0) x.reply

-- The file has the length that is known, which is the new total, or the length is not known, the body was
-- read up to its EOF and the total is how much that gave.
pub data IsFull (known : ℤ) (rs : List Read) (t : Staged) : Type 0 where
  declared :
      leb_ℤ (pos 0) known ≡ true
      → t.total ≡ known
      → leb_ℤ known (pos (length t.file)) ≡ true
      → IsFull known rs t
  unbounded :
      ltb_ℤ known (pos 0) ≡ true
      → t.total ≡ pos (length t.file)
      → Ends rs t.file
      → IsFull known rs t

-- An attempt that ends well has put a prefix of its body into the file and nothing else, and all of it.
pub record IsStreamed (total : ℤ) (x : Exchange) (t : Staged) : Type 0 where
  pub prefix : Prefix t.file (body x.reads)
  pub full : IsFull (known_length total x) x.reads t

-- A result that is either no success or as above.
abbrev pub Streamed : ℤ → Exchange → Staged × End → Type 0
Streamed total x r = (is_finished r.1 ≡ false) ⊎ IsStreamed total x r.0

close_stream-IsFull :
    (rs : List Read) (expected : ℤ) (s : Staged) (r : Bytes × PumpEnd)
    → ((ltb_ℤ s.total (pos 0) ≡ true) ⊎ (expected ≡ s.total))
    → Prefix r.0 (body rs)
    → Pumped expected rs [] r
    → (is_finished (close_stream expected s r).1 ≡ false)
      ⊎ (Prefix (close_stream expected s r).0.file (body rs)
          × IsFull expected rs (close_stream expected s r).0)
unfolding close_stream
close_stream-IsFull rs expected s (file, sink_done) t p h = inr (
  p,
  declared (ground (arith, h.enough)) (ground (arith, t, h.enough)) (ground (arith, h.enough)),
)
close_stream-IsFull rs expected s (file, write_error) t p h = inl refl
close_stream-IsFull rs expected s (file, body_broken) t p h = inl refl
close_stream-IsFull rs expected s (file, starved) t p h = inl refl
close_stream-IsFull rs expected s (file, body_eof) t p (b, q, n) =
    elim (Bool-cases (ltb_ℤ expected (pos 0))) [
      | inl e ↦ simp (e, close_stream) (inr (p, unbounded e refl (subst (Ends rs) (sym q) n)))
      | inr e ↦ simp (e, close_stream) (inl refl)
    ]

expected-total :
    (total : ℤ) (r : Reply) → (ltb_ℤ total (pos 0) ≡ true) ⊎ (expected_length total r ≡ total)
expected-total total r = ground arith

-- The total that the stream starts with is the run's for the election's response and unknown for others.
stream-Streamed :
    (x : Exchange) (total : ℤ) (s : Staged)
    → s.total ≡ (if x.initial then total else negsuc 0)
    → Streamed total x (stream x s)
unfolding stream
stream-Streamed x total s same = elim (Bool-cases x.invalidate_fails) [
  | inl e ↦ simp (e, stream) (inl refl)
  | inr e ↦ elim (Bool-cases x.truncate_fails) [
    | inl f ↦ simp (e, f, stream) (inl refl)
    | inr f ↦
        let n = expected_length s.total x.reply in
        let k : n ≡ known_length total x = ap (λ z. expected_length z x.reply) same in
        let c = close_stream n (record s { file = []; sidecar = false }) (pump n x.reads []) in
        simp (e, f, stream)
          (elim (close_stream-IsFull x.reads n (record s { file = []; sidecar = false })
            (pump n x.reads []) (expected-total s.total x.reply) (pump-Prefix n x.reads [])
            (pump-Pumped n x.reads [])) [
              | inl u ↦ inl u
              | inr (p, u) ↦
                  inr (record { prefix = p; full = subst (λ z. IsFull z x.reads c.0) k u })
            ])
  ]
]

complete_empty-Streamed :
    (x : Exchange) (s : Staged)
    → x.initial ≡ true
    → s.total ≡ pos 0
    → Streamed s.total x (complete_empty x s)
unfolding complete_empty
complete_empty-Streamed x s i z = elim (Bool-cases x.invalidate_fails) [
  | inl e ↦ simp (e, complete_empty) (inl refl)
  | inr e ↦ elim (Bool-cases x.truncate_fails) [
    | inl f ↦ simp (e, f, complete_empty) (inl refl)
    | inr f ↦
        simp (e, f, complete_empty)
          (inr (record {
            prefix = (body x.reads, refl);
            full = declared (rw (i, z) refl) (rw (i, z) refl) (rw (i, z) refl);
          }))
  ]
]

abbrev is_empty_resource : Answer → Bool
is_empty_resource proceed = false
is_empty_resource empty_resource = true
is_empty_resource retry_later = false
is_empty_resource give_up = false
is_empty_resource wrong_range = false

check_full_range-not_empty :
    (total : ℤ) (c : Option ContentRange) → is_empty_resource (check_full_range total c) ≡ false
unfolding check_full_range
check_full_range-not_empty total none = refl
check_full_range-not_empty total (some c) =
    elim (Bool-cases (
      not (eq_ℤ c.start (pos 0))
      || ltb_ℤ c.total (pos 0)
      || not (eq_ℤ c.end (c.total -ℤ pos 1))
      || (leb_ℤ (pos 0) total && not (eq_ℤ c.total total)))) [
        | inl e ↦ rw (e, check_full_range) refl
        | inr e ↦ rw (e, check_full_range) refl
      ]

empty-zero :
    (r : Reply) (initial : Bool) (total : ℤ)
    → (is_empty_resource (check_single_status r initial total) ≡ false)
      ⊎ ((initial && eq_ℤ total (pos 0)) ≡ true)
unfolding check_single_status
empty-zero r initial total = elim (Bool-cases (r.status == status_ok)) [
  | inl a ↦ simp (a, check_single_status) (inl refl)
  | inr a ↦
      elim (Bool-cases
        (initial && r.status == status_range_not_satisfiable && eq_ℤ total (pos 0))) [
          | inl b ↦ inr (ground (arith, b))
          | inr b ↦ elim (Bool-cases (initial && r.status == status_partial_content)) [
            | inl c ↦
                simp (a, b, c, check_single_status)
                  (inl (check_full_range-not_empty total (parse_content_range r.content_range)))
            | inr c ↦ elim (Bool-cases (is_retryable_status r.status)) [
              | inl d ↦ simp (a, b, c, d, check_single_status) (inl refl)
              | inr d ↦ simp (a, b, c, d, check_single_status) (inl refl)
            ]
          ]
        ]
]

empty-initial :
    (r : Reply) (initial : Bool) (total : ℤ)
    → check_single_status r initial total ≡ empty_resource
    → (initial ≡ true) × (total ≡ pos 0)
empty-initial r initial total h = elim (empty-zero r initial total) [
  | inl e ↦ ground (arith, sym (ap is_empty_resource h) ∙ e)
  | inr e ↦ (ground (arith, e), eq_ℤ-pos total 0 (ground (arith, e)))
]

use_answer-Streamed :
    (v : Bytes) (x : Exchange) (s : Staged) (a : Answer)
    → ((a ≡ empty_resource) → (x.initial ≡ true) × (s.total ≡ pos 0))
    → Streamed s.total x (use_answer v x s a)
unfolding use_answer
use_answer-Streamed v x s retry_later z = inl refl
use_answer-Streamed v x s give_up z = inl refl
use_answer-Streamed v x s wrong_range z = inl refl
use_answer-Streamed v x s empty_resource z = complete_empty-Streamed x s (z refl).0 (z refl).1
use_answer-Streamed v x s proceed z = elim (Bool-cases x.initial) [
  | inl e ↦ simp (e, use_answer) (stream-Streamed x s.total s (rw e refl))
  | inr e ↦ elim (Bool-cases (changed v x)) [
    | inl f ↦ simp (e, f, use_answer) (inl refl)
    | inr f ↦
        simp (e, f, use_answer)
          (stream-Streamed x s.total (record s { total = negsuc 0 }) (rw e refl))
  ]
]

-- An attempt that ends well leaves in the file a prefix of the bytes of its own response, of the length
-- that the run or the response declares, or the whole body if none is declared.
pub single_attempt-Streamed :
    (v : Bytes) (x : Exchange) (s : Staged) → Streamed s.total x (single_attempt v x s)
unfolding single_attempt
single_attempt-Streamed v x s = elim (Bool-cases (not x.initial && not x.connects)) [
  | inl e ↦ simp (e, single_attempt) (inl refl)
  | inr e ↦
      simp (e, single_attempt)
        (use_answer-Streamed v x s (check_single_status x.reply x.initial s.total)
          (λ h. empty-initial x.reply x.initial s.total h))
]
