-- ===== src/Single/Retries.antt =====
-- The loop of single-stream attempts.
use go_download.Base.{
  ℕ, ℤ, suc, ◌+◌, ◌≤◌, ◌≡◌, ◌⊎◌, refl, true, false, List, [], ◌∷◌, Bytes, arith, Bool-cases, inl,
  inr, ap, sym, subst, ◌∙◌, length,
}
use go_download.Single.{
  Exchange, Staged, End, is_finished, single_attempt, Round, StreamEnd, is_complete, is_running,
  after_attempt, single_stream,
}
use go_download.Single.Streams.{IsStreamed, Streamed, single_attempt-Streamed}

-- The attempt of a round, and what the loop makes of it.
abbrev pub tried : Bytes → Round → Staged → Staged × End
tried v r s = single_attempt v r.exchange s

-- The staging file holds what the response of one of the rounds delivered; `s` is what the first round
-- starts with, whose total the election's response may rely on.
abbrev pub Delivered : Bytes → Staged → List Round → Staged → Type 0
Delivered v s [] t = ⊥
Delivered v s (r ∷ rs) t = IsStreamed s.total r.exchange t ⊎ Delivered v (tried v r s).0 rs t

after-finished :
    (max_retries attempt : ℕ) (r : Round) (e : End)
    → is_complete (after_attempt max_retries attempt r e) ≡ true
    → is_finished e ≡ true
unfolding after_attempt
after-finished max_retries attempt r e h = ground (arith, h)

Streamed-finished :
    (total : ℤ) (q : Exchange) (x : Staged × End)
    → is_finished x.1 ≡ true
    → Streamed total q x
    → IsStreamed total q x.0
Streamed-finished total q x h (inl e) = ground (arith, h, e)
Streamed-finished total q x h (inr s) = s

abbrev verdict : ℕ → Bytes → ℕ → Round → Staged → StreamEnd
verdict max_retries v attempt r s = after_attempt max_retries attempt r (tried v r s).1

goes_further :
    (max_retries : ℕ) (v : Bytes) (attempt : ℕ) (r : Round) (rs : List Round) (s : Staged)
    → is_running (verdict max_retries v attempt r s) ≡ true
    → single_stream max_retries v attempt (r ∷ rs) s
      ≡ single_stream max_retries v (suc attempt) rs (tried v r s).0
unfolding single_stream
goes_further max_retries v attempt r rs s e = rw (e, single_stream) refl

stops_here :
    (max_retries : ℕ) (v : Bytes) (attempt : ℕ) (r : Round) (rs : List Round) (s : Staged)
    → is_running (verdict max_retries v attempt r s) ≡ false
    → single_stream max_retries v attempt (r ∷ rs) s
      ≡ ((tried v r s).0, verdict max_retries v attempt r s)
unfolding single_stream
stops_here max_retries v attempt r rs s e = rw (e, single_stream) refl

-- If the loop completes, the file holds what one single response delivered: no bytes of two responses
-- are joined.
pub single_stream-Delivered :
    (max_retries : ℕ) (v : Bytes) (attempt : ℕ) (rounds : List Round) (s : Staged)
    → is_complete (single_stream max_retries v attempt rounds s).1 ≡ true
    → Delivered v s rounds (single_stream max_retries v attempt rounds s).0
single_stream-Delivered max_retries v attempt [] s h = unfold single_stream in ground (arith, h)
single_stream-Delivered max_retries v attempt (r ∷ rs) s h =
    elim (Bool-cases (is_running (verdict max_retries v attempt r s))) [
      | inl e ↦
          let q = goes_further max_retries v attempt r rs s e in
          subst (λ x. Delivered v s (r ∷ rs) x.0) (sym q)
            (inr (
              single_stream-Delivered max_retries v (suc attempt) rs (tried v r s).0
                (ap (λ x. is_complete x.1) (sym q) ∙ h)))
      | inr e ↦
          let q = stops_here max_retries v attempt r rs s e in
          subst (λ x. Delivered v s (r ∷ rs) x.0) (sym q)
            (inl (
              Streamed-finished s.total r.exchange (tried v r s)
                (after-finished max_retries attempt r (tried v r s).1
                  (ap (λ x. is_complete x.1) (sym q) ∙ h))
                (single_attempt-Streamed v r.exchange s)))
    ]

after-last :
    (max_retries attempt : ℕ) (r : Round) (e : End)
    → max_retries ≤ attempt + 1
    → is_running (after_attempt max_retries attempt r e) ≡ false
unfolding after_attempt
after-last max_retries attempt r e h = ground (arith, h)

-- The loop is over after MaxRetries attempts, and after one in any case.
pub single_stream-ends :
    (max_retries : ℕ) (v : Bytes) (attempt : ℕ) (rounds : List Round) (s : Staged)
    → max_retries ≤ attempt + length rounds
    → 1 ≤ length rounds
    → is_running (single_stream max_retries v attempt rounds s).1 ≡ false
single_stream-ends max_retries v attempt [] s h k = ground (arith, k)
single_stream-ends max_retries v attempt (r ∷ rs) s h k =
    elim (Bool-cases (is_running (verdict max_retries v attempt r s))) [
      | inr e ↦ ap (λ x. is_running x.1) (stops_here max_retries v attempt r rs s e) ∙ e
      | inl e ↦
          ap (λ x. is_running x.1) (goes_further max_retries v attempt r rs s e)
          ∙ single_stream-ends max_retries v (suc attempt) rs (tried v r s).0 (omega arith)
              (ground (arith, e, h, after-last max_retries attempt r (tried v r s).1))
    ]
