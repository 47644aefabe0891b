-- ===== src/Election.antt =====
-- download.go: elect, the requests for "bytes=0-" until one is answered. A redirect is followed inside the client.
pub mod Answers
use go_download.Base.{
  ℕ, zero, suc, ◌+◌, Bool, true, false, ◌&&◌, ◌||◌, not, ltb, ◌==◌, if◌then◌else◌, Option, none,
  some, List, [], ◌∷◌, eq_bytes, Bytes, codes,
}
use go_download.Response.{
  Reply, status_ok, status_partial_content, status_range_not_satisfiable, is_retryable_status,
}

abbrev pub election_attempts : ℕ
election_attempts = 3

-- One round of the loop: whether its sleep fails, whether the request can be built, the response if
-- client.Do returns one, and ctx.Err() != nil after an error.
pub record Try : Type 0 where
  pub sleep_fails : Bool
  pub build_fails : Bool
  pub reply : Option Reply
  pub cancelled : Bool

pub data Ballot : Type 0 where
  elected : Reply → Ballot
  turned_away : ℕ → Ballot
  interrupted build_error exhausted pending : Ballot

abbrev pub is_space : ℕ → Bool
is_space c = c == b' ' || (ltb 8 c && ltb c 14)

unfoldable pub trim_left : Bytes → Bytes
trim_left [] = []
trim_left (c ∷ s) = let rest = trim_left s in if is_space c then rest else c ∷ s

unfoldable pub trim_right : Bytes → Bytes
trim_right [] = []
trim_right (c ∷ s) = cut_end c (trim_right s)
  where
    cut_end : ℕ → Bytes → Bytes
    cut_end c [] = if is_space c then [] else c ∷ []
    cut_end c (d ∷ s) = c ∷ d ∷ s

-- `emptyContentRange`, with strings.TrimSpace on ASCII.
unfoldable pub empty_content_range : Bytes → Bool
unfolding trim_left trim_right
empty_content_range s = eq_bytes (trim_right (trim_left s)) (codes "bytes */0")

-- The responses that `elect` returns.
unfoldable pub accepts : Reply → Bool
unfolding empty_content_range
accepts r =
    r.status == status_ok
    || r.status == status_partial_content
    || (r.status == status_range_not_satisfiable && empty_content_range r.content_range)

-- The switch on a response, `rest` being what the following rounds give.
unfoldable pub judge : Ballot → Reply → Ballot
unfolding accepts is_retryable_status
judge rest r =
    if accepts r
    then elected r
    else if is_retryable_status r.status
    then rest
    else turned_away r.status

-- The loop with that many rounds left; `first` is attempt == 0.
unfoldable pub elect_from : ℕ → Bool → List Try → Ballot
unfolding judge
elect_from zero first tries = exhausted
elect_from (suc left) first [] = pending
elect_from (suc left) first (t ∷ tries) =
    let rest = elect_from left false tries in
    if not first && t.sleep_fails
    then interrupted
    else if t.build_fails
    then build_error
    else elim t.reply [ none ↦ if t.cancelled then interrupted else rest | some r ↦ judge rest r ]

unfoldable pub elect : List Try → Ballot
unfolding elect_from
elect tries = elect_from election_attempts true tries
