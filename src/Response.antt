-- ===== src/Response.antt =====
-- download.go and worker.go: what the program reads from a response. A header value is the list of
-- its bytes, empty if the header is missing.
pub mod Ranges
pub mod Plans
use go_download.Base.{
  ℕ, ◌+◌, ◌≡◌, ℤ, pos, negsuc, Bool, true, false, ◌&&◌, ◌||◌, not, ltb, leb, ◌==◌, if◌then◌else◌,
  Option, none, some, List, [], ◌∷◌, leb_ℤ, ltb_ℤ, eq_ℤ, ◌-ℤ◌, ◌+ℤ◌, Bytes, codes, cut, cut_prefix,
  parse_int, eq_bytes, length, ◌>>=◌,
}
use go_download.State.{validator}

pub record ContentRange : Type 0 where
  pub start : ℤ
  pub end : ℤ
  pub total : ℤ

-- The total of `parseContentRange`: -1 for "*".
unfoldable pub parse_total : Bytes → Option ℤ
unfolding parse_int
parse_total s = if eq_bytes s (b'*' ∷ []) then some (negsuc 0) else parse_int s

-- The part before the slash.
unfoldable pub parse_range : Bytes → Option (ℤ × ℤ)
unfolding cut parse_int
parse_range s = do
  parts ← cut b'-' s
  start ← parse_int parts.0
  end ← parse_int parts.1
  some (start, end)

-- `parseContentRange`; none is an error.
unfoldable pub parse_content_range : Bytes → Option ContentRange
unfolding cut_prefix cut parse_total parse_range
parse_content_range s = do
  rest ← cut_prefix (codes "bytes ") s
  parts ← cut b'/' rest
  total ← parse_total parts.1
  range ← parse_range parts.0
  some (record { start = range.0; end = range.1; total = total })

abbrev pub status_ok : ℕ
status_ok = 200

abbrev pub status_partial_content : ℕ
status_partial_content = 206

abbrev pub status_range_not_satisfiable : ℕ
status_range_not_satisfiable = 416

abbrev pub status_too_many_requests : ℕ
status_too_many_requests = 429

-- What a response declares.
pub record Reply : Type 0 where
  pub status : ℕ
  pub content_range : Bytes
  pub content_length : ℤ
  pub etag : Bytes
  pub last_modified : Bytes

unfoldable pub is_retryable_status : ℕ → Bool
is_retryable_status code = code == status_too_many_requests || (leb 500 code && ltb code 600)

-- The variables that `get` sets from the election's response.
pub record Mode : Type 0 where
  pub total : ℤ
  pub multipart : Bool
  pub initial_usable : Bool
  pub full_initial_range : Bool

abbrev pub unknown_mode : Mode
unknown_mode = record {
  total = negsuc 0;
  multipart = false;
  initial_usable = false;
  full_initial_range = false;
}

unfoldable pub mode_of_range : Option ContentRange → Mode
mode_of_range none = unknown_mode
mode_of_range (some r) =
    if eq_ℤ r.start (pos 0) && leb_ℤ (pos 0) r.end && ltb_ℤ (pos 0) r.total && ltb_ℤ r.end r.total
    then record {
      total = r.total;
      multipart = true;
      initial_usable = true;
      full_initial_range = eq_ℤ (r.end +ℤ pos 1) r.total;
    }
    else unknown_mode

-- The switch on the status.
unfoldable pub mode_of : Reply → Mode
unfolding parse_content_range mode_of_range
mode_of r =
    if r.status == status_partial_content
    then mode_of_range (parse_content_range r.content_range)
    else if r.status == status_range_not_satisfiable
    then record unknown_mode { total = pos 0; initial_usable = true }
    else if r.status == status_ok
    then record unknown_mode {
      initial_usable = true;
      total = if leb_ℤ (pos 0) r.content_length then r.content_length else negsuc 0;
    }
    else unknown_mode

-- The mode in which `get` runs: without a validator or a checksum a known size is not enough.
-- `initial_usable` says whether the response is open when the wait for the destination begins.
unfoldable pub plan : Bool → Reply → Mode
unfolding mode_of validator
plan checksum r =
    let m = mode_of r in
    if ltb_ℤ (pos 0) m.total && length (validator r.etag r.last_modified) == 0 && not checksum
    then (if r.status == status_partial_content && not m.full_initial_range
        then record m { multipart = false; initial_usable = false; total = negsuc 0 }
        else record m { multipart = false })
    else m

-- What a single-stream attempt makes of a response.
pub data Answer : Type 0 where
  proceed empty_resource retry_later give_up wrong_range : Answer

-- The case of the initial 206.
unfoldable pub check_full_range : ℤ → Option ContentRange → Answer
check_full_range total none = wrong_range
check_full_range total (some r) =
    if not (eq_ℤ r.start (pos 0))
      || ltb_ℤ r.total (pos 0)
      || not (eq_ℤ r.end (r.total -ℤ pos 1))
      || (leb_ℤ (pos 0) total && not (eq_ℤ r.total total))
    then wrong_range
    else proceed

-- `checkSingleStatus`; give_up and wrong_range are permanent errors, retry_later is a StatusError.
unfoldable pub check_single_status : Reply → Bool → ℤ → Answer
unfolding parse_content_range check_full_range is_retryable_status
check_single_status r initial total =
    if r.status == status_ok
    then proceed
    else if initial && r.status == status_range_not_satisfiable && eq_ℤ total (pos 0)
    then empty_resource
    else if initial && r.status == status_partial_content
    then check_full_range total (parse_content_range r.content_range)
    else if is_retryable_status r.status
    then retry_later
    else give_up
