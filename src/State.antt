-- ===== src/State.antt =====
-- state.go: the resume sidecar, and the part of multipart (download.go) that starts a run from it.
-- A string is the list of its bytes. Reading the file and the JSON decoding stand outside: the
-- functions here take the decoded value, so every number of a sidecar can be negative.
pub mod Order
pub mod Save
use go_download.Base.{
  ℕ, ℤ, pos, negsuc, Bool, true, false, ◌&&◌, ◌||◌, not, leb, ltb, ◌==◌, leb_ℤ, ltb_ℤ, eq_ℤ, ◌+ℤ◌,
  ◌-ℤ◌, if◌then◌else◌, List, [], ◌∷◌, Option, none, some, length, eq_bytes,
}

-- One incomplete range: [off + done, end) still needs downloading.
pub record ChunkState : Type 0 where
  pub off : ℤ
  pub end : ℤ
  pub done : ℤ

pub record StateFile : Type 0 where
  pub version : ℤ
  pub source_id : List ℕ
  pub size : ℤ
  pub etag : List ℕ
  pub last_modified : List ℕ
  pub chunks : List ChunkState

abbrev pub state_version : ℤ
state_version = pos 2

-- sha256.Size*2
abbrev pub source_id_len : ℕ
source_id_len = 64

-- slices.SortFunc by Off, as insertion.
unfoldable pub insert_by_off : ChunkState → List ChunkState → List ChunkState
insert_by_off c [] = c ∷ []
insert_by_off c (d ∷ ds) = if leb_ℤ c.off d.off then c ∷ d ∷ ds else d ∷ insert_by_off c ds

unfoldable pub sort_by_off : List ChunkState → List ChunkState
unfolding insert_by_off
sort_by_off [] = []
sort_by_off (c ∷ cs) = insert_by_off c (sort_by_off cs)

abbrev pub is_malformed : ℤ → ChunkState → Bool
is_malformed size c =
    ltb_ℤ c.off (pos 0)
    || ltb_ℤ size c.end
    || leb_ℤ c.end c.off
    || ltb_ℤ c.done (pos 0)
    || ltb_ℤ (c.end -ℤ c.off) c.done

-- The loop over the sorted chunks: `prev_end` is the end of the chunk before.
unfoldable pub ranges_ok : ℤ → ℤ → List ChunkState → Bool
ranges_ok size prev_end [] = true
ranges_ok size prev_end (c ∷ cs) =
    not (is_malformed size c) && not (ltb_ℤ c.off prev_end) && ranges_ok size c.end cs

-- `loadState` on the decoded sidecar.
unfoldable pub load_state : StateFile → Option StateFile
unfolding ranges_ok sort_by_off
load_state st =
    if not (eq_ℤ st.version state_version)
      || not (length st.source_id == source_id_len)
      || leb_ℤ st.size (pos 0)
    then none
    else if length st.etag == 0 && length st.last_modified == 0
    then none
    else if ranges_ok st.size (negsuc 0) (sort_by_off st.chunks)
    then some st
    else none

-- `len(etag) >= 2 && etag[0] == '"'`
unfoldable pub is_strong_etag : List ℕ → Bool
is_strong_etag [] = false
is_strong_etag (c ∷ cs) = leb 2 (length (c ∷ cs)) && c == b'"'

-- `usable`. `part_size` is what Stat says of the locked .part file, if it succeeds.
unfoldable pub usable : StateFile → Option ℤ → List ℕ → ℤ → List ℕ → List ℕ → Bool
unfolding is_strong_etag
usable st part_size source_id size etag last_modified =
    if not (eq_bytes st.source_id source_id) || not (eq_ℤ st.size size)
    then false
    else if is_stale
    then false
    else elim part_size [ none ↦ false | some n ↦ eq_ℤ n size ]
  where
    is_stale : Bool
    is_stale =
        if is_strong_etag st.etag
        then not (eq_bytes st.etag etag)
        else length st.last_modified == 0 || not (eq_bytes st.last_modified last_modified)

unfoldable pub remaining : List ChunkState → ℤ
remaining [] = pos 0
remaining (c ∷ cs) = ((c.end -ℤ c.off) -ℤ c.done) +ℤ remaining cs

-- `run.validator` and `run.resumable`: a strong ETag, else Last-Modified, else nothing.
unfoldable pub validator : List ℕ → List ℕ → List ℕ
unfolding is_strong_etag
validator etag last_modified = if is_strong_etag etag then etag else last_modified

unfoldable pub resumable : List ℕ → List ℕ → Bool
unfolding validator
resumable etag last_modified = not (length (validator etag last_modified) == 0)
