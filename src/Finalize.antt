-- ===== src/Finalize.antt =====
-- download.go: verifyAndFinalize, install and installNoReplace over the three files of a download. The
-- digests of crypto/sha256, sha1 and md5, in hex, are parameters; each system call can fail.
pub mod Installs
use go_download.Base.{
  ℕ, ℤ, pos, Bool, true, false, ◌&&◌, ◌||◌, not, ◌==◌, if◌then◌else◌, Option, none, some, List, [],
  ◌∷◌, leb_ℤ, eq_ℤ, length, eq_bytes, Bytes,
}

-- The staging file, the destination and the resume sidecar. The open staging file is the one at
-- partPath, which the run has locked.
pub record Files : Type 0 where
  pub part : Bytes
  pub part_there : Bool
  pub dest : Option Bytes
  pub sidecar : Bool

-- Which calls fail.
pub record Faults : Type 0 where
  pub stat : Bool
  pub hash : Bool
  pub sync : Bool
  pub close : Bool
  pub rename : Bool
  pub link : Bool
  pub remove_part : Bool
  pub remove_sidecar : Bool

-- The fields of run and Options that matter here; an empty sum is one that is not configured.
pub record Expected : Type 0 where
  pub total : ℤ
  pub sha256 : Bytes
  pub sha1 : Bytes
  pub md5 : Bytes
  pub overwrite : Bool
  pub flock_supported : Bool

pub data Finish : Type 0 where
  installed : ℕ → Finish
  size_error checksum_error dest_exists io_error : Finish

unfoldable pub is_set : Bytes → Bool
is_set [] = false
is_set (c ∷ s) = true

abbrev pub is_there : Option Bytes → Bool
is_there none = false
is_there (some s) = true

abbrev pub checksum_configured : Expected → Bool
checksum_configured r = is_set r.sha256 || is_set r.sha1 || is_set r.md5

-- `installNoReplace` with os.Link, which fails on an existing name.
unfoldable pub install_no_replace : Faults → Files → Files × Option Finish
install_no_replace f s =
    if is_there s.dest
    then (s, some dest_exists)
    else if f.link
    then (s, some io_error)
    else (record s { dest = some s.part }, none)

-- `install`; none as the result is success.
unfoldable pub install : Expected → Faults → Files → Files × Option Finish
unfolding install_no_replace
install r f s =
    if r.overwrite
    then (if f.rename
        then (s, some io_error)
        else (record s { dest = some s.part; part_there = false }, none))
    else (let (t, failed) = install_no_replace f s in
        elim failed [
          | some e ↦ (t, some e)
          | none ↦ (if f.remove_part then t else record t { part_there = false }, none)
        ])

-- What follows `install`: the removal of the sidecar, whose failure is only logged.
unfoldable pub close_files : Faults → Files → Files × Option Finish → Files × Finish
close_files f s (t, some e) = (t, e)
close_files f s (t, none) =
    (if f.remove_sidecar then t else record t { sidecar = false }, installed (length s.part))

-- From file.Sync on.
unfoldable pub finish : Expected → Faults → Files → Files × Finish
unfolding install close_files
finish r f s =
    if f.sync || (not r.flock_supported && f.close)
    then (s, io_error)
    else close_files f s (install r f s)

module _ (sha256 sha1 md5 : Bytes → Bytes) where
  -- The block under checksumConfigured.
  unfoldable pub verify_sums : Expected → Faults → Files → Option Finish
  unfolding is_set
  verify_sums r f s =
      if not (checksum_configured r)
      then none
      else if f.hash
      then some io_error
      else if is_set r.sha256 && not (eq_bytes (sha256 s.part) r.sha256)
      then some checksum_error
      else if is_set r.sha1 && not (eq_bytes (sha1 s.part) r.sha1)
      then some checksum_error
      else if is_set r.md5 && not (eq_bytes (md5 s.part) r.md5)
      then some checksum_error
      else none

  unfoldable pub verify_and_finalize : Expected → Faults → Files → Files × Finish
  unfolding verify_sums finish
  verify_and_finalize r f s =
      if f.stat
      then (s, io_error)
      else if leb_ℤ (pos 0) r.total && not (eq_ℤ (pos (length s.part)) r.total)
      then (s, size_error)
      else elim (verify_sums r f s) [ some e ↦ (s, e) | none ↦ finish r f s ]
