-- ===== src/Tests/Downloads.antt =====
-- A single-stream download of three bytes, of which the first attempt breaks off.
use go_download.Base.{◌≡◌, ◌⊎◌, refl, pos, true, false, some, none, List, [], ◌∷◌, Bytes, codes}
use go_download.Finalize.{Files, Faults, Expected, installed, verify_and_finalize}
use go_download.Finalize.Installs.{IsAtomic, IsChecked, is_installed, verify_and_finalize-IsAtomic}
use go_download.Response.{Reply}
use go_download.Single.{eof, broken, Exchange, Round, single}
use go_download.Single.Whole.{IsSafe, single-IsSafe}

-- Stands in for a digest.
abbrev last_byte : Bytes → Bytes
last_byte [] = []
last_byte (c ∷ []) = c ∷ []
last_byte (c ∷ d ∷ s) = last_byte (d ∷ s)

abbrev no_faults : Faults
no_faults = record {
  stat = false;
  hash = false;
  sync = false;
  close = false;
  rename = false;
  link = false;
  remove_part = false;
  remove_sidecar = false;
}

abbrev wanted : Expected
wanted = record {
  total = pos 3;
  sha256 = codes "c";
  sha1 = [];
  md5 = [];
  overwrite = false;
  flock_supported = true;
}

abbrev staged : Files
staged = record { part = codes "abc"; part_there = true; dest = none; sidecar = true }

verify_and_finalize_installs :
    verify_and_finalize last_byte last_byte last_byte wanted no_faults staged ≡ (
      record { part = codes "abc"; part_there = false; dest = some (codes "abc"); sidecar = false },
      installed 3,
    )
unfolding verify_and_finalize
verify_and_finalize_installs = refl

verify_and_finalize-IsAtomic_example :
    IsAtomic wanted staged
      (verify_and_finalize last_byte last_byte last_byte wanted no_faults staged)
    × ((is_installed (verify_and_finalize last_byte last_byte last_byte wanted no_faults staged).1
          ≡ false)
        ⊎ IsChecked last_byte last_byte last_byte wanted (codes "abc"))
verify_and_finalize-IsAtomic_example =
    verify_and_finalize-IsAtomic last_byte last_byte last_byte wanted no_faults staged

abbrev answer : Reply
answer = record {
  status = 200;
  content_range = [];
  content_length = pos 3;
  etag = [];
  last_modified = [];
}

abbrev breaks_off : Exchange
breaks_off = record {
  initial = true;
  connects = true;
  reply = answer;
  reads = (record { bytes = codes "ab"; error = some broken; write_fails = false }) ∷ [];
  invalidate_fails = false;
  truncate_fails = false;
}

abbrev goes_well : Exchange
goes_well = record breaks_off {
  initial = false;
  reads =
      (record { bytes = codes "ab"; error = none; write_fails = false })
      ∷ (record { bytes = codes "c"; error = some eof; write_fails = false })
      ∷ [];
}

abbrev rounds : List Round
rounds =
    (record { exchange = breaks_off; cancelled = false; sleep_fails = false })
    ∷ (record { exchange = goes_well; cancelled = false; sleep_fails = false })
    ∷ []

abbrev nothing_yet : Files
nothing_yet = record { part = []; part_there = true; dest = none; sidecar = false }

single_installs : single last_byte last_byte last_byte 2 [] rounds wanted no_faults nothing_yet ≡ (
  record { part = codes "abc"; part_there = false; dest = some (codes "abc"); sidecar = false },
  installed 3,
)
unfolding single
single_installs = refl

single-IsSafe_example :
    IsSafe last_byte last_byte last_byte [] rounds wanted nothing_yet
      (single last_byte last_byte last_byte 2 [] rounds wanted no_faults nothing_yet)
single-IsSafe_example =
    single-IsSafe last_byte last_byte last_byte 2 [] rounds wanted no_faults nothing_yet
