-- ===== src/Finalize/Installs.antt =====
-- What an installed file is, and that nothing else changes the destination.
use go_download.Base.{
  pos, ◌≡◌, ◌⊎◌, refl, Bool, true, false, ◌&&◌, ◌||◌, not, Option, none, some, leb_ℤ, eq_ℤ, length,
  eq_bytes→eq, Bytes, arith, Bool-cases, Option-cases, inl, inr,
}
use go_download.Finalize.{
  Files, Faults, Expected, Finish, installed, size_error, checksum_error, dest_exists, io_error,
  is_set, is_there, install_no_replace, install, close_files, verify_sums, finish,
  verify_and_finalize,
}

-- A configured sum is the digest.
abbrev pub Agrees : (Bytes → Bytes) → Bytes → Bytes → Type 0
Agrees digest expected content = (is_set expected ≡ false) ⊎ (digest content ≡ expected)

abbrev pub is_installed : Finish → Bool
is_installed (installed n) = true
is_installed size_error = false
is_installed checksum_error = false
is_installed dest_exists = false
is_installed io_error = false

-- The calls went well and installed the staged bytes, or they left all files as they were.
pub data IsAtomic (r : Expected) (s : Files) : Files × Finish → Type 0 where
  placed :
      (t : Files)
      → t.dest ≡ some s.part
      → t.part ≡ s.part
      → ((r.overwrite ≡ true) ⊎ (s.dest ≡ none))
      → IsAtomic r s (t, installed (length s.part))
  kept : (e : Finish) → is_installed e ≡ false → IsAtomic r s (s, e)

-- `install` went well, or left all files as they were.
data IsTaken (r : Expected) (s : Files) : Files × Option Finish → Type 0 where
  taken :
      (t : Files)
      → t.dest ≡ some s.part
      → t.part ≡ s.part
      → ((r.overwrite ≡ true) ⊎ (s.dest ≡ none))
      → IsTaken r s (t, none)
  untouched : (e : Finish) → is_installed e ≡ false → IsTaken r s (s, some e)

absent : (o : Option Bytes) → is_there o ≡ false → o ≡ none
absent none h = refl
absent (some s) h = ground (arith, h)

install-IsTaken : (r : Expected) (f : Faults) (s : Files) → IsTaken r s (install r f s)
unfolding install install_no_replace
install-IsTaken r f s = elim (Bool-cases r.overwrite) [
  | inl o ↦ elim (Bool-cases f.rename) [
    | inl e ↦ simp (o, e, install) (untouched io_error refl)
    | inr e ↦
        simp (o, e, install)
          (taken (record s { dest = some s.part; part_there = false }) refl refl (inl o))
  ]
  | inr o ↦ elim (Bool-cases (is_there s.dest)) [
    | inl d ↦ simp (o, d, install, install_no_replace) (untouched dest_exists refl)
    | inr d ↦ elim (Bool-cases f.link) [
      | inl e ↦ simp (o, d, e, install, install_no_replace) (untouched io_error refl)
      | inr e ↦ elim (Bool-cases f.remove_part) [
        | inl g ↦
            simp (o, d, e, g, install, install_no_replace)
              (taken (record s { dest = some s.part }) refl refl (inr (absent s.dest d)))
        | inr g ↦
            simp (o, d, e, g, install, install_no_replace)
              (taken (record s { dest = some s.part; part_there = false }) refl refl
                (inr (absent s.dest d)))
      ]
    ]
  ]
]

close_files-IsAtomic :
    (r : Expected) (f : Faults) (s : Files) (x : Files × Option Finish)
    → IsTaken r s x
    → IsAtomic r s (close_files f s x)
unfolding close_files
close_files-IsAtomic r f s x (untouched e n) = kept e n
close_files-IsAtomic r f s x (taken t d p o) = elim (Bool-cases f.remove_sidecar) [
  | inl e ↦ simp e (placed t d p o)
  | inr e ↦ simp e (placed (record t { sidecar = false }) d p o)
]

finish-IsAtomic : (r : Expected) (f : Faults) (s : Files) → IsAtomic r s (finish r f s)
unfolding finish
finish-IsAtomic r f s = elim (Bool-cases (f.sync || (not r.flock_supported && f.close))) [
  | inl e ↦ simp (e, finish) (kept io_error refl)
  | inr e ↦ simp (e, finish) (close_files-IsAtomic r f s (install r f s) (install-IsTaken r f s))
]

-- The size and the sums that are configured.
pub record IsChecked (sha256 sha1 md5 : Bytes → Bytes) (r : Expected) (content : Bytes)
    : Type 0 where
  pub size : (leb_ℤ (pos 0) r.total ≡ false) ⊎ (r.total ≡ pos (length content))
  pub sum256 : Agrees sha256 r.sha256 content
  pub sum1 : Agrees sha1 r.sha1 content
  pub sum5 : Agrees md5 r.md5 content

module _ (sha256 sha1 md5 : Bytes → Bytes) where
  verify_sums-lem :
      (r : Expected) (f : Faults) (s : Files)
      → verify_sums sha256 sha1 md5 r f s ≡ none
      → Agrees sha256 r.sha256 s.part × Agrees sha1 r.sha1 s.part × Agrees md5 r.md5 s.part
  unfolding verify_sums
  verify_sums-lem r f s h = ground (
    arith,
    h,
    eq_bytes→eq (sha256 s.part) r.sha256,
    eq_bytes→eq (sha1 s.part) r.sha1,
    eq_bytes→eq (md5 s.part) r.md5,
  )

  verify_sums-fails :
      (r : Expected) (f : Faults) (s : Files) {x : Finish}
      → verify_sums sha256 sha1 md5 r f s ≡ some x
      → is_installed x ≡ false
  unfolding verify_sums
  verify_sums-fails r f s {x} h = ground (arith, h)

  -- Finalizing installs the staged bytes, with the size and every sum that is configured checked, over an
  -- existing destination only with Overwrite; or it leaves the destination, the staging file and the
  -- sidecar as they were.
  pub verify_and_finalize-IsAtomic :
      (r : Expected) (f : Faults) (s : Files)
      → IsAtomic r s (verify_and_finalize sha256 sha1 md5 r f s)
        × ((is_installed (verify_and_finalize sha256 sha1 md5 r f s).1 ≡ false)
            ⊎ IsChecked sha256 sha1 md5 r s.part)
  unfolding verify_and_finalize
  verify_and_finalize-IsAtomic r f s = elim (Bool-cases f.stat) [
    | inl e ↦ simp (e, verify_and_finalize) (kept io_error refl, inl refl)
    | inr e ↦
        elim (Bool-cases (leb_ℤ (pos 0) r.total && not (eq_ℤ (pos (length s.part)) r.total))) [
          | inl g ↦ simp (e, g, verify_and_finalize) (kept size_error refl, inl refl)
          | inr g ↦ elim (Option-cases (verify_sums sha256 sha1 md5 r f s)) [
            | inr (x, h) ↦
                simp (e, g, h, verify_and_finalize)
                  (kept x (verify_sums-fails r f s h), inl (verify_sums-fails r f s h))
            | inl h ↦
                let (a, b, c) = verify_sums-lem r f s h in
                simp (e, g, h, verify_and_finalize)
                  (
                    finish-IsAtomic r f s,
                    inr (record { size = ground (arith, g); sum256 = a; sum1 = b; sum5 = c }),
                  )
          ]
        ]
  ]
