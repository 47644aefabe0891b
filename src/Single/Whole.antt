-- ===== src/Single/Whole.antt =====
-- A single-stream run up to the installed file.
use go_download.Base.{
  ℕ, ◌≡◌, ◌⊎◌, refl, ℤ, pos, length, leb_ℤ, [], ◌∷◌, Bool, true, false, none, some, List, Bytes,
  arith, Bool-cases, inl, inr,
}
use go_download.Finalize.{Files, Faults, Expected, Finish, verify_and_finalize}
use go_download.Finalize.Installs.{
  IsAtomic, placed, kept, IsChecked, is_installed, verify_and_finalize-IsAtomic,
}
use go_download.Single.{Staged, Round, single_stream, is_complete, single}
use go_download.Single.Streams.{declared, unbounded}
use go_download.Single.Retries.{Delivered, tried, single_stream-Delivered}

-- What a run starts with.
abbrev pub found : Expected → Files → Staged
found r s = record { file = s.part; sidecar = s.sidecar; total = r.total }

-- The installed file holds what the response of one round delivered, in full length: the total of the run
-- if that round has the election's response, else the Content-Length, else all of the body up to its EOF.
pub record IsWhole (sha256 sha1 md5 : Bytes → Bytes) (v : Bytes) (rounds : List Round)
    (r : Expected) (s t : Files) : Type 0 where
  pub content : Bytes
  pub there : t.dest ≡ some content
  pub allowed : (r.overwrite ≡ true) ⊎ (s.dest ≡ none)
  pub total : ℤ
  pub sidecar : Bool
  pub delivered :
      Delivered v (found r s) rounds (record { file = content; sidecar = sidecar; total = total })
  pub full : total ≡ pos (length content)
  pub checked : IsChecked sha256 sha1 md5 (record r { total = total }) content

-- Nothing is installed and the destination is as it was, or the whole response is.
abbrev pub IsSafe :
    (Bytes → Bytes)
    → (Bytes → Bytes)
    → (Bytes → Bytes)
    → Bytes
    → List Round
    → Expected
    → Files
    → Files × Finish
    → Type 0
IsSafe sha256 sha1 md5 v rounds r s x =
    ((is_installed x.1 ≡ false) × (x.0.dest ≡ s.dest)) ⊎ IsWhole sha256 sha1 md5 v rounds r s x.0

Delivered-known :
    (v : Bytes) (s : Staged) (rounds : List Round) (t : Staged)
    → Delivered v s rounds t
    → leb_ℤ (pos 0) t.total ≡ true
Delivered-known v s [] t d = absurd d
Delivered-known v s (r ∷ rs) t (inr d) = Delivered-known v (tried v r s).0 rs t d
Delivered-known v s (r ∷ rs) t (inl i) = elim i.full [
  | declared k e l ↦ rw e k
  | unbounded u e n ↦ rw e (ground arith)
]

module _ (sha256 sha1 md5 : Bytes → Bytes) where
  finalize-IsSafe :
      (v : Bytes) (rounds : List Round) (r : Expected) (s : Files) (t : Staged) (x : Files × Finish)
      → Delivered v (found r s) rounds t
      → IsAtomic (record r { total = t.total }) (record s { part = t.file; sidecar = t.sidecar }) x
      → ((is_installed x.1 ≡ false)
          ⊎ IsChecked sha256 sha1 md5 (record r { total = t.total }) t.file)
      → IsSafe sha256 sha1 md5 v rounds r s x
  finalize-IsSafe v rounds r s t x d (kept e n) k = inl (n, refl)
  finalize-IsSafe v rounds r s t x d (placed u there same o) (inl n) = ground (arith, n)
  finalize-IsSafe v rounds r s t x d (placed u there same o) (inr k) = inr (record {
    content = t.file;
    there = there;
    allowed = o;
    total = t.total;
    sidecar = t.sidecar;
    delivered = d;
    full = ground (arith, Delivered-known v (found r s) rounds t d, k.size);
    checked = k;
  })

  -- A single-stream run either installs nothing and leaves the destination as it was, or it installs,
  -- over an existing destination only with Overwrite, a file that the response of one single round
  -- delivered, with every configured sum and of full length: that of the run's total for the election's
  -- response, else that of the response's Content-Length, and if neither is known the whole of a body
  -- that was read up to its EOF.
  pub single-IsSafe :
      (max_retries : ℕ) (v : Bytes) (rounds : List Round) (r : Expected) (f : Faults) (s : Files)
      → IsSafe sha256 sha1 md5 v rounds r s (single sha256 sha1 md5 max_retries v rounds r f s)
  unfolding single
  single-IsSafe max_retries v rounds r f s =
      let run = single_stream max_retries v 0 rounds (found r s) in
      elim (Bool-cases (is_complete run.1)) [
        | inr e ↦ simp (e, single) (inl (refl, refl))
        | inl e ↦
            let q : Expected = record r { total = run.0.total } in
            let staged : Files = record s { part = run.0.file; sidecar = run.0.sidecar } in
            let (atomic, checked) = verify_and_finalize-IsAtomic sha256 sha1 md5 q f staged in
            simp (e, single)
              (finalize-IsSafe v rounds r s run.0 (verify_and_finalize sha256 sha1 md5 q f staged)
                (single_stream-Delivered max_retries v 0 rounds (found r s) e) atomic checked)
      ]
