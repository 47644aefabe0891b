-- ===== src/Response/Ranges.antt =====
-- Reading a Content-Range header.
use go_download.Base.{
  ◌≡◌, ◌≢◌, ◌≤◌, refl, pos, negsuc, some, [], ◌∷◌, ◌++◌, Bytes, codes, cut_prefix, parse_int,
  parse_int-value, IsDigit, IsDigit-Lacks, Lacks, Lacks-append, value, max_int64, cut-append, All,
  arith,
}
use go_download.Response.{parse_total, parse_range, parse_content_range}

-- A text of digits for a number that an int64 holds.
pub record IsDecimal (s : Bytes) : Type 0 where
  pub nonempty : s ≢ []
  pub digits : All IsDigit s
  pub fits : value 0 s ≤ max_int64

parse_int-decimal : (s : Bytes) → IsDecimal s → parse_int s ≡ some (pos (value 0 s))
parse_int-decimal [] d = absurd (d.nonempty refl)
parse_int-decimal (c ∷ s) d = parse_int-value c s d.digits d.fits

parse_total-decimal : (s : Bytes) → IsDecimal s → parse_total s ≡ some (pos (value 0 s))
unfolding parse_total
parse_total-decimal [] d = absurd (d.nonempty refl)
parse_total-decimal (c ∷ s) d = ground (arith, parse_int-decimal (c ∷ s) d, d.digits)

parse_range-decimal :
    (s e : Bytes)
    → IsDecimal s
    → IsDecimal e
    → parse_range (s ++ b'-' ∷ e) ≡ some (pos (value 0 s), pos (value 0 e))
unfolding parse_range
parse_range-decimal s e ds de =
    rw
      (
        cut-append b'-' s e (IsDigit-Lacks b'-' s (omega arith) ds.digits),
        parse_int-decimal s ds,
        parse_int-decimal e de,
      )
      refl

-- The header that the three texts make.
abbrev pub content_range : Bytes → Bytes → Bytes → Bytes
content_range s e t = codes "bytes " ++ ((s ++ b'-' ∷ e) ++ b'/' ∷ t)

range-Lacks : (s e : Bytes) → IsDecimal s → IsDecimal e → Lacks b'/' (s ++ b'-' ∷ e)
range-Lacks s e ds de =
    Lacks-append b'/' s (b'-' ∷ e) (IsDigit-Lacks b'/' s (omega arith) ds.digits)
      (ground arith, IsDigit-Lacks b'/' e (omega arith) de.digits)

-- A Content-Range header of decimal int64 numbers is read as these numbers, and with a star in place
-- of the size as these and -1.
pub parse_content_range-decimal :
    (s e t : Bytes)
    → IsDecimal s
    → IsDecimal e
    → IsDecimal t
    → (parse_content_range (content_range s e t)
        ≡ some (record { start = pos (value 0 s); end = pos (value 0 e); total = pos (value 0 t) }))
      × (parse_content_range (content_range s e (b'*' ∷ []))
          ≡ some (record { start = pos (value 0 s); end = pos (value 0 e); total = negsuc 0 }))
unfolding parse_content_range cut_prefix parse_total
parse_content_range-decimal s e t ds de dt = (
  rw
      (
        cut-append b'/' (s ++ b'-' ∷ e) t (range-Lacks s e ds de),
        parse_total-decimal t dt,
        parse_range-decimal s e ds de,
      )
      refl,
  rw
      (
        cut-append b'/' (s ++ b'-' ∷ e) (b'*' ∷ []) (range-Lacks s e ds de),
        parse_range-decimal s e ds de,
      )
      refl,
)
