-- ===== src/Laravel/Version.antt =====
-- `versionAtLeast` on versions as Composer writes them.
use localhoist.Common.{
  ℕ, ◌≡◌, ◌≢◌, ◌<◌, refl, ap, ◌∙◌, Bool, true, ◌&&◌, ◌||◌, List, [], ◌∷◌, ◌++◌, Bytes, codes, arith,
  ◌==◌, ltb, leb, ◌⊎◌, inl, inr, all, append-nil,
}
use localhoist.Common.Text.{
  has_prefix, trim_prefix, trim_prefix-append, split, split-lacks, split-append, lacks, itoa,
  atoi-itoa, itoa-is_digit, itoa-ne-nil, is_digit,
}
use localhoist.Laravel.{version_at_least, parts_at_least}

lacks_of_digits : (s : Bytes) → all is_digit s ≡ true → lacks b'.' s ≡ true
unfolding lacks
lacks_of_digits [] h = refl
lacks_of_digits (c ∷ s) h = ground (arith, lacks_of_digits s)

-- Without a `v` in front there is nothing to trim.
trim_digits :
    (s rest : Bytes)
    → all is_digit s ≡ true
    → s ≢ []
    → trim_prefix (s ++ rest) (codes "v") ≡ s ++ rest
unfolding trim_prefix has_prefix
trim_digits [] rest h ne = absurd (ne refl)
trim_digits (c ∷ s) rest h ne = ground arith

-- What stands behind the minor version: nothing, or a dot and anything.
abbrev pub IsTail : Bytes → Type 0
IsTail tail = (tail ≡ []) ⊎ ((more : Bytes) × (tail ≡ codes "." ++ more))

-- (major, minor) is at least (want_major, want_minor), in the order of versions.
abbrev pub at_least : ℕ → ℕ → ℕ → ℕ → Bool
at_least major minor want_major want_minor =
    ltb want_major major || (major == want_major && leb want_minor minor)

abbrev pub version : ℕ → ℕ → Bytes → Bytes
version major minor tail = itoa major ++ (codes "." ++ (itoa minor ++ tail))

split_minor :
    (minor : ℕ) (tail : Bytes)
    → IsTail tail
    → (ps : List Bytes) × (split b'.' (itoa minor ++ tail) ≡ itoa minor ∷ ps)
split_minor minor tail (inl none_left) = (
  [],
  ap (λ t. split b'.' (itoa minor ++ t)) none_left
      ∙ ap (split b'.') (append-nil (itoa minor))
      ∙ split-lacks b'.' (itoa minor) (lacks_of_digits (itoa minor) (itoa-is_digit minor)),
)
split_minor minor tail (inr (more, e)) = (
  split b'.' more,
  ap (λ t. split b'.' (itoa minor ++ t)) e
      ∙ split-append b'.' (itoa minor) more (lacks_of_digits (itoa minor) (itoa-is_digit minor)),
)

parts_of_version :
    (major minor want_major want_minor : ℕ) (tail : Bytes)
    → IsTail tail
    → major < 9223372036854775808
    → minor < 9223372036854775808
    → parts_at_least (split b'.' (version major minor tail)) want_major want_minor
      ≡ at_least major minor want_major want_minor
parts_of_version major minor want_major want_minor tail h big small =
    let (ps, e) = split_minor minor tail h in
    rw
      (split-append b'.' (itoa major) (itoa minor ++ tail)
        (lacks_of_digits (itoa major) (itoa-is_digit major)))
      (rw e (rw (atoi-itoa major big, atoi-itoa minor small) (ground arith)))

-- For a version `major.minor`, or one with more behind a further dot, with or without a `v` in
-- front, `versionAtLeast` is the order of versions: by the major number, then by the minor one.
-- The numbers are those of an `int`.
pub version_at_least-at_least :
    (major minor want_major want_minor : ℕ) (tail : Bytes)
    → IsTail tail
    → major < 9223372036854775808
    → minor < 9223372036854775808
    → (version_at_least (version major minor tail) want_major want_minor
        ≡ at_least major minor want_major want_minor)
      × (version_at_least (codes "v" ++ version major minor tail) want_major want_minor
          ≡ at_least major minor want_major want_minor)
unfolding version_at_least
version_at_least-at_least major minor want_major want_minor tail h big small = (
  rw
      (trim_digits (itoa major) (codes "." ++ (itoa minor ++ tail)) (itoa-is_digit major)
        (itoa-ne-nil major))
      (parts_of_version major minor want_major want_minor tail h big small),
  rw (trim_prefix-append (codes "v") (version major minor tail))
      (parts_of_version major minor want_major want_minor tail h big small),
)
