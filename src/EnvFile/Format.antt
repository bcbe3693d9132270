-- ===== src/EnvFile/Format.antt =====
-- The bytes of a dotenv file and its lines: what `Load` and `Save` do to them between them.
use localhoist.Common.{
  ◌≡◌, ◌≢◌, ap, true, List, [], ◌∷◌, ◌++◌, Bytes, All, if◌then◌else◌, arith, Bool-cases, inl, inr,
}
use localhoist.Common.Text.{
  has_suffix, trim_suffix, trim_suffix-append, trim_suffix_append, trim_suffix_other, join, lacks,
  join-split, split-join, split-ne-nil, split-All-lacks, has_prefix,
}
use localhoist.EnvFile.{newline, parse, render, set, prefix}

-- A file that is loaded and saved keeps its bytes, but ends in a newline in any case.
pub render-parse :
    (content : Bytes)
    → render (parse content) ≡ (if has_suffix content newline then content else content ++ newline)
unfolding render parse
render-parse content = elim (Bool-cases (has_suffix content newline)) [
  | inl ends ↦
      rw (join-split b'\n' (trim_suffix content newline), ends)
        (trim_suffix-append content newline ends)
  | inr open_end ↦
      rw (join-split b'\n' (trim_suffix content newline), open_end)
        (ap (λ s. s ++ newline) (trim_suffix_other content newline open_end))
]

-- Lines that hold no newline, at least one of them, are read back as they were written.
pub parse-render :
    (lines : List Bytes)
    → lines ≢ []
    → All (λ line. lacks b'\n' line ≡ true) lines
    → parse (render lines) ≡ lines
unfolding render parse
parse-render lines ne h =
    rw (trim_suffix_append (join b'\n' lines) newline) (split-join b'\n' lines ne h)

pub parse-ne-nil : (content : Bytes) → parse content ≢ []
unfolding parse
parse-ne-nil content = split-ne-nil b'\n' (trim_suffix content newline)

pub parse-All-lacks : (content : Bytes) → All (λ line. lacks b'\n' line ≡ true) (parse content)
unfolding parse
parse-All-lacks content = split-All-lacks b'\n' (trim_suffix content newline)

module _ (P : Bytes → Type 0) where
  -- What holds of every line, and of the line that is written, holds of every line after `Set`.
  pub set-All :
      (lines : List Bytes) (k v : Bytes) → P (prefix k ++ v) → All P lines → All P (set lines k v).0
  unfolding set
  set-All [] k v p h = tt
  set-All (line ∷ lines) k v p h = elim (Bool-cases (has_prefix line (prefix k))) [
    | inl here ↦ rw here (p, h.1)
    | inr there ↦ rw there (h.0, set-All lines k v p h.1)
  ]

pub set-ne-nil : (lines : List Bytes) (k v : Bytes) → lines ≢ [] → (set lines k v).0 ≢ []
unfolding set
set-ne-nil [] k v ne = ne
set-ne-nil (line ∷ lines) k v ne = ground arith
