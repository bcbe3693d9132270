-- ===== src/EnvFile/Lines.antt =====
-- The lines of a dotenv file: `GetRaw` and `Set` on one key and on two.
use localhoist.Common.{
  ◌≡◌, ◌≢◌, refl, true, false, ◌&&◌, none, some, List, [], ◌∷◌, ◌++◌, Bytes, equal, equal_iff,
  length, if◌then◌else◌, arith,
}
use localhoist.Common.Text.{
  has_prefix, trim_prefix, has_prefix-append, append-trim_prefix, trim_prefix-append, lacks,
}
use localhoist.EnvFile.{prefix, get_raw, set}

-- A key of a dotenv file has no `=` in it.
abbrev pub IsKey : Bytes → Type 0
IsKey key = lacks b'=' key ≡ true

has_prefix-prefix :
    (k j rest : Bytes) → IsKey k → IsKey j → has_prefix (prefix k ++ rest) (prefix j) ≡ equal k j
unfolding has_prefix equal lacks
has_prefix-prefix [] [] rest h g = refl
has_prefix-prefix [] (d ∷ j) rest h g = ground arith
has_prefix-prefix (c ∷ k) [] rest h g = ground arith
has_prefix-prefix (c ∷ k) (d ∷ j) rest h g = ground (arith, has_prefix-prefix k j rest)

-- A line of one key is no line of another.
line_of_key :
    (line k j : Bytes)
    → IsKey k
    → IsKey j
    → has_prefix line (prefix k) ≡ true
    → has_prefix line (prefix j) ≡ equal k j
line_of_key line k j h g e =
    rw (append-trim_prefix line (prefix k) e) at
      (has_prefix-prefix k j (trim_prefix line (prefix k)) h g)

-- Writing back what was read changes nothing.
pub set_self :
    (lines : List Bytes) (k : Bytes) {raw : Bytes}
    → get_raw lines k ≡ some raw
    → (set lines k raw).0 ≡ lines
unfolding get_raw set
set_self [] k h = refl
set_self (line ∷ lines) k {raw} h =
    ground (arith, set_self lines k {raw = raw}, append-trim_prefix line (prefix k))

-- `Set` reports whether the key has a line, and does nothing where it has none.
pub set_absent :
    (lines : List Bytes) (k v : Bytes) → get_raw lines k ≡ none → set lines k v ≡ (lines, false)
unfolding get_raw set
set_absent [] k v h = refl
set_absent (line ∷ lines) k v h = ground (arith, set_absent lines k v)

pub set_present :
    (lines : List Bytes) (k v : Bytes) {raw : Bytes}
    → get_raw lines k ≡ some raw
    → (set lines k v).1 ≡ true
unfolding get_raw set
set_present [] k v h = cc
set_present (line ∷ lines) k v {raw} h = ground (arith, set_present lines k v {raw = raw})

-- The later of two writes of one key is the one that counts.
pub set_again : (lines : List Bytes) (k v w : Bytes) → set (set lines k v).0 k w ≡ set lines k w
unfolding set
set_again [] k v w = refl
set_again (line ∷ lines) k v w =
    ground (arith, set_again lines k v w, has_prefix-append (prefix k) v)

module _ (k j : Bytes) (h : IsKey k) (g : IsKey j) where
  -- What a key reads as behind a write of this key or another: the new value if it is the key that
  -- was written and that key has a line, else what it was. The keys hold no `=`.
  pub get_raw-set :
      (lines : List Bytes) (v : Bytes)
      → get_raw (set lines k v).0 j
        ≡ (if equal k j && (set lines k v).1 then some v else get_raw lines j)
  unfolding get_raw set
  get_raw-set [] v = ground arith
  get_raw-set (line ∷ lines) v = ground (
    arith,
    get_raw-set lines v,
    has_prefix-prefix k j v h g,
    line_of_key line k j h g,
    equal_iff k j,
    trim_prefix-append (prefix k) v,
    has_prefix-append (prefix k) v,
  )

  -- Writes of two keys can be swapped.
  pub set_comm :
      (lines : List Bytes) (v w : Bytes)
      → k ≢ j
      → (set (set lines k v).0 j w).0 ≡ (set (set lines j w).0 k v).0
  unfolding set
  set_comm [] v w ne = refl
  set_comm (line ∷ lines) v w ne = ground (
    arith,
    set_comm lines v w ne,
    has_prefix-prefix k j v h g,
    has_prefix-prefix j k w g h,
    line_of_key line k j h g,
    line_of_key line j k g h,
    equal_iff k j,
    equal_iff j k,
  )

-- `Set` writes at most one line, and keeps all the others where they are.
pub length-set : (lines : List Bytes) (k v : Bytes) → length (set lines k v).0 ≡ length lines
unfolding set
length-set [] k v = refl
length-set (line ∷ lines) k v = ground (arith, length-set lines k v)
