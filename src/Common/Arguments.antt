-- ===== src/Common/Arguments.antt =====
-- Go's `flag` package, for a flag set that exits on an error: `FlagSet.Parse`.
use localhoist.Common.{
  ℕ, Bool, true, false, ◌||◌, Option, none, some, List, [], ◌∷◌, Bytes, codes, equal, ◌==◌,
  if◌then◌else◌,
}

-- `fs.Bool` and `fs.String`
pub data Kind : Type 0 where
  switch string : Kind

pub data Parsed : Type 0 where
  -- The values that were set, in order, and `fs.Args()`.
  given : List (Bytes × Bytes) → List Bytes → Parsed
  -- The process exits, with this code.
  exits : ℕ → Parsed

-- An argument: no flag, the end of the flags, a syntax error, or a flag with its `=value`.
pub data Argument : Type 0 where
  plain last broken : Argument
  flag : Bytes → Option Bytes → Argument

-- The text before the first `=`, and the one behind it.
unfoldable pub cut_value : Bytes → Bytes × Option Bytes
cut_value [] = ([], none)
cut_value (c ∷ s) =
    let (name, value) = cut_value s in if c == b'=' then ([], some s) else (c ∷ name, value)

abbrev pub named : Bytes → Argument
named [] = broken
named (c ∷ s) =
    if c == b'-' || c == b'=' then broken else flag (c ∷ (cut_value s).0) (cut_value s).1

abbrev dashes : ℕ → Bytes → Argument
dashes c s = if c == b'-' then elim s [ [] ↦ last | d ∷ s ↦ named (d ∷ s) ] else named (c ∷ s)

unfoldable pub classify : Bytes → Argument
unfolding cut_value
classify [] = plain
classify (c ∷ []) = plain
classify (c ∷ (d ∷ s)) = if c == b'-' then dashes d s else plain

-- `strconv.ParseBool`
unfoldable pub parse_bool : Bytes → Option Bool
parse_bool v =
    if equal v (codes "1")
      || equal v (codes "t")
      || equal v (codes "T")
      || equal v (codes "true")
      || equal v (codes "TRUE")
      || equal v (codes "True")
    then some true
    else if equal v (codes "0")
        || equal v (codes "f")
        || equal v (codes "F")
        || equal v (codes "false")
        || equal v (codes "FALSE")
        || equal v (codes "False")
    then some false
    else none

abbrev pub also : Bytes → Bytes → Parsed → Parsed
also name value (given set_ rest) = given ((name, value) ∷ set_) rest
also name value (exits code) = exits code

abbrev pub switched : Bytes → Bytes → Option Bool → Parsed → Parsed
switched name value none later = exits 2
switched name value (some b) later = also name value later

-- `later` is what the next arguments give, and `given_next` what they give as the value of a flag.
abbrev pub at_flag : Bytes → Option Bytes → Option Kind → Parsed → (Bytes → Parsed) → Parsed
at_flag name value none later given_next =
    if equal name (codes "help") || equal name (codes "h") then exits 0 else exits 2
at_flag name none (some switch) later given_next = also name (codes "true") later
at_flag name (some v) (some switch) later given_next = switched name v (parse_bool v) later
at_flag name none (some string) later given_next = given_next name
at_flag name (some v) (some string) later given_next = also name v later

module _ (formal : Bytes → Option Kind) where
  abbrev pub at_argument : Argument → List Bytes → List Bytes → Parsed → (Bytes → Parsed) → Parsed
  at_argument plain here behind later given_next = given [] here
  at_argument last here behind later given_next = given [] behind
  at_argument broken here behind later given_next = exits 2
  at_argument (flag name value) here behind later given_next =
      at_flag name value (formal name) later given_next

  -- The first argument is the name of a flag that waits for its value.
  unfoldable pub parse_from : Option Bytes → List Bytes → Parsed
  unfolding classify parse_bool
  parse_from none [] = given [] []
  parse_from (some name) [] = exits 2
  parse_from (some name) (a ∷ args) = also name a (parse_from none args)
  parse_from none (a ∷ args) =
      at_argument (classify a) (a ∷ args) args (parse_from none args)
        (λ name. parse_from (some name) args)

-- The value of a flag: the last one that was set, or the default.
unfoldable pub value_of : Bytes → Bytes → List (Bytes × Bytes) → Bytes
value_of name default [] = default
value_of name default ((n, v) ∷ set_) = value_of name (if equal n name then v else default) set_

abbrev is_true : Option Bool → Bool
is_true (some true) = true
is_true _ = false

abbrev pub is_set : Bytes → List (Bytes × Bytes) → Bool
is_set name set_ = is_true (parse_bool (value_of name (codes "false") set_))
