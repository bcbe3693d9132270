-- ===== src/Common/Text/Search.antt =====
-- `bytes.Contains`, `strings.Index` and `bytes.ReplaceAll` (for a text that is not empty).
use Prim.Native.Nat.{ℕ, zero, suc, ◌-◌}
use mathlib.Core.Bool.{Bool, true, false, ◌||◌}
use mathlib.Core.List.{[], ◌∷◌, ◌++◌}
use mathlib.Core.Option.{Option, none, some}
use localhoist.Common.Tests.{if◌then◌else◌}
use localhoist.Common.Lists.{length, drop}
use localhoist.Common.Equality.{Bytes}
use localhoist.Common.Text.Affix.{has_prefix}

unfoldable pub contains : Bytes → Bytes → Bool
contains [] sub = has_prefix [] sub
contains (c ∷ s) sub = has_prefix (c ∷ s) sub || contains s sub

-- What follows the first occurrence; `none` where there is none.
unfoldable pub after_first : Bytes → Bytes → Option Bytes
after_first sub [] = if has_prefix [] sub then some [] else none
after_first sub (c ∷ s) =
    let rest = after_first sub s in
    if has_prefix (c ∷ s) sub then some (drop (length sub) (c ∷ s)) else rest

-- The first argument counts the bytes of a match that are still to be passed over.
unfoldable pub replace_from : ℕ → Bytes → Bytes → Bytes → Bytes
replace_from skip old new [] = []
replace_from (suc skip) old new (c ∷ s) = replace_from skip old new s
replace_from zero old new (c ∷ s) = elim (has_prefix (c ∷ s) old) [
  | true ↦ new ++ replace_from (length old - 1) old new s
  | false ↦ c ∷ replace_from zero old new s
]

unfoldable pub replace_all : Bytes → Bytes → Bytes → Bytes
replace_all s old new = replace_from zero old new s
