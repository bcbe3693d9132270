-- ===== src/Common/Text/Space.antt =====
-- `strings.TrimSpace`: the characters of `unicode.IsSpace`, in UTF-8.
use Prim.Native.Nat.{ℕ, zero, suc}
use mathlib.Core.List.{List, [], ◌∷◌, ◌++◌, map, reverse}
use mathlib.Core.Option.{Option, none, some}
use localhoist.Common.Tests.{if◌then◌else◌}
use localhoist.Common.Lists.{length, drop}
use localhoist.Common.Equality.{Bytes}
use localhoist.Common.Text.Affix.{has_prefix}

-- U+2000 to U+200A, U+2028, U+2029 and U+202F.
abbrev general_spaces : List ℕ
general_spaces =
    128 ∷ 129 ∷ 130 ∷ 131 ∷ 132 ∷ 133 ∷ 134 ∷ 135 ∷ 136 ∷ 137 ∷ 138 ∷ 168 ∷ 169 ∷ 175 ∷ []

-- Tab to carriage return and the space, U+0085, U+00A0, U+1680, those above, U+205F, U+3000.
abbrev spaces : List Bytes
spaces =
    map (λ (c : ℕ). c ∷ []) (9 ∷ 10 ∷ 11 ∷ 12 ∷ 13 ∷ 32 ∷ [])
    ++ (194 ∷ 133 ∷ [])
      ∷ (194 ∷ 160 ∷ [])
      ∷ (225 ∷ 154 ∷ 128 ∷ [])
      ∷ (226 ∷ 129 ∷ 159 ∷ [])
      ∷ (227 ∷ 128 ∷ 128 ∷ [])
      ∷ map (λ (c : ℕ). 226 ∷ 128 ∷ c ∷ []) general_spaces

-- What is left behind the first of the texts that stands in front.
pub drop_one_of : List Bytes → Bytes → Option Bytes
unfolding has_prefix
drop_one_of [] s = none
drop_one_of (p ∷ ps) s = if has_prefix s p then some (drop (length p) s) else drop_one_of ps s

pub strip : ℕ → List Bytes → Bytes → Bytes
strip zero ps s = s
strip (suc fuel) ps s = elim (drop_one_of ps s) [ none ↦ s | some rest ↦ strip fuel ps rest ]

-- Each round takes a byte or more, so the length of the text is fuel enough.
unfoldable pub trim_left : List Bytes → Bytes → Bytes
unfolding strip drop_one_of
trim_left ps s = strip (length s) ps s

unfoldable pub trim_space : Bytes → Bytes
unfolding trim_left
trim_space s = reverse (trim_left (map reverse spaces) (reverse (trim_left spaces s)))
