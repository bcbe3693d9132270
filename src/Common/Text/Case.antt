-- ===== src/Common/Text/Case.antt =====
-- `strings.ToLower`, as far as ASCII letters come out of it.
use localhoist.Common.Tests.{leb, if◌then◌else◌}
use localhoist.Common.Equality.{Bytes, codes}
use localhoist.Common.Text.Search.{replace_all}
use Prim.Native.Nat.{ℕ, ◌+◌}
use mathlib.Core.Bool.{◌&&◌}
use mathlib.Core.List.{[], ◌∷◌, map}

abbrev lower : ℕ → ℕ
lower c = if leb b'A' c && leb c b'Z' then c + 32 else c

-- The Kelvin sign and the capital I with a dot are the two characters beyond ASCII whose small
-- letters are in it.
unfoldable pub to_lower : Bytes → Bytes
to_lower s =
    map lower
      (replace_all (replace_all s (226 ∷ 132 ∷ 170 ∷ []) (codes "k")) (196 ∷ 176 ∷ []) (codes "i"))
