-- ===== src/Common/Text/Affix.antt =====
-- `strings.HasPrefix`, `TrimPrefix`, `HasSuffix`, `TrimSuffix`.
use mathlib.Core.Path.{◌≡◌, refl, sym, ap, ◌∙◌}
use mathlib.Core.Bool.{Bool, true, false, ◌&&◌}
use mathlib.Core.List.{[], ◌∷◌, ◌++◌, reverse, reverse-append, reverse-reverse, reverse-cons}
use native.Mathlib.Omega.{arith}
use localhoist.Common.Tests.{◌==◌, if◌then◌else◌}
use localhoist.Common.Lists.{length, drop, drop-append, length-append}
use localhoist.Common.Equality.{Bytes}

unfoldable pub has_prefix : Bytes → Bytes → Bool
has_prefix s [] = true
has_prefix [] (p ∷ ps) = false
has_prefix (c ∷ s) (p ∷ ps) = c == p && has_prefix s ps

unfoldable pub trim_prefix : Bytes → Bytes → Bytes
trim_prefix s p = if has_prefix s p then drop (length p) s else s

unfoldable pub has_suffix : Bytes → Bytes → Bool
has_suffix s p = has_prefix (reverse s) (reverse p)

unfoldable pub trim_suffix : Bytes → Bytes → Bytes
trim_suffix s p = if has_suffix s p then reverse (drop (length p) (reverse s)) else s

pub has_prefix-append : (p s : Bytes) → has_prefix (p ++ s) p ≡ true
unfolding has_prefix
has_prefix-append [] s = refl
has_prefix-append (c ∷ p) s = ground (arith, has_prefix-append p s)

-- A text with the prefix is the prefix and what `drop` leaves.
pub append-drop_of_prefix : (s p : Bytes) → has_prefix s p ≡ true → p ++ drop (length p) s ≡ s
unfolding has_prefix
append-drop_of_prefix s [] h = refl
append-drop_of_prefix [] (p ∷ ps) h = cc
append-drop_of_prefix (c ∷ s) (p ∷ ps) h = ground (arith, append-drop_of_prefix s ps)

pub trim_prefix-append : (p s : Bytes) → trim_prefix (p ++ s) p ≡ s
unfolding trim_prefix
trim_prefix-append p s = rw has_prefix-append (drop-append p s)

pub append-trim_prefix : (s p : Bytes) → has_prefix s p ≡ true → p ++ trim_prefix s p ≡ s
unfolding trim_prefix
append-trim_prefix s p h = rw h (append-drop_of_prefix s p h)

pub has_suffix-append : (s p : Bytes) → has_suffix (s ++ p) p ≡ true
unfolding has_suffix
has_suffix-append s p = rw reverse-append (has_prefix-append (reverse p) (reverse s))

length-reverse : (s : Bytes) → length (reverse s) ≡ length s
length-reverse [] = refl
length-reverse (c ∷ s) =
    ap length (reverse-cons c s)
    ∙ length-append (reverse s) (c ∷ [])
    ∙ omega (arith, length-reverse s)

-- A text with the suffix is what `trim_suffix` leaves, and the suffix.
pub trim_suffix-append : (s p : Bytes) → has_suffix s p ≡ true → trim_suffix s p ++ p ≡ s
unfolding trim_suffix has_suffix
trim_suffix-append s p h =
    let front = drop (length p) (reverse s) in
    let whole : reverse p ++ front ≡ reverse s =
      rw (length-reverse p) at (append-drop_of_prefix (reverse s) (reverse p) h) in
    rw h (
      ap (λ q. reverse front ++ q) (sym (reverse-reverse p))
      ∙ sym (reverse-append (reverse p) front)
      ∙ ap reverse whole
      ∙ reverse-reverse s)

pub trim_suffix_other : (s p : Bytes) → has_suffix s p ≡ false → trim_suffix s p ≡ s
unfolding trim_suffix
trim_suffix_other s p h = rw h refl

pub trim_suffix_append : (s p : Bytes) → trim_suffix (s ++ p) p ≡ s
unfolding trim_suffix
trim_suffix_append s p =
    let back : drop (length p) (reverse p ++ reverse s) ≡ reverse s =
      rw (length-reverse p) at (drop-append (reverse p) (reverse s)) in
    rw has_suffix-append (
      ap (λ q. reverse (drop (length p) q)) (reverse-append s p)
      ∙ ap reverse back
      ∙ reverse-reverse s)
