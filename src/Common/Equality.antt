-- ===== src/Common/Equality.antt =====
-- Texts as byte lists, as a Go `string` or `[]byte` holds them, and their equality test.
use Prim.Native.Nat.{ℕ}
use Prim.Native.Char.{code}
use Prim.Native.String.{String}
use mathlib.Core.Path.{◌≡◌, refl}
use mathlib.Core.Logic.{◌≢◌, ◌↔◌}
use mathlib.Core.Bool.{Bool, true, false, ◌&&◌}
use mathlib.Core.List.{List, [], ◌∷◌, ◌++◌}
use native.Mathlib.Omega.{arith}
use localhoist.Common.Tests.{◌==◌}

abbrev pub Bytes : Type 0
Bytes = List ℕ

-- The code points of a literal: its bytes, for the ASCII literals that the model writes.
abbrev pub codes : String → Bytes
codes String.[] = []
codes (String.◌∷◌ c s) = code c ∷ codes s

-- `==` on Go strings, `bytes.Equal`
unfoldable pub equal : Bytes → Bytes → Bool
equal (c ∷ s) (d ∷ t) = c == d && equal s t
equal [] [] = true
equal _ _ = false

pub equal_iff : (s t : Bytes) → (equal s t ≡ true) ↔ (s ≡ t)
unfolding equal
equal_iff [] t = ground arith
equal_iff (c ∷ s) [] = ground arith
equal_iff (c ∷ s) (d ∷ t) = ground (arith, equal_iff s t)

pub equal_refl : (a : Bytes) → equal a a ≡ true
equal_refl a = (equal_iff a a).1 refl

pub equal_ne : (a b : Bytes) → a ≢ b → equal a b ≡ false
equal_ne a b h = ground (arith, equal_iff a b)

-- Two texts with a common front are compared behind it.
pub equal-append : (p a b : Bytes) → equal (p ++ a) (p ++ b) ≡ equal a b
unfolding equal
equal-append [] a b = refl
equal-append (c ∷ p) a b = ground (arith, equal-append p a b)

pub equal-append_self : (p : Bytes) (c : ℕ) (a : Bytes) → equal (p ++ c ∷ a) p ≡ false
unfolding equal
equal-append_self [] c a = refl
equal-append_self (x ∷ p) c a = ground (arith, equal-append_self p c a)

pub equal-self_append : (p : Bytes) (c : ℕ) (a : Bytes) → equal p (p ++ c ∷ a) ≡ false
unfolding equal
equal-self_append [] c a = refl
equal-self_append (x ∷ p) c a = ground (arith, equal-self_append p c a)
