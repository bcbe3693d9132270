-- ===== src/Common/Text/Split.antt =====
-- `strings.Split` by one byte and `strings.Join` by one byte, which undo one another.
use Prim.Native.Nat.{ℕ}
use mathlib.Core.Path.{◌≡◌, refl, ap, ◌∙◌}
use mathlib.Core.Logic.{◌≢◌, inl, inr}
use mathlib.Core.Bool.{Bool, true, false, not}
use mathlib.Core.List.{List, [], ◌∷◌, ◌++◌}
use native.Mathlib.Omega.{arith}
use localhoist.Common.Tests.{◌==◌, if◌then◌else◌, Bool-cases}
use localhoist.Common.Lists.{all, All}
use localhoist.Common.Equality.{Bytes}

-- Puts a byte in front of the first piece.
abbrev cons_head : ℕ → List Bytes → List Bytes
cons_head c [] = (c ∷ []) ∷ []
cons_head c (p ∷ ps) = (c ∷ p) ∷ ps

unfoldable pub split : ℕ → Bytes → List Bytes
split sep [] = [] ∷ []
split sep (c ∷ s) = let rest = split sep s in if c == sep then [] ∷ rest else cons_head c rest

unfoldable pub join : ℕ → List Bytes → Bytes
join sep [] = []
join sep (p ∷ []) = p
join sep (p ∷ q ∷ ps) = p ++ (sep ∷ join sep (q ∷ ps))

-- No byte of the text is the separator.
unfoldable pub lacks : ℕ → Bytes → Bool
lacks sep = all (λ c. not (c == sep))

pub split-ne-nil : (sep : ℕ) (s : Bytes) → split sep s ≢ []
unfolding split
split-ne-nil sep [] h = cc
split-ne-nil sep (c ∷ s) h = ground (arith, split-ne-nil sep s)

join-cons_head :
    (sep c : ℕ) (ps : List Bytes) → ps ≢ [] → join sep (cons_head c ps) ≡ c ∷ join sep ps
unfolding join
join-cons_head sep c [] h = absurd (h refl)
join-cons_head sep c (p ∷ []) h = refl
join-cons_head sep c (p ∷ q ∷ ps) h = refl

join-nil_cons : (sep : ℕ) (ps : List Bytes) → ps ≢ [] → join sep ([] ∷ ps) ≡ sep ∷ join sep ps
unfolding join
join-nil_cons sep [] h = absurd (h refl)
join-nil_cons sep (p ∷ ps) h = refl

pub join-split : (sep : ℕ) (s : Bytes) → join sep (split sep s) ≡ s
unfolding split
join-split sep [] = unfold join in refl
join-split sep (c ∷ s) = ground (
  arith,
  join-split sep s,
  split-ne-nil sep s,
  join-cons_head sep c (split sep s),
  join-nil_cons sep (split sep s),
)

pub lacks-append :
    (sep : ℕ) (a b : Bytes) → lacks sep a ≡ true → lacks sep b ≡ true → lacks sep (a ++ b) ≡ true
unfolding lacks
lacks-append sep [] b h g = g
lacks-append sep (c ∷ a) b h g = ground (arith, lacks-append sep a b)

pub split-lacks : (sep : ℕ) (p : Bytes) → lacks sep p ≡ true → split sep p ≡ p ∷ []
unfolding split lacks
split-lacks sep [] h = refl
split-lacks sep (c ∷ p) h = ground (arith, split-lacks sep p)

pub split-append :
    (sep : ℕ) (p rest : Bytes)
    → lacks sep p ≡ true
    → split sep (p ++ (sep ∷ rest)) ≡ p ∷ split sep rest
unfolding split lacks
split-append sep [] rest h = ground arith
split-append sep (c ∷ p) rest h = ground (arith, split-append sep p rest)

pub split-join :
    (sep : ℕ) (ps : List Bytes)
    → ps ≢ []
    → All (λ p. lacks sep p ≡ true) ps
    → split sep (join sep ps) ≡ ps
unfolding join
split-join sep [] ne h = absurd (ne refl)
split-join sep (p ∷ []) ne h = split-lacks sep p h.0
split-join sep (p ∷ q ∷ ps) ne h =
    split-append sep p (join sep (q ∷ ps)) h.0 ∙ ap (◌∷◌ p) (split-join sep (q ∷ ps) (λ e. cc) h.1)

cons_head-All-lacks :
    (sep c : ℕ) (ps : List Bytes)
    → (c == sep) ≡ false
    → All (λ p. lacks sep p ≡ true) ps
    → All (λ p. lacks sep p ≡ true) (cons_head c ps)
unfolding lacks
cons_head-All-lacks sep c [] e h = ground arith
cons_head-All-lacks sep c (p ∷ ps) e h = ground arith

pub split-All-lacks : (sep : ℕ) (s : Bytes) → All (λ p. lacks sep p ≡ true) (split sep s)
unfolding split lacks
split-All-lacks sep [] = (refl, tt)
split-All-lacks sep (c ∷ s) = elim (Bool-cases (c == sep)) [
  | inl same ↦ rw same (refl, split-All-lacks sep s)
  | inr other ↦ rw other (cons_head-All-lacks sep c (split sep s) other (split-All-lacks sep s))
]
