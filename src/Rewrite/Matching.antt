-- ===== src/Rewrite/Matching.antt =====
-- The part of Go's `regexp` that the patterns use. A match is the leftmost one, and of those the
-- first in the order of preference: the left side of an alternative, and the longer repetition.
pub mod Sound
pub mod Complete
pub mod Replace
use Prim.Native.Nat.{ℕ, zero, suc, ◌-◌}
use localhoist.Common.{
  Bool, true, false, ◌||◌, Option, none, some, List, [], ◌∷◌, ◌++◌, Bytes, ◌==◌, ltb, if◌then◌else◌,
  length, take,
}

pub data Regex : Type 0 where
  one : (ℕ → Bool) → Regex
  empty : Regex
  seq : Regex → Regex → Regex
  alt : Regex → Regex → Regex
  star : Regex → Regex

-- `\s`
abbrev pub is_space : ℕ → Bool
is_space c = c == 9 || c == 10 || c == 12 || c == 13 || c == 32

abbrev pub text : Bytes → Regex
text [] = empty
text (c ∷ s) = seq (one (λ d. d == c)) (text s)

abbrev pub plus : Regex → Regex
plus r = seq r (star r)

abbrev one_rest : (ℕ → Bool) → Bytes → List Bytes
one_rest p [] = []
one_rest p (c ∷ s) = if p c then s ∷ [] else []

-- The rests behind each of the texts that stand in front.
pub rests_all : (Bytes → List Bytes) → List Bytes → List Bytes
rests_all f [] = []
rests_all f (s ∷ ss) = f s ++ rests_all f ss

-- The rests of a repetition, the longest repetition first; a round that takes nothing ends it.
pub star_rests : (Bytes → List Bytes) → ℕ → Bytes → List Bytes
unfolding rests_all
star_rests f zero s = s ∷ []
star_rests f (suc fuel) s =
    rests_all (λ r. elim (ltb (length r) (length s)) [ true ↦ star_rests f fuel r | false ↦ [] ])
      (f s)
    ++ s ∷ []

-- What can be left of a text behind a match in its front, in the order of preference. A round of a
-- repetition takes a byte or more, so the length is fuel enough.
unfoldable pub rests : Regex → Bytes → List Bytes
unfolding rests_all star_rests
rests (one p) s = one_rest p s
rests empty s = s ∷ []
rests (seq r q) s = rests_all (rests q) (rests r s)
rests (alt r q) s = rests r s ++ rests q s
rests (star r) s = star_rests (rests r) (length s) s

-- A pattern of three groups, and a match of it with the text behind the match.
pub record Pattern : Type 0 where
  pub before : Regex
  pub literal : Regex
  pub behind : Regex

pub record Match : Type 0 where
  pub before : Bytes
  pub literal : Bytes
  pub behind : Bytes
  pub rest : Bytes

-- The front of a text whose end is known.
abbrev pub front : Bytes → Bytes → Bytes
front s rest = take (length s - length rest) s

pub first_some {ℓ κ} : {A : Type ℓ} {B : Type κ} → (A → Option B) → List A → Option B
first_some f [] = none
first_some f (a ∷ rest) = elim (f a) [ some b ↦ some b | none ↦ first_some f rest ]

unfoldable pub match_here : Pattern → Bytes → Option Match
unfolding first_some rests
match_here p s =
    first_some
      (λ r1.
        first_some
          (λ r2.
            first_some
              (λ r3. some (record {
                before = front s r1;
                literal = front r1 r2;
                behind = front r2 r3;
                rest = r3;
              }))
              (rests p.behind r2))
          (rests p.literal r1))
      (rests p.before s)

-- `Match`
unfoldable pub is_matched : Pattern → Bytes → Bool
unfolding match_here
is_matched p [] = false
is_matched p (c ∷ s) = elim (match_here p (c ∷ s)) [ some m ↦ true | none ↦ is_matched p s ]

-- The first argument counts the bytes of a match that are still to be passed over.
unfoldable pub replace_matches : ℕ → Pattern → (Match → Bytes) → Bytes → Bytes
unfolding match_here
replace_matches skip p f [] = []
replace_matches (suc skip) p f (c ∷ s) = replace_matches skip p f s
replace_matches zero p f (c ∷ s) = elim (match_here p (c ∷ s)) [
  | some m ↦ f m ++ replace_matches (length s - length m.rest) p f s
  | none ↦ c ∷ replace_matches zero p f s
]

-- `ReplaceAll` and `ReplaceAllFunc`, for patterns that match no empty text.
unfoldable pub replace_all_matches : Pattern → (Match → Bytes) → Bytes → Bytes
unfolding replace_matches
replace_all_matches p f s = replace_matches zero p f s
