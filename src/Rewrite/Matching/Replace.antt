-- ===== src/Rewrite/Matching/Replace.antt =====
-- `ReplaceAll` of a pattern against what it changes.
use mathlib.Core.Path.{subst}
use localhoist.Common.{
  ℕ, zero, suc, ◌-◌, ◌<◌, ◌≤◌, ◌≡◌, ◌≢◌, refl, sym, ap, ◌∙◌, Option, none, some, List, [], ◌∷◌,
  ◌++◌, Bytes, All, length, drop, drop-append, append_assoc, length-append, arith, Option-cases,
  inl, inr,
}
use localhoist.Rewrite.Matching.{
  Pattern, Match, Regex, rests, front, first_some, match_here, replace_matches, replace_all_matches,
}
use localhoist.Rewrite.Matching.Sound.{Derives, IsRest, rests-IsRest, front-append}

-- A match of a pattern in front of `s`: its three groups, in their places.
pub record IsMatch (p : Pattern) (s : Bytes) (m : Match) : Type 0 where
  pub whole : s ≡ m.before ++ (m.literal ++ (m.behind ++ m.rest))
  pub before : Derives p.before m.before
  pub literal : Derives p.literal m.literal
  pub behind : Derives p.behind m.behind

-- `out` is `s` with some matches of the pattern put as `f` says, and all else as it was.
pub data IsRewritten (p : Pattern) (f : Match → Bytes) : Bytes → Bytes → Type 0 where
  finished : IsRewritten p f [] []
  kept :
      {s out : Bytes} (c : ℕ)
      → match_here p (c ∷ s) ≡ none
      → IsRewritten p f s out
      → IsRewritten p f (c ∷ s) (c ∷ out)
  changed :
      {s out : Bytes} (m : Match)
      → IsMatch p s m
      → IsRewritten p f m.rest out
      → IsRewritten p f s (f m ++ out)

some_of_first :
    {A : Type 0} (P : Bytes → Type 0) (f : Bytes → Option A) (xs : List Bytes) {b : A}
    → All P xs
    → first_some f xs ≡ some b
    → (x : Bytes) × P x × (f x ≡ some b)
unfolding first_some
some_of_first P f [] h e = cc
some_of_first P f (x ∷ xs) h e = elim (Option-cases (f x)) [
  | inl missed ↦ some_of_first P f xs h.1 (let k = rw (missed, first_some) at e in k)
  | inr (b, hit) ↦ (x, h.0, hit ∙ (let k = rw (hit, first_some) at e in k))
]

front_of_rest :
    (r : Regex) (s rest : Bytes)
    → IsRest r s rest
    → (s ≡ front s rest ++ rest) × Derives r (front s rest)
front_of_rest r s rest (m, e, d) =
    let same : front s rest ≡ m = ap (λ t. front t rest) e ∙ front-append m rest in
    (e ∙ ap (λ t. t ++ rest) (sym same), rw same d)

-- The three nested choices of `match_here`.
abbrev third : Bytes → Bytes → Bytes → Bytes → Option Match
third s r1 r2 r3 =
    some (record { before = front s r1; literal = front r1 r2; behind = front r2 r3; rest = r3 })

abbrev second : Pattern → Bytes → Bytes → Bytes → Option Match
second p s r1 r2 = first_some (λ r3. third s r1 r2 r3) (rests p.behind r2)

abbrev first : Pattern → Bytes → Bytes → Option Match
first p s r1 = first_some (λ r2. second p s r1 r2) (rests p.literal r1)

pub match_here-IsMatch :
    (p : Pattern) (s : Bytes) {m : Match} → match_here p s ≡ some m → IsMatch p s m
unfolding match_here
match_here-IsMatch p s {m} e =
    let (r1, h1, e1) =
      some_of_first (IsRest p.before s) (first p s) (rests p.before s) (rests-IsRest p.before s)
        e in
    let (r2, h2, e2) =
      some_of_first (IsRest p.literal r1) (second p s r1) (rests p.literal r1)
        (rests-IsRest p.literal r1) e1 in
    let (r3, h3, e3) =
      some_of_first (IsRest p.behind r2) (third s r1 r2) (rests p.behind r2)
        (rests-IsRest p.behind r2) e2 in
    let (s1, d1) = front_of_rest p.before s r1 h1 in
    let (s2, d2) = front_of_rest p.literal r1 r2 h2 in
    let (s3, d3) = front_of_rest p.behind r2 r3 h3 in
    let found : Match = record {
      before = front s r1;
      literal = front r1 r2;
      behind = front r2 r3;
      rest = r3;
    } in
    let same : found ≡ m = cc in
    subst (IsMatch p s) same (record {
      whole = s1 ∙ ap (◌++◌ (front s r1)) (s2 ∙ ap (◌++◌ (front r1 r2)) s3);
      before = d1;
      literal = d2;
      behind = d3;
    })

module _ (p : Pattern) (f : Match → Bytes) (solid : (b : Bytes) → Derives p.before b → b ≢ []) where
  replace_matches-drop :
      (k : ℕ) (s : Bytes) → replace_matches k p f s ≡ replace_matches zero p f (drop k s)
  unfolding replace_matches
  replace_matches-drop zero s = refl
  replace_matches-drop (suc k) [] = refl
  replace_matches-drop (suc k) (c ∷ s) = replace_matches-drop k s

  -- The text behind a match is that behind the bytes that are passed over.
  rest_of_match :
      (c : ℕ) (s a rest : Bytes)
      → a ≢ []
      → c ∷ s ≡ a ++ rest
      → (drop (length s - length rest) s ≡ rest) × (length rest ≤ length s)
  rest_of_match c s [] rest ne e = absurd (ne refl)
  rest_of_match c s (d ∷ a) rest ne e =
      let tail : s ≡ a ++ rest = cc in
      let n : length (a ++ rest) - length rest ≡ length a = omega (arith, length-append a rest) in
      rw tail
        (ap (λ k. drop k (a ++ rest)) n ∙ drop-append a rest, omega (arith, length-append a rest))

  append-ne-nil : (a b : Bytes) → a ≢ [] → a ++ b ≢ []
  append-ne-nil [] b ne e = ne refl
  append-ne-nil (c ∷ a) b ne e = cc

  after_match :
      (c : ℕ) (s : Bytes) (m : Match)
      → IsMatch p (c ∷ s) m
      → (drop (length s - length m.rest) s ≡ m.rest) × (length m.rest ≤ length s)
  after_match c s m h =
      rest_of_match c s (m.before ++ (m.literal ++ m.behind)) m.rest
        (append-ne-nil m.before (m.literal ++ m.behind) (solid m.before h.before))
        (h.whole
          ∙ sym (
              append_assoc m.before (m.literal ++ m.behind) m.rest
              ∙ ap (◌++◌ m.before) (append_assoc m.literal m.behind m.rest)))

  replace_matches_at :
      (c : ℕ) (s : Bytes) (found : Option Match)
      → match_here p (c ∷ s) ≡ found
      → replace_matches zero p f (c ∷ s) ≡ elim found [
        | some m ↦ f m ++ replace_matches (length s - length m.rest) p f s
        | none ↦ c ∷ replace_matches zero p f s
      ]
  unfolding replace_matches
  replace_matches_at c s found e = rw (e, replace_matches) refl

  replace_matches-IsRewritten :
      (fuel : ℕ) (s : Bytes) → length s < fuel → IsRewritten p f s (replace_matches zero p f s)
  replace_matches-IsRewritten zero s h = elim h [ ]
  replace_matches-IsRewritten (suc fuel) [] h = unfold replace_matches in finished
  replace_matches-IsRewritten (suc fuel) (c ∷ s) h = elim (Option-cases (match_here p (c ∷ s))) [
    | inl missed ↦
        rw (replace_matches_at c s none missed)
          (kept c missed (replace_matches-IsRewritten fuel s (omega arith)))
    | inr (m, hit) ↦
        let is_match = match_here-IsMatch p (c ∷ s) hit in
        let (rest, less) = after_match c s m is_match in
        rw
          (
            replace_matches_at c s (some m) hit,
            replace_matches-drop (length s - length m.rest) s,
            rest,
          )
          (changed m is_match (replace_matches-IsRewritten fuel m.rest (omega arith)))
  ]

  -- `ReplaceAll` goes through the text once, from the left: it puts each match in its place as `f`
  -- says, goes on behind it, and keeps each byte at which none begins. The pattern's first group is
  -- never empty.
  pub replace_all_matches-IsRewritten : (s : Bytes) → IsRewritten p f s (replace_all_matches p f s)
  unfolding replace_all_matches
  replace_all_matches-IsRewritten s = replace_matches-IsRewritten (suc (length s)) s (omega arith)
