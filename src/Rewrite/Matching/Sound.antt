-- ===== src/Rewrite/Matching/Sound.antt =====
-- The matcher against what a text of a pattern is.
use localhoist.Common.{
  ℕ, zero, suc, ◌-◌, ◌≡◌, refl, sym, ap, ◌∙◌, Bool, true, false, List, [], ◌∷◌, ◌++◌, Bytes, All,
  length, take, append_assoc, length-append, arith, ltb, Bool-cases, inl, inr,
}
use localhoist.Common.{==_iff, all}
use localhoist.Rewrite.Matching.{
  text, Regex, one, empty, seq, alt, star, one_rest, rests_all, star_rests, rests, front,
}

-- The texts that a pattern describes.
pub data Derives : Regex → Bytes → Type 0 where
  byte : {p : ℕ → Bool} (c : ℕ) → p c ≡ true → Derives (one p) (c ∷ [])
  nothing : Derives empty []
  both :
      {r q : Regex} {m : Bytes} (a b : Bytes)
      → m ≡ a ++ b
      → Derives r a
      → Derives q b
      → Derives (seq r q) m
  left : {r q : Regex} {m : Bytes} → Derives r m → Derives (alt r q) m
  right : {r q : Regex} {m : Bytes} → Derives q m → Derives (alt r q) m
  stop : {r : Regex} → Derives (star r) []
  round :
      {r : Regex} {m : Bytes} (a b : Bytes)
      → m ≡ a ++ b
      → Derives r a
      → Derives (star r) b
      → Derives (star r) m

-- What is left of `s` behind a text of the pattern in its front.
abbrev pub IsRest : Regex → Bytes → Bytes → Type 0
IsRest r s rest = (m : Bytes) × (s ≡ m ++ rest) × Derives r m

All-append : (P : Bytes → Type 0) (xs ys : List Bytes) → All P xs → All P ys → All P (xs ++ ys)
All-append P [] ys h g = g
All-append P (x ∷ xs) ys h g = (h.0, All-append P xs ys h.1 g)

All-weaken :
    (P Q : Bytes → Type 0) (xs : List Bytes) → ((x : Bytes) → P x → Q x) → All P xs → All Q xs
All-weaken P Q [] f h = tt
All-weaken P Q (x ∷ xs) f h = (f x h.0, All-weaken P Q xs f h.1)

rests_all-All :
    (P Q : Bytes → Type 0) (f : Bytes → List Bytes) (ss : List Bytes)
    → All P ss
    → ((s : Bytes) → P s → All Q (f s))
    → All Q (rests_all f ss)
unfolding rests_all
rests_all-All P Q f [] h g = tt
rests_all-All P Q f (s ∷ ss) h g = All-append Q (f s) _ (g s h.0) (rests_all-All P Q f ss h.1 g)

one_rest-IsRest : (p : ℕ → Bool) (s : Bytes) → All (IsRest (one p) s) (one_rest p s)
one_rest-IsRest p [] = tt
one_rest-IsRest p (c ∷ s) = elim (Bool-cases (p c)) [
  | inl good ↦ rw good ((c ∷ [], refl, byte c good), tt)
  | inr bad ↦ rw bad tt
]

behind :
    (r q : Regex) (s s' rest : Bytes) → IsRest r s s' → IsRest q s' rest → IsRest (seq r q) s rest
behind r q s s' rest (a, e, d) (b, f, d') =
    (a ++ b, e ∙ ap (◌++◌ a) f ∙ sym (append_assoc a b rest), both a b refl d d')

again :
    (r : Regex) (s s' rest : Bytes)
    → IsRest r s s'
    → IsRest (star r) s' rest
    → IsRest (star r) s rest
again r s s' rest (a, e, d) (b, f, d') =
    (a ++ b, e ∙ ap (◌++◌ a) f ∙ sym (append_assoc a b rest), round a b refl d d')

star_rests-IsRest :
    (r : Regex) (f : Bytes → List Bytes) (fuel : ℕ) (s : Bytes)
    → ((t : Bytes) → All (IsRest r t) (f t))
    → All (IsRest (star r) s) (star_rests f fuel s)
unfolding star_rests
star_rests-IsRest r f zero s h = (([], refl, stop), tt)
star_rests-IsRest r f (suc fuel) s h =
    All-append (IsRest (star r) s) _ (s ∷ [])
      (rests_all-All (IsRest r s) (IsRest (star r) s) _ (f s) (h s) (λ t first.
        shorter (λ u. star_rests-IsRest r f fuel u h) t first (ltb (length t) (length s))))
      (([], refl, stop), tt)
  where
    shorter :
        ((u : Bytes) → All (IsRest (star r) u) (star_rests f fuel u))
        → (t : Bytes) → IsRest r s t
        → (b : Bool) → All (IsRest (star r) s) (elim b [ true ↦ star_rests f fuel t | false ↦ [] ])
    shorter ih t first true =
        All-weaken (IsRest (star r) t) (IsRest (star r) s) (star_rests f fuel t)
          (λ rest. again r s t rest first) (ih t)
    shorter ih t first false = tt

-- Every rest that the matcher finds is one behind a text of the pattern.
pub rests-IsRest : (r : Regex) (s : Bytes) → All (IsRest r s) (rests r s)
unfolding rests
rests-IsRest (one p) s = one_rest-IsRest p s
rests-IsRest empty s = (([], refl, nothing), tt)
rests-IsRest (seq r q) s =
    rests_all-All (IsRest r s) (IsRest (seq r q) s) (rests q) (rests r s) (rests-IsRest r s)
      (λ t first.
        All-weaken (IsRest q t) (IsRest (seq r q) s) (rests q t) (λ rest. behind r q s t rest first)
          (rests-IsRest q t))
rests-IsRest (alt r q) s =
    All-append (IsRest (alt r q) s) (rests r s) (rests q s)
      (All-weaken (IsRest r s) (IsRest (alt r q) s) (rests r s) (λ rest h. (h.0, h.1, left h.2))
        (rests-IsRest r s))
      (All-weaken (IsRest q s) (IsRest (alt r q) s) (rests q s) (λ rest h. (h.0, h.1, right h.2))
        (rests-IsRest q s))
rests-IsRest (star r) s = star_rests-IsRest r (rests r) (length s) s (rests-IsRest r)

take-length_append : (m rest : Bytes) → take (length m) (m ++ rest) ≡ m
take-length_append [] [] = refl
take-length_append [] (c ∷ rest) = refl
take-length_append (c ∷ m) rest = ap (◌∷◌ c) (take-length_append m rest)

-- The front of a text before a rest is the text of the pattern.
pub front-append : (m rest : Bytes) → front (m ++ rest) rest ≡ m
front-append m rest =
    let e : length (m ++ rest) - length rest ≡ length m = omega (arith, length-append m rest) in
    ap (λ n. take n (m ++ rest)) e ∙ take-length_append m rest

-- A literal describes itself alone; a repetition of bytes, the texts of such bytes.
pub text-Derives : (t : Bytes) {m : Bytes} → Derives (text t) m → m ≡ t
text-Derives [] nothing = refl
text-Derives (c ∷ t) (both a b e (byte d h) rest) =
    let same : d ≡ c = (==_iff d c).0 h in e ∙ rw (same, text-Derives t rest) refl

pub star-Derives : (p : ℕ → Bool) {m : Bytes} → Derives (star (one p)) m → all p m ≡ true
star-Derives p stop = refl
star-Derives p (round a b e (byte c h) rest) = ap (all p) e ∙ rw (h, star-Derives p rest) refl
