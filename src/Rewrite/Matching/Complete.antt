-- ===== src/Rewrite/Matching/Complete.antt =====
-- The matcher misses nothing: the length of the text is fuel enough.
use localhoist.Common.{
  ℕ, zero, suc, ◌≤◌, ◌<◌, ◌⊎◌, ◌≡◌, refl, ap, ◌∙◌, Bool, true, List, [], ◌∷◌, ◌++◌, Bytes, length,
  append_assoc, length-append, arith, ltb, inl, inr,
}
use localhoist.Rewrite.Matching.{
  Regex, one, empty, seq, alt, star, one_rest, rests_all, star_rests, rests,
}
use localhoist.Rewrite.Matching.Sound.{Derives, byte, nothing, both, left, right, stop, round}

abbrev pub Has : Bytes → List Bytes → Type 0
Has t [] = ⊥
Has t (s ∷ ss) = (s ≡ t) ⊎ Has t ss

Has-left : (t : Bytes) (xs ys : List Bytes) → Has t xs → Has t (xs ++ ys)
Has-left t [] ys h = elim h [ ]
Has-left t (x ∷ xs) ys (inl e) = inl e
Has-left t (x ∷ xs) ys (inr h) = inr (Has-left t xs ys h)

Has-right : (t : Bytes) (xs ys : List Bytes) → Has t ys → Has t (xs ++ ys)
Has-right t [] ys h = h
Has-right t (x ∷ xs) ys h = inr (Has-right t xs ys h)

Has-rests_all :
    (f : Bytes → List Bytes) (u t : Bytes) (ss : List Bytes)
    → Has u ss
    → Has t (f u)
    → Has t (rests_all f ss)
unfolding rests_all
Has-rests_all f u t [] at h = elim at [ ]
Has-rests_all f u t (s ∷ ss) (inl e) h = Has-left t (f s) _ (rw e h)
Has-rests_all f u t (s ∷ ss) (inr at) h = Has-right t (f s) _ (Has-rests_all f u t ss at h)

-- A matcher that finds every text of a pattern.
abbrev Finds : Regex → (Bytes → List Bytes) → Type 0
Finds r f = (s t m : Bytes) → Derives r m → s ≡ m ++ t → Has t (f s)

one_rest-Has : (p : ℕ → Bool) → Finds (one p) (one_rest p)
one_rest-Has p s t m (byte c good) e = rw (e, good) (inl refl)

joined :
    (c : ℕ) (a b t : Bytes) {m s : Bytes} → m ≡ (c ∷ a) ++ b → s ≡ m ++ t → s ≡ (c ∷ a) ++ (b ++ t)
joined c a b t split e = e ∙ ap (λ k. k ++ t) split ∙ append_assoc (c ∷ a) b t

ltb_less : (m n : ℕ) → m < n → ltb m n ≡ true
ltb_less m n h = ground arith

star_rests-Has :
    (r : Regex) (f : Bytes → List Bytes)
    → Finds r f
    → (fuel : ℕ) (s t m : Bytes) → length s ≤ fuel
    → Derives (star r) m
    → s ≡ m ++ t
    → Has t (star_rests f fuel s)
unfolding star_rests
star_rests-Has r f finds zero s t m enough stop e = inl e
star_rests-Has r f finds (suc fuel) s t m enough stop e = Has-right t _ (s ∷ []) (inl e)
star_rests-Has r f finds fuel s t m enough (round [] b split first later) e =
    star_rests-Has r f finds fuel s t b enough later (e ∙ ap (λ k. k ++ t) split)
star_rests-Has r f finds zero s t m enough (round (c ∷ a) b split first later) e =
    let longer = ap length (joined c a b t split e) in absurd (omega arith)
star_rests-Has r f finds (suc fuel) s t m enough (round (c ∷ a) b split first later) e =
    let whole = joined c a b t split e in
    let less : length (b ++ t) < length s =
      let sizes = ap length whole in let sum = length-append a (b ++ t) in omega arith in
    Has-left t _ (s ∷ []) (
      Has-rests_all _ (b ++ t) t (f s) (finds s (b ++ t) (c ∷ a) first whole) (
        rw (ltb_less (length (b ++ t)) (length s) less)
          (star_rests-Has r f finds fuel (b ++ t) t b (omega arith) later refl)))

-- The matcher finds what is behind each text of the pattern that stands in front.
pub rests-Has : (r : Regex) → Finds r (rests r)
unfolding rests
rests-Has (one p) s t m d e = one_rest-Has p s t m d e
rests-Has empty s t m nothing e = inl e
rests-Has (seq r q) s t m (both a b split first second) e =
    Has-rests_all (rests q) (b ++ t) t (rests r s)
      (rests-Has r s (b ++ t) a first (e ∙ ap (λ k. k ++ t) split ∙ append_assoc a b t))
      (rests-Has q (b ++ t) t b second refl)
rests-Has (alt r q) s t m (left d) e = Has-left t (rests r s) (rests q s) (rests-Has r s t m d e)
rests-Has (alt r q) s t m (right d) e = Has-right t (rests r s) (rests q s) (rests-Has q s t m d e)
rests-Has (star r) s t m d e =
    star_rests-Has r (rests r) (rests-Has r) (length s) s t m (omega arith) d e
