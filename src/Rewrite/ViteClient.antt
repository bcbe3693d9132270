-- ===== src/Rewrite/ViteClient.antt =====
-- `ViteClient`: what it changes in the text of Vite's client.
use localhoist.Common.{
  ℕ, ◌≡◌, ◌≢◌, refl, sym, ap, ◌∙◌, Bool, true, false, ◌||◌, List, [], ◌∷◌, ◌++◌, Bytes, codes, All,
  Bool-cases, Option-cases, inl, inr, ◌⊎◌,
}
use localhoist.Rewrite.Matching.{
  Regex, seq, text, Pattern, Match, is_matched, match_here, replace_all_matches,
}
use localhoist.Rewrite.Matching.Sound.{Derives, both, text-Derives}
use localhoist.Rewrite.Matching.Replace.{
  IsRewritten, finished, kept, replace_all_matches-IsRewritten,
}
use localhoist.Rewrite.{vite_client_lits, to_null, neutralize, vite_client}

-- The text is rewritten for one pattern behind the other.
pub data IsNeutralized : List Pattern → Bytes → Bytes → Type 0 where
  done : {s : Bytes} → IsNeutralized [] s s
  next :
      {re : Pattern} {res : List Pattern} {s out : Bytes} (mid : Bytes)
      → IsRewritten re to_null s mid
      → IsNeutralized res mid out
      → IsNeutralized (re ∷ res) s out

IsSolid : Pattern → Type 0
IsSolid p = (b : Bytes) → Derives p.before b → b ≢ []

solid_text : (c : ℕ) (t b : Bytes) → Derives (text (c ∷ t)) b → b ≢ []
solid_text c t b d empty = apart (sym (text-Derives (c ∷ t) d) ∙ empty)
  where
    apart : (c ∷ t) ≡ [] → ⊥
    apart e = cc

solid_seq : (c : ℕ) (t : Bytes) (r : Regex) (b : Bytes) → Derives (seq (text (c ∷ t)) r) b → b ≢ []
solid_seq c t r b (both x y e d rest) empty =
    apart (sym (e ∙ ap (λ k. k ++ y) (text-Derives (c ∷ t) d)) ∙ empty)
  where
    apart : (c ∷ t) ++ y ≡ [] → ⊥
    apart h = cc

vite_client_lits-IsSolid : All IsSolid vite_client_lits
unfolding IsSolid
vite_client_lits-IsSolid = (
  solid_seq b'c' (codes "onst socketProtocol") _,
  (
    solid_seq b'c' (codes "onst hmrPort") _,
    (solid_text b'$' (codes "{"), (solid_text b'$' (codes "{"), tt)),
  ),
)

unmatched :
    (p : Pattern) (f : Match → Bytes) (s : Bytes) → is_matched p s ≡ false → IsRewritten p f s s
unfolding is_matched
unmatched p f [] h = finished
unmatched p f (c ∷ s) h = elim (Option-cases (match_here p (c ∷ s))) [
  | inl missed ↦ kept c missed (unmatched p f s (let k = rw (missed, is_matched) at h in k))
  | inr (m, hit) ↦ let k = rw (hit, is_matched) at h in cc
]

never : (b : Bool) → (b || true) ≡ false → ⊥
never true h = cc
never false h = cc

was_off : (b : Bool) → (b || false) ≡ false → b ≡ false
was_off true h = h
was_off false h = refl

neutralize-IsNeutralized :
    (res : List Pattern) (body : Bytes) (recognized : Bool)
    → All IsSolid res
    → IsNeutralized res body (neutralize res body recognized).0
      × (((neutralize res body recognized).1 ≡ true)
          ⊎ ((recognized ≡ false) × ((neutralize res body recognized).0 ≡ body)))
unfolding neutralize IsSolid
neutralize-IsNeutralized [] body true solid = (done, inl refl)
neutralize-IsNeutralized [] body false solid = (done, inr (refl, refl))
neutralize-IsNeutralized (re ∷ res) body recognized solid = elim (Bool-cases (is_matched re body)) [
  | inl hit ↦
      let mid = replace_all_matches re to_null body in
      let (rest, flag) = neutralize-IsNeutralized res mid (recognized || true) solid.1 in
      rw (hit, neutralize)
        (
          next mid (replace_all_matches-IsRewritten re to_null solid.0 body) rest,
          inl (elim flag [ inl e ↦ e | inr (off, _) ↦ absurd (never recognized off) ]),
        )
  | inr missed ↦
      let (rest, flag) = neutralize-IsNeutralized res body (recognized || false) solid.1 in
      rw (missed, neutralize)
        (
          next body (unmatched re to_null body missed) rest,
          elim flag [ inl e ↦ inl e | inr (off, same) ↦ inr (was_off recognized off, same) ],
        )
]

-- `ViteClient` goes through the text once for each of the four patterns, in their order: each match
-- gets `null` for its literal and keeps the code before and behind it, and every other byte stays.
-- If it does not report that it recognized the text, then the text is as it was.
pub vite_client-IsNeutralized :
    (body : Bytes)
    → IsNeutralized vite_client_lits body (vite_client body).0
      × (((vite_client body).1 ≡ true) ⊎ ((vite_client body).0 ≡ body))
unfolding vite_client
vite_client-IsNeutralized body =
    let (chain, flag) =
      neutralize-IsNeutralized vite_client_lits body false vite_client_lits-IsSolid in
    (chain, elim flag [ inl e ↦ inl e | inr (_, same) ↦ inr same ])
