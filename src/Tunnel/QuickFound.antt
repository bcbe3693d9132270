-- ===== src/Tunnel/QuickFound.antt =====
-- internal/tunnel/cloudflare.go: the URL of a quick tunnel is found wherever it stands in a line.
use localhoist.Common.{
  ℕ, ◌≡◌, ◌≢◌, refl, Bool, true, Option, none, List, [], ◌∷◌, ◌++◌, Bytes, codes, all, Option-cases,
  Bool-cases, inl, inr,
}
use localhoist.Common.{==_iff}
use localhoist.Rewrite.Matching.{Regex, one, seq, plus, text, rests}
use localhoist.Rewrite.Matching.Sound.{Derives, byte, nothing, both, stop, round}
use localhoist.Rewrite.Matching.Complete.{Has, rests-Has}
use localhoist.Tunnel.Parse.{
  quick_tunnel_url, find, first_match, is_host_byte, parse_cloudflared_line,
}
use localhoist.Tunnel.QuickUrl.{IsQuickUrl, find-Found, quick_tunnel_url-IsQuickUrl, host_end}

Derives-text : (s : Bytes) → Derives (text s) s
Derives-text [] = nothing
Derives-text (c ∷ s) = both (c ∷ []) s refl (byte c ((==_iff c c).1 refl)) (Derives-text s)

Derives-star :
    (p : ℕ → Bool) (s : Bytes)
    → all p s ≡ true
    → Derives (localhoist.Rewrite.Matching.star (one p)) s
Derives-star p [] h = stop
Derives-star p (c ∷ s) h = elim (Bool-cases (p c)) [
  | inl good ↦ round (c ∷ []) s refl (byte c good) (Derives-star p s (rw good at h))
  | inr bad ↦ let k = rw bad at h in cc
]

Derives-plus : (p : ℕ → Bool) (s : Bytes) → all p s ≡ true → s ≢ [] → Derives (plus (one p)) s
Derives-plus p [] h some_byte = absurd (some_byte refl)
Derives-plus p (c ∷ s) h some_byte = elim (Bool-cases (p c)) [
  | inl good ↦ both (c ∷ []) s refl (byte c good) (Derives-star p s (rw good at h))
  | inr bad ↦ let k = rw bad at h in cc
]

IsQuickUrl-Derives : {u : Bytes} → IsQuickUrl u → Derives quick_tunnel_url u
IsQuickUrl-Derives (name, e, bytes, some_byte) =
    both (codes "https://") (name ++ host_end) e (Derives-text (codes "https://")) (
      both name host_end refl (Derives-plus is_host_byte name bytes some_byte)
        (Derives-text host_end))

first_match-here :
    (s t : Bytes) (ends : List Bytes) (later : Option Bytes)
    → Has t ends
    → first_match s ends later ≢ none
first_match-here s t [] later h = elim h [ ]
first_match-here s t (rest ∷ ends) later h = λ e. cc

first_match-later :
    (s : Bytes) (ends : List Bytes) (later : Option Bytes)
    → later ≢ none
    → first_match s ends later ≢ none
first_match-later s [] later h = h
first_match-later s (rest ∷ ends) later h = λ e. cc

-- A text of the pattern is found behind any other text.
find-derived :
    (r : Regex) (pre : Bytes) (c : ℕ) (u post : Bytes)
    → Derives r (c ∷ u)
    → find r (pre ++ ((c ∷ u) ++ post)) ≢ none
unfolding find
find-derived r [] c u post d =
    first_match-here (c ∷ (u ++ post)) post (rests r (c ∷ (u ++ post))) (find r (u ++ post))
      (rests-Has r (c ∷ (u ++ post)) post (c ∷ u) d refl)
find-derived r (b ∷ pre) c u post d =
    first_match-later (b ∷ (pre ++ ((c ∷ u) ++ post))) (rests r (b ∷ (pre ++ ((c ∷ u) ++ post))))
      (find r (pre ++ ((c ∷ u) ++ post))) (find-derived r pre c u post d)

find-given : (u pre post : Bytes) → IsQuickUrl u → find quick_tunnel_url (pre ++ (u ++ post)) ≢ none
find-given [] pre post (name, e, _, _) = λ h. cc
find-given (c ∷ u) pre post is = find-derived quick_tunnel_url pre c u post (IsQuickUrl-Derives is)

-- A line that holds the URL of a quick tunnel, with whatever before and behind it, gives a URL.
pub parse_cloudflared_line-finds :
    (pre u post : Bytes) → IsQuickUrl u → (parse_cloudflared_line (pre ++ (u ++ post))).0 ≢ []
unfolding parse_cloudflared_line
parse_cloudflared_line-finds pre u post is =
    elim (Option-cases (find quick_tunnel_url (pre ++ (u ++ post)))) [
      | inl none_there ↦ absurd (find-given u pre post is none_there)
      | inr (v, found) ↦
          let (_, _, _, d) = find-Found quick_tunnel_url (pre ++ (u ++ post)) found in
          let (name, e, _, _) = quick_tunnel_url-IsQuickUrl d in rw found (λ empty. cc)
    ]
