-- ===== src/Tunnel/QuickUrl.antt =====
-- internal/tunnel/cloudflare.go: what `ParseCloudflaredLine` can return as a URL.
use localhoist.Common.{
  ℕ, ◌≡◌, ◌≢◌, refl, sym, ap, ◌∙◌, Bool, true, Option, some, List, [], ◌∷◌, ◌++◌, Bytes, codes, All,
  all, Option-cases, inl, inr,
}
use localhoist.Rewrite.Matching.{Regex, one, plus, rests, front}
use localhoist.Rewrite.Matching.Sound.{
  text-Derives, star-Derives, Derives, byte, both, IsRest, rests-IsRest, front-append,
}
use localhoist.Tunnel.Parse.{
  quick_tunnel_url, find, first_match, is_host_byte, parse_cloudflared_line,
}

-- A text of the pattern somewhere in `s`.
abbrev pub Found : Regex → Bytes → Bytes → Type 0
Found r s u = (pre post : Bytes) × (s ≡ pre ++ (u ++ post)) × Derives r u

first_match-Found :
    (r : Regex) (s : Bytes) (ends : List Bytes) (later : Option Bytes) {u : Bytes}
    → All (IsRest r s) ends
    → (later ≡ some u → Found r s u)
    → first_match s ends later ≡ some u
    → Found r s u
first_match-Found r s [] later h g e = g e
first_match-Found r s (rest ∷ _) later {u} ((m, whole, d), _) g e =
    let same : m ≡ u = sym (ap (λ t. front t rest) whole ∙ front-append m rest) ∙ cc in
    ([], rest, whole ∙ ap (λ t. t ++ rest) same, rw (← same) d)

pub find-Found : (r : Regex) (s : Bytes) {u : Bytes} → find r s ≡ some u → Found r s u
unfolding find
find-Found r [] e = cc
find-Found r (c ∷ s) {u} e =
    first_match-Found r (c ∷ s) (rests r (c ∷ s)) (find r s) (rests-IsRest r (c ∷ s))
      (λ later.
        let (pre, post, split, d) = find-Found r s later in (c ∷ pre, post, ap (◌∷◌ c) split, d))
      e

plus-Derives : (p : ℕ → Bool) {m : Bytes} → Derives (plus (one p)) m → (all p m ≡ true) × (m ≢ [])
plus-Derives p (both a b e (byte c h) rest) =
    (ap (all p) e ∙ rw (h, star-Derives p rest) refl, λ none_there. cc)

abbrev pub host_end : Bytes
host_end = codes ".trycloudflare.com"

-- A text of `quickTunnelURL`: a name of at least one letter, digit or dash.
abbrev pub IsQuickUrl : Bytes → Type 0
IsQuickUrl u =
    (name : Bytes) × (u ≡ codes "https://" ++ (name ++ host_end))
    × (all is_host_byte name ≡ true)
    × (name ≢ [])

pub quick_tunnel_url-IsQuickUrl : {m : Bytes} → Derives quick_tunnel_url m → IsQuickUrl m
quick_tunnel_url-IsQuickUrl (both a b e scheme (both name dot f host end)) =
    let (bytes, some_byte) = plus-Derives is_host_byte host in
    (
      name,
      e ∙ rw (text-Derives (codes "https://") scheme, f, text-Derives host_end end) refl,
      bytes,
      some_byte,
    )

-- A URL that `ParseCloudflaredLine` returns stands in the line, is of a quick tunnel, and comes
-- without an error message.
pub parse_cloudflared_line-IsQuickUrl :
    (line : Bytes)
    → (parse_cloudflared_line line).0 ≢ []
    → IsQuickUrl (parse_cloudflared_line line).0
      × ((pre post : Bytes) × (line ≡ pre ++ ((parse_cloudflared_line line).0 ++ post)))
      × ((parse_cloudflared_line line).1 ≡ [])
unfolding parse_cloudflared_line
parse_cloudflared_line-IsQuickUrl line given = elim (Option-cases (find quick_tunnel_url line)) [
  | inl none_there ↦ absurd (given (rw none_there refl))
  | inr (u, found) ↦
      let (pre, post, split, d) = find-Found quick_tunnel_url line found in
      rw found (quick_tunnel_url-IsQuickUrl d, (pre, post, split), refl)
]
