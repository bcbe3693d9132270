-- ===== src/Tunnel/Parse.antt =====
-- internal/tunnel/ngrok.go and internal/tunnel/cloudflare.go: what a line of a transport's log says.
-- `json.Unmarshal` is a parameter: the strings of the map that a line holds, or none for an error.
use localhoist.Common.{
  ℕ, Bool, not, ◌&&◌, ◌||◌, Option, none, some, List, [], ◌∷◌, Bytes, codes, equal, leb, ◌==◌,
  if◌then◌else◌,
}
use localhoist.Common.Text.{contains, after_first, trim_space, to_lower}
use localhoist.Rewrite.Matching.{Regex, one, seq, plus, text, rests, front}
use localhoist.Tunnel.{LineParser}

-- A field of `map[string]any` at `.(string)`: none if it is missing or no string.
abbrev pub Entry : Type 0
Entry = Bytes → Option Bytes

abbrev or_none : Option Bytes → Bytes
or_none none = []
or_none (some v) = v

-- The message of an entry at the level of an error.
abbrev message : Option Bytes → Option Bytes → Bytes
message none msg = or_none msg
message (some e) msg = if not (equal e []) && not (equal e (codes "<nil>")) then e else or_none msg

abbrev parse_entry : Option Entry → Bytes × Bytes
parse_entry none = ([], [])
parse_entry (some entry) =
    let lvl = or_none (entry (codes "lvl")) in
    if equal (or_none (entry (codes "msg"))) (codes "started tunnel")
    then (or_none (entry (codes "url")), [])
    else if equal lvl (codes "eror") || equal lvl (codes "crit")
    then ([], message (entry (codes "err")) (entry (codes "msg")))
    else ([], [])

-- `ParseLogLine`
unfoldable pub parse_log_line : (Bytes → Option Entry) → LineParser
parse_log_line decode line = parse_entry (decode line)

abbrev pub is_host_byte : ℕ → Bool
is_host_byte c =
    (leb b'a' c && leb c b'z')
    || (leb b'A' c && leb c b'Z')
    || (leb b'0' c && leb c b'9')
    || c == b'-'

-- `quickTunnelURL`
abbrev pub quick_tunnel_url : Regex
quick_tunnel_url =
    seq (text (codes "https://"))
      (seq (plus (one is_host_byte)) (text (codes ".trycloudflare.com")))

abbrev pub first_match : Bytes → List Bytes → Option Bytes → Option Bytes
first_match s [] later = later
first_match s (rest ∷ _) later = some (front s rest)

-- `Find`, for a pattern that matches no empty text.
unfoldable pub find : Regex → Bytes → Option Bytes
unfolding rests
find r [] = none
find r (c ∷ s) = let later = find r s in first_match (c ∷ s) (rests r (c ∷ s)) later

abbrev error_of : Option Bytes → Bytes
error_of none = []
error_of (some message) = trim_space message

abbrev pub url_or_error : Option Bytes → Option Bytes → Bytes × Bytes
url_or_error (some url) behind = (url, [])
url_or_error none behind = ([], error_of behind)

-- `ParseCloudflaredLine`
unfoldable pub parse_cloudflared_line : LineParser
parse_cloudflared_line line =
    url_or_error (find quick_tunnel_url line) (after_first (codes " ERR ") line)

-- `needsAuthGuidance`, at the error's text.
unfoldable pub needs_auth_guidance : Bytes → Bool
needs_auth_guidance err =
    let msg = to_lower err in
    contains msg (codes "authtoken")
    || contains msg (codes "err_ngrok_4018")
    || contains msg (codes "verified account")
