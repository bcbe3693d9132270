-- ===== src/Common/Http.antt =====
-- What the program uses of Go's `net/http`, `net/http/httputil`, `net` and `net/url`.
use localhoist.Common.{
  ◌≡◌, refl, arith, ℕ, ◌+◌, Bool, true, false, not, ◌&&◌, ◌||◌, Option, none, some, List, [], ◌∷◌,
  ◌++◌, Bytes, codes, equal, ◌==◌, if◌then◌else◌, length, take, drop, all, any, ◌-◌,
}
use localhoist.Common.Text.{has_prefix, has_suffix, is_digit}

-- The parts of a `url.URL` that the program reads and writes. The others stay as they were parsed:
-- `User`, `RawPath`, `ForceQuery`, `Opaque` and `RawFragment`.
pub record Url : Type 0 where
  pub scheme : Bytes
  pub host : Bytes
  pub path : Bytes
  pub raw_query : Bytes
  pub fragment : Bytes

-- `http.Header`: the values by canonical name.
abbrev pub Header : Type 0
Header = Bytes → List Bytes

abbrev first_or_empty : List Bytes → Bytes
first_or_empty [] = []
first_or_empty (v ∷ vs) = v

-- `Header.Get`, `Header.Set`, `Header.Del`
abbrev pub get_header : Header → Bytes → Bytes
get_header h name = first_or_empty (h name)

abbrev pub put_header : Header → Bytes → List Bytes → Header
put_header h name vs q = if equal q name then vs else h q

abbrev pub set_header : Header → Bytes → Bytes → Header
set_header h name v = put_header h name (v ∷ [])

abbrev pub del_header : Header → Bytes → Header
del_header h name = put_header h name []

-- A text before and behind the first, or the last, of a byte.
unfoldable pub split_first : ℕ → Bytes → Option (Bytes × Bytes)
split_first c [] = none
split_first c (d ∷ s) = elim (d == c) [
  | true ↦ some ([], s)
  | false ↦ elim (split_first c s) [ none ↦ none | some (a, b) ↦ some (d ∷ a, b) ]
]

unfoldable pub split_last : ℕ → Bytes → Option (Bytes × Bytes)
split_last c [] = none
split_last c (d ∷ s) = elim (split_last c s) [
  | some (a, b) ↦ some (d ∷ a, b)
  | none ↦ if d == c then some ([], s) else none
]

split_last-none : (c : ℕ) (s : Bytes) → any (λ d. d == c) s ≡ false → split_last c s ≡ none
unfolding split_last
split_last-none c [] h = refl
split_last-none c (d ∷ s) h = ground (arith, split_last-none c s)

pub split_last-append :
    (c : ℕ) (a b : Bytes) → any (λ d. d == c) b ≡ false → split_last c (a ++ (c ∷ b)) ≡ some (a, b)
unfolding split_last
split_last-append c [] b h = ground (arith, split_last-none c b)
split_last-append c (d ∷ a) b h = rw (split_last-append c a b h) refl

abbrev pub has_byte : ℕ → Bytes → Bool
has_byte c = any (λ d. d == c)

-- `net.SplitHostPort`, on a text with its last colon found: `front:port`. In `[host]:port` the
-- brackets are taken off.
bracketed : Bytes → Bytes → Option (Bytes × Bytes) → Option (Bytes × Bytes)
bracketed front port none = none
bracketed front port (some (host, behind)) =
    if not (length host + 2 == length front) || has_byte b'[' (host ++ behind) || has_byte b']' port
    then none
    else some (host, port)

split_front : Bytes → Bytes → Option (Bytes × Bytes)
split_front front port =
    if has_prefix front (codes "[")
    then bracketed front port (split_first b']' (drop 1 front))
    else if has_byte b':' front || has_byte b'[' (front ++ port) || has_byte b']' (front ++ port)
    then none
    else some (front, port)

abbrev split_at_colon : Option (Bytes × Bytes) → Option (Bytes × Bytes)
split_at_colon none = none
split_at_colon (some (front, port)) = split_front front port

unfoldable pub split_host_port : Bytes → Option (Bytes × Bytes)
unfolding bracketed split_front has_prefix split_first split_last
split_host_port s = split_at_colon (split_last b':' s)

-- `URL.Hostname` and `URL.Port`: a last colon with digits or nothing behind it ends the name.
abbrev pub cut_port : Bytes → Option (Bytes × Bytes) → Bytes × Bytes
cut_port host none = (host, [])
cut_port host (some (name, port)) = if all is_digit port then (name, port) else (host, [])

abbrev pub unbracket : Bytes → Bytes
unbracket host =
    if has_prefix host (codes "[") && has_suffix host (codes "]")
    then take (length host - 2) (drop 1 host)
    else host

unfoldable pub hostname : Url → Bytes
hostname u = unbracket (cut_port u.host (split_last b':' u.host)).0

unfoldable pub port_of : Url → Bytes
port_of u = (cut_port u.host (split_last b':' u.host)).1
