-- ===== src/Rewrite.antt =====
-- internal/rewrite/rewrite.go: the fixes of dev-server responses.
pub mod Matching
pub mod Html
pub mod Reverb
pub mod ViteClient
mod Tests
use Prim.Native.Nat.{ℕ, zero, suc}
use localhoist.Common.{
  ◌-◌, ◌/◌, ◌%◌, ◌+◌, Bool, true, false, not, ◌&&◌, ◌||◌, Option, none, some, List, [], ◌∷◌, ◌++◌,
  Bytes, codes, equal, ◌==◌, ltb, leb, if◌then◌else◌, length, take,
}
use localhoist.Common.Text.{contains, replace_all}
use localhoist.Rewrite.Matching.{
  Regex, one, text, seq, alt, star, plus, is_space, Pattern, replace_all_matches, is_matched, Match,
}

abbrev null : Regex
null = text (codes "null")

-- `"[^"]*"` and `'[^']*'`
abbrev quoted_by : ℕ → Regex
quoted_by q = seq (one (λ c. c == q)) (seq (star (one (λ c. not (c == q)))) (one (λ c. c == q)))

abbrev string_literal : Regex
string_literal = alt (quoted_by b'"') (quoted_by b'\'')

abbrev digits : Regex
digits = plus (one (λ c. leb b'0' c && leb c b'9'))

abbrev blanks : Regex
blanks = star (one is_space)

-- `viteClientLits`, each in its three groups.
abbrev pub vite_client_lits : List Pattern
vite_client_lits =
    record {
      before =
          seq (text (codes "const socketProtocol")) (seq blanks (seq (text (codes "=")) blanks));
      literal = alt null string_literal;
      behind = seq blanks (text (codes "||"));
    }
    ∷ record {
      before = seq (text (codes "const hmrPort")) (seq blanks (seq (text (codes "=")) blanks));
      literal = alt null (alt digits string_literal);
      behind = seq blanks (text (codes ";"));
    }
    ∷ record {
      before = text (codes "${");
      literal = alt null string_literal;
      behind =
          seq blanks
            (seq (text (codes "||")) (seq blanks (text (codes "importMetaUrl.hostname}"))));
    }
    ∷ record {
      before = text (codes "${");
      literal = alt null (alt digits string_literal);
      behind =
          seq blanks (seq (text (codes "||")) (seq blanks (text (codes "importMetaUrl.port}"))));
    }
    ∷ []

-- `ReplaceAll` with the template `${1}null${3}`.
abbrev pub to_null : Match → Bytes
to_null m = m.before ++ (codes "null" ++ m.behind)

-- The loop of `ViteClient`.
pub neutralize : List Pattern → Bytes → Bool → Bytes × Bool
unfolding replace_all_matches is_matched
neutralize [] body recognized = (body, recognized)
neutralize (re ∷ res) body recognized =
    let hit = is_matched re body in
    neutralize res (if hit then replace_all_matches re to_null body else body) (recognized || hit)

unfoldable pub vite_client : Bytes → Bytes × Bool
unfolding neutralize
vite_client body = neutralize vite_client_lits body false

-- `reverbEnvKey`: the key with its colon, the value's string literal, nothing behind.
abbrev pub reverb_env_key : Pattern
reverb_env_key = record {
  before = seq (text (codes "\"VITE_REVERB_")) (
      seq (alt (text (codes "HOST")) (alt (text (codes "PORT")) (text (codes "SCHEME"))))
        (seq (text (codes "\"")) (seq blanks (seq (text (codes ":")) blanks))));
  literal = seq (text (codes "\"")) (
      seq
        (star (
          alt (one (λ c. not (c == b'"' || c == b'\\')))
            (seq (text (codes "\\")) (one (λ c. not (c == b'\n'))))))
        (text (codes "\"")));
  behind = text [];
}

abbrev hex : ℕ → ℕ
hex n = if ltb n 10 then 48 + n else 87 + n

-- One byte of `%q`. A byte from 128 up is copied, as in a printable character; what `%q` does to
-- other characters beyond ASCII is left out. Go's server refuses a `Host` header with such a byte.
unfoldable pub quote_byte : ℕ → Bytes
quote_byte c =
    if c == b'"' || c == b'\\'
    then b'\\' ∷ c ∷ []
    else if c == 7
    then codes "\\a"
    else if c == 8
    then codes "\\b"
    else if c == 12
    then codes "\\f"
    else if c == 10
    then codes "\\n"
    else if c == 13
    then codes "\\r"
    else if c == 9
    then codes "\\t"
    else if c == 11
    then codes "\\v"
    else if ltb c 32 || c == 127
    then codes "\\x" ++ hex (c / 16) ∷ hex (c % 16) ∷ []
    else c ∷ []

unfoldable pub quote_bytes : Bytes → Bytes
unfolding quote_byte
quote_bytes [] = []
quote_bytes (c ∷ s) = quote_byte c ++ quote_bytes s

-- `%q`
abbrev pub quote : Bytes → Bytes
quote s = b'"' ∷ (quote_bytes s ++ b'"' ∷ [])

-- The new value for a matched key. The three keys exclude one another, so the order in which the
-- source's map is visited does not matter.
unfoldable pub reverb_value : Bytes → Match → Bytes
reverb_value host m =
    if contains m.before (codes "VITE_REVERB_HOST")
    then m.before ++ quote host
    else if contains m.before (codes "VITE_REVERB_PORT")
    then m.before ++ quote (codes "443")
    else if contains m.before (codes "VITE_REVERB_SCHEME")
    then m.before ++ quote (codes "https")
    else m.before ++ (m.literal ++ m.behind)

unfoldable pub reverb_env : Bytes → Bytes → Bytes × Bool
reverb_env body host =
    if not (contains body (codes "\"VITE_REVERB_HOST\""))
    then (body, false)
    else let out = replace_all_matches reverb_env_key (reverb_value host) body in
      (out, not (equal out body))

unfoldable pub html : Bytes → Bytes → Bytes → Bytes × Bool
html body hot_origin public_origin =
    if equal hot_origin [] || equal hot_origin public_origin || not (contains body hot_origin)
    then (body, false)
    else (replace_all body hot_origin public_origin, true)
