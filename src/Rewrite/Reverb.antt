-- ===== src/Rewrite/Reverb.antt =====
-- `ReverbEnv`: which values it changes, and to what.
use localhoist.Common.{
  ℕ, ◌≡◌, ◌≢◌, refl, sym, ap, ◌∙◌, Bool, true, false, not, [], ◌∷◌, ◌++◌, Bytes, codes, all, equal,
  ◌==◌, arith, Bool-cases, inl, inr, ◌⊎◌,
}
use localhoist.Common.Text.{contains, has_prefix}
use localhoist.Rewrite.Matching.{alt, Match, text, is_space}
use localhoist.Rewrite.Matching.Sound.{Derives, both, left, right, text-Derives, star-Derives}
use localhoist.Rewrite.Matching.Replace.{IsMatch, IsRewritten, replace_all_matches-IsRewritten}
use localhoist.Rewrite.{reverb_env_key, reverb_value, reverb_env, quote}

no_key : (s rest : Bytes) → all (λ c. not (c == b'V')) s ≡ true → contains s (b'V' ∷ rest) ≡ false
unfolding contains has_prefix
no_key [] rest h = refl
no_key (c ∷ s) rest h = ground (arith, no_key s rest)

no_key_of_blanks : (s : Bytes) → all is_space s ≡ true → all (λ c. not (c == b'V')) s ≡ true
no_key_of_blanks [] h = refl
no_key_of_blanks (c ∷ s) h = ground (arith, no_key_of_blanks s)

all-append : (p : ℕ → Bool) (a b : Bytes) → all p a ≡ true → all p b ≡ true → all p (a ++ b) ≡ true
all-append p [] b h g = g
all-append p (c ∷ a) b h g = ground (arith, all-append p a b)

-- The three names of the keys, and the value that each gets.
pub data IsValue (host : Bytes) : Bytes → Bytes → Type 0 where
  host_value : IsValue host (codes "HOST") host
  port_value : IsValue host (codes "PORT") (codes "443")
  scheme_value : IsValue host (codes "SCHEME") (codes "https")

abbrev key_text : Bytes → Bytes → Bytes
key_text name tail = codes "\"VITE_REVERB_" ++ (name ++ (codes "\"" ++ tail))

reverb_value_named :
    (host name tail : Bytes) (m : Match)
    → m.before ≡ key_text name tail
    → all (λ c. not (c == b'V')) tail ≡ true
    → (name ≡ codes "HOST") ⊎ (name ≡ codes "PORT") ⊎ (name ≡ codes "SCHEME")
    → (v : Bytes) × IsValue host name v × (reverb_value host m ≡ m.before ++ quote v)
unfolding reverb_value contains has_prefix
reverb_value_named host name tail m e h (inl n) =
    let before = e ∙ ap (λ k. key_text k tail) n in
    let is_host : contains m.before (codes "VITE_REVERB_HOST") ≡ true =
      ap (λ b. contains b (codes "VITE_REVERB_HOST")) before in
    (host, rw n host_value, rw is_host refl)
reverb_value_named host name tail m e h (inr (inl n)) =
    let before = e ∙ ap (λ k. key_text k tail) n in
    let no_host : contains m.before (codes "VITE_REVERB_HOST") ≡ false =
      ap (λ b. contains b (codes "VITE_REVERB_HOST")) before
      ∙ no_key tail (codes "ITE_REVERB_HOST") h in
    let is_port : contains m.before (codes "VITE_REVERB_PORT") ≡ true =
      ap (λ b. contains b (codes "VITE_REVERB_PORT")) before in
    (codes "443", rw n port_value, rw (no_host, is_port) refl)
reverb_value_named host name tail m e h (inr (inr n)) =
    let before = e ∙ ap (λ k. key_text k tail) n in
    let no_host : contains m.before (codes "VITE_REVERB_HOST") ≡ false =
      ap (λ b. contains b (codes "VITE_REVERB_HOST")) before
      ∙ no_key tail (codes "ITE_REVERB_HOST") h in
    let no_port : contains m.before (codes "VITE_REVERB_PORT") ≡ false =
      ap (λ b. contains b (codes "VITE_REVERB_PORT")) before
      ∙ no_key tail (codes "ITE_REVERB_PORT") h in
    let is_scheme : contains m.before (codes "VITE_REVERB_SCHEME") ≡ true =
      ap (λ b. contains b (codes "VITE_REVERB_SCHEME")) before in
    (codes "https", rw n scheme_value, rw (no_host, no_port, is_scheme) refl)

abbrev not_v : ℕ → Bool
not_v c = not (c == b'V')

name_of :
    {b : Bytes}
    → Derives (alt (text (codes "HOST")) (alt (text (codes "PORT")) (text (codes "SCHEME")))) b
    → (b ≡ codes "HOST") ⊎ (b ≡ codes "PORT") ⊎ (b ≡ codes "SCHEME")
name_of (left d) = inl (text-Derives (codes "HOST") d)
name_of (right (left d)) = inr (inl (text-Derives (codes "PORT") d))
name_of (right (right d)) = inr (inr (text-Derives (codes "SCHEME") d))

-- A key with its colon: one of the three names, and blanks around the colon.
key_of :
    {b : Bytes}
    → Derives reverb_env_key.before b
    → (name tail : Bytes) × (b ≡ key_text name tail)
      × (all (λ c. not (c == b'V')) tail ≡ true)
      × ((name ≡ codes "HOST") ⊎ (name ≡ codes "PORT") ⊎ (name ≡ codes "SCHEME"))
key_of
      (both a b1 e start (
        both name b2 e2 names
          (both quote_ b3 e3 q (both s1 b4 e4 blanks1 (both colon s2 e5 col blanks2))))) =
    (
      name,
      b3,
      e
          ∙ rw (text-Derives (codes "\"VITE_REVERB_") start, e2, e3, text-Derives (codes "\"") q)
              refl,
      ap (all not_v) (e4 ∙ ap (◌++◌ s1) e5)
          ∙ all-append not_v s1 (colon ++ s2) (no_key_of_blanks s1 (star-Derives is_space blanks1))
              (all-append not_v colon s2 (ap (all not_v) (text-Derives (codes ":") col))
                (no_key_of_blanks s2 (star-Derives is_space blanks2))),
      name_of names,
    )

-- A match of the pattern, and its replacement: the key stays, and the value is the one for that key.
pub data IsChanged (host : Bytes) (m : Match) : Type 0 where
  put :
      (name tail v : Bytes)
      → m.before ≡ codes "\"VITE_REVERB_" ++ (name ++ (codes "\"" ++ tail))
      → IsValue host name v
      → reverb_value host m ≡ m.before ++ quote v
      → IsChanged host m

-- Where the key pattern matches, the key with its colon and blanks stays, and the value becomes the
-- quoted host, 443 or https, by the name of the key.
pub reverb_value-IsChanged :
    (host s : Bytes) (m : Match) → IsMatch reverb_env_key s m → IsChanged host m
reverb_value-IsChanged host s m is_match =
    let (name, tail, e, plain, one_of) = key_of is_match.before in
    let (v, is_value, changed_to) = reverb_value_named host name tail m e plain one_of in
    put name tail v e is_value changed_to

key-ne-nil : (b : Bytes) → Derives reverb_env_key.before b → b ≢ []
key-ne-nil b d empty = let (name, tail, e, _, _) = key_of d in not_empty (sym e ∙ empty)
  where
    not_empty : {t : Bytes} → (b'"' ∷ t) ≡ [] → ⊥
    not_empty h = cc

-- The module that ReverbEnv sends on: either the host's key does not stand in it, and it is as it
-- was; or the key stands in it, each match of the key pattern is put anew and every other byte
-- stays, and whether that changed anything is reported.
pub reverb_env-IsRewritten :
    (body host : Bytes)
    → ((contains body (codes "\"VITE_REVERB_HOST\"") ≡ false)
        × (reverb_env body host ≡ (body, false)))
      ⊎ ((contains body (codes "\"VITE_REVERB_HOST\"") ≡ true)
          × IsRewritten reverb_env_key (reverb_value host) body (reverb_env body host).0
          × ((reverb_env body host).1 ≡ not (equal (reverb_env body host).0 body)))
unfolding reverb_env
reverb_env-IsRewritten body host =
    elim (Bool-cases (contains body (codes "\"VITE_REVERB_HOST\""))) [
      | inr absent ↦ inl (absent, rw absent refl)
      | inl there ↦ inr (
        there,
        rw there
            (replace_all_matches-IsRewritten reverb_env_key (reverb_value host) key-ne-nil body),
        rw there refl,
      )
    ]
