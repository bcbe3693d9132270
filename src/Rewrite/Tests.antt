-- ===== src/Rewrite/Tests.antt =====
-- The rewrites at inputs in the shapes that Vite and Laravel serve.
use localhoist.Common.{not, some, drop, Bytes, [], ◌⊎◌, ◌≡◌, refl, true, false, codes, equal}
use localhoist.Common.Text.{contains, has_prefix, replace_all, replace_from}
use localhoist.Rewrite.Matching.{replace_all_matches}
use localhoist.Rewrite.Matching.{Match, match_here}
use localhoist.Rewrite.Matching.Replace.{IsRewritten, match_here-IsMatch}
use localhoist.Rewrite.Reverb.{IsChanged, reverb_value-IsChanged, reverb_env-IsRewritten}
use localhoist.Rewrite.ViteClient.{IsNeutralized, vite_client-IsNeutralized}
use localhoist.Rewrite.Html.{Replaces, IsClear, html-Replaces}
use localhoist.Rewrite.{
  vite_client_lits, reverb_env_key, vite_client, reverb_env, html, reverb_value, quote_bytes,
}

hmr_port :
    vite_client (codes "const hmrPort = 5173;\n${\"localhost\" || importMetaUrl.hostname}")
    ≡ (codes "const hmrPort = null;\n${null || importMetaUrl.hostname}", true)
unfolding vite_client
hmr_port = refl

reverb :
    reverb_env
      (codes "{\"VITE_REVERB_HOST\": \"localhost\", \"VITE_REVERB_PORT\":\"80\"}")
      (codes "a.io")
    ≡ (codes "{\"VITE_REVERB_HOST\": \"a.io\", \"VITE_REVERB_PORT\":\"443\"}", true)
unfolding reverb_env contains has_prefix replace_all_matches reverb_value quote_bytes equal
reverb = refl

html_page :
    html (codes "<a href=http://[::1]:5173/x>") (codes "http://[::1]:5173") (codes "https://t.io")
    ≡ (codes "<a href=https://t.io/x>", true)
unfolding html contains has_prefix replace_all replace_from equal
html_page = refl

html-Replaces_example :
    ((html
          (codes "<a href=http://[::1]:5173/x>")
          (codes "http://[::1]:5173")
          (codes "https://t.io")).1
        ≡ true)
      × Replaces
          (codes "http://[::1]:5173")
          (codes "https://t.io")
          (codes "<a href=http://[::1]:5173/x>")
          (html
            (codes "<a href=http://[::1]:5173/x>")
            (codes "http://[::1]:5173")
            (codes "https://t.io")).0
    ⊎ ((html
          (codes "<a href=http://[::1]:5173/x>")
          (codes "http://[::1]:5173")
          (codes "https://t.io")).1
        ≡ false)
      × ((html
            (codes "<a href=http://[::1]:5173/x>")
            (codes "http://[::1]:5173")
            (codes "https://t.io")).0
          ≡ codes "<a href=http://[::1]:5173/x>")
      × ((codes "http://[::1]:5173" ≡ [])
          ⊎ (codes "http://[::1]:5173" ≡ codes "https://t.io")
          ⊎ IsClear (codes "http://[::1]:5173") (codes "<a href=http://[::1]:5173/x>") [])
html-Replaces_example =
    html-Replaces (codes "<a href=http://[::1]:5173/x>") (codes "http://[::1]:5173")
      (codes "https://t.io")

abbrev body : Bytes
body = codes "{\"VITE_REVERB_PORT\": \"80\"}"

abbrev found : Match
found = record {
  before = codes "\"VITE_REVERB_PORT\": ";
  literal = codes "\"80\"";
  behind = [];
  rest = codes "}";
}

match_found : match_here reverb_env_key (drop 1 body) ≡ some found
unfolding match_here
match_found = refl

reverb_value-IsChanged_example : IsChanged (codes "a.io") found
reverb_value-IsChanged_example =
    reverb_value-IsChanged (codes "a.io") (drop 1 body) found
      (match_here-IsMatch reverb_env_key (drop 1 body) match_found)

abbrev env : Bytes
env = codes "{\"VITE_REVERB_HOST\": \"localhost\"}"

reverb_env-IsRewritten_example :
    ((contains env (codes "\"VITE_REVERB_HOST\"") ≡ false)
      × (reverb_env env (codes "a.io") ≡ (env, false)))
    ⊎ ((contains env (codes "\"VITE_REVERB_HOST\"") ≡ true)
        × IsRewritten reverb_env_key
            (reverb_value (codes "a.io"))
            env
            (reverb_env env (codes "a.io")).0
        × ((reverb_env env (codes "a.io")).1 ≡ not (equal (reverb_env env (codes "a.io")).0 env)))
reverb_env-IsRewritten_example = reverb_env-IsRewritten env (codes "a.io")

abbrev client : Bytes
client = codes "const hmrPort = 5173;\n"

vite_client-IsNeutralized_example :
    IsNeutralized vite_client_lits client (vite_client client).0
    × (((vite_client client).1 ≡ true) ⊎ ((vite_client client).0 ≡ client))
vite_client-IsNeutralized_example = vite_client-IsNeutralized client
