-- ===== src/Proxy.antt =====
-- internal/proxy/proxy.go: the local mux. One listener sends each request to the app, the Vite dev
-- server or Reverb, and fixes what they answer.
pub mod Routing
pub mod Forward
pub mod Respond
mod Tests
use localhoist.Common.{
  ℕ, Bool, true, false, ◌&&◌, ◌||◌, Option, none, some, List, [], ◌∷◌, ◌++◌, Bytes, codes, equal,
  if◌then◌else◌, ◌==◌, leb, map, ◌+◌,
}
use localhoist.Common.Text.{has_prefix, has_suffix, trim_suffix, contains, replace_all}
use localhoist.Common.Http.{Url, Header, get_header}

-- The names of the routes: "reverb", "vite" and "app".
pub data Name : Type 0 where
  reverb vite app : Name

-- `Route`; a `nil` target is `none`.
pub record Route : Type 0 where
  pub prefix : Bytes
  pub target : Option Url
  pub name : Name

abbrev pub vite_prefixes : List Bytes
vite_prefixes =
    codes "/@vite/"
    ∷ codes "/@id/"
    ∷ codes "/@fs/"
    ∷ codes "/resources/"
    ∷ codes "/node_modules/"
    ∷ codes "/vendor/"
    ∷ codes "/__vite_hmr"
    ∷ codes "/__laravel_vite_plugin__/"
    ∷ []

-- `Config`, without `Logf`. An empty `hot_file` is none.
pub record Config : Type 0 where
  pub app : Option Url
  pub vite : Option Url
  pub reverb : Option Url
  pub hot_file : Bytes

abbrev vite_route : Option Url → Bytes → Route
vite_route target p = record { prefix = p; target = target; name = vite }

abbrev reverb_routes : Option Url → List Route
reverb_routes none = []
reverb_routes (some u) = record { prefix = codes "/app/"; target = some u; name = reverb } ∷ []

abbrev pub app_route : Config → Route
app_route cfg = record { prefix = codes "/"; target = cfg.app; name = app }

-- `Config.Routes`
unfoldable pub routes : Config → List Route
routes cfg =
    reverb_routes cfg.reverb ++ (map (vite_route cfg.vite) vite_prefixes ++ app_route cfg ∷ [])

abbrev pub same_name : Name → Name → Bool
same_name reverb reverb = true
same_name vite vite = true
same_name app app = true
same_name _ _ = false

-- The map of proxies: the target that the proxy of each name forwards to.
pub proxy_for : Name → List (Name × Option Url) → Option (Option Url)
proxy_for name [] = none
proxy_for name ((n, target) ∷ proxies) =
    if same_name n name then some target else proxy_for name proxies

-- `Mux`
pub record Mux : Type 0 where
  pub cfg : Config
  pub routes : List Route
  pub proxies : List (Name × Option Url)
  pub vite : Route

abbrev add_proxy : Option (Option Url) → Route → List (Name × Option Url) → List (Name × Option Url)
add_proxy none r proxies = proxies ++ (r.name, r.target) ∷ []
add_proxy (some _) r proxies = proxies

-- The loop of `NewMux`.
pub register : List Route → Mux → Mux
unfolding proxy_for
register [] m = m
register (r ∷ rs) m = register rs (record m {
  proxies = add_proxy (proxy_for r.name m.proxies) r m.proxies;
  vite = if same_name r.name vite then r else m.vite;
})

abbrev no_route : Route
no_route = record { prefix = []; target = none; name = app }

-- `NewMux`
unfoldable pub new_mux : Config → Mux
unfolding register routes
new_mux cfg =
    register (routes cfg) (record { cfg = cfg; routes = routes cfg; proxies = []; vite = no_route })

-- `http.Request`, as the mux receives it or sends it on.
pub record Request : Type 0 where
  pub host : Bytes
  pub path : Bytes
  -- Of the URL that a request is sent on to. The query is as `ReverseProxy` cleans it.
  pub target_scheme : Bytes
  pub target_host : Bytes
  pub raw_query : Bytes
  pub remote_addr : Bytes
  pub tls : Bool
  pub header : Header

-- `strings.EqualFold` against an ASCII text in small letters: the long s and the Kelvin sign are
-- the two characters beyond ASCII that fold to a letter of it.
lower : ℕ → ℕ
lower c = if leb b'A' c && leb c b'Z' then c + 32 else c

fold_case : Bytes → Bytes
unfolding lower
fold_case s =
    map lower
      (replace_all (replace_all s (197 ∷ 191 ∷ []) (codes "s")) (226 ∷ 132 ∷ 170 ∷ []) (codes "k"))

unfoldable pub is_vite_websocket : Request → Bool
unfolding fold_case
is_vite_websocket r =
    let proto = get_header r.header (codes "Sec-Websocket-Protocol") in
    equal (fold_case (get_header r.header (codes "Upgrade"))) (codes "websocket")
    && (contains proto (codes "vite-hmr") || contains proto (codes "vite-ping"))

unfoldable pub matches : Bytes → Bytes → Bool
matches path prefix =
    if has_suffix prefix (codes "/")
    then has_prefix path prefix || equal path (trim_suffix prefix (codes "/"))
    else has_prefix path prefix

-- The loop of `route` and the last route behind it, which is there for every table.
pub first_match : List Route → Bytes → Route → Route
first_match [] path last = last
first_match (r ∷ rs) path last =
    let later = first_match rs path r in if matches path r.prefix then r else later

abbrev has_target : Option Url → Bool
has_target none = false
has_target (some u) = true

unfoldable pub route : Mux → Request → Route
unfolding first_match
route m r =
    if has_target m.vite.target && is_vite_websocket r
    then m.vite
    else first_match m.routes r.path no_route

-- `ServeHTTP`: the target of the proxy that gets the request; `none` would be a nil proxy.
unfoldable pub serve_http : Mux → Request → Option (Option Url)
unfolding proxy_for
serve_http m r = proxy_for (route m r).name m.proxies
