-- ===== src/Proxy/Routing.antt =====
-- Which upstream gets a request.
use localhoist.Common.{
  ◌≡◌, ◌≢◌, ◌↔◌, ◌⊎◌, refl, sym, ap, ◌∙◌, true, false, ◌&&◌, ◌||◌, Option, none, some, List, [],
  ◌∷◌, ◌++◌, map, Bytes, codes, equal, equal_iff, Bool-cases, inl, inr, arith, any, All,
  if◌then◌else◌, append_assoc,
}
use localhoist.Common.Text.{
  has_prefix, has_prefix-append, append-trim_prefix, trim_prefix, has_suffix-append,
  trim_suffix_append,
}
use localhoist.Common.Http.{Url}
use localhoist.Proxy.{
  reverb, vite, app, Route, vite_prefixes, vite_route, Config, app_route, routes, Mux, new_mux,
  proxy_for, Request, is_vite_websocket, matches, first_match, has_target, route, serve_http,
  no_route,
}

-- A path in the subtree of `p`: `p` itself, or `p` with a slash behind it and anything behind that.
abbrev pub IsUnder : Bytes → Bytes → Type 0
IsUnder p path = (path ≡ p) ⊎ ((rest : Bytes) × (path ≡ p ++ (codes "/" ++ rest)))

-- A prefix that ends in a slash matches its subtree and the bare path, and nothing else: `/app/`
-- matches `/app` and `/app/x`, but not `/apple`.
pub matches-IsUnder : (p path : Bytes) → (matches path (p ++ codes "/") ≡ true) ↔ IsUnder p path
unfolding matches
matches-IsUnder p path =
    rw (has_suffix-append, trim_suffix_append)
      (forth (Bool-cases (has_prefix path (p ++ codes "/"))), back)
  where
    forth :
        (has_prefix path (p ++ codes "/") ≡ true) ⊎ (has_prefix path (p ++ codes "/") ≡ false)
        → (has_prefix path (p ++ codes "/") || equal path p) ≡ true
        → IsUnder p path
    forth (inl below) h = inr (
      trim_prefix path (p ++ codes "/"),
      sym (append-trim_prefix path (p ++ codes "/") below) ∙ append_assoc p (codes "/") _,
    )
    forth (inr other) h = inl ((equal_iff path p).0 (ground arith))

    back : IsUnder p path → (has_prefix path (p ++ codes "/") || equal path p) ≡ true
    back (inl same) = ground (arith, equal_iff path p)
    back (inr (rest, e)) =
        rw (e, ← append_assoc p (codes "/") rest, has_prefix-append (p ++ codes "/") rest) refl

first_match-All :
    (P : Route → Type 0) (rs : List Route) (path : Bytes) (last : Route)
    → All P rs
    → P last
    → P (first_match rs path last)
unfolding first_match
first_match-All P [] path last h p = p
first_match-All P (r ∷ rs) path last h p = elim (Bool-cases (matches path r.prefix)) [
  | inl here ↦ rw here h.0
  | inr other ↦ rw other (first_match-All P rs path r h.1 h.0)
]

abbrev IsServed : Mux → Route → Type 0
IsServed m r = proxy_for r.name m.proxies ≡ some r.target

routes-IsServed_at :
    (cfg : Config) (upstream : Option Url)
    → cfg.reverb ≡ upstream
    → All (IsServed (new_mux cfg)) (routes cfg)
unfolding new_mux
routes-IsServed_at cfg none e =
    rw e (refl, (refl, (refl, (refl, (refl, (refl, (refl, (refl, (refl, tt)))))))))
routes-IsServed_at cfg (some u) e =
    rw e (refl, (refl, (refl, (refl, (refl, (refl, (refl, (refl, (refl, (refl, tt))))))))))

-- What `NewMux` keeps: the table, and a Vite route to the Vite upstream.
record IsBuilt (cfg : Config) (m : Mux) : Type 0 where
  table : m.routes ≡ routes cfg
  vite_target : m.vite.target ≡ cfg.vite
  vite_name : m.vite.name ≡ vite

new_mux-IsBuilt_at :
    (cfg : Config) (upstream : Option Url) → cfg.reverb ≡ upstream → IsBuilt cfg (new_mux cfg)
unfolding new_mux
new_mux-IsBuilt_at cfg none e = rw e (record { table = refl; vite_target = refl; vite_name = refl })
new_mux-IsBuilt_at cfg (some u) e =
    rw e (record { table = refl; vite_target = refl; vite_name = refl })

new_mux-IsBuilt : (cfg : Config) → IsBuilt cfg (new_mux cfg)
new_mux-IsBuilt cfg = new_mux-IsBuilt_at cfg cfg.reverb refl

vite-IsServed :
    (cfg : Config) (upstream : Option Url)
    → cfg.reverb ≡ upstream
    → IsServed (new_mux cfg) (new_mux cfg).vite
unfolding new_mux
vite-IsServed cfg none e = rw e refl
vite-IsServed cfg (some u) e = rw e refl

first_match-IsServed :
    (m : Mux) (rs : List Route) (path : Bytes)
    → rs ≢ []
    → All (IsServed m) rs
    → IsServed m (first_match rs path no_route)
unfolding first_match
first_match-IsServed m [] path ne h = absurd (ne refl)
first_match-IsServed m (r ∷ rs) path ne h = elim (Bool-cases (matches path r.prefix)) [
  | inl here ↦ rw here h.0
  | inr other ↦ rw other (first_match-All (IsServed m) rs path r h.1 h.0)
]

routes-ne-nil : (cfg : Config) (upstream : Option Url) → cfg.reverb ≡ upstream → routes cfg ≢ []
unfolding routes
routes-ne-nil cfg none e = rw e (λ h. cc)
routes-ne-nil cfg (some u) e = rw e (λ h. cc)

-- No request meets a missing proxy: for every configuration and request there is a proxy under the
-- name of the route that is picked, and it forwards to that route's own target.
pub serve_http-route :
    (cfg : Config) (r : Request) → serve_http (new_mux cfg) r ≡ some (route (new_mux cfg) r).target
unfolding serve_http route
serve_http-route cfg r =
    elim (Bool-cases (has_target (new_mux cfg).vite.target && is_vite_websocket r)) [
      | inl hmr ↦ rw hmr (vite-IsServed cfg cfg.reverb refl)
      | inr plain ↦
          rw (plain, (new_mux-IsBuilt cfg).table)
            (first_match-IsServed (new_mux cfg) (routes cfg) r.path
              (routes-ne-nil cfg cfg.reverb refl) (routes-IsServed_at cfg cfg.reverb refl))
    ]

first_match-vite :
    (target : Option Url) (ps : List Bytes) (path : Bytes) (last a : Route)
    → a.name ≡ app
    → (first_match (map (vite_route target) ps ++ a ∷ []) path last).name
      ≡ (if any (matches path) ps then vite else app)
unfolding first_match
first_match-vite target [] path last a e = elim (Bool-cases (matches path a.prefix)) [
  | inl here ↦ rw here e
  | inr other ↦ rw other e
]
first_match-vite target (p ∷ ps) path last a e =
    ground (arith, first_match-vite target ps path (vite_route target p) a e)

first_match-cons :
    (r : Route) (rs : List Route) (path : Bytes) (last : Route)
    → (first_match (r ∷ rs) path last).name
      ≡ (if matches path r.prefix then r.name else (first_match rs path r).name)
unfolding first_match
first_match-cons r rs path last = ground arith

abbrev reverb_route : Url → Route
reverb_route u = record { prefix = codes "/app/"; target = some u; name = reverb }

first_match-routes :
    (cfg : Config) (path : Bytes) (upstream : Option Url)
    → cfg.reverb ≡ upstream
    → (first_match (routes cfg) path no_route).name ≡ (
        if has_target upstream && matches path (codes "/app/")
        then reverb
        else if any (matches path) vite_prefixes
        then vite
        else app)
unfolding routes
first_match-routes cfg path none e =
    simp e (first_match-vite cfg.vite vite_prefixes path no_route (app_route cfg) refl)
first_match-routes cfg path (some u) e = simp e (
    first_match-cons (reverb_route u)
      (map (vite_route cfg.vite) vite_prefixes ++ app_route cfg ∷ []) path no_route
    ∙ ap (λ n. if matches path (codes "/app/") then reverb else n)
        (first_match-vite cfg.vite vite_prefixes path (reverb_route u) (app_route cfg) refl))

-- Which upstream a request goes to, for every configuration: Vite for an HMR websocket on whatever
-- path, if there is a Vite upstream; else Reverb for the paths under `/app/`, if the project uses
-- Reverb; else Vite for its own prefixes; else the app.
pub route-name :
    (cfg : Config) (r : Request)
    → (route (new_mux cfg) r).name ≡ (
        if has_target cfg.vite && is_vite_websocket r
        then vite
        else if has_target cfg.reverb && matches r.path (codes "/app/")
        then reverb
        else if any (matches r.path) vite_prefixes
        then vite
        else app)
unfolding route
route-name cfg r =
    rw ((new_mux-IsBuilt cfg).vite_target, (new_mux-IsBuilt cfg).table)
      (elim (Bool-cases (has_target cfg.vite && is_vite_websocket r)) [
        | inl hmr ↦ rw hmr (new_mux-IsBuilt cfg).vite_name
        | inr plain ↦ rw plain (first_match-routes cfg r.path cfg.reverb refl)
      ])

-- Reverb gets a request exactly if the project uses it, the request is no HMR websocket for a Vite
-- upstream, and its path is `/app` or begins with `/app/`.
pub route-reverb_iff :
    (cfg : Config) (r : Request)
    → ((route (new_mux cfg) r).name ≡ reverb) ↔ (
        (has_target cfg.reverb ≡ true)
        × ((has_target cfg.vite && is_vite_websocket r) ≡ false)
        × IsUnder (codes "/app") r.path)
route-reverb_iff cfg r =
    rw (route-name cfg r) (grind (arith, matches-IsUnder (codes "/app") r.path))
