-- ===== src/Command/Hints.antt =====
-- The pointer to the middleware package: at most one, at the place that fits.
use localhoist.Common.{
  ◌≡◌, refl, ap, Bool, true, false, not, ◌&&◌, List, [], ◌∷◌, ◌++◌, Bytes, equal, map, Bool-cases,
  inl, inr, if◌then◌else◌,
}
use localhoist.Proxy.{Route}
use localhoist.Laravel.{Project}
use localhoist.Config.{Resolution, cloudflare}
use localhoist.Command.Session.{
  Message, skip_edit, sidestep_edit, zero_mutation, cached_config, rewritten, qr_code, prefer_ngrok,
  route_line,
}
use localhoist.Command.Banner.{banner, when, patch_lines, cached_lines, is_default}

abbrev is_hint : Message → Bool
is_hint skip_edit = true
is_hint sidestep_edit = true
is_hint _ = false

-- The pointers among the lines.
unfoldable pub hints : List Message → List Message
hints [] = []
hints (m ∷ ms) = let rest = hints ms in if is_hint m then m ∷ rest else rest

hints-append : (ms ns : List Message) → hints (ms ++ ns) ≡ hints ms ++ hints ns
unfolding hints
hints-append [] ns = refl
hints-append (m ∷ ms) ns = elim (Bool-cases (is_hint m)) [
  | inl hint ↦ rw (hint, hints-append ms ns) refl
  | inr other ↦ rw (other, hints-append ms ns) refl
]

hints-routes : (routes : List Route) → hints (map route_line routes) ≡ []
unfolding hints
hints-routes [] = refl
hints-routes (r ∷ routes) = hints-routes routes

kept : (b : Bool) → hints (when b (skip_edit ∷ [])) ≡ when b (skip_edit ∷ [])
unfolding hints
kept true = refl
kept false = refl

dropped : (b : Bool) → hints (when b (zero_mutation ∷ [])) ≡ []
unfolding hints
dropped true = refl
dropped false = refl

hints-patch_lines :
    (project : Project) (patched no_patch : Bool)
    → hints (patch_lines patched no_patch project)
      ≡ when
          (patched && (not project.trusted_proxy_package && not project.config_cached))
          (skip_edit ∷ [])
unfolding hints
hints-patch_lines project true no_patch =
    kept (not project.trusted_proxy_package && not project.config_cached)
hints-patch_lines project false no_patch = dropped (not no_patch && project.trusted_proxy_package)

warned :
    (patched trusted cached : Bool)
    → hints (
        when
          (cached && patched)
          (cached_config ∷ when (patched && not trusted) (sidestep_edit ∷ [])))
      ≡ when (patched && (not trusted && cached)) (sidestep_edit ∷ [])
unfolding hints
warned true true true = refl
warned true true false = refl
warned true false true = refl
warned true false false = refl
warned false trusted true = refl
warned false trusted false = refl

hints-cached_lines :
    (project : Project) (patched : Bool)
    → hints (cached_lines patched project)
      ≡ when
          (patched && (not project.trusted_proxy_package && project.config_cached))
          (sidestep_edit ∷ [])
unfolding hints
hints-cached_lines project patched =
    warned patched project.trusted_proxy_package project.config_cached

hints-last :
    (no_qr prefers : Bool)
    → hints (rewritten ∷ (when (not no_qr) (qr_code ∷ []) ++ when prefers (prefer_ngrok ∷ []))) ≡ []
unfolding hints
hints-last true true = refl
hints-last true false = refl
hints-last false true = refl
hints-last false false = refl

one_place :
    (patched trusted cached : Bool) (last : List Message)
    → last ≡ []
    → when (patched && (not trusted && not cached)) (skip_edit ∷ [])
        ++ (when (patched && (not trusted && cached)) (sidestep_edit ∷ []) ++ last)
      ≡ (if patched && not trusted then (if cached then sidestep_edit else skip_edit) ∷ [] else [])
one_place true true cached last e = e
one_place true false true last e = ap (λ ms. sidestep_edit ∷ ms) e
one_place true false false last e = ap (λ ms. skip_edit ∷ ms) e
one_place false trusted cached last e = e

-- With a patch that was made for the want of the package, the banner points to the package exactly
-- once: at the warning on a cached configuration if that is shown, and at the line on the patch
-- otherwise. In every other run it does not point to it.
pub hints-banner :
    (project : Project) (routes : List Route) (res : Resolution) (patched no_patch no_qr : Bool)
    (url : Bytes)
    → hints (banner project routes res patched no_patch no_qr url) ≡ (
        if patched && not project.trusted_proxy_package
        then (if project.config_cached then sidestep_edit else skip_edit) ∷ []
        else [])
unfolding banner hints
hints-banner project routes res patched no_patch no_qr url =
    rw
      (
        hints-append (map route_line routes) _,
        hints-routes routes,
        hints-append (patch_lines patched no_patch project) _,
        hints-patch_lines project patched no_patch,
        hints-append (cached_lines patched project) _,
        hints-cached_lines project patched,
      )
      (one_place patched project.trusted_proxy_package project.config_cached _
        (hints-last no_qr (is_default res.source && equal res.transport cloudflare)))
