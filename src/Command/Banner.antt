-- ===== src/Command/Banner.antt =====
-- cmd/localhoist/main.go: what `run` prints once the tunnel is open.
use localhoist.Common.{Bool, true, false, not, ◌&&◌, List, [], ◌∷◌, ◌++◌, Bytes, map, equal}
use localhoist.Proxy.{Route}
use localhoist.Laravel.{Project}
use localhoist.Config.{Resolution, Source, default, flag, cloudflare, default_transport}
use localhoist.Command.Session.{
  Message, qr_code, prefer_ngrok, rewritten, project_dir, route_line, env_patched, skip_edit,
  zero_mutation, cached_config, sidestep_edit, public_url,
}

abbrev pub when : Bool → List Message → List Message
when true ms = ms
when false ms = []

-- `suggestMiddleware`
abbrev pub suggest_middleware : Bool → Project → Bool
suggest_middleware patched project = patched && not project.trusted_proxy_package

-- The lines on the patch, before the URL.
abbrev pub patch_lines : Bool → Bool → Project → List Message
patch_lines true no_patch project =
    env_patched
    ∷ when (suggest_middleware true project && not project.config_cached) (skip_edit ∷ [])
patch_lines false no_patch project =
    when (not no_patch && project.trusted_proxy_package) (zero_mutation ∷ [])

-- The warning on a cached configuration, behind the URL.
abbrev pub cached_lines : Bool → Project → List Message
cached_lines patched project =
    when (project.config_cached && patched)
      (cached_config ∷ when (suggest_middleware patched project) (sidestep_edit ∷ []))

abbrev pub is_default : Source → Bool
is_default default = true
is_default _ = false

abbrev pub is_flag : Source → Bool
is_flag flag = true
is_flag _ = false

unfoldable pub banner :
    Project → List Route → Resolution → Bool → Bool → Bool → Bytes → List Message
banner project routes res patched no_patch no_qr url =
    project_dir project.dir
    ∷ (map route_line routes
        ++ (patch_lines patched no_patch project
            ++ (public_url url
                ∷ (cached_lines patched project
                    ++ (rewritten
                        ∷ (when (not no_qr) (qr_code ∷ [])
                            ++ when (is_default res.source && equal res.transport cloudflare)
                                (prefer_ngrok ∷ [])))))))

-- The condition of the question for a default transport, but for the terminal.
unfoldable pub may_ask : Resolution → Bool
may_ask res =
    is_flag res.source && (equal res.saved [] && not (equal res.transport default_transport))
