-- ===== src/Laravel.antt =====
-- internal/laravel/laravel.go: the project's settings and the local upstreams that they name.
-- Parameters: the file system (`files`, what `os.ReadFile` returns, `exists`, whether `os.Stat`
-- finds something, and `no_abs`, whether `filepath.Abs` fails), the process environment,
-- `url.Parse`, and `json.Unmarshal` at composer.lock. A directory is named by one path in the
-- model, so that the path that `filepath.Abs` makes of it is the same one.
pub mod Version
pub mod Upstream
pub mod Detected
mod Tests
use localhoist.Common.{
  ℕ, Bool, true, false, not, ◌&&◌, ◌||◌, Option, none, some, List, [], ◌∷◌, ◌++◌, Bytes, codes,
  equal, if◌then◌else◌, ◌==◌, ltb, leb, length, drop,
}
use localhoist.Common.Text.{has_prefix, trim_prefix, split, Number, atoi, itoa}
use localhoist.Common.Http.{Url, hostname, port_of}
use localhoist.Common.Disk.{Outcome, ok, err, dead, no_directory, no_artisan, cannot_read, bad_url}
use localhoist.EnvFile.{File, parse, get}

abbrev or_fallback : Option Number → ℕ → ℕ
or_fallback none fallback = fallback
or_fallback (some n) fallback = if not n.negative && ltb 0 n.size then n.size else fallback

-- `intOr`
unfoldable pub int_or : Bytes → ℕ → ℕ
int_or s fallback = or_fallback (atoi s) fallback

-- `localURL`
unfoldable pub local_url : ℕ → Url
local_url port = record {
  scheme = codes "http";
  host = codes "127.0.0.1:" ++ itoa port;
  path = [];
  raw_query = [];
  fragment = [];
}

unfoldable pub is_local_hostname : Bytes → Bool
is_local_hostname h =
    equal h (codes "localhost") || equal h (codes "127.0.0.1") || equal h (codes "0.0.0.0")

-- The loop of `stripScheme`.
unfoldable pub strip_scheme : Bytes → Bytes
strip_scheme s =
    if ltb 8 (length s) && has_prefix s (codes "https://")
    then drop 8 s
    else if ltb 7 (length s) && has_prefix s (codes "http://")
    then drop 7 s
    else s

-- The host that `deriveAppUpstream` keeps or completes by the port.
unfoldable pub upstream_host : Url → Bytes → Bytes
upstream_host u app_port =
    if equal (port_of u) [] && (not (equal app_port []) && is_local_hostname (hostname u))
    then hostname u ++ (codes ":" ++ app_port)
    else u.host

abbrev from_url : Bytes → Bytes → Option Url → Outcome Url
from_url app_url app_port none = err (bad_url app_url)
from_url app_url app_port (some u) =
    if equal u.host []
    then err (bad_url app_url)
    else ok (record {
      scheme = codes "http";
      host = upstream_host u app_port;
      path = [];
      raw_query = [];
      fragment = [];
    })

-- `deriveAppUpstream`
unfoldable pub derive_app_upstream : (Bytes → Option Url) → Bytes → Bytes → Outcome Url
derive_app_upstream url_parse app_url app_port =
    if equal app_url []
    then ok (local_url (int_or app_port 80))
    else from_url app_url app_port (url_parse app_url)

-- The comparisons of an `int` with a number of the program.
abbrev pub int_gt : Number → ℕ → Bool
int_gt i n = not i.negative && ltb n i.size

abbrev pub int_eq : Number → ℕ → Bool
int_eq i n = i.size == n && (not i.negative || i.size == 0)

abbrev pub int_ge : Number → ℕ → Bool
int_ge i n = int_gt i n || int_eq i n

abbrev newer : Option Number → Option Number → ℕ → ℕ → Bool
newer (some major) (some minor) want_major want_minor =
    int_gt major want_major || (int_eq major want_major && int_ge minor want_minor)
newer _ _ want_major want_minor = false

-- The first two parts of a version. `SplitN` stops behind the second dot, which the rest of the
-- function does not see.
abbrev pub parts_at_least : List Bytes → ℕ → ℕ → Bool
parts_at_least (major ∷ minor ∷ _) want_major want_minor =
    newer (atoi major) (atoi minor) want_major want_minor
parts_at_least _ want_major want_minor = false

-- `versionAtLeast`
unfoldable pub version_at_least : Bytes → ℕ → ℕ → Bool
version_at_least v = parts_at_least (split b'.' (trim_prefix v (codes "v")))

-- `lockPackage`
pub record LockPackage : Type 0 where
  pub name : Bytes
  pub version : Bytes

-- The two lists of packages of composer.lock.
pub record Lock : Type 0 where
  pub packages : List LockPackage
  pub packages_dev : List LockPackage

-- The loop of `hasTrustedProxyPackage`.
pub trusted : List LockPackage → Bool
trusted [] = false
trusted (pkg ∷ pkgs) =
    let rest = trusted pkgs in
    if equal pkg.name (codes "localhoist/laravel") then version_at_least pkg.version 0 2 else rest

abbrev in_lock : Option Lock → Bool
in_lock none = false
in_lock (some lock) = trusted (lock.packages ++ lock.packages_dev)

abbrev in_lock_file : (Bytes → Option Lock) → Option Bytes → Bool
in_lock_file decode none = false
in_lock_file decode (some bytes) = in_lock (decode bytes)

-- `Project`
pub record Project : Type 0 where
  pub dir : Bytes
  pub env : File
  pub app_url : Bytes
  pub app_upstream : Url
  pub vite_upstream : Url
  pub reverb_upstream : Option Url
  pub static_domain : Bytes
  pub config_cached : Bool
  pub trusted_proxy_package : Bool

-- What `Detect` reads from outside the program.
pub record Outside : Type 0 where
  pub files : Bytes → Option Bytes
  pub exists : Bytes → Bool
  pub no_abs : Bytes → Bool
  pub getenv : Bytes → Bytes
  pub url_parse : Bytes → Option Url
  pub decode_lock : Bytes → Option Lock

-- `hasTrustedProxyPackage`
unfoldable pub has_trusted_proxy_package : Outside → Bytes → Bool
unfolding trusted
has_trusted_proxy_package o dir =
    in_lock_file o.decode_lock (o.files (dir ++ codes "/composer.lock"))

-- The closure `get` of `Detect`: the process environment goes before `.env`.
unfoldable pub setting : Outside → File → Bytes → Bytes
setting o env key = let v = o.getenv key in if equal v [] then (get env.lines key).0 else v

abbrev reverb_for : Outside → File → Option Url
reverb_for o env =
    if not (equal (setting o env (codes "REVERB_APP_KEY")) [])
      || equal (setting o env (codes "BROADCAST_CONNECTION")) (codes "reverb")
    then some (local_url (int_or (setting o env (codes "REVERB_SERVER_PORT")) 8080))
    else none

abbrev pub project_at : Outside → Bytes → File → Outcome Url → Outcome Project
project_at o dir env (ok app) = ok (record {
  dir = dir;
  env = env;
  app_url = setting o env (codes "APP_URL");
  app_upstream = app;
  vite_upstream = local_url (int_or (setting o env (codes "VITE_PORT")) 5173);
  reverb_upstream = reverb_for o env;
  static_domain = strip_scheme (setting o env (codes "NGROK_TUNNEL_URL"));
  config_cached = o.exists (dir ++ codes "/bootstrap/cache/config.php");
  trusted_proxy_package = has_trusted_proxy_package o dir;
})
project_at o dir env (err e) = err e
project_at o dir env dead = dead

abbrev pub with_env : Outside → Bytes → Option Bytes → Outcome Project
with_env o dir none = err (cannot_read (dir ++ codes "/.env"))
with_env o dir (some content) =
    let env : File = record { path = dir ++ codes "/.env"; lines = parse content } in
    project_at o dir env (
      derive_app_upstream o.url_parse (setting o env (codes "APP_URL"))
        (setting o env (codes "APP_PORT")))

-- `Detect`
unfoldable pub detect : Outside → Bytes → Outcome Project
detect o dir =
    if o.no_abs dir
    then err (no_directory dir)
    else if not (o.exists (dir ++ codes "/artisan"))
    then err (no_artisan dir)
    else with_env o dir (o.files (dir ++ codes "/.env"))
