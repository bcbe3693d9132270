-- ===== src/Proxy/Respond.antt =====
-- internal/proxy/proxy.go: the in-flight fixes of responses. Reading a file is a parameter of each
-- run, `files`: the bytes that `os.ReadFile` returns, or none for an error.
pub mod Frame
pub mod Page
use localhoist.Common.{
  ℕ, Bool, true, false, not, ◌&&◌, ◌||◌, Option, none, some, List, [], ◌∷◌, ◌++◌, Bytes, codes,
  equal, if◌then◌else◌, length, ◌==◌,
}
use localhoist.Common.Text.{contains, trim_space, itoa}
use localhoist.Common.Http.{Url, Header, get_header, set_header, split_host_port}
use localhoist.Proxy.{Name, reverb, vite, app, Config, Request, has_target}
use localhoist.Proxy.Forward.{forwarded_host, forwarded_proto}
use localhoist.Rewrite.{vite_client, reverb_env, html}

-- `http.Response`. A body of `none` is one whose reading fails.
pub record Response : Type 0 where
  pub status : ℕ
  pub header : Header
  pub body : Option Bytes
  -- `ContentLength`, where none stands for the -1 of an unknown one.
  pub length : Option ℕ
  pub request : Request

abbrev pub content_length : Bytes
content_length = codes "Content-Length"

-- `swapBody`: on a failed read the body is empty, and the length is left as it was.
unfoldable pub swap_body : Response → (Bytes → Bytes × Bool) → Response
swap_body resp fn = elim resp.body [
  | none ↦ record resp { body = some [] }
  | some body ↦
      let out = (fn body).0 in
      record resp {
        body = some out;
        length = some (localhoist.Common.length out);
        header = set_header resp.header content_length (itoa (localhoist.Common.length out));
      }
]

abbrev trimmed : Option Bytes → Bytes
trimmed none = []
trimmed (some text) = trim_space text

-- `hotOrigin`
unfoldable pub hot_origin : Config → (Bytes → Option Bytes) → Bytes
hot_origin cfg files = if equal cfg.hot_file [] then [] else trimmed (files cfg.hot_file)

-- `publicOrigin`
unfoldable pub public_origin : Request → Bytes
public_origin out =
    let host = get_header out.header forwarded_host in
    let scheme = get_header out.header forwarded_proto in
    if equal host []
    then []
    else (if equal scheme [] then codes "http" else scheme) ++ (codes "://" ++ host)

abbrev host_or : Bytes → Option (Bytes × Bytes) → Bytes
host_or host none = host
host_or host (some (name, port)) = name

-- `publicHostname`
unfoldable pub public_hostname : Request → Bytes
public_hostname out =
    let host = get_header out.header forwarded_host in host_or host (split_host_port host)

abbrev is_vite : Name → Bool
is_vite vite = true
is_vite _ = false

abbrev is_app : Name → Bool
is_app app = true
is_app _ = false

fix_module : Response → Response
fix_module resp =
    let host = public_hostname resp.request in
    if equal host [] then resp else swap_body resp (λ body. reverb_env body host)

pub fix_page : Config → (Bytes → Option Bytes) → Response → Response
fix_page cfg files resp =
    let hot = hot_origin cfg files in
    let origin = public_origin resp.request in
    if equal hot [] || equal origin [] then resp else swap_body resp (λ body. html body hot origin)

-- The switch of `rewriteResponse`.
pub fix : Config → (Bytes → Option Bytes) → Name → Response → Response
fix cfg files name resp =
    let content_type = get_header resp.header (codes "Content-Type") in
    if is_vite name && equal resp.request.path (codes "/@vite/client")
    then swap_body resp vite_client
    else if is_vite name && (has_target cfg.reverb && contains content_type (codes "javascript"))
    then fix_module resp
    else if is_app name && contains content_type (codes "text/html")
    then fix_page cfg files resp
    else resp

-- `rewriteResponse`, without its log line.
unfoldable pub rewrite_response : Config → (Bytes → Option Bytes) → Name → Response → Response
rewrite_response cfg files name resp =
    if not (resp.status == 200)
      || not (equal (get_header resp.header (codes "Content-Encoding")) [])
    then resp
    else fix cfg files name resp
