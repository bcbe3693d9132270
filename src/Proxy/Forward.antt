-- ===== src/Proxy/Forward.antt =====
-- internal/proxy/proxy.go, `newProxy`: the request that is sent on, and what the upstream can learn
-- from it. `out` begins as `httputil.ReverseProxy` makes it, without the forwarding headers.
pub mod Headers
use localhoist.Common.{
  ℕ, Bool, true, false, not, ◌&&◌, ◌||◌, Option, none, some, List, [], ◌∷◌, ◌++◌, Bytes, codes,
  equal, if◌then◌else◌, drop,
}
use localhoist.Common.Text.{has_prefix, has_suffix, contains}
use localhoist.Common.Http.{Url, Header, get_header, set_header, del_header, split_host_port}
use localhoist.Proxy.{Name, reverb, vite, app, Request}

abbrev pub forwarded_for : Bytes
forwarded_for = codes "X-Forwarded-For"

abbrev pub forwarded_host : Bytes
forwarded_host = codes "X-Forwarded-Host"

abbrev pub forwarded_proto : Bytes
forwarded_proto = codes "X-Forwarded-Proto"

abbrev pub marker : Bytes
marker = codes "X-Localhoist"

-- What `ReverseProxy` takes off before it calls `Rewrite`.
unfoldable pub outbound : Request → Request
unfolding equal
outbound r = record r {
  header =
      del_header
        (del_header (del_header (del_header r.header (codes "Forwarded")) forwarded_for)
          forwarded_host)
        forwarded_proto;
}

-- The two paths with one slash between them.
join_paths : Bytes → Bytes → Bytes
join_paths a b =
    if has_suffix a (codes "/") && has_prefix b (codes "/")
    then a ++ drop 1 b
    else if not (has_suffix a (codes "/")) && not (has_prefix b (codes "/"))
    then a ++ (codes "/" ++ b)
    else a ++ b

join_queries : Bytes → Bytes → Bytes
join_queries a b = if equal a [] || equal b [] then a ++ b else a ++ (codes "&" ++ b)

-- `ProxyRequest.SetURL`
unfoldable pub set_url : Url → Request → Request
unfolding join_paths join_queries equal
set_url target out = record out {
  path = join_paths target.path out.path;
  target_scheme = target.scheme;
  target_host = target.host;
  raw_query = join_queries target.raw_query out.raw_query;
  host = [];
}

abbrev client_header : Header → Option (Bytes × Bytes) → Header
client_header h none = del_header h forwarded_for
client_header h (some (ip, port)) = set_header h forwarded_for ip

-- `ProxyRequest.SetXForwarded`, on a request without an earlier `X-Forwarded-For`.
unfoldable pub set_x_forwarded : Request → Request → Request
unfolding equal
set_x_forwarded r out = record out {
  header =
      set_header
        (set_header (client_header out.header (split_host_port r.remote_addr)) forwarded_host
          r.host)
        forwarded_proto (if r.tls then codes "https" else codes "http");
}

-- Passes a header of the incoming request on, if it is there and not empty.
abbrev pub pass_on : Bytes → Bytes → Header → Header
pass_on name [] h = h
pass_on name (c ∷ v) h = set_header h name (c ∷ v)

-- `mayRewrite`
unfoldable pub may_rewrite : Name → Request → Bool
may_rewrite app out = contains (get_header out.header (codes "Accept")) (codes "text/html")
may_rewrite vite out = true
may_rewrite reverb out = false

abbrev keep_host : Name → Bytes → Request → Request
keep_host vite host out = out
keep_host _ host out = record out { host = host }

-- The headers that the hook sets behind `SetXForwarded`.
unfoldable pub stamp : Request → Header → Header
unfolding equal
stamp r h =
    set_header
      (set_header
        (pass_on forwarded_for (get_header r.header forwarded_for)
          (pass_on forwarded_proto (get_header r.header forwarded_proto) h))
        forwarded_host r.host)
      marker (codes "1")

abbrev pub ask_plain : Bool → Request → Request
ask_plain true out = record out {
  header = set_header out.header (codes "Accept-Encoding") (codes "identity");
}
ask_plain false out = out

-- The outgoing request behind `SetXForwarded`, and behind the headers that the hook sets then.
abbrev pub addressed : Name → Url → Request → Request
addressed name target r = set_x_forwarded r (keep_host name r.host (set_url target (outbound r)))

abbrev pub stamped : Name → Url → Request → Request
stamped name target r = record (addressed name target r) {
  header = stamp r (addressed name target r).header;
}

-- The `Rewrite` hook of the proxy of a name and a target.
unfoldable pub rewrite_request : Name → Url → Request → Request
unfolding stamp set_x_forwarded set_url outbound may_rewrite
rewrite_request name target r =
    ask_plain (may_rewrite name (stamped name target r)) (stamped name target r)
