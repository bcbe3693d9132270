-- ===== src/Proxy/Tests.antt =====
-- Requests and answers in the shapes of a project with Vite and Reverb.
use localhoist.Common.{
  ◌⊎◌, ◌≢◌, ◌&&◌, ◌≡◌, ◌↔◌, refl, true, false, Option, none, some, [], Bytes, codes, equal,
}
use localhoist.Common.Text.{
  contains, has_prefix, itoa, trim_space, replace_all, replace_from, has_suffix,
}
use localhoist.Common.Http.{get_header, Url, Header, set_header}
use localhoist.Proxy.{
  is_vite_websocket, has_target, reverb, vite, app, Config, Request, new_mux, route, serve_http,
  matches,
}
use localhoist.Proxy.Routing.{IsUnder, serve_http-route, route-name, route-reverb_iff}
use localhoist.Proxy.Forward.{rewrite_request}
use localhoist.Proxy.Forward.Headers.{IsForwarded, rewrite_request-IsForwarded}
use localhoist.Proxy.Respond.{Response, rewrite_response, hot_origin}
use localhoist.Proxy.Respond.Frame.{
  IsFramed, IsKept, rewrite_response-IsFramed, rewrite_response-IsKept, rewrite_response_unread,
}
use localhoist.Proxy.Respond.Page.{rewrite_response-Replaces}
use localhoist.Rewrite.Html.{Replaces}

abbrev local : Bytes → Option Url
local host =
    some (record { scheme = codes "http"; host = host; path = []; raw_query = []; fragment = [] })

abbrev cfg : Config
cfg = record {
  app = local (codes "localhost:80");
  vite = local (codes "localhost:5173");
  reverb = local (codes "localhost:8080");
  hot_file = codes "/p/public/hot";
}

abbrev no_header : Header
no_header = λ q. []

abbrev request_for : Bytes → Header → Request
request_for path header = record {
  host = codes "t.io";
  path = path;
  target_scheme = [];
  target_host = [];
  raw_query = [];
  remote_addr = codes "127.0.0.1:50000";
  tls = false;
  header = header;
}

abbrev hmr : Request
hmr = request_for (codes "/app/x") (
    set_header (set_header no_header (codes "Upgrade") (codes "websocket"))
      (codes "Sec-Websocket-Protocol") (codes "vite-hmr"))

abbrev socket : Request
socket = request_for (codes "/app/key") no_header

serve_http-route_example : serve_http (new_mux cfg) hmr ≡ some (route (new_mux cfg) hmr).target
serve_http-route_example = serve_http-route cfg hmr

route-name_example : (route (new_mux cfg) socket).name ≡ reverb
unfolding matches has_prefix has_suffix contains equal is_vite_websocket replace_all replace_from
route-name_example = route-name cfg socket

route-reverb_iff_example : ((route (new_mux cfg) socket).name ≡ reverb) ↔ (
    (true ≡ true)
    × ((has_target cfg.vite && is_vite_websocket socket) ≡ false)
    × IsUnder (codes "/app") (codes "/app/key"))
route-reverb_iff_example = route-reverb_iff cfg socket

abbrev url : Url
url = record {
  scheme = codes "http";
  host = codes "localhost:80";
  path = [];
  raw_query = [];
  fragment = [];
}

abbrev home : Request
home = request_for (codes "/") (
    set_header (set_header no_header (codes "X-Forwarded-Proto") (codes "https"))
      (codes "X-Forwarded-Host") (codes "evil.io"))

rewrite_request-IsForwarded_example : IsForwarded app url home (rewrite_request app url home)
rewrite_request-IsForwarded_example = rewrite_request-IsForwarded app url home

abbrev hot_file : Bytes → Option Bytes
hot_file q = some (codes "http://[::1]:5173\n")

abbrev answer : Bytes → Request → Response
answer content_type r = record {
  status = 200;
  header =
      set_header (set_header no_header (codes "Content-Type") content_type) (codes "Content-Length")
        (codes "32");
  body = some (codes "<script src=http://[::1]:5173/x>");
  length = some 32;
  request = r;
}

abbrev page : Response
page = answer (codes "text/html") (rewrite_request app url home)

rewrite_response-Replaces_example :
    (out : Bytes) × ((rewrite_response cfg hot_file app page).body ≡ some out)
    × Replaces
        (hot_origin cfg hot_file)
        (codes "https://t.io")
        (codes "<script src=http://[::1]:5173/x>")
        out
unfolding equal contains has_prefix hot_origin trim_space
rewrite_response-Replaces_example =
    rewrite_response-Replaces cfg hot_file url home page (codes "<script src=http://[::1]:5173/x>")
      refl refl refl refl refl (λ e. cc) (λ e. cc) (λ e. cc)

page-IsFramed : IsFramed page
unfolding equal itoa
page-IsFramed = (codes "<script src=http://[::1]:5173/x>", refl, refl, refl)

rewrite_response-IsFramed_example : IsFramed (rewrite_response cfg hot_file app page)
rewrite_response-IsFramed_example = rewrite_response-IsFramed cfg hot_file app page page-IsFramed

rewrite_response-IsKept_example : IsKept page (rewrite_response cfg hot_file app page)
rewrite_response-IsKept_example = rewrite_response-IsKept cfg hot_file app page

abbrev client_unread : Response
client_unread =
    record (answer (codes "text/javascript") (request_for (codes "/@vite/client") no_header)) {
      body = none;
    }

rewrite_response_unread_example :
    ((client_unread.status ≡ 200)
      × (get_header client_unread.header (codes "Content-Encoding") ≡ [])
      × (rewrite_response cfg hot_file vite client_unread ≡ record client_unread { body = some [] })
      × (IsFramed (rewrite_response cfg hot_file vite client_unread) ↔ (
          (client_unread.length ≡ some 0)
          × (get_header client_unread.header (codes "Content-Length") ≡ itoa 0))))
    ⊎ (((client_unread.status ≢ 200)
          ⊎ (get_header client_unread.header (codes "Content-Encoding") ≢ []))
        × (rewrite_response cfg hot_file vite client_unread ≡ client_unread))
rewrite_response_unread_example = rewrite_response_unread cfg hot_file client_unread refl refl
