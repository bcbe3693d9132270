-- ===== src/Proxy/Respond/Page.antt =====
-- From the browser's request to the page that it gets: the origin that pages are pointed to.
use localhoist.Common.{
  ℕ, ◌≡◌, ◌≢◌, ◌⊎◌, refl, sym, ap, ◌∙◌, Bool, true, false, Option, some, [], ◌∷◌, ◌++◌, Bytes,
  codes, equal, equal_iff, equal_ne, Bool-cases, inl, inr, arith, if◌then◌else◌,
}
use localhoist.Common.Text.{contains}
use localhoist.Common.Http.{Url, get_header}
use localhoist.Proxy.{Name, app, Config, Request}
use localhoist.Proxy.Forward.{forwarded_proto, rewrite_request}
use localhoist.Proxy.Forward.Headers.{proto_of, rewrite_request-IsForwarded}
use localhoist.Proxy.Respond.{
  Response, swap_body, fix, fix_page, rewrite_response, hot_origin, public_origin,
}
use localhoist.Rewrite.{html}
use localhoist.Rewrite.Html.{IsClear, Replaces, none_left, html_parts}

proto_of-ne-nil : (r : Request) → equal (proto_of r) [] ≡ false
unfolding equal
proto_of-ne-nil r = elim (Bool-cases (equal (get_header r.header forwarded_proto) [])) [
  | inl silent ↦ rw silent (if_https r.tls)
  | inr named ↦ rw (named, named) refl
]
  where
    if_https : (b : Bool) → equal (if b then codes "https" else codes "http") [] ≡ false
    if_https true = refl
    if_https false = refl

-- Behind the mux the public origin is read back as the browser used it: the protocol that the edge
-- named, or that of the connection, and the host of the request, which is not empty.
pub public_origin-rewrite_request :
    (name : Name) (target : Url) (r : Request)
    → r.host ≢ []
    → public_origin (rewrite_request name target r) ≡ proto_of r ++ (codes "://" ++ r.host)
unfolding public_origin
public_origin-rewrite_request name target r given =
    let f = rewrite_request-IsForwarded name target r in
    rw (f.public_host, f.protocol, equal_ne r.host [] given, proto_of-ne-nil r) refl

page_swapped :
    (cfg : Config) (files : Bytes → Option Bytes) (resp : Response)
    → resp.status ≡ 200
    → get_header resp.header (codes "Content-Encoding") ≡ []
    → contains (get_header resp.header (codes "Content-Type")) (codes "text/html") ≡ true
    → hot_origin cfg files ≢ []
    → public_origin resp.request ≢ []
    → rewrite_response cfg files app resp
      ≡ swap_body resp (λ body. html body (hot_origin cfg files) (public_origin resp.request))
unfolding rewrite_response fix fix_page
page_swapped cfg files resp success plain page hot public = ground (
  arith,
  equal_iff (get_header resp.header (codes "Content-Encoding")) [],
  equal_iff (hot_origin cfg files) [],
  equal_iff (public_origin resp.request) [],
)

swap_body_read :
    (resp : Response) (fn : Bytes → Bytes × Bool) {body : Bytes}
    → resp.body ≡ some body
    → (swap_body resp fn).body ≡ some (fn body).0
unfolding swap_body
swap_body_read resp fn read = rw (read, swap_body) refl

html_replaced :
    (body hot public : Bytes)
    → hot ≢ []
    → hot ≢ public
    → Replaces hot public body (html body hot public).0
html_replaced body hot public given other =
    let (done, left) = html_parts body hot public in
    elim (Bool-cases (html body hot public).1) [
      | inl replaced ↦ done replaced
      | inr same ↦ unchanged (left same)
    ]
  where
    unchanged :
        ((html body hot public).0 ≡ body) × ((hot ≡ []) ⊎ (hot ≡ public) ⊎ IsClear hot body [])
        → Replaces hot public body (html body hot public).0
    unchanged (e, inl empty) = absurd (given empty)
    unchanged (e, inr (inl equals)) = absurd (other equals)
    unchanged (e, inr (inr clear)) = none_left e clear

append-ne-nil : (a : Bytes) (c : ℕ) (b : Bytes) → a ++ (c ∷ b) ≢ []
append-ne-nil [] c b e = cc
append-ne-nil (d ∷ a) c b e = cc

-- A page of the app comes out with every occurrence of the dev server's origin replaced by the
-- origin that the browser used, and otherwise as it was. Assumed: the answer is a plain 200 page
-- whose body can be read, to a request that the mux sent on; the request has a host; Vite is
-- running, on another origin.
pub rewrite_response-Replaces :
    (cfg : Config) (files : Bytes → Option Bytes) (target : Url) (r : Request) (resp : Response)
    (body : Bytes)
    → resp.request ≡ rewrite_request app target r
    → resp.status ≡ 200
    → get_header resp.header (codes "Content-Encoding") ≡ []
    → contains (get_header resp.header (codes "Content-Type")) (codes "text/html") ≡ true
    → resp.body ≡ some body
    → r.host ≢ []
    → hot_origin cfg files ≢ []
    → hot_origin cfg files ≢ proto_of r ++ (codes "://" ++ r.host)
    → (out : Bytes) × ((rewrite_response cfg files app resp).body ≡ some out)
      × Replaces (hot_origin cfg files) (proto_of r ++ (codes "://" ++ r.host)) body out
rewrite_response-Replaces cfg files target r resp body sent success plain page read host hot other =
    let hot_now = hot_origin cfg files in
    let origin = proto_of r ++ (codes "://" ++ r.host) in
    let public : public_origin resp.request ≡ origin =
      ap public_origin sent ∙ public_origin-rewrite_request app target r host in
    let swapped =
      page_swapped cfg files resp success plain page hot
        (λ e. append-ne-nil (proto_of r) b':' (codes "//" ++ r.host) (sym public ∙ e)) in
    (
      (html body hot_now origin).0,
      ap (λ x. x.body) swapped
          ∙ swap_body_read resp (λ b. html b hot_now (public_origin resp.request)) read
          ∙ ap (λ (p : Bytes). some (html body hot_now p).0) public,
      html_replaced body hot_now origin hot other,
    )
