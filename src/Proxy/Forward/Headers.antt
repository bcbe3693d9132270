-- ===== src/Proxy/Forward/Headers.antt =====
-- What the upstream sees.
use localhoist.Common.{
  ◌≡◌, refl, ap, ◌∙◌, Bool, true, false, [], ◌∷◌, Bytes, codes, if◌then◌else◌, Option, none, some,
  equal,
}
use localhoist.Common.Http.{Url, Header, get_header, split_host_port}
use localhoist.Proxy.{Name, reverb, vite, app, Request}
use localhoist.Proxy.Forward.{
  forwarded_for, forwarded_host, forwarded_proto, marker, rewrite_request, ask_plain, pass_on,
  stamp, stamped, addressed, may_rewrite, client_header, set_x_forwarded,
}

-- The protocol that the edge named, or else that of the connection.
abbrev pub proto_of : Request → Bytes
proto_of r =
    let named = get_header r.header forwarded_proto in
    if equal named [] then (if r.tls then codes "https" else codes "http") else named

-- The host that the upstream is addressed by: none of its own for Vite, which stands for the
-- upstream's, and the public one for the others.
abbrev pub host_for : Name → Request → Bytes
host_for vite r = []
host_for _ r = r.host

abbrev peer : Option (Bytes × Bytes) → Bytes
peer none = []
peer (some (ip, port)) = ip

-- The client: as an edge named it, else the peer of the connection.
abbrev pub client_of : Request → Bytes
client_of r =
    let v = get_header r.header forwarded_for in
    if equal v [] then peer (split_host_port r.remote_addr) else v

-- What holds of the request that is sent on.
pub record IsForwarded (name : Name) (target : Url) (r out : Request) : Type 0 where
  pub host_is : out.host ≡ host_for name r
  pub to_target : out.target_host ≡ target.host
  pub to_scheme : out.target_scheme ≡ target.scheme
  pub public_host : get_header out.header forwarded_host ≡ r.host
  pub protocol : get_header out.header forwarded_proto ≡ proto_of r
  pub marked : get_header out.header marker ≡ codes "1"
  pub client : get_header out.header forwarded_for ≡ client_of r

-- `pass_on`, read at the name that it passes on, and at another.
pass_on_self :
    (name v : Bytes) (h : Header)
    → equal name name ≡ true
    → get_header (pass_on name v h) name ≡ (if equal v [] then get_header h name else v)
unfolding equal
pass_on_self name [] h e = refl
pass_on_self name (c ∷ v) h e = rw e refl

pass_on_other :
    (name v q : Bytes) (h : Header)
    → equal q name ≡ false
    → get_header (pass_on name v h) q ≡ get_header h q
pass_on_other name [] q h e = refl
pass_on_other name (c ∷ v) q h e = rw e refl

stamp_proto :
    (r : Request) (h : Header)
    → get_header (stamp r h) forwarded_proto ≡ (
        let v = get_header r.header forwarded_proto in
        if equal v [] then get_header h forwarded_proto else v)
unfolding stamp
stamp_proto r h =
    pass_on_other forwarded_for (get_header r.header forwarded_for) forwarded_proto
      (pass_on forwarded_proto (get_header r.header forwarded_proto) h) refl
    ∙ pass_on_self forwarded_proto (get_header r.header forwarded_proto) h refl

client_header_for :
    (h : Header) (who : Option (Bytes × Bytes))
    → get_header (client_header h who) forwarded_for ≡ peer who
unfolding equal
client_header_for h none = refl
client_header_for h (some (ip, port)) = refl

addressed_for :
    (name : Name) (target : Url) (r : Request)
    → get_header (addressed name target r).header forwarded_for
      ≡ peer (split_host_port r.remote_addr)
unfolding set_x_forwarded equal
addressed_for name target r = client_header_for _ (split_host_port r.remote_addr)

stamp_for :
    (name : Name) (target : Url) (r : Request)
    → get_header (stamp r (addressed name target r).header) forwarded_for ≡ client_of r
unfolding stamp
stamp_for name target r =
    let v = get_header r.header forwarded_for in
    let h = (addressed name target r).header in
    pass_on_self forwarded_for v (pass_on forwarded_proto (get_header r.header forwarded_proto) h)
      refl
    ∙ ap (λ (x : Bytes). if equal v [] then x else v)
        (pass_on_other forwarded_proto (get_header r.header forwarded_proto) forwarded_for h refl
          ∙ addressed_for name target r)

-- The request for an upstream, before `Accept-Encoding` is set.
IsForwarded-ask_plain :
    (b : Bool) (name : Name) (target : Url) (r out : Request)
    → IsForwarded name target r out
    → IsForwarded name target r (ask_plain b out)
unfolding equal
IsForwarded-ask_plain true name target r out f = record {
  host_is = f.host_is;
  to_target = f.to_target;
  to_scheme = f.to_scheme;
  public_host = f.public_host;
  protocol = f.protocol;
  marked = f.marked;
  client = f.client;
}
IsForwarded-ask_plain false name target r out f = f

stamped-IsForwarded :
    (name : Name) (target : Url) (r : Request) → IsForwarded name target r (stamped name target r)
unfolding rewrite_request
stamped-IsForwarded vite target r = record {
  host_is = refl;
  to_target = refl;
  to_scheme = refl;
  public_host = refl;
  protocol = stamp_proto r (addressed vite target r).header;
  marked = refl;
  client = stamp_for vite target r;
}
stamped-IsForwarded app target r = record {
  host_is = refl;
  to_target = refl;
  to_scheme = refl;
  public_host = refl;
  protocol = stamp_proto r (addressed app target r).header;
  marked = refl;
  client = stamp_for app target r;
}
stamped-IsForwarded reverb target r = record {
  host_is = refl;
  to_target = refl;
  to_scheme = refl;
  public_host = refl;
  protocol = stamp_proto r (addressed reverb target r).header;
  marked = refl;
  client = stamp_for reverb target r;
}

-- The upstream sees the public host whatever the client put into X-Forwarded-Host; the protocol
-- and the client are those that an edge named in X-Forwarded-Proto and X-Forwarded-For, else those
-- of the connection; the request goes to the host of the target, by the target's scheme, and
-- carries the marker. Vite is addressed by its own host, the app and Reverb by the public one.
pub rewrite_request-IsForwarded :
    (name : Name) (target : Url) (r : Request)
    → IsForwarded name target r (rewrite_request name target r)
unfolding rewrite_request
rewrite_request-IsForwarded name target r =
    IsForwarded-ask_plain (may_rewrite name (stamped name target r)) name target r
      (stamped name target r) (stamped-IsForwarded name target r)
