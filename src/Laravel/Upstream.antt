-- ===== src/Laravel/Upstream.antt =====
-- The local addresses that the project's settings name.
use localhoist.Common.{
  ℕ, ◌≡◌, ◌≢◌, refl, sym, ap, ◌∙◌, true, false, ◌&&◌, Option, some, [], ◌∷◌, ◌++◌, Bytes, codes,
  equal, equal_iff, equal_ne, arith, if◌then◌else◌, inl, inr, all, Bool-cases,
}
use localhoist.Common.Text.{has_prefix, has_suffix, is_digit, itoa, itoa-is_digit}
use localhoist.Common.Http.{
  Url, hostname, port_of, split_last, has_byte, split_last-append, cut_port, unbracket,
}
use localhoist.Common.Disk.{ok}
use localhoist.Laravel.{local_url, is_local_hostname, upstream_host, derive_app_upstream}

no_colon_of_digits : (s : Bytes) → all is_digit s ≡ true → has_byte b':' s ≡ false
no_colon_of_digits [] h = refl
no_colon_of_digits (c ∷ s) h = ground (arith, no_colon_of_digits s)

-- A host with a port behind it: the port is what stands behind the last colon, if that is digits.
port_of-host :
    (u : Url) (name port : Bytes)
    → u.host ≡ name ++ (codes ":" ++ port)
    → all is_digit port ≡ true
    → port_of u ≡ port
unfolding port_of
port_of-host u name port e digits =
    ap (λ h. (cut_port h (split_last b':' h)).1) e
    ∙ rw (split_last-append b':' name port (no_colon_of_digits port digits)) (rw digits refl)

hostname-host :
    (u : Url) (name port : Bytes)
    → u.host ≡ name ++ (codes ":" ++ port)
    → all is_digit port ≡ true
    → hostname u ≡ unbracket name
unfolding hostname
hostname-host u name port e digits =
    ap (λ h. unbracket (cut_port h (split_last b':' h)).0) e
    ∙ rw (split_last-append b':' name port (no_colon_of_digits port digits)) (rw digits refl)

unbracket_localhost : unbracket (codes "localhost") ≡ codes "localhost"
unfolding has_prefix has_suffix
unbracket_localhost = refl

unbracket_loopback : unbracket (codes "127.0.0.1") ≡ codes "127.0.0.1"
unfolding has_prefix has_suffix
unbracket_loopback = refl

unbracket_any : unbracket (codes "0.0.0.0") ≡ codes "0.0.0.0"
unfolding has_prefix has_suffix
unbracket_any = refl

unbracket_local : (name : Bytes) → is_local_hostname name ≡ true → unbracket name ≡ name
unfolding is_local_hostname
unbracket_local name h = elim (Bool-cases (equal name (codes "localhost"))) [
  | inl e ↦ rw ((equal_iff name (codes "localhost")).0 e) unbracket_localhost
  | inr other ↦ elim (Bool-cases (equal name (codes "127.0.0.1"))) [
    | inl e ↦ rw ((equal_iff name (codes "127.0.0.1")).0 e) unbracket_loopback
    | inr another ↦ rw ((equal_iff name (codes "0.0.0.0")).0 (ground arith)) unbracket_any
  ]
]

-- The port of `APP_URL`, and `APP_PORT` where it has none and its host is a local one.
abbrev pub expected_port : Url → Bytes → Bytes
expected_port u app_port =
    if equal (port_of u) [] && is_local_hostname (hostname u) then app_port else port_of u

hostname_same : (u v : Url) → v.host ≡ u.host → hostname v ≡ hostname u
unfolding hostname
hostname_same u v e = ap (λ h. unbracket (cut_port h (split_last b':' h)).0) e

port_of_same : (u v : Url) → v.host ≡ u.host → port_of v ≡ port_of u
unfolding port_of
port_of_same u v e = ap (λ h. (cut_port h (split_last b':' h)).1) e

upstream_port_kept :
    (u v : Url) (app_port : Bytes)
    → v.host ≡ u.host
    → expected_port u app_port ≡ port_of u
    → (hostname v ≡ hostname u) × (port_of v ≡ expected_port u app_port)
upstream_port_kept u v app_port e same = (hostname_same u v e, port_of_same u v e ∙ sym same)

upstream_port :
    (u v : Url) (app_port : Bytes)
    → all is_digit app_port ≡ true
    → v.host ≡ upstream_host u app_port
    → (hostname v ≡ hostname u) × (port_of v ≡ expected_port u app_port)
unfolding upstream_host
upstream_port u v app_port digits e = elim (Bool-cases (equal (port_of u) [])) [
  | inr given ↦ upstream_port_kept u v app_port (e ∙ rw given refl) (rw given refl)
  | inl empty ↦ elim (Bool-cases (is_local_hostname (hostname u))) [
    | inr foreign ↦
        upstream_port_kept u v app_port (e ∙ rw (empty, foreign) (ground arith))
          (rw (empty, foreign) refl)
    | inl near ↦ elim (Bool-cases (equal app_port [])) [
      | inl unset ↦ upstream_port_kept u v app_port (e ∙ rw (empty, near, unset) refl) (
          rw (empty, near)
            ((equal_iff app_port []).0 unset ∙ sym ((equal_iff (port_of u) []).0 empty)))
      | inr given ↦
          let host : v.host ≡ hostname u ++ (codes ":" ++ app_port) =
            e ∙ rw (empty, near, given) refl in
          (
            hostname-host v (hostname u) app_port host digits ∙ unbracket_local (hostname u) near,
            port_of-host v (hostname u) app_port host digits ∙ rw (empty, near) refl,
          )
    ]
  ]
]

-- When url.Parse reads APP_URL, with a host in it, and APP_PORT is digits or absent, the app's
-- upstream speaks plain HTTP to the host of APP_URL, with no path, query or fragment; its port is
-- that of APP_URL if that has one, else APP_PORT if the host is a local one, and else there is
-- none.
pub derive_app_upstream-expected_port :
    (url_parse : Bytes → Option Url) (app_url app_port : Bytes) (u : Url)
    → app_url ≢ []
    → url_parse app_url ≡ some u
    → u.host ≢ []
    → all is_digit app_port ≡ true
    → (v : Url) × (derive_app_upstream url_parse app_url app_port ≡ ok v)
      × (v.scheme ≡ codes "http")
      × (hostname v ≡ hostname u)
      × (port_of v ≡ expected_port u app_port)
      × (v.path ≡ [])
      × (v.raw_query ≡ [])
      × (v.fragment ≡ [])
unfolding derive_app_upstream
derive_app_upstream-expected_port url_parse app_url app_port u set_ parsed host digits =
    let v : Url = record {
      scheme = codes "http";
      host = upstream_host u app_port;
      path = [];
      raw_query = [];
      fragment = [];
    } in
    let (name, port) = upstream_port u v app_port digits refl in
    (
      v,
      rw (equal_ne app_url [] set_, parsed, equal_ne u.host [] host) refl,
      refl,
      name,
      port,
      refl,
      refl,
      refl,
    )

-- The local address of a port is at 127.0.0.1, and `Port` reads the port back, whatever it is.
pub port_of-local_url :
    (n : ℕ) → (hostname (local_url n) ≡ codes "127.0.0.1") × (port_of (local_url n) ≡ itoa n)
unfolding local_url
port_of-local_url n = (
  hostname-host (local_url n) (codes "127.0.0.1") (itoa n) refl (itoa-is_digit n)
      ∙ unbracket_loopback,
  port_of-host (local_url n) (codes "127.0.0.1") (itoa n) refl (itoa-is_digit n),
)
