-- ===== src/Laravel/Tests.antt =====
-- The settings of a project in the shapes that Laravel and Sail write.
use localhoist.Common.{◌≡◌, refl, true, some, [], codes, equal, inr, arith}
use localhoist.Common.Text.{itoa, has_prefix, has_suffix}
use localhoist.Common.Disk.{ok}
use localhoist.Common.Http.{Url, hostname, port_of, split_last}
use localhoist.Laravel.{version_at_least, derive_app_upstream, is_local_hostname}
use localhoist.Laravel.Version.{version_at_least-at_least}
use localhoist.Laravel.Upstream.{derive_app_upstream-expected_port}

version_at_least-at_least_example :
    (version_at_least (codes "0.2.1") 0 2 ≡ true) × (version_at_least (codes "v0.2.1") 0 2 ≡ true)
unfolding itoa
version_at_least-at_least_example =
    version_at_least-at_least 0 2 0 2 (codes ".1") (inr (codes "1", refl)) (omega arith)
      (omega arith)

abbrev parsed : Url
parsed = record {
  scheme = codes "https";
  host = codes "localhost";
  path = codes "/x";
  raw_query = [];
  fragment = [];
}

derive_app_upstream-expected_port_example :
    (v : Url) × (derive_app_upstream (λ s. some parsed) (codes "https://localhost/x") (codes "8000")
      ≡ ok v)
    × (v.scheme ≡ codes "http")
    × (hostname v ≡ codes "localhost")
    × (port_of v ≡ codes "8000")
    × (v.path ≡ [])
    × (v.raw_query ≡ [])
    × (v.fragment ≡ [])
unfolding equal hostname port_of is_local_hostname has_prefix has_suffix split_last
derive_app_upstream-expected_port_example =
    derive_app_upstream-expected_port (λ s. some parsed) (codes "https://localhost/x")
      (codes "8000") parsed (λ e. cc) refl (λ e. cc) refl
