-- ===== src/Tunnel/Opened.antt =====
-- What can be the URL of a tunnel, by its transport.
use localhoist.Common.{ℕ, ◌≡◌, ◌≢◌, ◌⊎◌, true, Option, [], Bytes}
use localhoist.Common.Text.{lacks}
use localhoist.Config.{cloudflare, ngrok}
use localhoist.Tunnel.{LineParser}
use localhoist.Tunnel.Parse.{Entry, parse_log_line}
use localhoist.Tunnel.QuickUrl.{IsQuickUrl}
use localhoist.Tunnel.Install.{Host}

-- A line of the log that the parser takes for the tunnel's URL.
abbrev pub IsLogged : LineParser → Bytes → Type 0
IsLogged parse u = (line : Bytes) × ((parse line).0 ≡ u) × (u ≢ [])

module _ (h : Host) (decode : Bytes → Option Entry) (quote : Bytes → Bytes) (port : ℕ)
    (domain u : Bytes) where
  abbrev OpenedBy : Bytes → Type 0
  OpenedBy transport =
      ((transport ≡ cloudflare) × IsQuickUrl u × (lacks b'\n' u ≡ true))
      ⊎ ((transport ≡ ngrok) × IsLogged (parse_log_line decode) u)
