-- ===== src/Tunnel/Tests.antt =====
-- The logs of a tunnel that opens, and of one that does not.
use localhoist.Common.{◌≡◌, ◌≢◌, refl, false, List, [], ◌∷◌, ◌++◌, Bytes, codes, equal, inl, inr}
use localhoist.Common.Text.{after_first, has_prefix, trim_space}
use localhoist.Rewrite.Matching.{rests}
use localhoist.Tunnel.{
  ProcConfig, Event, scanned, exited, at_start, run, Started, down, Selected, by_exit, exit_text,
}
use localhoist.Common.{true, not, ◌&&◌, none, some, any, if◌then◌else◌}
use localhoist.Tunnel.Install.{
  Host, ensure_binary, is_install, is_some, agrees, ensure_binary-installs,
}
use localhoist.Tunnel.Launch.{cloudflared as cloudflared_launch}
use localhoist.Tunnel.QuickFound.{parse_cloudflared_line-finds}
use localhoist.Tunnel.Parse.{parse_cloudflared_line, find}
use localhoist.Tunnel.QuickUrl.{IsQuickUrl}
use localhoist.Tunnel.Outcomes.{IsExplained, selected-IsExplained, run-Selected}

abbrev cloudflared : ProcConfig
cloudflared = record {
  name = codes "cloudflared";
  abort_on_err = false;
  exit_hint = codes "(hint)";
}

abbrev banner : Bytes
banner = codes "| https://a-b1.trycloudflare.com |"

banner_parsed : parse_cloudflared_line banner ≡ (codes "https://a-b1.trycloudflare.com", [])
unfolding parse_cloudflared_line find rests after_first has_prefix
banner_parsed = refl

error_parsed : parse_cloudflared_line (codes "2026 ERR no route ") ≡ ([], codes "no route")
unfolding parse_cloudflared_line find rests after_first has_prefix trim_space
error_parsed = refl

abbrev log : List Event
log = scanned (codes "2026 ERR no route") ∷ exited ∷ scanned banner ∷ []

abbrev result : Started
result = down (exit_text cloudflared (codes "no route")) false

chosen :
    Selected parse_cloudflared_line cloudflared
      (run cloudflared parse_cloudflared_line log at_start)
      result
unfolding run parse_cloudflared_line find rests after_first has_prefix trim_space equal
chosen = by_exit [] refl

selected-IsExplained_example : IsExplained parse_cloudflared_line cloudflared log result
selected-IsExplained_example = selected-IsExplained parse_cloudflared_line cloudflared log chosen

run-Selected_example :
    (r : Started) × Selected parse_cloudflared_line cloudflared
      (run cloudflared parse_cloudflared_line log at_start)
      r
run-Selected_example = run-Selected parse_cloudflared_line cloudflared log (inr (inl refl))

-- A terminal without cloudflared, with brew, and an empty answer.
abbrev fresh_host : Host
fresh_host = record {
  look_path = λ name. if equal name (codes "brew") then some (codes "/b/brew") else none;
  look_again = λ name. some (codes "/b/cloudflared");
  stdio_is_tty = true;
  line = some (codes "\n");
  brew_error = none;
}

ensure_binary-installs_example :
    any is_install
      (ensure_binary fresh_host (codes "cloudflared") (codes "cloudflared") (codes "hint")).0
    ≡ (not (is_some (fresh_host.look_path (codes "cloudflared")))
        && (true && (is_some (fresh_host.look_path (codes "brew")) && agrees fresh_host.line)))
ensure_binary-installs_example =
    ensure_binary-installs fresh_host (codes "cloudflared") (codes "cloudflared") (codes "hint")

quick_one : IsQuickUrl (codes "https://a-b1.trycloudflare.com")
quick_one = (codes "a-b1", refl, refl, λ e. cc)

parse_cloudflared_line-finds_example :
    (parse_cloudflared_line
      (codes "| " ++ (codes "https://a-b1.trycloudflare.com" ++ codes " |"))).0
    ≢ []
parse_cloudflared_line-finds_example =
    parse_cloudflared_line-finds (codes "| ") (codes "https://a-b1.trycloudflare.com") (codes " |")
      quick_one
