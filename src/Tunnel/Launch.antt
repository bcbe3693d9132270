-- ===== src/Tunnel/Launch.antt =====
-- internal/tunnel/cloudflare.go, ngrok.go and tunnel.go: what is run for a transport, and what
-- `Start` makes of the result.
use localhoist.Common.{
  ℕ, ◌≡◌, true, false, Option, List, [], ◌∷◌, ◌++◌, Bytes, codes, equal, if◌then◌else◌,
}
use localhoist.Common.Text.{itoa}
use localhoist.Tunnel.{LineParser, ProcConfig, Event, Started, up, down, Selected, at_start, run}
use localhoist.Tunnel.Parse.{Entry, parse_cloudflared_line, parse_log_line, needs_auth_guidance}
use localhoist.Config.{cloudflare, ngrok}
use localhoist.Tunnel.Install.{Host, at, missing, ensure_binary}

-- A process to be started: its arguments, the parser of its log, and its configuration.
pub record Launch : Type 0 where
  pub args : List Bytes
  pub parse : LineParser
  pub config : ProcConfig

abbrev local_target : ℕ → Bytes
local_target port = codes "127.0.0.1:" ++ itoa port

-- What `StartCloudflared` starts.
unfoldable pub cloudflared : ℕ → Launch
unfolding itoa parse_cloudflared_line
cloudflared port =
    let target = codes "http://" ++ local_target port in
    record {
      args = codes "tunnel" ∷ (codes "--url" ∷ (target ∷ (codes "--no-autoupdate" ∷ [])));
      parse = parse_cloudflared_line;
      config = record {
        name = codes "cloudflared";
        abort_on_err = false;
        exit_hint =
            codes "(run `cloudflared tunnel --url " ++ (target ++ codes "` manually to see why)");
      };
    }

abbrev domain_arg : Bytes → List Bytes
domain_arg domain = if equal domain [] then [] else (codes "--domain=" ++ domain) ∷ []

-- What `StartNgrok` starts; `decode` is its `json.Unmarshal`.
unfoldable pub ngrok_agent : (Bytes → Option Entry) → ℕ → Bytes → Launch
unfolding itoa parse_log_line
ngrok_agent decode port domain = record {
  args =
      codes "http"
      ∷ (codes "--log"
          ∷ (codes "stdout"
              ∷ (codes "--log-format"
                  ∷ (codes "json" ∷ (domain_arg domain ++ local_target port ∷ [])))));
  parse = parse_log_line decode;
  config = record {
    name = codes "ngrok";
    abort_on_err = true;
    exit_hint = codes "(run `ngrok http " ++ (itoa port ++ codes "` manually to see why)");
  };
}

-- The guidance of `StartNgrok`, for an agent without an account.
abbrev guidance : Bytes
guidance =
    codes
      "\n\n  ngrok needs a (free) account:\n    1. sign up:  https://dashboard.ngrok.com/signup\n    2. then run: ngrok config add-authtoken <your-token>"

abbrev pub guided : Started → Started
guided (up url) = up url
guided (down e stopped) = down (if needs_auth_guidance e then e ++ guidance else e) stopped

abbrev pub cloudflared_hint : Bytes
cloudflared_hint =
    codes
      "install it:\n      brew install cloudflared\n      or https://developers.cloudflare.com/cloudflare-one/connections/connect-networks/downloads/\n  (or use ngrok instead: localhoist --transport ngrok)"

abbrev pub ngrok_hint : Bytes
ngrok_hint =
    codes
      "install it:\n      brew install ngrok\n      or https://ngrok.com/download\n  (or use the default transport: localhoist --transport cloudflare)"

-- What `Start` may return. The events are those of the process, of its log and of the clock;
-- `quote` is `strconv.Quote`.
pub data Opens (h : Host) (decode : Bytes → Option Entry) (quote : Bytes → Bytes) (port : ℕ)
    (domain : Bytes) : Bytes → Started → Type 0 where
  quick :
      {path : Bytes} {r : Started} (events : List Event)
      → (ensure_binary h (codes "cloudflared") (codes "cloudflared") cloudflared_hint).1 ≡ at path
      → Selected
          (cloudflared port).parse
          (cloudflared port).config
          (run (cloudflared port).config (cloudflared port).parse events at_start)
          r
      → Opens h decode quote port domain cloudflare r
  no_quick :
      {e : Bytes}
      → (ensure_binary h (codes "cloudflared") (codes "cloudflared") cloudflared_hint).1 ≡ missing e
      → Opens h decode quote port domain cloudflare (down e false)
  agent :
      {path : Bytes} {r : Started} (events : List Event)
      → (ensure_binary h (codes "ngrok") (codes "ngrok") ngrok_hint).1 ≡ at path
      → Selected
          (ngrok_agent decode port domain).parse
          (ngrok_agent decode port domain).config
          (run
            (ngrok_agent decode port domain).config
            (ngrok_agent decode port domain).parse
            events
            at_start)
          r
      → Opens h decode quote port domain ngrok (guided r)
  no_agent :
      {e : Bytes}
      → (ensure_binary h (codes "ngrok") (codes "ngrok") ngrok_hint).1 ≡ missing e
      → Opens h decode quote port domain ngrok (down e false)
  -- The binary is there, and its process cannot be started.
  not_started :
      {path : Bytes} (e : Bytes)
      → (ensure_binary h (codes "cloudflared") (codes "cloudflared") cloudflared_hint).1 ≡ at path
      → Opens h decode quote port domain cloudflare (down e false)
  no_process :
      {path : Bytes} (e : Bytes)
      → (ensure_binary h (codes "ngrok") (codes "ngrok") ngrok_hint).1 ≡ at path
      → Opens h decode quote port domain ngrok (guided (down e false))
  neither :
      (transport : Bytes)
      → equal transport cloudflare ≡ false
      → equal transport ngrok ≡ false
      → Opens h decode quote port domain transport
          (down (codes "unknown transport " ++ quote transport) false)
