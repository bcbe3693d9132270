-- ===== src/Command/Run.antt =====
-- cmd/localhoist/main.go: `run`, behind the parsing of its flags. What it gets from outside is a
-- parameter: the environment, the terminal, the listener, the tunnel, and what ends its waits.
pub mod Walk
pub mod Ready
pub mod Arm
pub mod Patched
pub mod Steady
pub mod Start
pub mod Crash
pub mod Runs
pub mod Settled
pub mod Still
pub mod Ended
pub mod Stages
pub mod Whole
pub mod Stopping
pub mod Stops
pub mod Asked
mod Tests
use localhoist.Common.{
  ℕ, Bool, true, false, not, ◌&&◌, ◌||◌, Option, none, some, List, [], ◌∷◌, ◌++◌, Bytes, codes,
  equal, if◌then◌else◌,
}
use localhoist.Common.Text.{to_lower, trim_space}
use localhoist.Common.Http.{Url}
use localhoist.Common.Disk.{
  World, Tree, Entry, Error, Outcome, ok, err, dead, is_panic, bad_flag, cannot_listen, no_tunnel,
  tunnel_exited,
}
use localhoist.EnvFile.{File, save, set}
use localhoist.EnvFile.State
use localhoist.EnvFile.State.{State, save_state}
use localhoist.Laravel.{Project, Outside, detect}
use localhoist.Config
use localhoist.Config.{
  Resolution, resolve, finalize, cloudflare, default_transport, transport_key, global_path,
  project_path,
}
use localhoist.Proxy
use localhoist.Proxy.{routes}
use localhoist.Tunnel.{Started, up, down}
use localhoist.Command.Patch.{app_url, recover}
use localhoist.Command.Banner.{banner, may_ask}
use localhoist.Command.Session.{
  S, Session, say, say_all, effect, lift, give, pure, remember, cleanup, with_cleanup, then_in,
  on_disk, ◌>>=◌, ◌>>◌, version_text, left_over, transport_note, starting, make_default, not_saved,
  now_default, keeping, ctrl_c,
}

-- The flags, by their values behind `flag.Parse`.
pub record Flags : Type 0 where
  pub dir : Bytes
  pub transport : Bytes
  pub domain : Bytes
  pub app : Bytes
  pub no_qr : Bool
  pub no_patch : Bool
  pub force_patch : Bool
  pub show_version : Bool

-- What ends a wait: a signal, or the end of the tunnel's process; at the prompt also an answer.
pub data Ending : Type 0 where
  signalled : Ending
  tunnel_gone : Bytes → Ending

pub data Input : Type 0 where
  answered : Bytes → Input
  ended : Ending → Input

-- What a run meets. `unreadable` are the files whose reading fails though they are there, `no_abs`
-- the directories at which `filepath.Abs` fails;
-- `open_tunnel` is `tunnel.Start`, of which `Tunnel` models the process.
pub record Surroundings : Type 0 where
  pub getenv : Bytes → Bytes
  pub home : Option Bytes
  pub url_parse : Bytes → Option Url
  pub decode_lock : Bytes → Option localhoist.Laravel.Lock
  pub unreadable : Bytes → Bool
  pub no_abs : Bytes → Bool
  pub listen : Option ℕ
  pub open_tunnel : Bytes → ℕ → Bytes → Started
  pub is_tty : Bool
  pub at_prompt : Input
  pub at_wait : Ending
  pub states : localhoist.EnvFile.State.Codec
  pub settings : localhoist.Config.Codec

-- `transportLabel`
abbrev pub transport_label : Bytes → Bytes
transport_label transport =
    if equal transport cloudflare then codes "Cloudflare quick" else transport

abbrev pub readable : Bool → Option Entry → Option Bytes
readable true _ = none
readable false none = none
readable false (some e) = some e.content

abbrev pub is_there : Option Entry → Bool
is_there none = false
is_there (some e) = true

abbrev pub env_path : Flags → Bytes
env_path fl = fl.dir ++ codes "/.env"

module _ (o : Surroundings) where
  -- The files, as `Detect` can read them.
  abbrev pub outside_at : Tree → Outside
  outside_at t = record {
    files = λ p. readable (o.unreadable p) (t p);
    exists = λ p. is_there (t p);
    no_abs = o.no_abs;
    getenv = o.getenv;
    url_parse = o.url_parse;
    decode_lock = o.decode_lock;
  }

  abbrev pub settings_path : Bytes
  settings_path = global_path (o.getenv (codes "XDG_CONFIG_HOME")) o.home

  abbrev pub detect_project : Bytes → S Project
  detect_project dir s = (detect (outside_at s.world.tree) dir, s)

  abbrev pub with_host : Bytes → Project → Option Url → Outcome Project
  with_host app project none = err (bad_flag app)
  with_host app project (some u) =
      if equal u.host [] then err (bad_flag app) else ok (record project { app_upstream = u })

  -- `--app`
  unfoldable pub override_app : Bytes → Project → Outcome Project
  override_app app project =
      if equal app [] then ok project else with_host app project (o.url_parse app)

  -- The patch of `.env`. `state` is set as soon as the sidecar file is written.
  abbrev pub save_patched : File → List Bytes × Bool → S Bool
  save_patched env (lines, true) = lift (save (record env { lines = lines })) >> pure true
  save_patched env (lines, false) = pure false

  unfoldable pub patch : Bool → File → Bytes → S Bool
  unfolding save_state set save
  patch false env url = pure false
  patch true env url = do
    st ← lift (save_state o.states env (app_url ∷ []))
    remember st
    save_patched env (set env.lines app_url url)

  -- The answer at the prompt, and what `Set` made of it. A panic of `Set` is not handled.
  abbrev pub choice : Bytes → Bytes → Bytes
  choice transport line =
      let ans = to_lower (trim_space line) in
      if equal ans (codes "y") || equal ans (codes "yes") then transport else default_transport

  abbrev pub tell_saved :
      Bytes → Bytes → Outcome (Unit {0}) × Session → Outcome (Unit {0}) × Session
  tell_saved transport chosen (ok u, s) =
      say (if equal chosen transport then now_default chosen else keeping chosen) s
  tell_saved transport chosen (err e, s) = if is_panic e then (err e, s) else say (not_saved e) s
  tell_saved transport chosen (dead, s) = (dead, s)

  unfoldable pub save_choice : Bytes → Bytes → S (Unit {0})
  save_choice transport chosen s =
      tell_saved transport chosen
        (lift (localhoist.Config.set o.settings settings_path transport_key chosen) s)

  -- The `select` at the prompt: whether `run` goes on to its last wait.
  abbrev pub asked : Bytes → Bytes → Input → S Bool
  asked path transport (answered line) = save_choice transport (choice transport line) >> pure true
  asked path transport (ended signalled) = pure false
  asked path transport (ended (tunnel_gone e)) = cleanup path >> give (err (tunnel_exited e))

  unfoldable pub prompt : Bytes → Resolution → S Bool
  unfolding save_choice cleanup may_ask
  prompt path res =
      if may_ask res && o.is_tty
      then say (make_default res.transport) >> asked path res.transport o.at_prompt
      else pure true

  -- The last `select`.
  abbrev pub waited : Bytes → Ending → S (Unit {0})
  waited path (tunnel_gone e) = cleanup path >> give (err (tunnel_exited e))
  waited path signalled = pure tt

  abbrev pub last_wait : Bytes → Bool → Bool → S (Unit {0})
  last_wait path patched false = pure tt
  last_wait path patched true = say (ctrl_c patched) >> waited path o.at_wait

  -- The condition of the patch.
  abbrev pub patch_env : Flags → Project → Bool
  patch_env fl project = not fl.no_patch && (fl.force_patch || not project.trusted_proxy_package)

  abbrev pub proxy_config : Project → localhoist.Proxy.Config
  proxy_config project = record {
    app = some project.app_upstream;
    vite = some project.vite_upstream;
    reverb = project.reverb_upstream;
    hot_file = project.dir ++ codes "/public/hot";
  }

  -- What stands behind `defer cleanup()`.
  unfoldable pub serve : Flags → Project → Resolution → Bytes → S (Unit {0})
  unfolding patch prompt banner
  serve fl project res url = do
    patched ← patch (patch_env fl project) project.env url
    say_all (banner project (routes (proxy_config project)) res patched fl.no_patch fl.no_qr url)
    on ← prompt (project.env).path res
    last_wait (project.env).path patched on

  abbrev pub bound : Option ℕ → Outcome ℕ
  bound none = err cannot_listen
  bound (some port) = ok port

  abbrev pub public : Started → Outcome Bytes
  public (up url) = ok url
  public (down e was_stopped) = err (no_tunnel e)

  abbrev pub say_note : Bytes → S (Unit {0})
  say_note [] = pure tt
  say_note (c ∷ note) = say (transport_note (c ∷ note))

  abbrev pub say_left_over : Bool → S (Unit {0})
  say_left_over false = pure tt
  say_left_over true = say left_over

  abbrev pub domain_of : Flags → Project → Bytes
  domain_of fl project = if equal fl.domain [] then project.static_domain else fl.domain

  -- The settings of the run: what stands before the listener.
  unfoldable pub choose : Flags → S (Project × Resolution × Bytes)
  unfolding recover resolve finalize override_app
  choose fl = do
    restored ← lift (recover o.states (env_path fl))
    say_left_over restored
    found ← detect_project fl.dir
    project ← give (override_app fl.app found)
    res ← lift (resolve o.settings settings_path (project_path fl.dir) fl.transport)
    final ← give (finalize res (domain_of fl project))
    pure (project, final.0, final.1)

  abbrev pub share : Flags → Project × Resolution × Bytes → S (Unit {0})
  share fl (project, res, note) = do
    port ← give (bound o.listen)
    say_note note
    say (starting (transport_label res.transport) port)
    url ← give (public (o.open_tunnel res.transport port (domain_of fl project)))
    with_cleanup (project.env).path (serve fl project res url)

  unfoldable pub run : Flags → S (Unit {0})
  unfolding choose serve with_cleanup
  run fl = if fl.show_version then say version_text else choose fl >>= λ c. share fl c
