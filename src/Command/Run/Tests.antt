-- ===== src/Command/Run/Tests.antt =====
-- Runs and commands that come to their end.
use localhoist.Common.{
  ℕ, ◌≡◌, ◌≢◌, ◌⊎◌, ◌≤◌, refl, ap, Bool, true, false, none, some, List, [], ◌∷◌, Bytes, codes,
  equal, inl, inr, if◌then◌else◌,
}
use localhoist.Common.Disk.{ok, err, nil_map, update, dead, World, Tree}
use localhoist.Laravel.{Project}
use localhoist.Proxy.{Route}
use localhoist.Config.{
  Resolution, null, default, object, is_transport, Codec, Object, transport_key, insert, text,
}
use localhoist.Command.Safe.Cleared.{IsClean-IsSafe}
use localhoist.Command.Session.{Session, with_cleanup}
use localhoist.Command.Run.{Flags, Surroundings, run, serve}
use localhoist.Command.Run.Settled.{Restored}
use localhoist.Command.Run.Whole.{run-Restored}
use localhoist.EnvFile.State.{State}
use localhoist.Command.Safe.{env_of}
use localhoist.Command.Session.{sidestep_edit}
use localhoist.Command.Banner.{banner, may_ask}
use localhoist.Command.Hints.{hints, hints-banner}
use localhoist.Command.Run.{env_path}
use localhoist.Command.Run.Stops.{with_cleanup-IsStopped}
use localhoist.Command.Run.Stopping.{IsStopped}
use localhoist.Command.Run.Asked.{save_choice-may_ask}
use localhoist.Config.Files.{nothing, IsReadBack}
use localhoist.Config.{resolve}
use localhoist.Command.Run.{choice, save_choice, settings_path}
use localhoist.Common.Disk.{Outcome}
use localhoist.Common.{◌++◌, equal_iff, Bool-cases}
use localhoist.Common.Text.{lacks, after_first, has_prefix, trim_space}
use localhoist.Config.{cloudflare, ngrok}
use localhoist.Command.Sample.{
  path, content, codec, faithful, disk, here, no_sidecar, url, flags, surroundings, settings,
  saved_settings, apart, side_apart, tunnel_line, session,
}

run_ok : (run surroundings flags session).0 ≡ ok tt
unfolding run localhoist.Common.Disk.read_file equal localhoist.Laravel.detect
    localhoist.Laravel.derive_app_upstream localhoist.Laravel.setting localhoist.EnvFile.get
    localhoist.EnvFile.parse localhoist.Common.Text.split localhoist.Common.Text.trim_suffix
    localhoist.Common.Text.has_suffix localhoist.Config.read_transport localhoist.Config.read
    localhoist.Config.global_path localhoist.Config.join_path localhoist.Config.lookup
    localhoist.Config.project_path localhoist.Laravel.strip_scheme localhoist.Command.Banner.banner
    localhoist.Command.Banner.may_ask localhoist.Command.Patch.recover localhoist.Command.Run.choose
    localhoist.Command.Run.override_app localhoist.Command.Run.patch localhoist.Command.Run.prompt
    localhoist.Command.Run.save_choice serve localhoist.Command.Session.cleanup
    localhoist.Command.Session.say_all with_cleanup localhoist.Common.Disk.make_dirs
    localhoist.Common.Disk.remove localhoist.Common.Disk.rename localhoist.Common.Disk.stat
    localhoist.Common.Disk.write_file localhoist.Common.Http.hostname localhoist.Common.Http.port_of
    localhoist.Common.Http.split_last localhoist.Common.Text.has_prefix
    localhoist.Common.Text.trim_prefix localhoist.Common.Text.to_lower localhoist.Common.Text.atoi
    localhoist.Common.Text.itoa localhoist.Common.Text.unsigned localhoist.Common.Text.replace_all
    localhoist.Common.Text.replace_from localhoist.Common.Text.trim_left
    localhoist.Common.Text.trim_space localhoist.Common.Text.join localhoist.Config.finalize insert
    is_transport localhoist.Config.resolve localhoist.Config.set localhoist.Config.write
    localhoist.EnvFile.State.load_state localhoist.EnvFile.State.restore
    localhoist.EnvFile.State.restore_lines localhoist.EnvFile.State.save_state
    localhoist.EnvFile.State.snapshot localhoist.EnvFile.get_raw localhoist.EnvFile.load
    localhoist.EnvFile.render localhoist.EnvFile.save localhoist.EnvFile.set
    localhoist.EnvFile.strip_quotes localhoist.EnvFile.unquote
    localhoist.Laravel.has_trusted_proxy_package localhoist.Laravel.int_or
    localhoist.Laravel.is_local_hostname localhoist.Laravel.local_url
    localhoist.Laravel.upstream_host localhoist.Proxy.routes
run_ok = refl

run-Restored_example :
    (((run surroundings flags session).1.state ≡ none)
      × ((run surroundings flags session).0 ≢ ok tt))
    ⊎ Restored path content codec (run surroundings flags session).1
run-Restored_example =
    run-Restored surroundings path content faithful apart side_apart tunnel_line flags session refl
      refl refl refl (IsClean-IsSafe path content codec (inl here, no_sidecar))
      (λ gone. let fine_run = run_ok in cc)

abbrev project : Project
project = record {
  dir = codes "/p";
  env = env_of path content;
  app_url = codes "http://x";
  app_upstream = record {
    scheme = codes "http";
    host = codes "x";
    path = [];
    raw_query = [];
    fragment = [];
  };
  vite_upstream = record {
    scheme = codes "http";
    host = codes "127.0.0.1:5173";
    path = [];
    raw_query = [];
    fragment = [];
  };
  reverb_upstream = none;
  static_domain = [];
  config_cached = true;
  trusted_proxy_package = false;
}

abbrev resolution : Resolution
resolution = record {
  transport = codes "ngrok";
  source = localhoist.Config.flag;
  source_path = [];
  saved = [];
}

-- The settings hold `null`, and the question is answered with yes.
abbrev asked_with_null : Surroundings
asked_with_null = record surroundings {
  is_tty = true;
  settings = record settings { parse = λ b. null };
}

abbrev with_null : Session
with_null = record session {
  world = record session.world {
    tree =
        update disk (codes "/h/.config/localhoist/config.json")
          (some (record { content = codes "null"; mode = 0o644 }));
  };
}

serve_panics :
    (with_cleanup path (serve asked_with_null flags project resolution url) with_null).0
    ≡ err (nil_map (codes "/h/.config/localhoist/config.json"))
unfolding localhoist.Common.Disk.read_file equal localhoist.Laravel.detect
    localhoist.Laravel.derive_app_upstream localhoist.Laravel.setting localhoist.EnvFile.get
    localhoist.EnvFile.parse localhoist.Common.Text.split localhoist.Common.Text.trim_suffix
    localhoist.Common.Text.has_suffix localhoist.Config.read_transport localhoist.Config.read
    localhoist.Config.global_path localhoist.Config.join_path localhoist.Config.lookup
    localhoist.Config.project_path localhoist.Laravel.strip_scheme localhoist.Command.Banner.banner
    localhoist.Command.Banner.may_ask localhoist.Command.Patch.recover localhoist.Command.Run.choose
    localhoist.Command.Run.override_app localhoist.Command.Run.patch localhoist.Command.Run.prompt
    localhoist.Command.Run.save_choice serve localhoist.Command.Session.cleanup
    localhoist.Command.Session.say_all with_cleanup localhoist.Common.Disk.make_dirs
    localhoist.Common.Disk.remove localhoist.Common.Disk.rename localhoist.Common.Disk.stat
    localhoist.Common.Disk.write_file localhoist.Common.Http.hostname localhoist.Common.Http.port_of
    localhoist.Common.Http.split_last localhoist.Common.Text.has_prefix
    localhoist.Common.Text.trim_prefix localhoist.Common.Text.to_lower localhoist.Common.Text.atoi
    localhoist.Common.Text.itoa localhoist.Common.Text.unsigned localhoist.Common.Text.replace_all
    localhoist.Common.Text.replace_from localhoist.Common.Text.trim_left
    localhoist.Common.Text.trim_space localhoist.Common.Text.join localhoist.Config.finalize insert
    is_transport localhoist.Config.resolve localhoist.Config.set localhoist.Config.write
    localhoist.EnvFile.State.load_state localhoist.EnvFile.State.restore
    localhoist.EnvFile.State.restore_lines localhoist.EnvFile.State.save_state
    localhoist.EnvFile.State.snapshot localhoist.EnvFile.get_raw localhoist.EnvFile.load
    localhoist.EnvFile.render localhoist.EnvFile.save localhoist.EnvFile.set
    localhoist.EnvFile.strip_quotes localhoist.EnvFile.unquote
    localhoist.Laravel.has_trusted_proxy_package localhoist.Laravel.int_or
    localhoist.Laravel.is_local_hostname localhoist.Laravel.local_url
    localhoist.Laravel.upstream_host localhoist.Proxy.routes
serve_panics = refl

-- The panic at the prompt stops the tunnel as well.
with_cleanup-IsStopped_example :
    IsStopped (with_cleanup path (serve asked_with_null flags project resolution url) with_null).1
with_cleanup-IsStopped_example =
    with_cleanup-IsStopped asked_with_null flags project resolution url with_null
      (record { not_yet = refl; no_stop = refl }) (λ gone. let panic = serve_panics in cc)

hints-banner_example :
    hints (banner project [] resolution true false false url) ≡ sidestep_edit ∷ []
hints-banner_example = hints-banner project [] resolution true false false url

-- The answer at the prompt is yes, and nothing was saved.
abbrev later : Outcome Resolution × World
later =
    resolve settings (settings_path surroundings) (codes "/p/.localhoist.json") (codes "ngrok")
      (save_choice surroundings (codes "ngrok") (choice surroundings (codes "ngrok") (codes "y\n"))
        session).1.world

abbrev asked_later : Resolution
asked_later = record {
  transport = codes "ngrok";
  source = localhoist.Config.flag;
  source_path = [];
  saved = codes "ngrok";
}

later_ok : later.0 ≡ ok asked_later
unfolding localhoist.Config.insert localhoist.Common.Disk.read_file equal localhoist.Laravel.detect
    localhoist.Laravel.derive_app_upstream localhoist.Laravel.setting localhoist.EnvFile.get
    localhoist.EnvFile.parse localhoist.Common.Text.split localhoist.Common.Text.trim_suffix
    localhoist.Common.Text.has_suffix localhoist.Config.read_transport localhoist.Config.read
    localhoist.Config.global_path localhoist.Config.join_path localhoist.Config.lookup
    localhoist.Config.project_path localhoist.Laravel.strip_scheme localhoist.Command.Banner.banner
    localhoist.Command.Banner.may_ask localhoist.Command.Patch.recover localhoist.Command.Run.choose
    localhoist.Command.Run.override_app localhoist.Command.Run.patch localhoist.Command.Run.prompt
    localhoist.Command.Run.save_choice serve localhoist.Command.Session.cleanup
    localhoist.Command.Session.say_all with_cleanup localhoist.Common.Disk.make_dirs
    localhoist.Common.Disk.remove localhoist.Common.Disk.rename localhoist.Common.Disk.stat
    localhoist.Common.Disk.write_file localhoist.Common.Http.hostname localhoist.Common.Http.port_of
    localhoist.Common.Http.split_last localhoist.Common.Text.has_prefix
    localhoist.Common.Text.trim_prefix localhoist.Common.Text.to_lower localhoist.Common.Text.atoi
    localhoist.Common.Text.itoa localhoist.Common.Text.unsigned localhoist.Common.Text.replace_all
    localhoist.Common.Text.replace_from localhoist.Common.Text.trim_left
    localhoist.Common.Text.trim_space localhoist.Common.Text.join localhoist.Config.finalize
    is_transport localhoist.Config.resolve localhoist.Config.set localhoist.Config.write
    localhoist.EnvFile.State.load_state localhoist.EnvFile.State.restore
    localhoist.EnvFile.State.restore_lines localhoist.EnvFile.State.save_state
    localhoist.EnvFile.State.snapshot localhoist.EnvFile.get_raw localhoist.EnvFile.load
    localhoist.EnvFile.render localhoist.EnvFile.save localhoist.EnvFile.set
    localhoist.EnvFile.strip_quotes localhoist.EnvFile.unquote
    localhoist.Laravel.has_trusted_proxy_package localhoist.Laravel.int_or
    localhoist.Laravel.is_local_hostname localhoist.Laravel.local_url
    localhoist.Laravel.upstream_host localhoist.Proxy.routes
later_ok = refl

ngrok_supported : is_transport (codes "ngrok") ≡ true
unfolding is_transport equal
ngrok_supported = refl

no_settings : disk (settings_path surroundings) ≡ none
unfolding equal localhoist.Config.global_path localhoist.Config.join_path
no_settings = refl

-- `choice` is `ngrok` for this answer.
settings_back :
    IsReadBack settings
      (insert transport_key (text (choice surroundings (codes "ngrok") (codes "y\n"))) [])
unfolding equal insert localhoist.Common.Text.to_lower localhoist.Common.Text.trim_space
    localhoist.Common.Text.trim_left localhoist.Common.Text.replace_all
    localhoist.Common.Text.replace_from
settings_back = (saved_settings, refl, λ k. refl)

save_choice-may_ask_example : may_ask asked_later ≡ false
save_choice-may_ask_example =
    save_choice-may_ask surroundings (codes "ngrok") (codes "y\n") disk 0o022 session [] refl
      ngrok_supported (nothing no_settings refl) settings_back (codes "/p/.localhoist.json")
      (codes "ngrok") asked_later later.1 (ap (λ r. (r, later.1)) later_ok)
