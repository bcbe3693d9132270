-- ===== src/Command/Main/Tests.antt =====
-- A run by its arguments.
use localhoist.Common.{
  ℕ, ◌≡◌, ◌≢◌, ◌⊎◌, ◌≤◌, refl, ap, Bool, true, false, none, some, List, [], ◌∷◌, Bytes, codes,
  equal, inl, inr, if◌then◌else◌,
}
use localhoist.Common.Arguments.{given, parse_from}
use localhoist.Common.Disk.{ok, dead, World, Tree}
use localhoist.Laravel.{Project}
use localhoist.Proxy.{Route}
use localhoist.Config.{
  Resolution, default, object, is_transport, Codec, Object, transport_key, insert, text,
}
use localhoist.Command.Safe.Cleared.{IsClean-IsSafe}
use localhoist.Command.Session.{Session, with_cleanup}
use localhoist.Command.Run.{Flags, Surroundings, run, serve}
use localhoist.Command.Run.Settled.{Restored}
use localhoist.EnvFile.State.{State}
use localhoist.Command.Session.{sidestep_edit}
use localhoist.Command.Banner.{banner, may_ask}
use localhoist.Command.Main.{main, run_formal, flags_of}
use localhoist.Command.Main.Exit.{main-Restored}
use localhoist.Command.Run.{env_path}
use localhoist.Config.{resolve}
use localhoist.Command.Run.{choice, save_choice, settings_path}
use localhoist.Common.Disk.{Outcome}
use localhoist.Command.Sample.{
  path, content, codec, faithful, here, no_sidecar, surroundings, apart, side_apart, tunnel_line,
  session,
}

-- The arguments of a run in `/p`.
abbrev args : List Bytes
args = codes "--dir=/p" ∷ (codes "-no-qr" ∷ [])

abbrev values : List (Bytes × Bytes)
values = (codes "dir", codes "/p") ∷ ((codes "no-qr", codes "true") ∷ [])

args_parsed : parse_from run_formal none args ≡ given values []
unfolding parse_from localhoist.Common.Arguments.classify localhoist.Common.Arguments.cut_value
    localhoist.Common.Arguments.parse_bool equal
args_parsed = refl

dir_given : env_path (flags_of values) ≡ path
unfolding flags_of localhoist.Common.Arguments.value_of equal
dir_given = refl

version_not : (flags_of values).show_version ≡ false
unfolding flags_of localhoist.Common.Arguments.value_of localhoist.Common.Arguments.parse_bool equal
version_not = refl

main_ok : (main surroundings args session).0 ≡ ok 0
unfolding main parse_from flags_of localhoist.Common.Arguments.value_of
    localhoist.Common.Arguments.classify localhoist.Common.Arguments.cut_value
    localhoist.Common.Arguments.parse_bool run localhoist.Common.Disk.read_file equal
    localhoist.Laravel.detect localhoist.Laravel.derive_app_upstream localhoist.Laravel.setting
    localhoist.EnvFile.get localhoist.EnvFile.parse localhoist.Common.Text.split
    localhoist.Common.Text.trim_suffix localhoist.Common.Text.has_suffix
    localhoist.Config.read_transport localhoist.Config.read localhoist.Config.global_path
    localhoist.Config.join_path localhoist.Config.lookup localhoist.Config.project_path
    localhoist.Laravel.strip_scheme localhoist.Command.Banner.banner
    localhoist.Command.Banner.may_ask localhoist.Command.Patch.recover localhoist.Command.Run.choose
    localhoist.Command.Run.override_app localhoist.Command.Run.patch localhoist.Command.Run.prompt
    localhoist.Command.Run.save_choice serve localhoist.Command.Session.cleanup
    localhoist.Command.Session.say_all with_cleanup localhoist.Common.Disk.make_dirs
    localhoist.Common.Disk.remove localhoist.Common.Disk.rename localhoist.Common.Disk.stat
    localhoist.Common.Disk.write_file localhoist.Common.Http.hostname localhoist.Common.Http.port_of
    localhoist.Common.Http.split_last localhoist.Common.Text.has_prefix
    localhoist.Common.Text.trim_prefix localhoist.Common.Text.to_lower localhoist.Common.Text.atoi
    localhoist.Common.Text.itoa localhoist.Common.Text.unsigned localhoist.Common.Text.replace_all
    localhoist.Common.Text.replace_from localhoist.Common.Text.trim_left
    localhoist.Common.Text.trim_space localhoist.Common.Text.join localhoist.Config.finalize insert
    is_transport localhoist.Config.resolve localhoist.Config.set localhoist.Config.write
    localhoist.EnvFile.State.load_state localhoist.EnvFile.State.restore
    localhoist.EnvFile.State.restore_lines localhoist.EnvFile.State.save_state
    localhoist.EnvFile.State.snapshot localhoist.EnvFile.get_raw localhoist.EnvFile.load
    localhoist.EnvFile.render localhoist.EnvFile.save localhoist.EnvFile.set
    localhoist.EnvFile.strip_quotes localhoist.EnvFile.unquote
    localhoist.Laravel.has_trusted_proxy_package localhoist.Laravel.int_or
    localhoist.Laravel.is_local_hostname localhoist.Laravel.local_url
    localhoist.Laravel.upstream_host localhoist.Proxy.routes
main_ok = refl

main-Restored_example : Restored path content codec (main surroundings args session).1
unfolding equal
main-Restored_example =
    main-Restored surroundings path content args [] values session faithful apart side_apart
      tunnel_line refl args_parsed version_not dir_given refl refl
      (IsClean-IsSafe path content codec (inl here, no_sidecar)) main_ok
