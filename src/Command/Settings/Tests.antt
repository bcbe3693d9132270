-- ===== src/Command/Settings/Tests.antt =====
-- `localhoist config` in a project without settings.
use localhoist.Common.{◌≡◌, refl, true, false, none, List, [], ◌∷◌, Bytes, codes, equal}
use localhoist.Common.Arguments.{parse_from, classify, cut_value, parse_bool, value_of}
use localhoist.Common.Disk.{World, ok, killed_within, fine}
use localhoist.Config.{
  project, transport_key, is_transport, insert, text, transport_of, lookup, resolve, project_path,
  join_path,
}
use localhoist.Config.Files.{nothing, IsReadBack}
use localhoist.Command.Session.{Session}
use localhoist.Command.Sample.{disk, settings, saved_settings, session}
use localhoist.Command.Run.Runs.{session_at}
use localhoist.Command.Settings.{returned, run_config}
use localhoist.Command.Settings.Untouched.{target, run_config-Still}
use localhoist.Command.Settings.Effective.{project_file, run_config-resolve}

abbrev global_file : Bytes
global_file = codes "/h/.config/localhoist/config.json"

abbrev set_args : List Bytes
set_args = codes "set" ∷ (codes "--project" ∷ (transport_key ∷ (codes "ngrok" ∷ [])))

-- The write of the project's file is torn.
abbrev interrupted : Session
interrupted = session_at 0o022 (fine ∷ fine ∷ killed_within 2 ∷ []) disk

run_config-Still_example :
    (run_config settings global_file set_args interrupted).1.world.tree global_file
    ≡ disk global_file
unfolding target equal parse_from classify cut_value parse_bool value_of project_path join_path
run_config-Still_example =
    run_config-Still settings global_file global_file set_args refl interrupted

supported : is_transport (codes "ngrok") ≡ true
unfolding is_transport equal
supported = refl

apart : equal global_file project_file ≡ false
unfolding equal project_path join_path
apart = refl

no_project_file : disk project_file ≡ none
unfolding equal project_path join_path
no_project_file = refl

no_global_file : disk global_file ≡ none
unfolding equal
no_global_file = refl

says_nothing : (w : World) → transport_of global_file (lookup transport_key []) w ≡ (ok [], w)
unfolding lookup
says_nothing w = refl

back : IsReadBack settings (insert transport_key (text (codes "ngrok")) [])
unfolding equal insert
back = (saved_settings, refl, λ k. refl)

run_config-resolve_example :
    ((run_config settings global_file set_args session).0 ≡ ok returned)
    × ((resolve settings global_file project_file []
          (run_config settings global_file set_args session).1.world).0
        ≡ ok (record {
          transport = codes "ngrok";
          source = project;
          source_path = project_file;
          saved = codes "ngrok";
        }))
run_config-resolve_example =
    run_config-resolve settings global_file (codes "ngrok") [] disk 0o022 session [] [] refl
      supported apart (nothing no_project_file refl) (nothing no_global_file refl) says_nothing back
