-- ===== src/Command/Settings.antt =====
-- cmd/localhoist/config_cmd.go: `localhoist config`. The global file's path is an argument, and
-- the codec of the settings is a parameter.
pub mod Untouched
pub mod Effective
mod Tests
use localhoist.Common.{
  ℕ, Bool, true, false, ◌||◌, Option, none, some, List, [], ◌∷◌, ◌++◌, Bytes, codes, equal,
  if◌then◌else◌,
}
use localhoist.Common.Arguments.{Kind, switch, Parsed, given, parse_from, is_set}
use localhoist.Common.Arguments
use localhoist.Common.Disk.{usage, unknown_command, err}
use localhoist.Config.{
  Value, text, Codec, Resolution, source_text, lookup_in, transport_key, project_path, read,
  resolve, set, unset,
}
use localhoist.Command.Session.{
  S, Message, say, lift, give, pure, ◌>>=◌, ◌>>◌, config_usage, effective, layer_value, layer_unset,
  change_hint, key_set, key_unset,
}

-- How a command comes to its end: it returns, or the `flag` package exits with a code.
pub data Finish : Type 0 where
  returned : Finish
  exits : ℕ → Finish

-- `sourceLabel`
abbrev pub source_label : Resolution → Bytes
source_label res =
    if equal res.source_path []
    then source_text res.source
    else source_text res.source ++ (codes ": " ++ res.source_path)

abbrev pub layer_line : Bytes → Bytes → Option Value → Message
layer_line name path (some (text v)) = layer_value name path v
layer_line name path _ = layer_unset name path

-- The flag `-project`.
abbrev pub formal : Bytes → Option Kind
formal name = if equal name (codes "project") then some switch else none

module _ (codec : Codec) (global_file : Bytes) where
  abbrev pub show_layer : Bytes → Bytes → S (Unit {0})
  show_layer name path = do
    m ← lift (read codec path)
    say (layer_line name path (lookup_in transport_key m))

  -- `showConfig`
  unfoldable pub show_config : Bytes → S (Unit {0})
  unfolding resolve read
  show_config dir = do
    res ← lift (resolve codec global_file (project_path dir) [])
    say (effective res.transport (source_label res))
    show_layer (codes "global ") global_file
    show_layer (codes "project") (project_path dir)
    say change_hint

  abbrev pub set_key : Bytes → List Bytes → S (Unit {0})
  set_key path (key ∷ (value ∷ [])) =
      lift (set codec path key value) >> say (key_set key value path)
  set_key path _ = give (err (usage (codes "set")))

  abbrev pub unset_key : Bytes → List Bytes → S (Unit {0})
  unset_key path (key ∷ []) = lift (unset codec path key) >> say (key_unset key path)
  unset_key path _ = give (err (usage (codes "unset")))

  -- The file that the flags choose.
  abbrev pub chosen_path : List (Bytes × Bytes) → Bytes
  chosen_path flags =
      if is_set (codes "project") flags then project_path (codes ".") else global_file

  abbrev pub change : Bytes → Parsed → S Finish
  change command (Arguments.exits code) = pure (exits code)
  change command (given flags rest) =
      (if equal command (codes "set")
        then set_key (chosen_path flags) rest
        else unset_key (chosen_path flags) rest)
      >> pure returned

  -- `runConfig`
  unfoldable pub run_config : List Bytes → S Finish
  unfolding show_config parse_from set unset
  run_config [] = show_config (codes ".") >> pure returned
  run_config (command ∷ args) =
      if equal command (codes "set") || equal command (codes "unset")
      then change command (parse_from formal none args)
      else if equal command (codes "-h")
          || equal command (codes "--help")
          || equal command (codes "help")
      then say config_usage >> pure returned
      else give (err (unknown_command command))
