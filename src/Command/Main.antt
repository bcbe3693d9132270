-- ===== src/Command/Main.antt =====
-- cmd/localhoist/main.go: `main`, and the flags of `run`. The result is the exit code.
pub mod Exit
mod Tests
use localhoist.Common.{
  ℕ, Bool, true, false, ◌||◌, Option, none, some, List, [], ◌∷◌, Bytes, codes, equal, if◌then◌else◌,
}
use localhoist.Common.Arguments
use localhoist.Common.Arguments.{Kind, switch, string, Parsed, given, parse_from, value_of, is_set}
use localhoist.Common.Disk.{Outcome, ok, err, dead, is_panic}
use localhoist.Command.Session.{S, Session, say, pure, ◌>>◌, fatal}
use localhoist.Command.Run.{Flags, Surroundings, settings_path, run}
use localhoist.Command.Settings
use localhoist.Command.Settings.{Finish, returned, run_config}

-- The flags that `run` declares.
abbrev pub run_formal : Bytes → Option Kind
run_formal name =
    if equal name (codes "dir")
      || equal name (codes "transport")
      || equal name (codes "domain")
      || equal name (codes "app")
    then some string
    else if equal name (codes "no-qr")
        || equal name (codes "no-env-patch")
        || equal name (codes "env-patch")
        || equal name (codes "version")
    then some switch
    else none

-- Their values behind `flag.Parse`.
unfoldable pub flags_of : List (Bytes × Bytes) → Flags
unfolding value_of
flags_of values = record {
  dir = value_of (codes "dir") (codes ".") values;
  transport = value_of (codes "transport") [] values;
  domain = value_of (codes "domain") [] values;
  app = value_of (codes "app") [] values;
  no_qr = is_set (codes "no-qr") values;
  no_patch = is_set (codes "no-env-patch") values;
  force_patch = is_set (codes "env-patch") values;
  show_version = is_set (codes "version") values;
}

-- The exit code of a command: `os.Exit(1)` behind an error, and the 2 of the Go runtime behind a
-- panic.
abbrev pub code_of : Finish → ℕ
code_of returned = 0
code_of (Settings.exits code) = code

abbrev pub report : Outcome Finish × Session → Outcome ℕ × Session
report (ok f, s) = (ok (code_of f), s)
report (err e, s) = if is_panic e then (ok 2, s) else (say (fatal e) >> pure 1) s
report (dead, s) = (dead, s)

module _ (o : Surroundings) where
  abbrev pub run_parsed : Parsed → S Finish
  run_parsed (Arguments.exits code) = pure (Settings.exits code)
  run_parsed (given values rest) = run o (flags_of values) >> pure returned

  -- `main`, for `os.Args` without the program's name.
  unfoldable pub main : List Bytes → S ℕ
  unfolding run run_config parse_from flags_of
  main [] s = report (run_parsed (parse_from run_formal none []) s)
  main (command ∷ args) s =
      if equal command (codes "config")
      then report (run_config o.settings (settings_path o) args s)
      else report (run_parsed (parse_from run_formal none (command ∷ args)) s)
