-- ===== src/Command/Tests.antt =====
-- Runs that are killed, and runs that are not.
use localhoist.Common.{◌≡◌, refl, true, some, List, [], ◌∷◌, codes, inl}
use localhoist.Common.Text.{has_prefix, split, trim_suffix, has_suffix, trim_prefix}
use localhoist.Common.Disk.{ok, World, Tree, Fault, fine, killed, killed_within}
use localhoist.Common.Disk.Laws.{calm}
use localhoist.EnvFile.{parse, get_raw}
use localhoist.Command.Patch.{recover}
use localhoist.Command.Safe.{env_of, state_of, IsSafe}
use localhoist.Command.Safe.Cleared.{IsClean-IsSafe}
use localhoist.Command.Safe.Recover.{recover-IsSafe}
use localhoist.Command.Safe.Undisturbed.{Repaired}
use localhoist.Command.Session.{Session}
use localhoist.Command.Run.{run, patch}
use localhoist.Command.Run.Arm.{patch-IsReady}
use localhoist.Command.Run.Ready.{IsReady-IsSafe}
use localhoist.Command.Run.Patched.{IsPatched, patch-calm}
use localhoist.Command.Run.Crash.{run-IsSafe}
use localhoist.Command.Run.Runs.{Attempt, IsAttempt, session_at, after_runs, after_runs-Repaired}
use localhoist.Command.Sample.{
  path, content, codec, faithful, disk, here, no_sidecar, url, one_line, flags, surroundings, apart,
  side_apart, tunnel_line, session,
}

-- A run that is killed while it writes the new `.env`.
abbrev interrupted : Session
interrupted = session_at 0o022 (fine ∷ fine ∷ fine ∷ fine ∷ fine ∷ killed_within 3 ∷ []) disk

run-IsSafe_example : IsSafe path content codec (run surroundings flags interrupted).1.world.tree
run-IsSafe_example =
    run-IsSafe surroundings path content faithful apart side_apart tunnel_line flags interrupted
      refl refl (IsClean-IsSafe path content codec (inl here, no_sidecar))

abbrev killed_run : List Fault → Attempt
killed_run faults = record { flags = flags; surroundings = surroundings; faults = faults }

is_attempt : (faults : List Fault) → IsAttempt path content codec (killed_run faults)
is_attempt faults = record {
  here = refl;
  coded = refl;
  apart = apart;
  side_apart = side_apart;
  one_line = tunnel_line;
}

abbrev runs : List Attempt
runs =
    killed_run (fine ∷ fine ∷ fine ∷ killed_within 3 ∷ [])
    ∷ killed_run (fine ∷ fine ∷ killed ∷ [])
    ∷ killed_run []
    ∷ []

after_runs-Repaired_example :
    Repaired path content codec
      (after_runs 0o022 runs disk)
      0o022
      (recover codec path (calm (after_runs 0o022 runs disk) 0o022))
after_runs-Repaired_example =
    after_runs-Repaired path content codec faithful 0o022 runs disk
      (
        is_attempt (fine ∷ fine ∷ fine ∷ killed_within 3 ∷ []),
        (is_attempt (fine ∷ fine ∷ killed ∷ []), (is_attempt [], tt)),
      )
      (inl here, no_sidecar)

abbrev killed_in_repair : World
killed_in_repair = record {
  tree = (patch surroundings true (env_of path content) url session).1.world.tree;
  faults = fine ∷ fine ∷ fine ∷ fine ∷ killed ∷ [];
  umask = 0o022;
}

recover-IsSafe_example : IsSafe path content codec (recover codec path killed_in_repair).1.tree
recover-IsSafe_example = recover-IsSafe path content codec faithful killed_in_repair (
    IsReady-IsSafe path content codec (
      patch-IsReady path content url surroundings one_line faithful session true refl
        (inl here, no_sidecar)))

there : get_raw (parse content) (codes "APP_URL") ≡ some (codes "http://x")
unfolding get_raw parse has_prefix trim_prefix trim_suffix has_suffix split
there = refl

patch-calm_example :
    (t' : Tree) × (patch surroundings true (env_of path content) url session
      ≡ (ok true, record session { world = calm t' 0o022; state = some (state_of path content) }))
    × IsPatched path content url surroundings disk 0o022 t'
patch-calm_example =
    patch-calm path content url surroundings disk 0o022 session here there one_line refl
