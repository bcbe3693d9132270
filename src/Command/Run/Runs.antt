-- ===== src/Command/Run/Runs.antt =====
-- A history of whole runs, each with its own flags, surroundings, answers and faults.
use mathlib.Core.Path.{subst}
use localhoist.Common.{ℕ, ◌≡◌, refl, false, none, List, [], ◌∷◌, Bytes, equal, All}
use localhoist.Common.Disk.{Tree, Fault}
use localhoist.Common.Disk.Laws.{calm}
use localhoist.EnvFile.State.{Codec, state_path}
use localhoist.Command.Patch.{recover}
use localhoist.Command.Safe.{IsFaithful, IsSafe}
use localhoist.Command.Safe.Cleared.{IsClean, IsClean-IsSafe}
use localhoist.Command.Safe.Undisturbed.{Repaired, recover-Repaired}
use localhoist.Command.Session.{Session}
use localhoist.Command.Run.{Flags, Surroundings, env_path, settings_path, run}
use localhoist.Command.Run.Crash.{OneLine, run-IsSafe}

pub record Attempt : Type 0 where
  pub flags : Flags
  pub surroundings : Surroundings
  pub faults : List Fault

-- A process starts with nothing set, on the disk that the one before it left.
abbrev pub session_at : ℕ → List Fault → Tree → Session
session_at umask faults t = record {
  world = record { tree = t; faults = faults; umask = umask };
  state = none;
  cleaned = false;
  effects = [];
}

-- The disk behind whole runs.
abbrev pub after_runs : ℕ → List Attempt → Tree → Tree
after_runs umask [] t = t
after_runs umask (a ∷ runs) t =
    after_runs umask runs (run a.surroundings a.flags (session_at umask a.faults t)).1.world.tree

module _ (path content : Bytes) (codec : Codec) where
  -- A run in the project of `path`, whose settings are in another file.
  pub record IsAttempt (a : Attempt) : Type 0 where
    pub here : env_path a.flags ≡ path
    pub coded : (a.surroundings).states ≡ codec
    pub apart : equal path (settings_path a.surroundings) ≡ false
    pub side_apart : equal (state_path path) (settings_path a.surroundings) ≡ false
    pub one_line : OneLine a.surroundings

  module _ (faithful : IsFaithful path content codec) (umask : ℕ) where
    attempt-IsSafe :
        (a : Attempt) (t : Tree)
        → IsAttempt a
        → IsSafe path content codec t
        → IsSafe path content codec
            (run a.surroundings a.flags (session_at umask a.faults t)).1.world.tree
    attempt-IsSafe a t is safe =
        subst
          (λ c.
            IsSafe path content c
              (run a.surroundings a.flags (session_at umask a.faults t)).1.world.tree)
          is.coded
          (run-IsSafe a.surroundings path content (rw is.coded faithful) is.apart is.side_apart
            is.one_line a.flags (session_at umask a.faults t) is.here refl (rw is.coded safe))

    after_runs-IsSafe :
        (runs : List Attempt) (t : Tree)
        → All IsAttempt runs
        → IsSafe path content codec t
        → IsSafe path content codec (after_runs umask runs t)
    after_runs-IsSafe [] t _ safe = safe
    after_runs-IsSafe (a ∷ runs) t (is, are) safe =
        after_runs-IsSafe runs _ are (attempt-IsSafe a t is safe)

    -- Any number of whole runs, each with its own flags, answers, tunnel and faults, may fail or
    -- be killed anywhere. A repair that meets no fault then leaves the original .env, but for a
    -- newline at its end, and no sidecar file; or it reports that file as unreadable and leaves
    -- the disk alone, and .env holds the original in the same sense. Assumed: the first run found
    -- such a .env and no sidecar file, no URL of a tunnel has a newline, the settings are in
    -- another file than .env and its sidecar file, the runs read and write JSON alike, and the
    -- JSON of the snapshot is read back whole and not in part.
    pub after_runs-Repaired :
        (runs : List Attempt) (t : Tree)
        → All IsAttempt runs
        → IsClean path content codec t
        → let left = after_runs umask runs t in
          Repaired path content codec left umask (recover codec path (calm left umask))
    after_runs-Repaired runs t are whole =
        recover-Repaired path content codec _ umask faithful
          (after_runs-IsSafe runs t are (IsClean-IsSafe path content codec whole))
