-- ===== src/Command/Safe/Undisturbed.antt =====
-- The repair at the start of a run, when no call fails.
use localhoist.Common.{ℕ, ◌≡◌, refl, ◌∙◌, Bool, true, false, none, some, Bytes, inr}
use localhoist.Common.Disk.{World, Tree, Entry, Outcome, ok, err, update, corrupt_state}
use localhoist.Common.Disk.Laws.{
  update_other, update_same, calm, read_file-calm, read_file_absent, remove-calm,
}
use localhoist.EnvFile.{parse, load}
use localhoist.EnvFile.Replaced.{next_entry, saved_tree, save-calm, saved_same, saved_other}
use localhoist.EnvFile.State.{Codec, state_path, restore_lines, load_state, restore}
use localhoist.Command.Patch.{recover}
use localhoist.Command.Safe.{
  env_of, state_of, IsOriginal, IsFaithful, IsSafe, clean, broken, pending,
}
use localhoist.Command.Safe.Undo.{path-state_path, state_path-path, state_path-temp_path}

module _ (path content : Bytes) (codec : Codec) (t : Tree) (umask : ℕ) where
  abbrev saved : Entry → Tree
  saved = saved_tree (env_of path content) t umask

  state_path_kept : (e : Entry) → saved e (state_path path) ≡ t (state_path path)
  state_path_kept e =
      saved_other (env_of path content) t umask e (state_path path) (state_path-path path content)
        (state_path-temp_path path content)

  restore-calm :
      (e s : Entry)
      → t path ≡ some e
      → restore_lines (state_of path content).original (parse e.content) ≡ parse content
      → t (state_path path) ≡ some s
      → restore (state_of path content) (calm t umask)
        ≡ (ok tt, calm (update (saved e) (state_path path) none) umask)
  unfolding restore load
  restore-calm e s there back side = rw (read_file-calm t umask path there) (
      rw back (
        rw (save-calm (env_of path content) t umask e there)
          (remove-calm (saved e) umask (state_path path) (state_path_kept e ∙ side))))

  restored_entry :
      (e : Entry)
      → update (saved e) (state_path path) none path
        ≡ some (next_entry (env_of path content) t umask e)
  restored_entry e =
      update_other (saved e) (state_path path) none path (path-state_path path content)
      ∙ saved_same (env_of path content) t umask e

  -- How an undisturbed repair ends.
  pub data Repaired (r : Outcome Bool × World) : Type 0 where
    -- All is as before the run that was interrupted, and `b` tells whether anything was done.
    undone :
        (b : Bool)
        → r.0 ≡ ok b
        → IsOriginal path content r.1.tree
        → r.1.tree (state_path path) ≡ none
        → Repaired r
    -- The sidecar file cannot be read. The error says so, and nothing is changed.
    unreadable :
        r.0 ≡ err (corrupt_state path)
        → IsOriginal path content r.1.tree
        → r.1.tree ≡ t
        → Repaired r

  module _ (faithful : IsFaithful path content codec) where
    -- From every disk that an interrupted run can leave, the next start of the program puts the
    -- original lines back, or reports a damaged sidecar file while `.env` holds the original.
    pub recover-Repaired :
        IsSafe path content codec t → Repaired (recover codec path (calm t umask))
    unfolding recover load_state
    recover-Repaired (clean env absent) =
        rw (read_file_absent t umask (state_path path) absent) (undone false refl env absent)
    recover-Repaired (broken part env (s, there, bytes) bad) =
        rw (read_file-calm t umask (state_path path) there)
          (rw bytes (rw bad (unreadable refl env refl)))
    recover-Repaired (pending now (e, here, bytes) back (s, there, text)) =
        rw (read_file-calm t umask (state_path path) there) (
          rw text (
            rw faithful.reads_back (
              rw (restore-calm e s here (rw bytes back) there) (
                undone true refl (inr (_, restored_entry e, refl))
                  (update_same (saved e) (state_path path) none)))))
