-- ===== src/Command/Run/Patched.antt =====
-- The patch when no call fails: `.env` names the tunnel, and the sidecar file can undo it.
use localhoist.Common.{ℕ, ◌≡◌, refl, ap, ◌∙◌, Bool, true, false, some, List, Bytes, equal}
use localhoist.Common.Text.{lacks, lacks-append}
use localhoist.Common.Disk.{Tree, Entry, ok, put}
use localhoist.Common.Disk.Laws.{Holds, calm, write_file-calm, update_other, update_same}
use localhoist.EnvFile.{parse, render, set, get_raw, save, prefix, File}
use localhoist.EnvFile.Format.{parse-render, parse-ne-nil, parse-All-lacks, set-All, set-ne-nil}
use localhoist.EnvFile.Lines.{get_raw-set, set_present}
use localhoist.EnvFile.Replaced.{saved_tree, save-calm, saved_same, saved_other}
use localhoist.EnvFile.State.{state_path, restore_lines, save_state}
use localhoist.Command.Patch.{app_url}
use localhoist.Command.Session
use localhoist.Command.Session.{Session, lift, ◌>>◌}
use localhoist.Command.Run.{Surroundings, patch, save_patched}
use localhoist.Command.Safe.{env_of, state_of}
use localhoist.Command.Safe.Undo.{undone, path-state_path, state_path-path, state_path-temp_path}

module _ (path content url : Bytes) where
  abbrev new_lines : List Bytes
  new_lines = (set (parse content) app_url url).0

  abbrev patched_env : File
  patched_env = record { path = path; lines = new_lines }

  get_raw_new :
      {raw : Bytes}
      → get_raw (parse content) app_url ≡ some raw
      → get_raw new_lines app_url ≡ some url
  unfolding lacks equal
  get_raw_new there =
      get_raw-set app_url app_url refl refl (parse content) url
      ∙ rw (set_present (parse content) app_url url there) refl

  parse_new : lacks b'\n' url ≡ true → parse (render new_lines) ≡ new_lines
  unfolding lacks
  parse_new one_line =
      parse-render new_lines (set-ne-nil (parse content) app_url url (parse-ne-nil content)) (
        set-All (λ line. lacks b'\n' line ≡ true) (parse content) app_url url
          (lacks-append b'\n' (prefix app_url) url refl one_line) (parse-All-lacks content))

  module _ (o : Surroundings) (t : Tree) (umask : ℕ) where
    abbrev with_sidecar : Tree
    with_sidecar =
        put (calm t umask) (state_path path) (o.states.encode (state_of path content)) 0o600

    -- What the patch leaves on the disk `t'`: a reader of `.env` finds the tunnel's URL, and the
    -- values in the sidecar file bring the lines of `.env` back.
    pub record IsPatched (t' : Tree) : Type 0 where
      pub now : Bytes
      pub env : Holds t' path now
      pub visible : get_raw (parse now) app_url ≡ some url
      pub undoes : restore_lines (state_of path content).original (parse now) ≡ parse content
      pub sidecar : Holds t' (state_path path) (o.states.encode (state_of path content))

    there_still : (e : Entry) → t path ≡ some e → with_sidecar path ≡ some e
    there_still e there =
        update_other t (state_path path) _ path (path-state_path path content) ∙ there

    found-save :
        (env : File) (r : List Bytes × Bool)
        → r.1 ≡ true
        → save_patched o env r ≡ (lift (save (record env { lines = r.0 })) >> Session.pure true)
    found-save env (lines, true) h = refl
    found-save env (lines, false) h = cc

    patch_done :
        (e : Entry) (s : Session)
        → t path ≡ some e
        → (set (parse content) app_url url).1 ≡ true
        → s.world ≡ calm t umask
        → patch o true (env_of path content) url s ≡ (
          ok true,
          record s {
            world = calm (saved_tree patched_env with_sidecar umask e) umask;
            state = some (state_of path content);
          },
        )
    unfolding patch save_state
    patch_done e s there found at_rest =
        rw
          (
            at_rest,
            write_file-calm t umask (state_path path) (o.states.encode (state_of path content))
                0o600,
          )
          (ap
              (λ k. k (record s {
                world = calm with_sidecar umask;
                state = some (state_of path content);
              }))
              (found-save (env_of path content) (set (parse content) app_url url) found)
            ∙ rw (save-calm patched_env with_sidecar umask e (there_still e there)) refl)

    -- With APP_URL in .env, and when no call fails, the patch succeeds and reports that it
    -- patched, and the clean-up has its state; .env then names the URL under APP_URL, and the
    -- sidecar file holds what puts the original lines back. Assumed: the URL is one line.
    pub patch-calm :
        {raw : Bytes} (s : Session)
        → Holds t path content
        → get_raw (parse content) app_url ≡ some raw
        → lacks b'\n' url ≡ true
        → s.world ≡ calm t umask
        → (t' : Tree) × (patch o true (env_of path content) url s
            ≡ (ok true, record s { world = calm t' umask; state = some (state_of path content) }))
          × IsPatched t'
    patch-calm s (e, here, bytes) there one_line at_rest = (
      saved_tree patched_env with_sidecar umask e,
      patch_done e s here (set_present (parse content) app_url url there) at_rest,
      record {
        now = render new_lines;
        env = (_, saved_same patched_env with_sidecar umask e, refl);
        visible = ap (λ ls. get_raw ls app_url) (parse_new one_line) ∙ get_raw_new there;
        undoes = undone path content url one_line;
        sidecar = (
          _,
          saved_other patched_env with_sidecar umask e (state_path path)
                (state_path-path path content) (state_path-temp_path path content)
              ∙ update_same t (state_path path) _,
          refl,
        );
      },
    )
