-- ===== src/Command/Safe/Undo.antt =====
-- The lines that the patch writes and the lines that it found, and the names of the two files.
use localhoist.Common.{
  ◌≡◌, refl, ap, ◌∙◌, true, false, [], ◌∷◌, Bytes, equal, equal-append, equal-append_self,
  equal-self_append,
}
use localhoist.Common.Text.{lacks, lacks-append}
use localhoist.EnvFile.{parse, render, set, prefix, temp_path}
use localhoist.EnvFile.Format.{parse-render, parse-ne-nil, parse-All-lacks, set-All, set-ne-nil}
use localhoist.EnvFile.State.{state_path, restore_lines}
use localhoist.EnvFile.State.Restore.{restore_lines_undo, restore_lines-snapshot}
use localhoist.Command.Patch.{app_url}
use localhoist.Command.Safe.{state_of}

module _ (path content : Bytes) where
  -- The lines that the patch writes are undone by the snapshot.
  pub undone :
      (url : Bytes)
      → lacks b'\n' url ≡ true
      → restore_lines
          (state_of path content).original
          (parse (render (set (parse content) app_url url).0))
        ≡ parse content
  unfolding lacks equal restore_lines
  undone url h =
      ap (restore_lines (state_of path content).original) (
        parse-render _ (set-ne-nil (parse content) app_url url (parse-ne-nil content)) (
          set-All (λ line. lacks b'\n' line ≡ true) (parse content) app_url url
            (lacks-append b'\n' (prefix app_url) url refl h) (parse-All-lacks content)))
      ∙ restore_lines_undo (parse content) (app_url ∷ []) ((app_url, url) ∷ []) (refl, tt)
          ((refl, refl), tt)

  -- An unpatched file is as its own snapshot says.
  pub unpatched : restore_lines (state_of path content).original (parse content) ≡ parse content
  unpatched = restore_lines-snapshot (parse content) (app_url ∷ [])

  pub path-state_path : equal path (state_path path) ≡ false
  path-state_path = equal-self_append path _ _

  pub state_path-path : equal (state_path path) path ≡ false
  state_path-path = equal-append_self path _ _

  pub state_path-temp_path : equal (state_path path) (temp_path path) ≡ false
  unfolding equal
  state_path-temp_path = equal-append path _ _ ∙ refl
