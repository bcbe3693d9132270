-- ===== src/EnvFile/Replaced.antt =====
-- internal/envfile/envfile.go: `Save` when no call fails.
use localhoist.Common.{ℕ, ◌≡◌, ◌∙◌, false, none, some, Bytes, equal}
use localhoist.Common.Disk.{Tree, Entry, ok, update, mode_for}
use localhoist.Common.Disk.Laws.{
  calm, stat-calm, write_file-calm, rename-calm, update_same, update_other,
}
use localhoist.EnvFile.{File, render, save, temp_path}

module _ (f : File) (t : Tree) (umask : ℕ) where
  -- The file that `Save` makes in place of `e`, and the tree behind it.
  abbrev pub next_entry : Entry → Entry
  next_entry e = record {
    content = render f.lines;
    mode = mode_for (calm t umask) e.mode (t (temp_path f.path));
  }

  abbrev with_temp : Entry → Tree
  with_temp e = update t (temp_path f.path) (some (next_entry e))

  abbrev pub saved_tree : Entry → Tree
  saved_tree e = update (update (with_temp e) (temp_path f.path) none) f.path (some (next_entry e))

  pub save-calm :
      (e : Entry) → t f.path ≡ some e → save f (calm t umask) ≡ (ok tt, calm (saved_tree e) umask)
  unfolding save
  save-calm e there = rw (stat-calm t umask f.path there) (
      rw (write_file-calm t umask (temp_path f.path) (render f.lines) e.mode) (
        rename-calm (with_temp e) umask (temp_path f.path) f.path
          (update_same t (temp_path f.path) (some (next_entry e)))))

  pub saved_same : (e : Entry) → saved_tree e f.path ≡ some (next_entry e)
  saved_same e = update_same (update (with_temp e) (temp_path f.path) none) f.path _

  pub saved_other :
      (e : Entry) (q : Bytes)
      → equal q f.path ≡ false
      → equal q (temp_path f.path) ≡ false
      → saved_tree e q ≡ t q
  saved_other e q h g =
      update_other (update (with_temp e) (temp_path f.path) none) f.path _ q h
      ∙ update_other (with_temp e) (temp_path f.path) none q g
      ∙ update_other t (temp_path f.path) _ q g
