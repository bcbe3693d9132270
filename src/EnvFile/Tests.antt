-- ===== src/EnvFile/Tests.antt =====
-- A small dotenv file, patched, saved and put back.
use localhoist.Common.{◌≡◌, refl, none, some, List, [], ◌∷◌, Bytes, codes, equal}
use localhoist.Common.Text.{lacks, has_suffix, has_prefix}
use localhoist.Common.Disk.{World, fine, torn, update}
use localhoist.EnvFile.{File, parse, render, set, save}
use localhoist.EnvFile.Format.{render-parse}
use localhoist.EnvFile.Lines.{IsKey}
use localhoist.EnvFile.Save.{Saved, save-Saved}
use localhoist.EnvFile.State.{snapshot, restore_lines}
use localhoist.EnvFile.State.Restore.{restore_lines_undo}

abbrev app_name : Bytes
app_name = codes "APP_NAME"

abbrev app_url : Bytes
app_url = codes "APP_URL"

abbrev env_lines : List Bytes
env_lines = codes "APP_NAME=\"a b\"" ∷ codes "# a note" ∷ codes "APP_URL=http://localhost" ∷ []

abbrev patches : List (Bytes × Bytes)
patches =
    (app_url, codes "https://a.io") ∷ (app_name, codes "x") ∷ (app_url, codes "https://b.io") ∷ []

patched :
    restore_lines patches env_lines
    ≡ codes "APP_NAME=x" ∷ codes "# a note" ∷ codes "APP_URL=https://b.io" ∷ []
unfolding restore_lines set has_prefix equal
patched = refl

url-IsKey : IsKey app_url
unfolding lacks
url-IsKey = refl

name-IsKey : IsKey app_name
unfolding lacks
name-IsKey = refl

render-parse_example : render (parse (codes "A=1\nB")) ≡ codes "A=1\nB\n"
unfolding has_suffix has_prefix
render-parse_example = render-parse (codes "A=1\nB")

restore_lines_undo_example :
    restore_lines (snapshot env_lines (app_name ∷ app_url ∷ [])) (restore_lines patches env_lines)
    ≡ env_lines
unfolding equal
restore_lines_undo_example =
    restore_lines_undo env_lines (app_name ∷ app_url ∷ []) patches (name-IsKey, (url-IsKey, tt))
      ((url-IsKey, refl), ((name-IsKey, refl), ((url-IsKey, refl), tt)))

abbrev two_values : List (Bytes × Bytes)
two_values = (app_url, codes "x") ∷ (app_name, codes "y") ∷ []

abbrev two_swapped : List (Bytes × Bytes)
two_swapped = (app_name, codes "y") ∷ (app_url, codes "x") ∷ []

-- The write of the temporary file is torn.
abbrev full_disk : World
full_disk = record {
  tree =
      update (λ q. none) (codes "/p/.env")
        (some (record { content = codes "A=1\n"; mode = 0o600 }));
  faults = fine ∷ torn 2 ∷ [];
  umask = 0o022;
}

abbrev env_file : File
env_file = record { path = codes "/p/.env"; lines = env_lines }

save-Saved_example : Saved env_file full_disk (save env_file full_disk)
save-Saved_example = save-Saved env_file full_disk
