-- ===== src/Config/Tests.antt =====
-- A project's config file, changed and read back.
use localhoist.Common.{
  ◌≡◌, refl, none, some, [], ◌∷◌, ◌++◌, Bytes, codes, equal, inr, if◌then◌else◌,
}
use localhoist.Common.Disk.{read_file, World, Tree, ok, err, nil_map, update}
use localhoist.Common.Disk.Laws.{calm}
use localhoist.Config.{
  text, other, Object, bad, null, object, Codec, lookup, insert, delete, transport_key, cloudflare,
  ngrok, is_transport, Resolution, project, read, read_transport, set, unset, resolve, finalize,
}
use localhoist.Config.Layers.{IsResolved, resolve_given}
use localhoist.Config.Domain.{chosen, finalize-explicit}
use localhoist.Config.Files.{Stores, a_file, IsWritten, set-calm, unset-calm, set-null}

abbrev old_map : Object
old_map = (codes "note", other (codes "1")) ∷ (transport_key, text ngrok) ∷ []

abbrev old_json : Bytes
old_json = codes "{\"note\": 1, \"transport\": \"ngrok\"}"

-- `encoding/json` at the old map and at a new one.
abbrev codec_at : Bytes → Object → Codec
codec_at new_json new_map = record {
  parse = λ b.
      if equal b (new_json ++ codes "\n")
      then object new_map
      else if equal b old_json
      then object old_map
      else if equal b (codes "null")
      then null
      else bad;
  print = λ m. new_json;
}

abbrev path : Bytes
path = codes "/p/.localhoist.json"

abbrev disk_with : Bytes → Tree
disk_with content = update (λ q. none) path (some (record { content = content; mode = 0o644 }))

abbrev set_codec : Codec
set_codec =
    codec_at (codes "{\"note\": 1, \"transport\": \"cloudflare\"}")
      ((codes "note", other (codes "1")) ∷ (transport_key, text cloudflare) ∷ [])

set-Stores : Stores set_codec (disk_with old_json) path old_map
unfolding equal
set-Stores = a_file (record { content = old_json; mode = 0o644 }) refl refl

set-calm_example :
    (t' : Tree) × (set set_codec path transport_key cloudflare (calm (disk_with old_json) 0o022)
      ≡ (ok tt, calm t' 0o022))
    × IsWritten set_codec
        (disk_with old_json)
        t'
        path
        (insert transport_key (text cloudflare) old_map)
unfolding equal is_transport insert
set-calm_example =
    set-calm set_codec (disk_with old_json) 0o022 path cloudflare set-Stores refl
      (_, refl, λ k. refl)

abbrev unset_codec : Codec
unset_codec = codec_at (codes "{\"note\": 1}") ((codes "note", other (codes "1")) ∷ [])

unset-Stores : Stores unset_codec (disk_with old_json) path old_map
unfolding equal
unset-Stores = a_file (record { content = old_json; mode = 0o644 }) refl refl

unset-calm_example :
    (t' : Tree) × (unset unset_codec path transport_key (calm (disk_with old_json) 0o022)
      ≡ (ok tt, calm t' 0o022))
    × IsWritten unset_codec (disk_with old_json) t' path (delete transport_key old_map)
unfolding equal delete
unset-calm_example =
    unset-calm unset_codec (disk_with old_json) 0o022 path unset-Stores (_, refl, λ k. refl)

set-null_example :
    set set_codec path transport_key ngrok (calm (disk_with (codes "null")) 0o022)
    ≡ (err (nil_map path), calm (disk_with (codes "null")) 0o022)
unfolding equal is_transport
set-null_example =
    set-null set_codec (disk_with (codes "null")) 0o022 path ngrok
      (record { content = codes "null"; mode = 0o644 }) refl refl refl

abbrev global_file : Bytes
global_file = codes "/home/a/.config/localhoist/config.json"

abbrev w : World
w = calm (disk_with old_json) 0o022

global_missing : read_transport set_codec global_file w ≡ (ok [], w)
unfolding read_transport read read_file equal lookup
global_missing = refl

project_read : read_transport set_codec path w ≡ (ok ngrok, w)
unfolding read_transport read read_file equal lookup is_transport
project_read = refl

resolve_given_example :
    (res : Resolution) × (resolve set_codec global_file path cloudflare w ≡ (ok res, w))
    × IsResolved [] ngrok cloudflare res
unfolding equal is_transport
resolve_given_example =
    resolve_given set_codec global_file path cloudflare [] ngrok w w w global_missing project_read
      (inr refl)

abbrev by_project : Resolution
by_project = record { transport = ngrok; source = project; source_path = path; saved = ngrok }

resolved : resolve set_codec global_file path [] w ≡ (ok by_project, w)
unfolding resolve read_transport read read_file equal lookup is_transport
resolved = refl

by_project-IsResolved : IsResolved [] ngrok [] by_project
unfolding equal is_transport
by_project-IsResolved = record { decided = refl; by = refl; saved = refl; supported = refl }

finalize-explicit_example : chosen (finalize by_project (codes "a.ngrok.app")) ≡ ok ngrok
unfolding equal
finalize-explicit_example =
    finalize-explicit [] ngrok [] (codes "a.ngrok.app") by_project by_project-IsResolved
