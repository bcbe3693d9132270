-- ===== src/Config.antt =====
-- internal/config/config.go: the layered settings. `encoding/json` is a parameter, at maps.
pub mod Layers
pub mod Files
pub mod Domain
pub mod Others
mod Tests
use localhoist.Common.{
  ℕ, Bool, true, false, not, ◌&&◌, ◌||◌, Option, none, some, List, [], ◌∷◌, ◌++◌, Bytes, codes,
  equal, if◌then◌else◌,
}
use localhoist.Common.Disk.{
  M, World, Error, not_exist, bad_json, not_string, unknown_transport, unknown_key, static_domain,
  in_file, Outcome, ok, err, nil_map, ◌>>=◌, ◌>>◌, pure, fail, attempt, read_file, write_file,
  make_dirs,
}

abbrev pub cloudflare : Bytes
cloudflare = codes "cloudflare"

abbrev pub ngrok : Bytes
ngrok = codes "ngrok"

abbrev pub default_transport : Bytes
default_transport = cloudflare

abbrev pub transport_key : Bytes
transport_key = codes "transport"

-- A value of a map: a string, or any other JSON value by its text.
pub data Value : Type 0 where
  text : Bytes → Value
  other : Bytes → Value

-- `map[string]any`
abbrev pub Object : Type 0
Object = List (Bytes × Value)

-- What `json.Unmarshal` makes of a text, at a map: an error, the nil map for `null`, or a map.
pub data Parsed : Type 0 where
  bad null : Parsed
  object : Object → Parsed

pub record Codec : Type 0 where
  pub parse : Bytes → Parsed
  pub print : Object → Bytes

unfoldable pub lookup : Bytes → Object → Option Value
lookup k [] = none
lookup k ((j, v) ∷ m) = let rest = lookup k m in if equal j k then some v else rest

-- `m[key] = value` and `delete(m, key)`
unfoldable pub insert : Bytes → Value → Object → Object
insert k v [] = (k, v) ∷ []
insert k v ((j, w) ∷ m) = let rest = insert k v m in if equal j k then (k, v) ∷ m else (j, w) ∷ rest

unfoldable pub delete : Bytes → Object → Object
delete k [] = []
delete k ((j, w) ∷ m) = let rest = delete k m in if equal j k then rest else (j, w) ∷ rest

pub data Source : Type 0 where
  default global project flag : Source

-- `Source.String`
abbrev pub source_text : Source → Bytes
source_text global = codes "global config"
source_text project = codes "project config"
source_text flag = codes "--transport flag"
source_text default = codes "default"

pub record Resolution : Type 0 where
  pub transport : Bytes
  pub source : Source
  pub source_path : Bytes
  pub saved : Bytes

-- `filepath.Join` of two clean paths.
unfoldable pub join_path : Bytes → Bytes → Bytes
join_path a b = if equal a [] || equal a (codes ".") then b else a ++ (codes "/" ++ b)

abbrev home_or_here : Option Bytes → Bytes
home_or_here none = codes "."
home_or_here (some home) = home

-- `GlobalPath`, from the value of XDG_CONFIG_HOME and the home directory, if there is one.
unfoldable pub global_path : Bytes → Option Bytes → Bytes
global_path xdg home =
    let base = if equal xdg [] then join_path (home_or_here home) (codes ".config") else xdg in
    join_path (join_path base (codes "localhoist")) (codes "config.json")

unfoldable pub project_path : Bytes → Bytes
project_path dir = join_path dir (codes ".localhoist.json")

unfoldable pub is_transport : Bytes → Bool
is_transport v = equal v cloudflare || equal v ngrok

-- `ValidateTransport`
abbrev pub validate_transport : Bytes → M (Unit {0})
validate_transport v = if is_transport v then pure tt else fail (unknown_transport v)

-- `validateKey`, with `knownKeys`
abbrev pub validate_key : Bytes → M (Unit {0})
validate_key key = if equal key transport_key then pure tt else fail (unknown_key key)

-- A nil map is `none`.
abbrev pub parsed : Bytes → Parsed → M (Option Object)
parsed path bad = fail (in_file path (bad_json path))
parsed path null = pure none
parsed path (object m) = pure (some m)

abbrev pub or_empty : Error → M (Option Object)
or_empty (not_exist path) = pure (some [])
or_empty e = fail e

abbrev pub lookup_in : Bytes → Option Object → Option Value
lookup_in key none = none
lookup_in key (some m) = lookup key m

-- The value under `transport`, where an empty text stands for none.
abbrev pub transport_of : Bytes → Option Value → M Bytes
transport_of path none = pure []
transport_of path (some (other v)) = fail (not_string path)
transport_of path (some (text v)) =
    attempt (validate_transport v) (λ _. pure v) (λ e. fail (in_file path e))

abbrev pub check_value : Bytes → Bytes → M (Unit {0})
check_value key value = if equal key transport_key then validate_transport value else pure tt

abbrev pub layer : Resolution → Bytes → Source → Bytes → Resolution
layer res path src v =
    if equal v []
    then res
    else record { transport = v; source = src; source_path = path; saved = v }

abbrev pub unset_resolution : Resolution
unset_resolution = record {
  transport = default_transport;
  source = default;
  source_path = [];
  saved = [];
}

abbrev pub with_flag : Bytes → Resolution → M Resolution
with_flag value res = if equal value [] then pure res else do
  validate_transport value
  pure (record { transport = value; source = flag; source_path = []; saved = res.saved })

module _ (codec : Codec) where
  unfoldable pub read : Bytes → M (Option Object)
  read path = attempt (read_file path) (λ bytes. parsed path (codec.parse bytes)) or_empty

  unfoldable pub read_transport : Bytes → M Bytes
  read_transport path = do m ← read path; transport_of path (lookup_in transport_key m)

  -- `write`
  unfoldable pub write : Bytes → Object → M (Unit {0})
  write path m = do make_dirs path; write_file path (codec.print m ++ codes "\n") 0o644

  -- An assignment to an entry of a nil map is a panic.
  abbrev pub assign : Bytes → Bytes → Bytes → Option Object → M (Unit {0})
  assign path key value none w = fail (nil_map path) w
  assign path key value (some m) w = write path (insert key (text value) m) w

  unfoldable pub set : Bytes → Bytes → Bytes → M (Unit {0})
  set path key value = do
    validate_key key
    check_value key value
    m ← read path
    assign path key value m

  abbrev pub drop_key : Bytes → Bytes → Option Object → Option Value → M (Unit {0})
  drop_key path key (some m) (some v) = write path (delete key m)
  drop_key path key _ _ = pure tt

  unfoldable pub unset : Bytes → Bytes → M (Unit {0})
  unset path key = do validate_key key; m ← read path; drop_key path key m (lookup_in key m)

  -- `Resolve`, for the two config files.
  unfoldable pub resolve : Bytes → Bytes → Bytes → M Resolution
  resolve global_file project_file value = do
    g ← read_transport global_file
    p ← read_transport project_file
    with_flag value (layer (layer unset_resolution global_file global g) project_file project p)

abbrev is_default : Source → Bool
is_default default = true
is_default _ = false

-- The note of `Finalize`; 226 134 146 is the arrow.
abbrev pub domain_note : Bytes → Bytes
domain_note domain =
    codes "static domain " ++ (domain ++ (codes " " ++ (226 ∷ 134 ∷ 146 ∷ codes " using ngrok")))

unfoldable pub finalize : Resolution → Bytes → Outcome (Resolution × Bytes)
finalize res domain =
    if equal domain [] || equal res.transport ngrok
    then ok (res, [])
    else if is_default res.source
    then ok (record res { transport = ngrok }, domain_note domain)
    else err (static_domain domain)
