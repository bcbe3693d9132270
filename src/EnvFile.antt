-- ===== src/EnvFile.antt =====
-- internal/envfile/envfile.go: a dotenv file in memory, its lines read and patched in place, and
-- the sidecar file that keeps the original values for a run that did not end in order.
pub mod Format
pub mod Lines
pub mod Save
pub mod Replaced
pub mod State
mod Tests
use localhoist.Common.{
  ℕ, ◌-◌, ◌≡◌, Bool, true, false, ◌&&◌, ◌||◌, Option, none, some, List, [], ◌∷◌, ◌++◌, Bytes, codes,
  ◌==◌, leb, length, take, drop, if◌then◌else◌,
}
use localhoist.Common.Text.{
  has_prefix, trim_prefix, trim_suffix, has_suffix, split, join, trim_space,
}
use localhoist.Common.Disk.{
  M, World, Entry, Error, ok, err, dead, ◌>>=◌, ◌>>◌, pure, attempt, stat, read_file, write_file,
  rename,
}

-- `File`
pub record File : Type 0 where
  pub path : Bytes
  pub lines : List Bytes

abbrev pub newline : Bytes
newline = b'\n' ∷ []

-- The lines of a file's bytes, and the bytes of its lines: the middle of `Load` and of `Save`.
unfoldable pub parse : Bytes → List Bytes
parse content = split b'\n' (trim_suffix content newline)

unfoldable pub render : List Bytes → Bytes
render lines = join b'\n' lines ++ newline

unfoldable pub load : Bytes → M File
load path = do content ← read_file path; pure (record { path = path; lines = parse content })

abbrev pub prefix : Bytes → Bytes
prefix key = key ++ codes "="

-- The loop of `GetRaw`. `none` stands for `"", false`.
unfoldable pub get_raw : List Bytes → Bytes → Option Bytes
unfolding has_prefix trim_prefix
get_raw [] key = none
get_raw (line ∷ lines) key =
    let rest = get_raw lines key in
    if has_prefix line (prefix key) then some (trim_prefix line (prefix key)) else rest

-- The loop of `Set`, which returns the lines and whether the key was there.
unfoldable pub set : List Bytes → Bytes → Bytes → List Bytes × Bool
unfolding has_prefix
set [] key value = ([], false)
set (line ∷ lines) key value =
    let rest = set lines key value in
    if has_prefix line (prefix key)
    then ((prefix key ++ value) ∷ lines, true)
    else (line ∷ rest.0, rest.1)

abbrev first_byte : Bytes → ℕ
first_byte [] = 0
first_byte (c ∷ s) = c

abbrev last_byte : Bytes → ℕ
last_byte [] = 0
last_byte (c ∷ []) = c
last_byte (c ∷ d ∷ s) = last_byte (d ∷ s)

-- The quotes of `unquote`, on a text that is trimmed.
unfoldable pub strip_quotes : Bytes → Bytes
strip_quotes v =
    if leb 2 (length v)
    then if (first_byte v == b'"' && last_byte v == b'"')
        || (first_byte v == b'\'' && last_byte v == b'\'')
      then take (length v - 2) (drop 1 v)
      else v
    else v

unfoldable pub unquote : Bytes → Bytes
unfolding trim_space strip_quotes
unquote v = strip_quotes (trim_space v)

abbrev unquoted : Option Bytes → Bytes × Bool
unquoted none = (unquote [], false)
unquoted (some raw) = (unquote raw, true)

unfoldable pub get : List Bytes → Bytes → Bytes × Bool
unfolding get_raw unquote
get lines key = unquoted (get_raw lines key)

abbrev pub temp_path : Bytes → Bytes
temp_path path = path ++ codes ".localhoist-tmp"

-- The permissions that `Save` gives to the new file: the old file's, or 0644.
abbrev pub save_with : File → ℕ → M (Unit {0})
save_with f perm = do
  write_file (temp_path f.path) (render f.lines) perm
  rename (temp_path f.path) f.path

unfoldable pub save : File → M (Unit {0})
save f = attempt (stat f.path) (λ info. save_with f info.mode) (λ _. save_with f 0o644)
