-- ===== src/EnvFile/State.antt =====
-- internal/envfile/envfile.go: the snapshot of the original values, its sidecar file, and the way
-- back. `encoding/json` is a parameter: `encode` writes a state and `decode` reads one.
pub mod Restore
use localhoist.Common.{
  ℕ, ◌≡◌, Bool, true, false, Option, none, some, List, [], ◌∷◌, ◌++◌, Bytes, codes, if◌then◌else◌,
}
use localhoist.Common.Disk.{
  M, World, Error, not_exist, corrupt_state, ok, err, dead, ◌>>=◌, ◌>>◌, pure, fail, attempt,
  read_file, write_file, remove,
}
use localhoist.EnvFile.{File, load, save, get_raw, set}

-- `State`. The map is a list of its pairs in the order in which a loop over it visits them.
pub record State : Type 0 where
  pub env_path : Bytes
  pub original : List (Bytes × Bytes)

-- `json.MarshalIndent` and `json.Unmarshal` at `State`.
pub record Codec : Type 0 where
  pub encode : State → Bytes
  pub decode : Bytes → Option State

abbrev pub state_path : Bytes → Bytes
state_path path = path ++ codes ".localhoist-state.json"

abbrev keep : Bytes → Option Bytes → List (Bytes × Bytes) → List (Bytes × Bytes)
keep key none rest = rest
keep key (some raw) rest = (key, raw) ∷ rest

-- The loop of `SaveState`: the raw values of the keys that exist.
unfoldable pub snapshot : List Bytes → List Bytes → List (Bytes × Bytes)
unfolding get_raw
snapshot lines [] = []
snapshot lines (k ∷ keys) = keep k (get_raw lines k) (snapshot lines keys)

-- The loop of `Restore`.
unfoldable pub restore_lines : List (Bytes × Bytes) → List Bytes → List Bytes
unfolding set
restore_lines [] lines = lines
restore_lines ((k, v) ∷ original) lines = restore_lines original (set lines k v).0

module _ (codec : Codec) where
  open codec use {encode, decode}

  unfoldable pub save_state : File → List Bytes → M State
  save_state env keys = do
    let st : State = record { env_path = env.path; original = snapshot env.lines keys }
    write_file (state_path env.path) (encode st) 0o600
    pure st

  abbrev pub decoded : Bytes → Option State → M (Option State)
  decoded path none = fail (corrupt_state path)
  decoded path (some st) = pure (some st)

  abbrev pub absent : Error → M (Option State)
  absent (not_exist path) = pure none
  absent e = fail e

  -- `LoadState`: `none` if there is no sidecar file.
  unfoldable pub load_state : Bytes → M (Option State)
  load_state path =
      attempt (read_file (state_path path)) (λ bytes. decoded path (decode bytes)) absent

-- `State.Restore`
unfoldable pub restore : State → M (Unit {0})
restore st = do
  env ← load st.env_path
  save (record env { lines = restore_lines st.original env.lines })
  remove (state_path st.env_path)
