-- ===== src/Command/Safe.antt =====
-- What a run may leave on the disk, wherever it stops: always enough to put `.env` back.
pub mod Undo
pub mod Recover
pub mod Undisturbed
pub mod Cleared
use localhoist.Common.{ℕ, ◌≡◌, ◌⊎◌, ◌<◌, Option, none, some, List, [], ◌∷◌, Bytes, length, take}
use localhoist.Common.Disk.{Tree}
use localhoist.Common.Disk.Laws.{Holds}
use localhoist.EnvFile.{File, parse, render}
use localhoist.EnvFile.State.{State, Codec, state_path, snapshot, restore_lines}
use localhoist.Command.Patch.{app_url}

-- The project's file at `path`, with the bytes that it has when the run loads it.
module _ (path content : Bytes) where
  abbrev pub env_of : File
  env_of = record { path = path; lines = parse content }

  -- What `SaveState` snapshots of it.
  abbrev pub state_of : State
  state_of = record { env_path = path; original = snapshot (parse content) (app_url ∷ []) }

  -- The original bytes, or those with the newline that `Save` puts behind the last line.
  abbrev pub IsOriginal : Tree → Type 0
  IsOriginal t = Holds t path content ⊎ Holds t path (render (parse content))

  module _ (codec : Codec) where
    -- What the program relies on in `encoding/json`: the snapshot is read back from what was
    -- written, and is not read from a part of it.
    pub record IsFaithful : Type 0 where
      pub reads_back : codec.decode (codec.encode state_of) ≡ some state_of
      pub no_part :
          (n : ℕ)
          → n < length (codec.encode state_of)
          → codec.decode (take n (codec.encode state_of)) ≡ none

    pub data IsSafe (t : Tree) : Type 0 where
      -- Nothing is to be repaired.
      clean : IsOriginal t → t (state_path path) ≡ none → IsSafe t
      -- The sidecar file cannot be read, and `.env` was not patched.
      broken :
          (part : Bytes)
          → IsOriginal t
          → Holds t (state_path path) part
          → codec.decode part ≡ none
          → IsSafe t
      -- The sidecar file holds what puts the lines back.
      pending :
          (now : Bytes)
          → Holds t path now
          → restore_lines state_of.original (parse now) ≡ parse content
          → Holds t (state_path path) (codec.encode state_of)
          → IsSafe t
