-- ===== src/Command/Patch.antt =====
-- cmd/localhoist/main.go: the start of `run`, which repairs what an earlier run left that did not
-- end in order, and the key that a run patches. A path names a file: `*dir + "/.env"` and the
-- absolute path that `Detect` derives from it are taken to be one name.
use localhoist.Common.{Bool, true, false, Option, none, some, Bytes, codes}
use localhoist.Common.Disk.{M, restoring, ◌>>=◌, pure, fail, attempt}
use localhoist.EnvFile.State.{State, Codec, load_state, restore}

abbrev pub app_url : Bytes
app_url = codes "APP_URL"

module _ (codec : Codec) where
  abbrev pub repair : Option State → M Bool
  repair none = pure false
  repair (some st) = attempt (restore st) (λ _. pure true) (λ e. fail (restoring e))

  -- The start of `run`: the result tells whether values were restored.
  unfoldable pub recover : Bytes → M Bool
  unfolding load_state restore
  recover path = do found ← load_state codec path; repair found
