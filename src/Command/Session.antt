-- ===== src/Command/Session.antt =====
-- cmd/localhoist/main.go: the state of `run` behind the start of the tunnel, and its effects.
use localhoist.Common.{ℕ, Bool, true, Option, none, some, List, [], ◌∷◌, ◌++◌, Bytes, if◌then◌else◌}
use localhoist.Common.Disk.{M, World, Error, Outcome, ok, err, dead}
use localhoist.EnvFile.State.{State, state_path, restore}
use localhoist.Proxy.{Route}

-- What `run` prints, a constructor for each text with its arguments.
pub data Message : Type 0 where
  version_text left_over qr_code prefer_ngrok rewritten env_restored : Message
  transport_note : Bytes → Message
  starting : Bytes → ℕ → Message
  project_dir : Bytes → Message
  route_line : Route → Message
  env_patched skip_edit zero_mutation cached_config sidestep_edit : Message
  public_url : Bytes → Message
  make_default : Bytes → Message
  not_saved : Error → Message
  now_default : Bytes → Message
  keeping : Bytes → Message
  ctrl_c : Bool → Message
  restore_failed : Error → Message
  originals_in : Bytes → Message
  -- `localhoist config`: its usage, the effective transport and its source, a layer, what was done.
  config_usage : Message
  effective : Bytes → Bytes → Message
  layer_value : Bytes → Bytes → Bytes → Message
  layer_unset : Bytes → Bytes → Message
  change_hint : Message
  key_set : Bytes → Bytes → Bytes → Message
  key_unset : Bytes → Bytes → Message
  -- What `main` prints of an error.
  fatal : Error → Message

pub data Effect : Type 0 where
  said : Message → Effect
  -- `tun.Stop()`
  stopped : Effect

-- `state` and `cleanupOnce` are the variables of `run` that `cleanup` shares.
pub record Session : Type 0 where
  pub world : World
  pub state : Option State
  pub cleaned : Bool
  pub effects : List Effect

abbrev pub S : Type 0 → Type 0
S A = Session → Outcome A × Session

abbrev pub then_in : {A B : Type 0} → Outcome A × Session → (A → S B) → Outcome B × Session
then_in (ok a, s) f = f a s
then_in (err e, s) f = (err e, s)
then_in (dead, s) f = (dead, s)

infixl 5 ◌>>=◌
abbrev pub ◌>>=◌ : {A B : Type 0} → S A → (A → S B) → S B
◌>>=◌ m f s = then_in (m s) f

infixl 5 ◌>>◌
abbrev pub ◌>>◌ : {A B : Type 0} → S A → S B → S B
m >> k = m >>= λ _. k

abbrev pub pure : {A : Type 0} → A → S A
pure a s = (ok a, s)

abbrev pub give : {A : Type 0} → Outcome A → S A
give o s = (o, s)

abbrev pub on_disk : {A : Type 0} → Session → Outcome A × World → Outcome A × Session
on_disk s (o, w) = (o, record s { world = w })

-- The calls that touch the disk.
abbrev pub lift : {A : Type 0} → M A → S A
lift m s = on_disk s (m s.world)

abbrev pub effect : Effect → S (Unit {0})
effect e s = (ok tt, record s { effects = s.effects ++ e ∷ [] })

abbrev pub say : Message → S (Unit {0})
say m = effect (said m)

unfoldable pub say_all : List Message → S (Unit {0})
say_all [] = pure tt
say_all (m ∷ ms) = say m >> say_all ms

abbrev pub remember : State → S (Unit {0})
remember st s = (ok tt, record s { state = some st })

abbrev pub tell_restored : Bytes → Outcome (Unit {0}) × Session → Outcome (Unit {0}) × Session
tell_restored path (ok u, s) = say env_restored s
tell_restored path (err e, s) = (say (restore_failed e) >> say (originals_in (state_path path))) s
tell_restored path (dead, s) = (dead, s)

abbrev pub put_back : Bytes → Option State → S (Unit {0})
put_back path none s = (ok tt, s)
put_back path (some st) s = tell_restored path (lift (restore st) s)

-- The closure `cleanup`, which `sync.Once` guards.
unfoldable pub cleanup : Bytes → S (Unit {0})
unfolding restore
cleanup path s =
    if s.cleaned
    then (ok tt, s)
    else (put_back path s.state >> effect stopped) (record s { cleaned = true })

abbrev pub at_return : {A : Type 0} → Bytes → Outcome A × Session → Outcome A × Session
at_return path (ok a, s) = (cleanup path >> pure a) s
at_return path (err e, s) = (cleanup path >> give (err e)) s
at_return path (dead, s) = (dead, s)

-- `defer cleanup()`: it runs at every end of the body, a panic too, and not where the process is
-- killed.
unfoldable pub with_cleanup : {A : Type 0} → Bytes → S A → S A
unfolding cleanup
with_cleanup path body s = at_return path (body s)
