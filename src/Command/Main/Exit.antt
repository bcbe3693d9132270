-- ===== src/Command/Main/Exit.antt =====
-- What the exit code says of `.env`.
use localhoist.Common.{
  ℕ, true, if◌then◌else◌, ◌≡◌, ◌≢◌, ◌⊎◌, refl, ap, Bool, false, none, List, [], ◌∷◌, Bytes, codes,
  equal, inl, inr,
}
use localhoist.Common.Arguments.{given, parse_from}
use localhoist.Common.Disk.{Error, Outcome, ok, err, dead, is_panic}
use localhoist.EnvFile.State.{state_path}
use localhoist.Command.Safe.{IsFaithful, IsSafe}
use localhoist.Command.Session.{Session, then_in, pure, say, fatal, ◌>>◌}
use localhoist.Command.Settings.{returned}
use localhoist.Command.Run.{Surroundings, settings_path, env_path, run}
use localhoist.Command.Run.Crash.{OneLine}
use localhoist.Command.Run.Settled.{Restored}
use localhoist.Command.Run.Whole.{run-Restored}
use localhoist.Command.Main.{run_formal, flags_of, report, run_parsed, main}

-- The arguments of a run: they are not those of `config`, and have these values.
abbrev pub first_is_config : List Bytes → Bool
first_is_config [] = false
first_is_config (command ∷ args) = equal command (codes "config")

module _ (o : Surroundings) (path content : Bytes) where
  abbrev Good : Session → Type 0
  Good = Restored path content o.states

  main-run :
      (args rest : List Bytes) (values : List (Bytes × Bytes)) (s : Session)
      → first_is_config args ≡ false
      → parse_from run_formal none args ≡ given values rest
      → main o args s ≡ report ((run o (flags_of values) >> pure returned) s)
  unfolding main
  main-run [] rest values s other e = ap (λ p. report (run_parsed o p s)) e
  main-run (command ∷ args) rest values s other e = rw other (ap (λ p. report (run_parsed o p s)) e)

  not_zero :
      (x : Error) (s : Session) (panic : Bool)
      → let r : Outcome ℕ × Session = if panic then (ok 2, s) else (say (fatal x) >> pure 1) s in
        r.0 ≡ ok 0 → Good r.1
  not_zero x s true e = cc
  not_zero x s false e = cc

  reported :
      (r : Outcome (Unit {0}) × Session)
      → (r.0 ≢ dead → ((r.1.state ≡ none) × (r.0 ≢ ok tt)) ⊎ Good r.1)
      → (report (then_in r (λ _. pure returned))).0 ≡ ok 0
      → Good (report (then_in r (λ _. pure returned))).1
  reported (ok u, s) h e = elim (h (λ k. cc)) [
    | inl (unset, not_ok) ↦ elim (not_ok refl) [ ]
    | inr good ↦ good
  ]
  reported (err x, s) h e = not_zero x s (is_panic x) e
  reported (dead, s) h e = cc

  -- A run that exits with code 0 on a disk from which .env can be put back leaves the original
  -- .env, but for a newline at its end, and no sidecar file, or has said that it failed to put
  -- .env back. Its arguments are none of config, are accepted by the flags and do not ask for the
  -- version. Assumed: it starts without a state and with the clean-up not run, no URL of the
  -- tunnel has a newline, the settings are in another file, and the JSON of the snapshot is read
  -- back whole and not in part.
  pub main-Restored :
      (args rest : List Bytes) (values : List (Bytes × Bytes)) (s : Session)
      → IsFaithful path content o.states
      → equal path (settings_path o) ≡ false
      → equal (state_path path) (settings_path o) ≡ false
      → OneLine o
      → first_is_config args ≡ false
      → parse_from run_formal none args ≡ given values rest
      → (flags_of values).show_version ≡ false
      → env_path (flags_of values) ≡ path
      → s.state ≡ none
      → s.cleaned ≡ false
      → IsSafe path content o.states s.world.tree
      → (main o args s).0 ≡ ok 0
      → Good (main o args s).1
  main-Restored args rest values s faithful apart side_apart one_line other e shares is_path unset
        not_yet safe zero_code =
      rw (main-run args rest values s other e) (
        reported (run o (flags_of values) s)
          (run-Restored o path content faithful apart side_apart one_line (flags_of values) s shares
            is_path unset not_yet safe)
          (rw (main-run args rest values s other e) at zero_code))
