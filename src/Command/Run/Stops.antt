-- ===== src/Command/Run/Stops.antt =====
-- The tunnel is stopped once, and `.env` is dealt with before that.
use localhoist.Common.{◌≢◌, refl, Bool, true, false, List, [], ◌∷◌, Bytes, inl, inr}
use localhoist.Common.Disk.{World, Outcome, ok, err, dead}
use localhoist.EnvFile.{File, save, set}
use localhoist.EnvFile.State.{save_state}
use localhoist.Laravel.{Project}
use localhoist.Config.{Resolution}
use localhoist.Command.Patch.{app_url}
use localhoist.Command.Session.{
  Session, lift, on_disk, then_in, pure, remember, cleanup, with_cleanup, at_return, ◌>>◌,
}
use localhoist.Command.Run.{Flags, Surroundings, patch, save_patched, serve, patch_env}
use localhoist.Command.Run.Settled.{Went}
use localhoist.Command.Run.Walk.{IsKept, after_patch-Goes}
use localhoist.Command.Run.Stopping.{
  IsRunning, IsStopped, Either, Runs, Runs->>=, Runs-lift, said-IsRunning, then_gone,
  cleanup-IsStopped,
}

module _ (o : Surroundings) where
  save_patched-Runs : (env : File) (r : List Bytes × Bool) → Runs (save_patched o env r)
  save_patched-Runs env (lines, true) =
      Runs->>= (lift (save (record env { lines = lines }))) (λ _. pure true) (Runs-lift _)
        (λ _ s h. h)
  save_patched-Runs env (lines, false) = λ s h. h

  patch-Runs : (wanted : Bool) (env : File) (url : Bytes) → Runs (patch o wanted env url)
  unfolding patch
  patch-Runs false env url s h = h
  patch-Runs true env url s h =
      Runs->>= (lift (save_state o.states env (app_url ∷ [])))
        (λ st. remember st >> save_patched o env (set env.lines app_url url)) (Runs-lift _)
        (λ st s h.
          save_patched-Runs env (set env.lines app_url url) (remember st s).1
            (record { not_yet = h.not_yet; no_stop = h.no_stop }))
        s h

  abbrev Killed : Session → Type 0
  Killed s = Unit {0}

  moved :
      {A : Type 0} (s : Session) (r : Outcome A × World)
      → IsRunning s
      → Went (λ _ s. IsRunning s) IsRunning (on_disk s r)
  moved s (ok a, w) h = record { not_yet = h.not_yet; no_stop = h.no_stop }
  moved s (err e, w) h = record { not_yet = h.not_yet; no_stop = h.no_stop }
  moved s (dead, w) h = tt

  cleaned :
      (r : Outcome (Unit {0}) × Session)
      → Went (λ _ s. IsStopped s) IsStopped r
      → Went (λ _ s. Either s) Either r
  cleaned (ok u, s) h = inr h
  cleaned (err e, s) h = inr h
  cleaned (dead, s) h = tt

  -- Printing and the write of the settings keep the tunnel running, and the clean-up stops it.
  IsRunning-IsKept : (path : Bytes) → IsKept o path IsRunning Either Killed
  IsRunning-IsKept path = record {
    says = λ m s h. said-IsRunning m s h;
    saves = λ chosen s h. moved s _ h;
    panics = λ s h. inl h;
    cleans = λ s h. cleaned (cleanup path s) (cleanup-IsStopped path s (inl h));
  }

  serve-Runs :
      (fl : Flags) (project : Project) (res : Resolution) (url : Bytes)
      → Runs (serve o fl project res url)
  unfolding serve
  serve-Runs fl project res url =
      Runs->>= (patch o (patch_env o fl project) project.env url) _
        (patch-Runs (patch_env o fl project) project.env url)
        (λ patched.
          after_patch-Goes o (project.env).path IsRunning Either Killed
            (IsRunning-IsKept (project.env).path) fl project res url patched)

  then_done :
      (r : Outcome (Unit {0}) × Session)
      → Went (λ _ s. IsStopped s) IsStopped r
      → Went (λ _ s. IsStopped s) IsStopped (then_in r (λ _. pure tt))
  then_done (ok u, s) h = h
  then_done (err e, s) h = h
  then_done (dead, s) h = tt

  returned :
      (path : Bytes) (r : Outcome (Unit {0}) × Session)
      → Went (λ _ s. IsRunning s) Either r
      → Went (λ _ s. IsStopped s) IsStopped (at_return path r)
  returned path (ok u, s) h = then_done (cleanup path s) (cleanup-IsStopped path s (inl h))
  returned path (err e, s) h =
      then_gone (λ _ s. IsStopped s) IsStopped e (cleanup path s) (cleanup-IsStopped path s h)
        (λ _ h. h)
  returned path (dead, s) h = tt

  not_dead :
      (r : Outcome (Unit {0}) × Session)
      → r.0 ≢ dead
      → Went (λ _ s. IsStopped s) IsStopped r
      → IsStopped r.1
  not_dead (ok u, s) alive h = h
  not_dead (err e, s) alive h = h
  not_dead (dead, s) alive h = elim (alive refl) [ ]

  -- With the tunnel open and unless the process is killed: however the body of run ends, by a
  -- return, an error or a panic, the tunnel is stopped exactly once, behind all that is printed.
  -- Assumed: the clean-up has not run before and the tunnel was not stopped.
  pub with_cleanup-IsStopped :
      (fl : Flags) (project : Project) (res : Resolution) (url : Bytes) (s : Session)
      → IsRunning s
      → (with_cleanup (project.env).path (serve o fl project res url) s).0 ≢ dead
      → IsStopped (with_cleanup (project.env).path (serve o fl project res url) s).1
  unfolding with_cleanup
  with_cleanup-IsStopped fl project res url s running alive =
      not_dead (with_cleanup (project.env).path (serve o fl project res url) s) alive (
        returned (project.env).path (serve o fl project res url s)
          (serve-Runs fl project res url s running))
