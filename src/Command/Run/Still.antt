-- ===== src/Command/Run/Still.antt =====
-- What a step leaves alone of the session: the variables of the clean-up.
use localhoist.Common.{◌≡◌, ◌≢◌, refl, ◌∙◌, Bool, true, false, Option, none, List, [], ◌∷◌, Bytes}
use localhoist.Common.Disk.{World, Outcome, ok, err, dead}
use localhoist.EnvFile.{File, save, set}
use localhoist.EnvFile.State.{State, save_state}
use localhoist.Config.{resolve, finalize, project_path}
use localhoist.Command.Patch.{app_url, recover}
use localhoist.Command.Session.{Session, S, lift, then_in, pure, give, remember, ◌>>=◌, ◌>>◌}
use localhoist.Command.Run.{
  Flags, Surroundings, env_path, settings_path, patch, save_patched, choose, say_left_over,
  detect_project, override_app, domain_of,
}
use localhoist.Command.Run.Settled.{Went, Went-then}

-- The variables that `cleanup` shares with `run`.
abbrev pub vars : Session → Option State × Bool
vars s = (s.state, s.cleaned)

abbrev pub Still : {A X : Type 0} → (Session → X) → S A → Type 0
Still f m = (s : Session) → f (m s).1 ≡ f s

module _ {A B X : Type 0} (f : Session → X) where
  then_in-Still :
      (r : Outcome A × Session) (k : A → S B)
      → ((a : A) → Still f (k a))
      → f (then_in r k).1 ≡ f r.1
  then_in-Still (ok a, s) k h = h a s
  then_in-Still (err e, s) k h = refl
  then_in-Still (dead, s) k h = refl

  pub Still->>= :
      (m : S A) (k : A → S B) → Still f m → ((a : A) → Still f (k a)) → Still f (m >>= k)
  Still->>= m k first rest s = then_in-Still (m s) k rest ∙ first s

module _ (o : Surroundings) where
  told-Still : (b : Bool) → Still vars (say_left_over o b)
  told-Still false s = refl
  told-Still true s = refl

  -- Nothing before the listener sets them.
  pub choose-Still : (fl : Flags) → Still vars (choose o fl)
  unfolding choose
  choose-Still fl =
      Still->>= vars (lift (recover o.states (env_path fl))) _ (λ s. refl)
        (λ restored. Still->>= vars (say_left_over o restored) _ (told-Still restored) (λ _.
          Still->>= vars (detect_project o fl.dir) _ (λ s. refl)
            (λ found.
              Still->>= vars (give (override_app o fl.app found)) _ (λ s. refl)
                (λ project.
                  Still->>= vars
                    (lift (resolve o.settings (settings_path o) (project_path fl.dir) fl.transport))
                    _ (λ s. refl)
                    (λ res.
                      Still->>= vars (give (finalize res (domain_of o fl project))) _ (λ s. refl)
                        (λ final s. refl))))))

  saved-Still :
      {X : Type 0} (f : Session → X)
      → ((s : Session) (w : World) → f (record s { world = w }) ≡ f s)
      → (env : File) (found : List Bytes × Bool) → Still f (save_patched o env found)
  saved-Still f same env (lines, true) =
      Still->>= f (lift (save (record env { lines = lines }))) (λ _. pure true)
        (λ s. same s (save (record env { lines = lines }) s.world).1) (λ _ s. refl)
  saved-Still f same env (lines, false) = λ s. refl

  -- The patch does not run the clean-up.
  pub patch-Still :
      (wanted : Bool) (env : File) (url : Bytes) → Still (λ s. s.cleaned) (patch o wanted env url)
  unfolding patch
  patch-Still false env url s = refl
  patch-Still true env url s =
      Still->>= (λ s. s.cleaned) (lift (save_state o.states env (app_url ∷ [])))
        (λ st. remember st >> save_patched o env (set env.lines app_url url)) (λ s. refl)
        (λ st.
          Still->>= (λ s. s.cleaned) (remember st)
            (λ _. save_patched o env (set env.lines app_url url)) (λ s. refl)
            (λ _. saved-Still (λ s. s.cleaned) (λ _ _. refl) env (set env.lines app_url url)))
        s

  Went-any : {A : Type 0} (r : Outcome A × Session) → Went (λ _ s. Unit {0}) (λ s. Unit {0}) r
  Went-any (ok a, s) = tt
  Went-any (err e, s) = tt
  Went-any (dead, s) = tt

  Went-set :
      (r : Outcome Bool × Session)
      → r.1.state ≢ none
      → Went (λ _ s. s.state ≢ none) (λ s. Unit {0}) r
  Went-set (ok a, s) h = h
  Went-set (err e, s) h = tt
  Went-set (dead, s) h = tt

  -- A patch that ends without an error has set `state`.
  pub patch-remembers :
      (env : File) (url : Bytes) (s : Session)
      → Went (λ _ s. s.state ≢ none) (λ s. Unit {0}) (patch o true env url s)
  unfolding patch
  patch-remembers env url s =
      Went-then (λ _ s. Unit {0}) (λ _ s. s.state ≢ none) (λ s. Unit {0})
        (lift (save_state o.states env (app_url ∷ [])) s) _
        (Went-any (lift (save_state o.states env (app_url ∷ [])) s))
        (λ st s _. Went-set _ (
          rw
            (saved-Still (λ s. s.state) (λ _ _. refl) env (set env.lines app_url url)
              (remember st s).1)
            (λ h. cc)))
