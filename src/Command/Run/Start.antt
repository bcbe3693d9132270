-- ===== src/Command/Run/Start.antt =====
-- What `run` does before the listener: `.env` is the original one where it succeeds.
use localhoist.Common.{
  ◌≡◌, refl, sym, ap, ◌∙◌, Bool, true, false, Option, none, some, [], ◌++◌, Bytes, codes, equal,
  inl, inr, Bool-cases,
}
use localhoist.Common.Http.{Url}
use localhoist.Common.Disk.{World, Entry, Outcome, ok, err, dead}
use localhoist.Common.Disk.Laws.{Holds-unique}
use localhoist.EnvFile.{File, parse}
use localhoist.EnvFile.State.{state_path}
use localhoist.Laravel.{Project, detect}
use localhoist.Laravel.Detected.{detect-env}
use localhoist.Config.{Resolution, resolve, finalize, project_path}
use localhoist.Config.Others.{Keeps-resolve}
use localhoist.Command.Patch.{recover}
use localhoist.Command.Safe.{env_of, IsFaithful, IsSafe}
use localhoist.Command.Safe.Cleared.{IsClean, IsClean-IsSafe, recover_ok}
use localhoist.Command.Safe.Recover.{recover-IsSafe}
use localhoist.Command.Session.{
  Effect, Session, S, effect, lift, on_disk, then_in, give, pure, ◌>>=◌,
}
use localhoist.Command.Run.{
  Flags, Surroundings, env_path, outside_at, readable, settings_path, detect_project, override_app,
  with_host, choose, say_left_over, domain_of,
}
use localhoist.Command.Run.Ready.{SameFiles-IsOriginal, IsReady, idle}
use localhoist.Command.Run.Arm.{original_lines}

module _ (o : Surroundings) where
  env_in : File → Outcome Project → File
  env_in env (ok p) = p.env
  env_in env _ = env

  with_host-env :
      (app : Bytes) (p p' : Project) (u : Option Url) → with_host o app p u ≡ ok p' → p'.env ≡ p.env
  unfolding env_in
  with_host-env app p p' none h = cc
  with_host-env app p p' (some u) h = elim (Bool-cases (equal u.host [])) [
    | inl no_host ↦ let k = rw no_host at h in cc
    | inr named ↦ sym (ap (env_in p.env) (rw named at h))
  ]

  pub overridden : (app : Bytes) (p p' : Project) → override_app o app p ≡ ok p' → p'.env ≡ p.env
  unfolding override_app
  overridden app p p' h = elim (Bool-cases (equal app [])) [
    | inl derived ↦ let k = rw derived at h in cc
    | inr given ↦ with_host-env app p p' (o.url_parse app) (rw given at h)
  ]

module _ (o : Surroundings) (path content : Bytes)
    (faithful : IsFaithful path content o.states) where
  abbrev Ready : Session → Type 0
  Ready = IsReady path content o.states

  -- `.env` is the original one and nothing is to be put back.
  pub record AtStart (s : Session) : Type 0 where
    pub unset : s.state ≡ none
    pub done : IsClean path content o.states s.world.tree

  pub AtStart-Ready : (s : Session) → AtStart s → Ready s
  AtStart-Ready s a = idle a.unset (IsClean-IsSafe path content o.states a.done)

  -- What holds of a result: `Q` where the step succeeds, else that `.env` can be put back.
  abbrev pub Post : {A : Type 0} → (A → Session → Type 0) → Outcome A × Session → Type 0
  Post Q (ok a, s) = Q a s
  Post Q (err e, s) = Ready s
  Post Q (dead, s) = Ready s

  pub Post-then :
      {A B : Type 0} (Q : A → Session → Type 0) (R : B → Session → Type 0) (r : Outcome A × Session)
      (f : A → S B)
      → Post Q r
      → ((a : A) (s : Session) → Q a s → Post R (f a s))
      → Post R (then_in r f)
  Post-then Q R (ok a, s) f h rest = rest a s h
  Post-then Q R (err e, s) f h rest = h
  Post-then Q R (dead, s) f h rest = h

  pub Post-Ready : (r : Outcome (Unit {0}) × Session) → Post (λ _ s. Ready s) r → Ready r.1
  Post-Ready (ok u, s) h = h
  Post-Ready (err e, s) h = h
  Post-Ready (dead, s) h = h

  pub Post-give :
      {A : Type 0} (Q : A → Session → Type 0) (r : Outcome A) (s : Session)
      → AtStart s
      → ((a : A) → r ≡ ok a → Q a s)
      → Post Q (r, s)
  Post-give Q (ok a) s h q = q a refl
  Post-give Q (err e) s h q = AtStart-Ready s h
  Post-give Q dead s h q = AtStart-Ready s h

  -- A run that has come here knows its project.
  abbrev pub Found : Project → Session → Type 0
  Found project s = AtStart s × (project.env ≡ env_of path content)

  recovered :
      (s : Session) (r : Outcome Bool × World)
      → s.state ≡ none
      → IsSafe path content o.states s.world.tree
      → recover o.states path s.world ≡ r
      → Post (λ _ s. AtStart s) (on_disk s r)
  recovered s (ok b, w) unset safe e = record {
    unset = unset;
    done = recover_ok path content o.states faithful s.world w safe e;
  }
  recovered s (err x, w) unset safe e =
      idle unset (rw e at (recover-IsSafe path content o.states faithful s.world safe))
  recovered s (dead, w) unset safe e =
      idle unset (rw e at (recover-IsSafe path content o.states faithful s.world safe))

  readable-eq-some :
      (b : Bool) (e : Option Entry) {c : Bytes}
      → readable b e ≡ some c
      → (x : Entry) × (e ≡ some x) × (x.content ≡ c)
  readable-eq-some true e h = cc
  readable-eq-some false none h = cc
  readable-eq-some false (some e) h = (e, refl, cc)

  detected :
      (dir : Bytes) (s : Session) (p : Project)
      → dir ++ codes "/.env" ≡ path
      → AtStart s
      → detect (outside_at o s.world.tree) dir ≡ ok p
      → Found p s
  detected dir s p is_path a h =
      let (c, read, env) = detect-env (outside_at o s.world.tree) dir h in
      let (x, there, bytes) = readable-eq-some (o.unreadable (dir ++ codes "/.env")) _ read in
      let (now, here, lines) = original_lines path content s.world.tree a.done.0 in
      let c_is : c ≡ now =
        Holds-unique s.world.tree path (x, ap s.world.tree (sym is_path) ∙ there, bytes) here in
      (
        a,
        env
            ∙ ap (λ k. record { path = k; lines = parse c }) is_path
            ∙ ap (λ ls. record { path = path; lines = ls }) (ap parse c_is ∙ lines),
      )

  moved-AtStart :
      (s : Session) (w : World)
      → w.tree path ≡ s.world.tree path
      → w.tree (state_path path) ≡ s.world.tree (state_path path)
      → AtStart s
      → AtStart (record s { world = w })
  moved-AtStart s w env side a = record {
    unset = a.unset;
    done = (
      SameFiles-IsOriginal path content o.states {t = s.world.tree} {u = w.tree}
          (record { env = env; side = side }) a.done.0,
      side ∙ a.done.1,
    );
  }

  Post-moved :
      {A : Type 0} (project : Project) (s : Session) (r : Outcome A) (w : World)
      → AtStart (record s { world = w })
      → project.env ≡ env_of path content
      → Post (λ _ s. Found project s) (on_disk s (r, w))
  Post-moved project s (ok res) w a env = (a, env)
  Post-moved project s (err x) w a env = AtStart-Ready (record s { world = w }) a
  Post-moved project s dead w a env = AtStart-Ready (record s { world = w }) a

  Post-resolve :
      (project : Project) (s : Session) (global_file project_file value : Bytes)
      (r : Outcome Resolution × World)
      → Found project s
      → resolve o.settings global_file project_file value s.world ≡ r
      → Post (λ _ s. Found project s) (on_disk s r)
  Post-resolve project s global_file project_file value (r, w) (a, env) e =
      Post-moved project s r w
        (moved-AtStart s w
          (rw e at (Keeps-resolve o.settings path global_file project_file value s.world))
          (rw e at
            (Keeps-resolve o.settings (state_path path) global_file project_file value s.world))
          a)
        env

  pub AtStart-effect : (e : Effect) (s : Session) → AtStart s → AtStart (effect e s).1
  AtStart-effect e s a = record { unset = a.unset; done = a.done }

  told_left_over :
      (b : Bool) (s : Session) → AtStart s → Post (λ _ s. AtStart s) (say_left_over o b s)
  told_left_over false s a = a
  told_left_over true s a = AtStart-effect _ s a

  abbrev Chosen : Project × Resolution × Bytes → Session → Type 0
  Chosen c s = Found c.0 s

  -- The steps behind `Detect`.
  settled-Found :
      (fl : Flags) (found : Project) (s : Session)
      → Found found s
      → Post Chosen (
          (give (override_app o fl.app found) >>= λ project.
          lift (resolve o.settings (settings_path o) (project_path fl.dir) fl.transport) >>= λ res.
          give (finalize res (domain_of o fl project)) >>= λ final.
          pure (project, final.0, final.1))
            s)
  settled-Found fl found s (a, env) =
      Post-then Found Chosen (give (override_app o fl.app found) s) _
        (Post-give Found (override_app o fl.app found) s a
          (λ project h. (a, overridden o fl.app found project h ∙ env)))
        (λ project s here.
          Post-then (λ _ s. Found project s) Chosen
            (lift (resolve o.settings (settings_path o) (project_path fl.dir) fl.transport) s) _
            (Post-resolve project s (settings_path o) (project_path fl.dir) fl.transport _ here
              refl)
            (λ res s here.
              Post-then (λ _ s. Found project s) Chosen
                (give (finalize res (domain_of o fl project)) s) _
                (Post-give (λ _ s. Found project s) _ s here.0 (λ _ _. here))
                (λ final s here. here)))

  -- The steps before the listener.
  pub choose-Found :
      (fl : Flags) (s : Session)
      → env_path fl ≡ path
      → s.state ≡ none
      → IsSafe path content o.states s.world.tree
      → Post Chosen (choose o fl s)
  unfolding choose
  choose-Found fl s is_path unset safe =
      Post-then (λ _ s. AtStart s) Chosen (lift (recover o.states (env_path fl)) s) _
        (rw is_path (recovered s (recover o.states path s.world) unset safe refl))
        (λ restored s a.
          Post-then (λ _ s. AtStart s) Chosen (say_left_over o restored s) _
            (told_left_over restored s a)
            (λ _ s a.
              Post-then Found Chosen (detect_project o fl.dir s) _
                (Post-give Found (detect (outside_at o s.world.tree) fl.dir) s a
                  (λ p h. detected fl.dir s p is_path a h))
                (λ p s found. settled-Found fl p s found)))
