-- ===== src/Command/Run/Whole.antt =====
-- How a whole run ends that is not killed.
use localhoist.Common.{
  ◌⊎◌, ◌≢◌, ◌≡◌, refl, ap, ◌∙◌, Bool, true, false, none, [], ◌∷◌, Bytes, equal, inl, inr,
  if◌then◌else◌,
}
use localhoist.Common.Text.{lacks}
use localhoist.Common.Disk.{Error, Outcome, ok, err, dead}
use localhoist.EnvFile.State.{state_path}
use localhoist.Laravel.{Project}
use localhoist.Config.{Resolution}
use localhoist.Tunnel.{Started, up, down}
use localhoist.Command.Safe.{IsFaithful, IsSafe}
use localhoist.Command.Session.{
  Effect, Session, S, effect, then_in, give, pure, cleanup, with_cleanup, ◌>>◌,
}
use localhoist.Command.Run.{
  Flags, Surroundings, env_path, settings_path, serve, choose, share, run, bound, public, say_note,
  domain_of,
}
use localhoist.Command.Run.Start.{Post, Found, AtStart-effect, choose-Found}
use localhoist.Command.Session.{put_back, at_return, stopped}
use localhoist.Command.Run.Crash.{OneLine}
use localhoist.Command.Run.Settled.{Went, Went-then, Restored, Stage}
use localhoist.Command.Run.Still.{vars, choose-Still}
use localhoist.Command.Run.Ended.{IsOver, cleanup-IsOver}
use localhoist.Command.Run.Stages.{serve-At}

abbrev Unset : Session → Type 0
Unset s = s.state ≡ none

unset_cleanup :
    (path : Bytes) (s : Session) (b : Bool)
    → s.cleaned ≡ b
    → Unset s
    → let r : Outcome (Unit {0}) × Session =
        if b
        then (ok tt, s)
        else (put_back path s.state >> effect stopped) (record s { cleaned = true }) in
      Went (λ _ s. Unset s) Unset r
unset_cleanup path s true e unset = unset
unset_cleanup path s false e unset = rw unset refl

-- A clean-up without anything to put back sets nothing.
cleanup-Unset :
    (path : Bytes) (s : Session) → Unset s → Went (λ _ s. Unset s) Unset (cleanup path s)
unfolding cleanup
cleanup-Unset path s unset = unset_cleanup path s s.cleaned refl unset

module _ (o : Surroundings) (path content : Bytes) where
  abbrev At : Session → Type 0
  At = Stage path content o.states

  abbrev Over : Session → Type 0
  Over = IsOver o path content

  abbrev Ended : Outcome (Unit {0}) × Session → Type 0
  Ended r = Went (λ _ s. Over s) (λ s. Unset s ⊎ Over s) r

  gone :
      (e : Error) (P : Session → Type 0) (r : Outcome (Unit {0}) × Session)
      → Went (λ _ s. P s) P r
      → ((s : Session) → P s → Unset s ⊎ Over s)
      → Ended (then_in r (λ _. give (err e)))
  gone e P (ok u, s) h onward = onward s h
  gone e P (err x, s) h onward = onward s h
  gone e P (dead, s) h onward = tt

  done :
      (r : Outcome (Unit {0}) × Session)
      → Went (λ _ s. Over s) Over r
      → Ended (then_in r (λ _. pure tt))
  done (ok u, s) h = h
  done (err e, s) h = inr h
  done (dead, s) h = tt

  returned :
      (r : Outcome (Unit {0}) × Session)
      → Went (λ _ s. At s) (λ s. Unset s ⊎ At s) r
      → Ended (at_return path r)
  returned (ok u, s) h = done (cleanup path s) (cleanup-IsOver o path content s h)
  returned (err e, s) (inl unset) =
      gone e Unset (cleanup path s) (cleanup-Unset path s unset) (λ _ h. inl h)
  returned (err e, s) (inr h) =
      gone e Over (cleanup path s) (cleanup-IsOver o path content s h) (λ _ h. inr h)
  returned (dead, s) h = tt

module _ (o : Surroundings) (path content : Bytes) (faithful : IsFaithful path content o.states)
    (apart : equal path (settings_path o) ≡ false)
    (side_apart : equal (state_path path) (settings_path o) ≡ false) (one_line : OneLine o) where
  -- The project is known, its `.env` is the original one, and the clean-up has not run.
  abbrev Known : Project → Session → Type 0
  Known project s = Found o path content faithful project s × (s.cleaned ≡ false)

  Known-effect :
      (project : Project) (e : Effect) (s : Session)
      → Known project s
      → Known project (effect e s).1
  Known-effect project e s ((a, env), not_yet) =
      ((AtStart-effect o path content faithful e s a, env), not_yet)

  noted-Known :
      (project : Project) (note : Bytes) (s : Session)
      → Known project s
      → Went (λ _ s. Known project s) Unset (say_note o note s)
  noted-Known project [] s h = h
  noted-Known project (c ∷ note) s h = Known-effect project _ s h

  given :
      {A : Type 0} (Q : A → Session → Type 0) (r : Outcome A) (s : Session)
      → s.state ≡ none
      → ((a : A) → r ≡ ok a → Q a s)
      → Went Q Unset (r, s)
  given Q (ok a) s unset q = q a refl
  given Q (err e) s unset q = unset
  given Q dead s unset q = tt

  public-up : (r : Started) {url : Bytes} → public o r ≡ ok url → r ≡ up url
  public-up (up u) h = cc
  public-up (down e b) h = cc

  -- With the tunnel open.
  opened-Ended :
      (fl : Flags) (project : Project) (res : Resolution) (url : Bytes) (s : Session)
      → Known project s
      → lacks b'\n' url ≡ true
      → Ended o path content (with_cleanup (project.env).path (serve o fl project res url) s)
  unfolding with_cleanup
  opened-Ended fl project res url s ((a, env), not_yet) short = simp env (
      returned o path content (serve o fl project res url s) (
        serve-At o path content apart side_apart faithful fl project res url s short env a.unset
          not_yet a.done))

  either :
      {A : Type 0} (Q : A → Session → Type 0) (r : Outcome A × Session)
      → Went Q Unset r
      → Went Q (λ s. Unset s ⊎ Over o path content s) r
  either Q (ok a, s) h = h
  either Q (err e, s) h = inl h
  either Q (dead, s) h = tt

  -- Two steps of which the first sets nothing.
  step :
      {A : Type 0} (Q : A → Session → Type 0) (r : Outcome A × Session) (f : A → S (Unit {0}))
      → Went Q Unset r
      → ((a : A) (s : Session) → Q a s → Ended o path content (f a s))
      → Ended o path content (then_in r f)
  step Q r f h rest =
      Went-then Q (λ _ s. Over o path content s) (λ s. Unset s ⊎ Over o path content s) r f
        (either Q r h) rest

  share-Ended :
      (fl : Flags) (c : Project × Resolution × Bytes) (s : Session)
      → Known c.0 s
      → Ended o path content (share o fl c s)
  share-Ended fl (project, res, note) s h =
      step (λ _ s. Known project s) (give (bound o o.listen) s) _
        (given (λ _ s. Known project s) (bound o o.listen) s (h.0.0).unset (λ _ _. h))
        (λ port s h.
          step (λ _ s. Known project s) (say_note o note s) _ (noted-Known project note s h)
            (λ _ s h.
              step (λ url s. Known project s × (lacks b'\n' url ≡ true))
                (give (public o (o.open_tunnel res.transport port (domain_of o fl project)))
                  (effect _ s).1)
                _
                (given (λ url s. Known project s × (lacks b'\n' url ≡ true))
                  (public o (o.open_tunnel res.transport port (domain_of o fl project)))
                  (effect _ s).1 (h.0.0).unset
                  (λ url e. (
                    Known-effect project _ s h,
                    one_line res.transport (domain_of o fl project) port url (public-up _ e),
                  )))
                (λ url s h. opened-Ended fl project res url s h.0 h.1)))

  chosen :
      (s : Session) (r : Outcome (Project × Resolution × Bytes) × Session)
      → s.state ≡ none
      → s.cleaned ≡ false
      → vars r.1 ≡ vars s
      → Post o path content faithful (λ c s. Found o path content faithful c.0 s) r
      → Went (λ c s. Known c.0 s) Unset r
  chosen s (ok c, s') unset not_yet same h = (h, ap (λ v. v.1) same ∙ not_yet)
  chosen s (err e, s') unset not_yet same h = ap (λ v. v.0) same ∙ unset
  chosen s (dead, s') unset not_yet same h = tt

  run-Ended :
      (fl : Flags) (s : Session)
      → fl.show_version ≡ false
      → env_path fl ≡ path
      → s.state ≡ none
      → s.cleaned ≡ false
      → IsSafe path content o.states s.world.tree
      → Ended o path content (run o fl s)
  unfolding run
  run-Ended fl s shares is_path unset not_yet safe = rw shares (
      step (λ c s. Known c.0 s) (choose o fl s) (λ c. share o fl c)
        (chosen s (choose o fl s) unset not_yet (choose-Still o fl s)
          (choose-Found o path content faithful fl s is_path unset safe))
        (λ c s h. share-Ended fl c s h))

  all_told :
      (r : Outcome (Unit {0}) × Session)
      → r.0 ≢ dead
      → Ended o path content r
      → ((r.1.state ≡ none) × (r.0 ≢ ok tt)) ⊎ Restored path content o.states r.1
  all_told (ok u, s) alive h = inr h.restored
  all_told (err e, s) alive (inl unset) = inl (unset, λ k. cc)
  all_told (err e, s) alive (inr h) = inr h.restored
  all_told (dead, s) alive h = elim (alive refl) [ ]

  -- A run that is not killed, on a disk from which .env can be put back, leaves the original .env,
  -- but for a newline at its end, and no sidecar file, or has said that it failed to put .env
  -- back, or ends with an error without having set the state of the clean-up. A run that ends in a
  -- panic at the prompt is such a run. Assumed: it is not asked for the version, it starts without
  -- a state and with the clean-up not run, no URL of the tunnel has a newline, the settings are in
  -- another file, and the JSON of the snapshot is read back whole and not in part.
  pub run-Restored :
      (fl : Flags) (s : Session)
      → fl.show_version ≡ false
      → env_path fl ≡ path
      → s.state ≡ none
      → s.cleaned ≡ false
      → IsSafe path content o.states s.world.tree
      → (run o fl s).0 ≢ dead
      → (((run o fl s).1.state ≡ none) × ((run o fl s).0 ≢ ok tt))
        ⊎ Restored path content o.states (run o fl s).1
  run-Restored fl s shares is_path unset not_yet safe alive =
      all_told (run o fl s) alive (run-Ended fl s shares is_path unset not_yet safe)
