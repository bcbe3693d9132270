-- ===== src/Command/Run/Crash.antt =====
-- A whole run leaves a disk from which `.env` can be put back, whatever fails and wherever it stops.
use localhoist.Common.{
  ℕ, ◌≡◌, Bool, true, false, none, [], ◌∷◌, Bytes, equal, inl, inr, Bool-cases, if◌then◌else◌,
}
use localhoist.Common.Text.{lacks}
use localhoist.Common.Disk.{Outcome, ok, err, dead}
use localhoist.EnvFile.State.{state_path}
use localhoist.Laravel.{Project}
use localhoist.Config.{Resolution}
use localhoist.Tunnel.{Started, up, down}
use localhoist.Command.Safe.{IsFaithful, IsSafe}
use localhoist.Command.Session.{
  Effect, Session, say, said, effect, give, with_cleanup, ◌>>=◌, version_text,
}
use localhoist.Command.Run.{
  Flags, Surroundings, env_path, settings_path, serve, choose, share, run, bound, public, say_note,
  domain_of,
}
use localhoist.Command.Run.Ready.{
  IsReady, idle, IsReady-IsSafe, Keeping-effect, with_cleanup-IsReady,
}
use localhoist.Command.Run.Steady.{serve-Ready}
use localhoist.Command.Run.Start.{
  Post, Post-then, Post-Ready, Post-give, Found, AtStart-effect, choose-Found,
}

-- No tunnel has a newline in its URL.
abbrev pub OneLine : Surroundings → Type 0
OneLine o =
    (transport domain : Bytes) (port : ℕ) (url : Bytes)
    → o.open_tunnel transport port domain ≡ up url
    → lacks b'\n' url ≡ true

module _ (o : Surroundings) (path content : Bytes) (faithful : IsFaithful path content o.states)
    (apart : equal path (settings_path o) ≡ false)
    (side_apart : equal (state_path path) (settings_path o) ≡ false) (one_line : OneLine o) where
  abbrev Ends : Outcome (Unit {0}) × Session → Type 0
  Ends = Post o path content faithful (λ _ s. IsReady path content o.states s)

  abbrev At : Project → Session → Type 0
  At = Found o path content faithful

  At-effect :
      (project : Project) (e : Effect) (s : Session) → At project s → At project (effect e s).1
  At-effect project e s (a, env) = (AtStart-effect o path content faithful e s a, env)

  noted :
      (project : Project) (note : Bytes) (s : Session)
      → At project s
      → Post o path content faithful (λ _ s. At project s) (say_note o note s)
  noted project [] s h = h
  noted project (c ∷ note) s h = At-effect project _ s h

  Ends-Ready : (r : Outcome (Unit {0}) × Session) → IsReady path content o.states r.1 → Ends r
  Ends-Ready (ok u, s) h = h
  Ends-Ready (err e, s) h = h
  Ends-Ready (dead, s) h = h

  public-up : (r : Started) {url : Bytes} → public o r ≡ ok url → r ≡ up url
  public-up (up u) h = cc
  public-up (down e b) h = cc

  -- With the tunnel open.
  opened-Ends :
      (fl : Flags) (project : Project) (res : Resolution) (url : Bytes) (s : Session)
      → At project s
      → lacks b'\n' url ≡ true
      → Ends (with_cleanup (project.env).path (serve o fl project res url) s)
  opened-Ends fl project res url s (a, env) short =
      Ends-Ready (with_cleanup (project.env).path (serve o fl project res url) s) (
        simp env (
          with_cleanup-IsReady path content o.states (serve o fl project res url) s (
            serve-Ready o path content apart side_apart faithful fl project res url s short env
              a.unset a.done)))

  share-Ends :
      (fl : Flags) (c : Project × Resolution × Bytes) (s : Session)
      → At c.0 s
      → Ends (share o fl c s)
  share-Ends fl (project, res, note) s h =
      Post-then o path content faithful (λ _ s. At project s)
        (λ _ s. IsReady path content o.states s) (give (bound o o.listen) s) _
        (Post-give o path content faithful (λ _ s. At project s) (bound o o.listen) s h.0
          (λ _ _. h))
        (λ port s h.
          Post-then o path content faithful (λ _ s. At project s)
            (λ _ s. IsReady path content o.states s) (say_note o note s) _ (noted project note s h)
            (λ _ s h.
              Post-then o path content faithful (λ url s. At project s × (lacks b'\n' url ≡ true))
                (λ _ s. IsReady path content o.states s)
                (give (public o (o.open_tunnel res.transport port (domain_of o fl project)))
                  (effect _ s).1)
                _
                (Post-give o path content faithful
                  (λ url s. At project s × (lacks b'\n' url ≡ true))
                  (public o (o.open_tunnel res.transport port (domain_of o fl project)))
                  (effect _ s).1 (At-effect project _ s h).0
                  (λ url e. (
                    At-effect project _ s h,
                    one_line res.transport (domain_of o fl project) port url (public-up _ e),
                  )))
                (λ url s h. opened-Ends fl project res url s h.0 h.1)))

  run-Ends :
      (fl : Flags) (s : Session) (v : Bool)
      → fl.show_version ≡ v
      → env_path fl ≡ path
      → s.state ≡ none
      → IsSafe path content o.states s.world.tree
      → Ends (if v then say version_text s else (choose o fl >>= λ c. share o fl c) s)
  run-Ends fl s true e is_path unset safe =
      Keeping-effect path content o.states (said version_text) s (idle unset safe)
  run-Ends fl s false e is_path unset safe =
      Post-then o path content faithful (λ c s. At c.0 s) (λ _ s. IsReady path content o.states s)
        (choose o fl s) _ (choose-Found o path content faithful fl s is_path unset safe)
        (λ c s h. share-Ends fl c s h)

  -- A run that starts on a disk from which .env can be put back leaves such a disk, whatever
  -- fails, whatever is answered and wherever it is killed. Assumed: no URL of the tunnel has a
  -- newline, the settings are in another file, the run starts without a state, and the JSON of the
  -- snapshot is read back whole and not in part.
  pub run-IsSafe :
      (fl : Flags) (s : Session)
      → env_path fl ≡ path
      → s.state ≡ none
      → IsSafe path content o.states s.world.tree
      → IsSafe path content o.states (run o fl s).1.world.tree
  unfolding run
  run-IsSafe fl s is_path unset safe = IsReady-IsSafe path content o.states (
      Post-Ready o path content faithful (run o fl s) (elim (Bool-cases fl.show_version) [
        | inl e ↦ rw e (run-Ends fl s true e is_path unset safe)
        | inr e ↦ rw e (run-Ends fl s false e is_path unset safe)
      ]))
