-- ===== src/Command/Run/Walk.antt =====
-- What stands behind the patch in `run`, once for every invariant: the banner, the question and the
-- waits keep what printing, the write of the settings and the clean-up keep.
use localhoist.Common.{Bool, true, false, ◌&&◌, List, [], ◌∷◌, Bytes, if◌then◌else◌}
use localhoist.Common.Disk.{Error, Outcome, ok, err, dead, is_panic, tunnel_exited}
use localhoist.Laravel.{Project}
use localhoist.Config
use localhoist.Config.{Resolution, transport_key}
use localhoist.Proxy.{routes}
use localhoist.Command.Banner.{banner, may_ask}
use localhoist.Command.Session.{
  Session, S, Message, say, say_all, lift, then_in, give, pure, cleanup, ◌>>=◌, ◌>>◌, make_default,
  ctrl_c, not_saved,
}
use localhoist.Command.Run.{
  Flags, Surroundings, Input, Ending, answered, ended, signalled, tunnel_gone, settings_path,
  choice, save_choice, tell_saved, asked, prompt, waited, last_wait, proxy_config,
}

-- What holds of the session behind a step: `Q` of its result, `E` or `D`.
abbrev pub Leaves :
    {A : Type 0}
    → (A → Session → Type 0)
    → (Session → Type 0)
    → (Session → Type 0)
    → Outcome A × Session
    → Type 0
Leaves Q E D (ok a, s) = Q a s
Leaves Q E D (err e, s) = E s
Leaves Q E D (dead, s) = D s

module _ (o : Surroundings) (path : Bytes) (I E D : Session → Type 0) where
  -- `I` holds while the run goes on, `E` where it ends with an error or a panic, `D` where it is
  -- killed.
  pub record IsKept : Type 0 where
    pub says : (m : Message) (s : Session) → I s → I (say m s).1
    pub saves :
        (chosen : Bytes) (s : Session)
        → I s
        → Leaves
            (λ _ s. I s)
            I
            D
            (lift (localhoist.Config.set o.settings (settings_path o) transport_key chosen) s)
    -- A panic ends the body where it stands.
    pub panics : (s : Session) → I s → E s
    pub cleans : (s : Session) → I s → Leaves (λ _ s. E s) E D (cleanup path s)

  -- A step that can be taken in the walk.
  abbrev pub Goes : {A : Type 0} → S A → Type 0
  Goes m = (s : Session) → I s → Leaves (λ _ s. I s) E D (m s)

  pub then_in-Leaves :
      {A B : Type 0} (r : Outcome A × Session) (f : A → S B)
      → Leaves (λ _ s. I s) E D r
      → ((a : A) → Goes (f a))
      → Leaves (λ _ s. I s) E D (then_in r f)
  then_in-Leaves (ok a, s) f h rest = rest a s h
  then_in-Leaves (err e, s) f h rest = h
  then_in-Leaves (dead, s) f h rest = h

  pub Goes->>= :
      {A B : Type 0} (m : S A) (f : A → S B) → Goes m → ((a : A) → Goes (f a)) → Goes (m >>= f)
  Goes->>= m f first rest s h = then_in-Leaves (m s) f (first s h) rest

  Goes-if : {A : Type 0} (b : Bool) (m k : S A) → Goes m → Goes k → Goes (if b then m else k)
  Goes-if true m k hm hk = hm
  Goes-if false m k hm hk = hk

  module _ (kept : IsKept) where
    say_all-Goes : (ms : List Message) → Goes (say_all ms)
    unfolding say_all
    say_all-Goes [] s h = h
    say_all-Goes (m ∷ ms) s h = say_all-Goes ms _ (kept.says m s h)

    not_told :
        (e : Error) (s : Session)
        → I s
        → (panic : Bool)
        → Leaves (λ _ s. I s) E D (if panic then (err e, s) else say (not_saved e) s)
    not_told e s h true = kept.panics s h
    not_told e s h false = kept.says _ s h

    told :
        (transport chosen : Bytes) (r : Outcome (Unit {0}) × Session)
        → Leaves (λ _ s. I s) I D r
        → Leaves (λ _ s. I s) E D (tell_saved o transport chosen r)
    told transport chosen (ok u, s) h = kept.says _ s h
    told transport chosen (err e, s) h = not_told e s h (is_panic e)
    told transport chosen (dead, s) h = h

    save_choice-Goes : (transport chosen : Bytes) → Goes (save_choice o transport chosen)
    unfolding save_choice
    save_choice-Goes transport chosen s h = told transport chosen _ (kept.saves chosen s h)

    failed :
        (A : Type 0) (e : Error) (r : Outcome (Unit {0}) × Session)
        → Leaves (λ _ s. E s) E D r
        → Leaves (λ _ s. I s) E D (then_in {B = A} r (λ _. give (err e)))
    failed A e (ok u, s) h = h
    failed A e (err x, s) h = h
    failed A e (dead, s) h = h

    -- The clean-up within the body, before an error.
    gone-Goes : (A : Type 0) (e : Error) → Goes (cleanup path >> give {A = A} (err e))
    gone-Goes A e s h = failed A e (cleanup path s) (kept.cleans s h)

    asked-Goes : (transport : Bytes) (i : Input) → Goes (asked o path transport i)
    asked-Goes transport (answered line) =
        Goes->>= (save_choice o transport (choice o transport line)) (λ _. pure true)
          (save_choice-Goes transport (choice o transport line)) (λ _ s h. h)
    asked-Goes transport (ended signalled) = λ s h. h
    asked-Goes transport (ended (tunnel_gone e)) = gone-Goes Bool (tunnel_exited e)

    prompt-Goes : (res : Resolution) → Goes (prompt o path res)
    unfolding prompt
    prompt-Goes res =
        Goes-if (may_ask res && o.is_tty) _ _
          (Goes->>= (say (make_default res.transport)) (λ _. asked o path res.transport o.at_prompt)
            (kept.says _) (λ _. asked-Goes res.transport o.at_prompt))
          (λ s h. h)

    waited-Goes : (e : Ending) → Goes (waited o path e)
    waited-Goes signalled = λ s h. h
    waited-Goes (tunnel_gone e) = gone-Goes (Unit {0}) (tunnel_exited e)

    last_wait-Goes : (patched on : Bool) → Goes (last_wait o path patched on)
    last_wait-Goes patched false = λ s h. h
    last_wait-Goes patched true =
        Goes->>= (say (ctrl_c patched)) (λ _. waited o path o.at_wait) (kept.says _)
          (λ _. waited-Goes o.at_wait)

    pub after_patch-Goes :
        (fl : Flags) (project : Project) (res : Resolution) (url : Bytes) (patched : Bool)
        → Goes (
            say_all (
              banner project (routes (proxy_config o project)) res patched fl.no_patch fl.no_qr url)
            >> (prompt o path res >>= λ on. last_wait o path patched on))
    after_patch-Goes fl project res url patched =
        Goes->>=
          (say_all
            (banner project (routes (proxy_config o project)) res patched fl.no_patch fl.no_qr url))
          (λ _. prompt o path res >>= λ on. last_wait o path patched on) (say_all-Goes _)
          (λ _.
            Goes->>= (prompt o path res) (λ on. last_wait o path patched on) (prompt-Goes res)
              (λ on. last_wait-Goes patched on))
