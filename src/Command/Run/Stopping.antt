-- ===== src/Command/Run/Stopping.antt =====
-- The clean-up stops the tunnel when it first runs, and never again.
use localhoist.Common.{
  ◌⊎◌, ◌≡◌, refl, Bool, true, false, Option, none, some, List, [], ◌∷◌, ◌++◌, Bytes, any, inl, inr,
  Bool-cases, if◌then◌else◌,
}
use localhoist.Common.Disk.{World, Error, Outcome, ok, err, dead, M}
use localhoist.EnvFile.State.{State, state_path, restore}
use localhoist.Command.Session.{
  Session, S, Effect, Message, said, stopped, say, effect, lift, on_disk, then_in, give, put_back,
  tell_restored, cleanup, ◌>>=◌, ◌>>◌, env_restored, restore_failed, originals_in,
}
use localhoist.Command.Run.Settled.{Went, Went-then}

abbrev pub is_stop : Effect → Bool
is_stop stopped = true
is_stop _ = false

no_stop-append :
    (es : List Effect) (e : Effect)
    → any is_stop es ≡ false
    → is_stop e ≡ false
    → any is_stop (es ++ e ∷ []) ≡ false
no_stop-append [] e h k = rw k refl
no_stop-append (x ∷ es) e h k = elim (Bool-cases (is_stop x)) [
  | inl is ↦ let bad = rw is at h in cc
  | inr other ↦ rw other (no_stop-append es e (rw other at h) k)
]

-- The tunnel is not stopped.
pub record IsRunning (s : Session) : Type 0 where
  pub not_yet : s.cleaned ≡ false
  pub no_stop : any is_stop s.effects ≡ false

-- The last thing that happened is that the tunnel was stopped, and it was stopped once.
pub record IsStopped (s : Session) : Type 0 where
  pub ran : s.cleaned ≡ true
  pub before : List Effect
  pub last : s.effects ≡ before ++ stopped ∷ []
  pub once : any is_stop before ≡ false

abbrev pub Either : Session → Type 0
Either s = IsRunning s ⊎ IsStopped s

abbrev pub Runs : {A : Type 0} → S A → Type 0
Runs m = (s : Session) → IsRunning s → Went (λ _ s. IsRunning s) Either (m s)

pub Runs->>= :
    {A B : Type 0} (m : S A) (f : A → S B) → Runs m → ((a : A) → Runs (f a)) → Runs (m >>= f)
Runs->>= m f first rest s h =
    Went-then (λ _ s. IsRunning s) (λ _ s. IsRunning s) Either (m s) f (first s h)
      (λ a s h. rest a s h)

pub said-IsRunning : (m : Message) (s : Session) → IsRunning s → IsRunning (say m s).1
said-IsRunning m s h = record {
  not_yet = h.not_yet;
  no_stop = no_stop-append s.effects (said m) h.no_stop refl;
}

lifted :
    {A : Type 0} (s : Session) (r : Outcome A × World)
    → IsRunning s
    → Went (λ _ s. IsRunning s) Either (on_disk s r)
lifted s (ok a, w) h = record { not_yet = h.not_yet; no_stop = h.no_stop }
lifted s (err e, w) h = inl (record { not_yet = h.not_yet; no_stop = h.no_stop })
lifted s (dead, w) h = tt

pub Runs-lift : {A : Type 0} (m : M A) → Runs (lift m)
Runs-lift m s h = lifted s (m s.world) h

-- Within `cleanup`, before the stop.
abbrev Stopping : Session → Type 0
Stopping s = (s.cleaned ≡ true) × (any is_stop s.effects ≡ false)

told-Stopping :
    (path : Bytes) (s : Session) (r : Outcome (Unit {0}) × World)
    → Stopping s
    → Went (λ _ s. Stopping s) IsStopped (tell_restored path (on_disk s r))
told-Stopping path s (ok u, w) (ran, none_yet) =
    (ran, no_stop-append s.effects (said env_restored) none_yet refl)
told-Stopping path s (err e, w) (ran, none_yet) = (
  ran,
  no_stop-append (s.effects ++ said (restore_failed e) ∷ []) (said (originals_in (state_path path)))
      (no_stop-append s.effects (said (restore_failed e)) none_yet refl) refl,
)
told-Stopping path s (dead, w) h = tt

put_back-Stopping :
    (path : Bytes) (s : Session) (st : Option State)
    → Stopping s
    → Went (λ _ s. Stopping s) IsStopped (put_back path st s)
put_back-Stopping path s none h = h
put_back-Stopping path s (some st) h = told-Stopping path s (restore st s.world) h

stop_now : (s : Session) → Stopping s → IsStopped (effect stopped s).1
stop_now s (ran, none_yet) = record { ran = ran; before = s.effects; last = refl; once = none_yet }

once_only :
    (path : Bytes) (s : Session) (b : Bool)
    → s.cleaned ≡ b
    → Either s
    → let r : Outcome (Unit {0}) × Session =
        if b
        then (ok tt, s)
        else (put_back path s.state >> effect stopped) (record s { cleaned = true }) in
      Went (λ _ s. IsStopped s) IsStopped r
once_only path s true e (inl running) = let not_yet = running.not_yet in cc
once_only path s true e (inr over) = over
once_only path s false e (inl running) =
    Went-then (λ _ s. Stopping s) (λ _ s. IsStopped s) IsStopped
      (put_back path s.state (record s { cleaned = true })) (λ _. effect stopped)
      (put_back-Stopping path (record s { cleaned = true }) s.state (refl, running.no_stop))
      (λ _ s h. stop_now s h)
once_only path s false e (inr over) = let ran = over.ran in cc

pub cleanup-IsStopped :
    (path : Bytes) (s : Session) → Either s → Went (λ _ s. IsStopped s) IsStopped (cleanup path s)
unfolding cleanup
cleanup-IsStopped path s h = once_only path s s.cleaned refl h

pub then_gone :
    {A : Type 0} (Q : A → Session → Type 0) (E : Session → Type 0) (e : Error)
    (r : Outcome (Unit {0}) × Session)
    → Went (λ _ s. IsStopped s) IsStopped r
    → ((s : Session) → IsStopped s → E s)
    → Went Q E (then_in r (λ _. give (err e)))
then_gone Q E e (ok u, s) h up = up s h
then_gone Q E e (err x, s) h up = up s h
then_gone Q E e (dead, s) h up = tt
