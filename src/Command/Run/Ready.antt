-- ===== src/Command/Run/Ready.antt =====
-- What holds of a session at each of its steps: `cleanup` can always put `.env` back.
use localhoist.Common.{
  ◌⊎◌, ◌≡◌, refl, ◌∙◌, Bool, true, false, Option, none, some, Bytes, inl, inr, if◌then◌else◌,
}
use localhoist.Common.Disk.{M, World, Tree, Outcome, ok, err, dead}
use localhoist.Common.Disk.Laws.{Holds-of_eq}
use localhoist.Common.Disk.Keeps.{Keeps}
use localhoist.EnvFile.State.{State, Codec, state_path, restore}
use localhoist.Command.Safe.{state_of, IsOriginal, IsSafe, clean, broken, pending}
use localhoist.Command.Safe.Cleared.{IsPending, IsPending-IsSafe}
use localhoist.Command.Safe.Recover.{restore-IsSafe}
use localhoist.Command.Session.{
  Session, S, Effect, said, stopped, effect, lift, then_in, pure, give, put_back, tell_restored,
  cleanup, with_cleanup, at_return, ◌>>=◌, ◌>>◌, env_restored, restore_failed, originals_in,
}

module _ (path content : Bytes) (codec : Codec) where
  -- A disk on which `.env` and its sidecar file are as on another one.
  pub record SameFiles (t u : Tree) : Type 0 where
    pub env : u path ≡ t path
    pub side : u (state_path path) ≡ t (state_path path)

  pub SameFiles-IsOriginal :
      {t u : Tree} → SameFiles t u → IsOriginal path content t → IsOriginal path content u
  SameFiles-IsOriginal {t} {u} same (inl here) = inl (Holds-of_eq t u path same.env here)
  SameFiles-IsOriginal {t} {u} same (inr here) = inr (Holds-of_eq t u path same.env here)

  pub SameFiles-IsPending :
      {t u : Tree} → SameFiles t u → IsPending path content codec t → IsPending path content codec u
  SameFiles-IsPending {t} {u} same (now, here, back, side) = (
    now,
    Holds-of_eq t u path same.env here,
    back,
    Holds-of_eq t u (state_path path) same.side side,
  )

  SameFiles-IsSafe :
      {t u : Tree} → SameFiles t u → IsSafe path content codec t → IsSafe path content codec u
  SameFiles-IsSafe same (clean env absent) =
      clean (SameFiles-IsOriginal same env) (same.side ∙ absent)
  SameFiles-IsSafe {t} {u} same (broken part env side bad) =
      broken part (SameFiles-IsOriginal same env) (Holds-of_eq t u (state_path path) same.side side)
        bad
  SameFiles-IsSafe same (pending now here back side) =
      IsPending-IsSafe path content codec (SameFiles-IsPending same (now, here, back, side))

  pub data IsReady (s : Session) : Type 0 where
    -- `state` is not set: there is nothing that `cleanup` could do for `.env`, nor needs to.
    idle : s.state ≡ none → IsSafe path content codec s.world.tree → IsReady s
    -- `cleanup` will put `.env` back.
    armed :
        s.state ≡ some (state_of path content)
        → IsPending path content codec s.world.tree
        → IsReady s
    -- `cleanup` has run.
    spent : s.cleaned ≡ true → IsSafe path content codec s.world.tree → IsReady s

  pub IsReady-IsSafe : {s : Session} → IsReady s → IsSafe path content codec s.world.tree
  IsReady-IsSafe (idle e safe) = safe
  IsReady-IsSafe (armed e waiting) = IsPending-IsSafe path content codec waiting
  IsReady-IsSafe (spent e safe) = safe

  -- A step that keeps the invariant, whatever comes of it.
  abbrev pub Keeping : {A : Type 0} → S A → Type 0
  Keeping m = (s : Session) → IsReady s → IsReady (m s).1

  module _ {A B : Type 0} where
    then_in-IsReady :
        (r : Outcome A × Session) (f : A → S B)
        → IsReady r.1
        → ((a : A) → Keeping (f a))
        → IsReady (then_in r f).1
    then_in-IsReady (ok a, s) f h keep = keep a s h
    then_in-IsReady (err e, s) f h keep = h
    then_in-IsReady (dead, s) f h keep = h

    pub Keeping->>= :
        (m : S A) (f : A → S B) → Keeping m → ((a : A) → Keeping (f a)) → Keeping (m >>= f)
    Keeping->>= m f first rest s h = then_in-IsReady (m s) f (first s h) rest

  pub Keeping-effect : (e : Effect) → Keeping (effect e)
  Keeping-effect e s (idle a b) = idle a b
  Keeping-effect e s (armed a b) = armed a b
  Keeping-effect e s (spent a b) = spent a b

  moved-IsReady :
      (s : Session) (w : World)
      → SameFiles s.world.tree w.tree
      → IsReady s
      → IsReady (record s { world = w })
  moved-IsReady s w same (idle e safe) = idle e (SameFiles-IsSafe same safe)
  moved-IsReady s w same (armed e waiting) = armed e (SameFiles-IsPending same waiting)
  moved-IsReady s w same (spent e safe) = spent e (SameFiles-IsSafe same safe)

  -- A call on the disk that leaves both files alone.
  pub Keeping-lift :
      {A : Type 0} (m : M A) → Keeps path m → Keeps (state_path path) m → Keeping (lift m)
  Keeping-lift m env side s h =
      moved-IsReady s (m s.world).1 (record { env = env s.world; side = side s.world }) h

  -- What `cleanup` does when it does anything.
  told-IsReady : (r : Outcome (Unit {0}) × Session) → IsReady r.1 → IsReady (tell_restored path r).1
  told-IsReady (ok u, s) h = Keeping-effect (said env_restored) s h
  told-IsReady (err e, s) h =
      Keeping-effect (said (originals_in (state_path path))) _
        (Keeping-effect (said (restore_failed e)) s h)
  told-IsReady (dead, s) h = h

  put_back-IsReady :
      (s : Session) (st : Option State)
      → s.state ≡ st
      → s.cleaned ≡ true
      → ((st ≡ none) × IsSafe path content codec s.world.tree)
        ⊎ ((st ≡ some (state_of path content)) × IsPending path content codec s.world.tree)
      → IsReady (put_back path st s).1
  put_back-IsReady s st e done (inl (none_there, safe)) = rw none_there (spent done safe)
  put_back-IsReady s st e done (inr (is_st, (now, here, back, side))) = rw is_st (
      told-IsReady (lift (restore (state_of path content)) s)
        (spent done (restore-IsSafe path content codec s.world now here back side)))

  once :
      (s : Session)
      → s.cleaned ≡ false
      → IsReady s
      → IsReady (put_back path s.state (record s { cleaned = true })).1
  once s first (idle e safe) =
      put_back-IsReady (record s { cleaned = true }) s.state refl refl (inl (e, safe))
  once s first (armed e waiting) =
      put_back-IsReady (record s { cleaned = true }) s.state refl refl (inr (e, waiting))
  once s first (spent e safe) = cc

  cleaned_up :
      (s : Session) (b : Bool)
      → s.cleaned ≡ b
      → IsReady s
      → let r : Outcome (Unit {0}) × Session =
          if b
          then (ok tt, s)
          else (put_back path s.state >> effect stopped) (record s { cleaned = true }) in
        IsReady r.1
  cleaned_up s true e h = h
  cleaned_up s false e h =
      then_in-IsReady (put_back path s.state (record s { cleaned = true })) (λ _. effect stopped)
        (once s e h) (λ _. Keeping-effect stopped)

  pub Keeping-cleanup : Keeping (cleanup path)
  unfolding cleanup
  Keeping-cleanup s h = cleaned_up s s.cleaned refl h

  at_return-IsReady :
      {A : Type 0} (r : Outcome A × Session) → IsReady r.1 → IsReady (at_return path r).1
  at_return-IsReady (ok a, s) h =
      Keeping->>= (cleanup path) (λ _. pure a) Keeping-cleanup (λ _ s h. h) s h
  at_return-IsReady (err e, s) h =
      Keeping->>= (cleanup path) (λ _. give (err e)) Keeping-cleanup (λ _ s h. h) s h
  at_return-IsReady (dead, s) h = h

  pub with_cleanup-IsReady :
      {A : Type 0} (body : S A) (s : Session)
      → IsReady (body s).1
      → IsReady (with_cleanup path body s).1
  unfolding with_cleanup
  with_cleanup-IsReady body s h = at_return-IsReady (body s) h
