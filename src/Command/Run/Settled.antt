-- ===== src/Command/Run/Settled.antt =====
-- A run that ends by itself has put `.env` back, or has said that it failed to.
use localhoist.Common.{
  ◌≡◌, refl, ◌∙◌, Bool, true, false, none, some, List, [], ◌∷◌, ◌++◌, Bytes, any, inl, inr, ◌⊎◌,
  Bool-cases,
}
use localhoist.Common.Disk.{World, Tree, Outcome, ok, err, dead, M}
use localhoist.Common.Disk.Keeps.{Keeps}
use localhoist.EnvFile.State.{state_path, Codec}
use localhoist.Command.Safe.{state_of}
use localhoist.Command.Safe.Cleared.{IsClean, IsPending}
use localhoist.Command.Session.{
  Session, S, Effect, said, effect, lift, on_disk, then_in, restore_failed,
}
use localhoist.Command.Run.Walk.{Leaves}
use localhoist.Command.Run.Ready.{SameFiles, SameFiles-IsOriginal, SameFiles-IsPending}

-- `FAILED to restore .env`
abbrev pub is_failure : Effect → Bool
is_failure (said (restore_failed e)) = true
is_failure _ = false

pub any-append :
    (es : List Effect) (e : Effect)
    → any is_failure es ≡ true
    → any is_failure (es ++ e ∷ []) ≡ true
any-append [] e h = cc
any-append (x ∷ es) e h = elim (Bool-cases (is_failure x)) [
  | inl failure ↦ rw failure refl
  | inr other ↦ rw other (any-append es e (rw other at h))
]

pub any-last :
    (es : List Effect) (e : Effect) → is_failure e ≡ true → any is_failure (es ++ e ∷ []) ≡ true
any-last [] e h = rw h refl
any-last (x ∷ es) e h = elim (Bool-cases (is_failure x)) [
  | inl failure ↦ rw failure refl
  | inr other ↦ rw other (any-last es e h)
]

-- What holds of the session where a step is not killed: `Q` of its result, or `E`.
abbrev pub Went :
    {A : Type 0} → (A → Session → Type 0) → (Session → Type 0) → Outcome A × Session → Type 0
Went Q E r = Leaves Q E (λ s. Unit {0}) r

pub Went-then :
    {A B : Type 0} (Q : A → Session → Type 0) (R : B → Session → Type 0) (E : Session → Type 0)
    (r : Outcome A × Session) (f : A → S B)
    → Went Q E r
    → ((a : A) (s : Session) → Q a s → Went R E (f a s))
    → Went R E (then_in r f)
Went-then Q R E (ok a, s) f h rest = rest a s h
Went-then Q R E (err e, s) f h rest = h
Went-then Q R E (dead, s) f h rest = tt

module _ (path content : Bytes) (codec : Codec) where
  abbrev pub Restored : Session → Type 0
  Restored s = IsClean path content codec s.world.tree ⊎ (any is_failure s.effects ≡ true)

  -- How far the clean-up is, in a run that goes on.
  pub data Stage (s : Session) : Type 0 where
    unpatched :
        s.state ≡ none → s.cleaned ≡ false → IsClean path content codec s.world.tree → Stage s
    to_undo :
        s.state ≡ some (state_of path content)
        → s.cleaned ≡ false
        → IsPending path content codec s.world.tree
        → Stage s
    over : s.cleaned ≡ true → Restored s → Stage s

  abbrev pub Going : {A : Type 0} → Outcome A × Session → Type 0
  Going r = Went (λ _ s. Stage s) Stage r

  abbrev pub Advancing : {A : Type 0} → S A → Type 0
  Advancing m = (s : Session) → Stage s → Going (m s)

  pub Stage-effect : (e : Effect) (s : Session) → Stage s → Stage (effect e s).1
  Stage-effect e s (unpatched a b c) = unpatched a b c
  Stage-effect e s (to_undo a b c) = to_undo a b c
  Stage-effect e s (over a (inl b)) = over a (inl b)
  Stage-effect e s (over a (inr b)) = over a (inr (any-append s.effects e b))

  moved-IsClean :
      (t u : Tree)
      → SameFiles path content codec t u
      → IsClean path content codec t
      → IsClean path content codec u
  moved-IsClean t u same (env, side) =
      (SameFiles-IsOriginal path content codec same env, same.side ∙ side)

  moved-Stage :
      (s : Session) (w : World)
      → SameFiles path content codec s.world.tree w.tree
      → Stage s
      → Stage (record s { world = w })
  moved-Stage s w same (unpatched a b c) = unpatched a b (moved-IsClean s.world.tree w.tree same c)
  moved-Stage s w same (to_undo a b c) = to_undo a b (SameFiles-IsPending path content codec same c)
  moved-Stage s w same (over a (inl b)) = over a (inl (moved-IsClean s.world.tree w.tree same b))
  moved-Stage s w same (over a (inr b)) = over a (inr b)

  moved-Going :
      {A : Type 0} (s : Session) (r : Outcome A) (w : World)
      → Stage (record s { world = w })
      → Going (on_disk s (r, w))
  moved-Going s (ok a) w h = h
  moved-Going s (err e) w h = h
  moved-Going s dead w h = tt

  lifted-Going :
      {A : Type 0} (m : M A) (s : Session) (r : Outcome A × World)
      → m s.world ≡ r
      → Keeps path m
      → Keeps (state_path path) m
      → Stage s
      → Going (on_disk s r)
  lifted-Going m s (r, w) is env side h =
      moved-Going s r w (
        moved-Stage s w (record { env = rw is at (env s.world); side = rw is at (side s.world) }) h)

  pub Advancing-lift :
      {A : Type 0} (m : M A) → Keeps path m → Keeps (state_path path) m → Advancing (lift m)
  Advancing-lift m env side s h = lifted-Going m s (m s.world) refl env side h
