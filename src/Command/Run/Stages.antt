-- ===== src/Command/Run/Stages.antt =====
-- A run that comes to its end: `.env` is put back, or the failure is told.
use localhoist.Common.{◌≡◌, ◌≢◌, ◌∙◌, Bool, true, false, none, Bytes, equal, inl, inr, ◌⊎◌}
use localhoist.Common.Text.{lacks}
use localhoist.Common.Disk.{Outcome, ok, err, dead}
use localhoist.EnvFile.State.{state_path}
use localhoist.Laravel.{Project}
use localhoist.Config
use localhoist.Config.{Resolution, transport_key}
use localhoist.Config.Others.{Keeps-set}
use localhoist.Command.Safe.{env_of, IsFaithful}
use localhoist.Command.Safe.Cleared.{IsClean}
use localhoist.Command.Session.{Session, said, cleanup}
use localhoist.Command.Run.{Flags, Surroundings, settings_path, patch, serve, patch_env}
use localhoist.Command.Run.Ready.{IsReady, idle, armed, spent}
use localhoist.Command.Run.Arm.{patch-IsReady}
use localhoist.Command.Run.Settled.{
  Stage, unpatched, to_undo, over, Went, Went-then, Going, Stage-effect, Advancing-lift,
}
use localhoist.Command.Run.Walk.{IsKept, after_patch-Goes}
use localhoist.Command.Run.Still.{patch-Still, patch-remembers}
use localhoist.Command.Run.Ended.{IsOver, cleanup-IsOver}

module _ (o : Surroundings) (path content : Bytes) (apart : equal path (settings_path o) ≡ false)
    (side_apart : equal (state_path path) (settings_path o) ≡ false) where
  abbrev At : Session → Type 0
  At = Stage path content o.states

  abbrev Over : Session → Type 0
  Over = IsOver o path content

  abbrev Unset : Session → Type 0
  Unset s = s.state ≡ none

  abbrev Gone : Session → Type 0
  Gone s = Unit {0}

  cleaned_up :
      (r : Outcome (Unit {0}) × Session) → Went (λ _ s. Over s) Over r → Went (λ _ s. At s) At r
  cleaned_up (ok u, s) h = over h.ran h.restored
  cleaned_up (err x, s) h = over h.ran h.restored
  cleaned_up (dead, s) h = tt

  -- Printing, the write of the settings and the clean-up keep the stage.
  At-IsKept : IsKept o path At At Gone
  At-IsKept = record {
    says = λ m s h. Stage-effect path content o.states (said m) s h;
    saves = λ chosen s h.
        Advancing-lift path content o.states
          (localhoist.Config.set o.settings (settings_path o) transport_key chosen)
          (Keeps-set o.settings path (settings_path o) transport_key chosen apart)
          (Keeps-set o.settings (state_path path) (settings_path o) transport_key chosen side_apart)
          s h;
    panics = λ s h. h;
    cleans = λ s h. cleaned_up (cleanup path s) (cleanup-IsOver o path content s h);
  }

  remembered :
      (r : Outcome Bool × Session)
      → IsReady path content o.states r.1
      → r.1.cleaned ≡ false
      → Went (λ _ s. s.state ≢ none) (λ s. Unit {0}) r
      → Went (λ _ s. At s) (λ s. Unset s ⊎ At s) r
  remembered (ok b, s) (idle unset _) not_yet set_ = elim (set_ unset) [ ]
  remembered (ok b, s) (armed is waiting) not_yet set_ = to_undo is not_yet waiting
  remembered (ok b, s) (spent ran _) not_yet set_ = cc
  remembered (err e, s) (idle unset _) not_yet set_ = inl unset
  remembered (err e, s) (armed is waiting) not_yet set_ = inr (to_undo is not_yet waiting)
  remembered (err e, s) (spent ran _) not_yet set_ = cc
  remembered (dead, s) h not_yet set_ = tt

  module _ (faithful : IsFaithful path content o.states) where
    patch-At :
        (url : Bytes) (s : Session) (wanted : Bool)
        → lacks b'\n' url ≡ true
        → s.state ≡ none
        → s.cleaned ≡ false
        → IsClean path content o.states s.world.tree
        → Went (λ _ s. At s) (λ s. Unset s ⊎ At s) (patch o wanted (env_of path content) url s)
    unfolding patch
    patch-At url s false one_line unset not_yet whole = unpatched unset not_yet whole
    patch-At url s true one_line unset not_yet whole =
        remembered (patch o true (env_of path content) url s)
          (patch-IsReady path content url o one_line faithful s true unset whole)
          (patch-Still o true (env_of path content) url s ∙ not_yet)
          (patch-remembers o (env_of path content) url s)

    widened :
        {A : Type 0} (r : Outcome A × Session)
        → Going path content o.states r
        → Went (λ _ s. At s) (λ s. Unset s ⊎ At s) r
    widened (ok a, s) h = h
    widened (err e, s) h = inr h
    widened (dead, s) h = tt

    pub serve-At :
        (fl : Flags) (project : Project) (res : Resolution) (url : Bytes) (s : Session)
        → lacks b'\n' url ≡ true
        → project.env ≡ env_of path content
        → s.state ≡ none
        → s.cleaned ≡ false
        → IsClean path content o.states s.world.tree
        → Went (λ _ s. At s) (λ s. Unset s ⊎ At s) (serve o fl project res url s)
    unfolding serve
    serve-At fl project res url s one_line env unset not_yet whole = simp env (
        Went-then (λ _ s. At s) (λ _ s. At s) (λ s. Unset s ⊎ At s)
          (patch o (patch_env o fl project) (env_of path content) url s) _
          (patch-At url s (patch_env o fl project) one_line unset not_yet whole)
          (λ patched s h.
            widened _
              (after_patch-Goes o path At At Gone At-IsKept fl project res url patched s h)))
