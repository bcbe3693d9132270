-- ===== src/Command/Run/Steady.antt =====
-- What `run` does behind the start of the tunnel keeps the invariant of Ready.antt.
use localhoist.Common.{◌≡◌, true, false, none, Bytes, equal}
use localhoist.Common.Text.{lacks}
use localhoist.Common.Disk.{Outcome, ok, err, dead}
use localhoist.EnvFile.State.{state_path}
use localhoist.Laravel.{Project}
use localhoist.Config
use localhoist.Config.{Resolution, resolve, finalize, project_path, transport_key}
use localhoist.Config.Others.{Keeps-set}
use localhoist.Command.Safe.{env_of, IsFaithful}
use localhoist.Command.Safe.Cleared.{IsClean}
use localhoist.Command.Session.{Session, said}
use localhoist.Command.Run.{Flags, Surroundings, settings_path, patch, serve, patch_env}
use localhoist.Command.Run.Ready.{IsReady, Keeping-effect, Keeping-lift, Keeping-cleanup}
use localhoist.Command.Run.Walk.{Leaves, IsKept, then_in-Leaves, after_patch-Goes}
use localhoist.Command.Run.Arm.{patch-IsReady}

module _ (o : Surroundings) (path content : Bytes) (apart : equal path (settings_path o) ≡ false)
    (side_apart : equal (state_path path) (settings_path o) ≡ false) where
  abbrev Ready : Session → Type 0
  Ready = IsReady path content o.states

  every_way :
      {A : Type 0} (r : Outcome A × Session) → Ready r.1 → Leaves (λ _ s. Ready s) Ready Ready r
  every_way (ok a, s) h = h
  every_way (err e, s) h = h
  every_way (dead, s) h = h

  either_way :
      {A : Type 0} (r : Outcome A × Session) → Leaves (λ _ s. Ready s) Ready Ready r → Ready r.1
  either_way (ok a, s) h = h
  either_way (err e, s) h = h
  either_way (dead, s) h = h

  -- Printing, the write of the settings and the clean-up keep the invariant.
  Ready-IsKept : IsKept o path Ready Ready Ready
  Ready-IsKept = record {
    says = λ m s h. Keeping-effect path content o.states (said m) s h;
    saves = λ chosen s h. every_way _ (
        Keeping-lift path content o.states
          (localhoist.Config.set o.settings (settings_path o) transport_key chosen)
          (Keeps-set o.settings path (settings_path o) transport_key chosen apart)
          (Keeps-set o.settings (state_path path) (settings_path o) transport_key chosen side_apart)
          s h);
    panics = λ s h. h;
    cleans = λ s h. every_way _ (Keeping-cleanup path content o.states s h);
  }

  module _ (faithful : IsFaithful path content o.states) where
    pub serve-Ready :
        (fl : Flags) (project : Project) (res : Resolution) (url : Bytes) (s : Session)
        → lacks b'\n' url ≡ true
        → project.env ≡ env_of path content
        → s.state ≡ none
        → IsClean path content o.states s.world.tree
        → Ready (serve o fl project res url s).1
    unfolding serve
    serve-Ready fl project res url s one_line env unset done = simp env (
        either_way _ (
          then_in-Leaves o path Ready Ready Ready
            (patch o (patch_env o fl project) (env_of path content) url s) _
            (every_way _ (
              patch-IsReady path content url o one_line faithful s (patch_env o fl project) unset
                done))
            (λ patched.
              after_patch-Goes o path Ready Ready Ready Ready-IsKept fl project res url patched)))
