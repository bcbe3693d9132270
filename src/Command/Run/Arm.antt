-- ===== src/Command/Run/Arm.antt =====
-- The patch of `.env` within a session, whatever fails and wherever the process is killed.
use native.Mathlib.Decide.{dec_lt}
use localhoist.Common.{
  ℕ, ◌≡◌, refl, ap, ◌∙◌, Bool, true, false, Option, none, some, Bytes, inl, inr, take, take_of_le,
  length, arith,
}
use localhoist.Common.Text.{lacks}
use localhoist.Common.Disk
use localhoist.Common.Disk.{World, Tree, Entry, Outcome, ok, err, dead, put, update, continue}
use localhoist.Common.Disk.Laws.{
  Holds, Holds-put, Holds-of_eq, update_other, Wrote, whole, part, nothing, write_file-Wrote,
}
use localhoist.EnvFile.{File, parse, render, set, save}
use localhoist.EnvFile.Format.{parse-render, parse-ne-nil, parse-All-lacks}
use localhoist.EnvFile.Save.{Saved, replaced, kept, save-Saved}
use localhoist.EnvFile.State.{State, state_path, restore_lines, save_state}
use localhoist.Command.Patch.{app_url}
use localhoist.Command.Safe.{env_of, state_of, IsOriginal, IsFaithful, IsSafe, clean, broken}
use localhoist.Command.Safe.Cleared.{IsClean, IsPending, IsPending-IsSafe}
use localhoist.Command.Safe.Undo.{
  undone, unpatched, path-state_path, state_path-path, state_path-temp_path,
}
use localhoist.Command.Session.{Session, S, on_disk, then_in, lift, remember, pure, ◌>>◌}
use localhoist.Command.Run.{Surroundings, patch, save_patched}
use localhoist.Command.Run.Ready.{IsReady, idle, armed}

module _ (path content : Bytes) where
  -- The bytes that are there now have the original lines.
  pub original_lines :
      (t : Tree)
      → IsOriginal path content t
      → (now : Bytes) × Holds t path now × (parse now ≡ parse content)
  original_lines t (inl here) = (content, here, refl)
  original_lines t (inr here) = (
    render (parse content),
    here,
    parse-render (parse content) (parse-ne-nil content) (parse-All-lacks content),
  )

  module _ (url : Bytes) (o : Surroundings) (one_line : lacks b'\n' url ≡ true)
      (faithful : IsFaithful path content o.states) where
    abbrev st : State
    st = state_of path content

    abbrev Sidecar : Tree → Type 0
    Sidecar t = Holds t (state_path path) (o.states.encode st)

    abbrev Ready : Session → Type 0
    Ready = IsReady path content o.states

    original-IsPending :
        (t : Tree) → IsOriginal path content t → Sidecar t → IsPending path content o.states t
    original-IsPending t here side =
        let (now, there, lines) = original_lines t here in
        (now, there, ap (restore_lines st.original) lines ∙ unpatched path content, side)

    abbrev new_file : File
    new_file = record { path = path; lines = (set (parse content) app_url url).0 }

    Saved-IsPending :
        (w : World) (r : Outcome (Unit {0}) × World)
        → IsOriginal path content w.tree
        → Sidecar w.tree
        → Saved new_file w r
        → IsPending path content o.states r.1.tree
    Saved-IsPending w r here side (replaced now untouched) = (
      render new_file.lines,
      now,
      undone path content url one_line,
      Holds-of_eq w.tree r.1.tree (state_path path)
          (untouched (state_path path) (state_path-path path content)
            (state_path-temp_path path content))
          side,
    )
    Saved-IsPending w r here side (kept _ same untouched) =
        let (now, there, back, _) = original-IsPending w.tree here side in
        (
          now,
          Holds-of_eq w.tree r.1.tree path same there,
          back,
          Holds-of_eq w.tree r.1.tree (state_path path)
              (untouched (state_path path) (state_path-path path content)
                (state_path-temp_path path content))
              side,
        )

    settled : {A : Type 0} (r : Outcome A × Session) (b : Bool) → (then_in r (λ _. pure b)).1 ≡ r.1
    settled (ok a, s) b = refl
    settled (err e, s) b = refl
    settled (dead, s) b = refl

    save_patched-IsReady :
        (s : Session) (found : Bool)
        → s.state ≡ some st
        → IsOriginal path content s.world.tree
        → Sidecar s.world.tree
        → Ready (save_patched o (env_of path content) (new_file.lines, found) s).1
    save_patched-IsReady s false set_ here side =
        armed set_ (original-IsPending s.world.tree here side)
    save_patched-IsReady s true set_ here side = rw (settled (lift (save new_file) s) true) (
        armed set_
          (Saved-IsPending s.world (save new_file s.world) here side (save-Saved new_file s.world)))

    IsOriginal-put :
        (w w' : World) (e : Option Entry)
        → w'.tree ≡ update w.tree (state_path path) e
        → IsOriginal path content w.tree
        → IsOriginal path content w'.tree
    IsOriginal-put w w' e wrote here =
        let same =
          ap (λ t. t path) wrote
          ∙ update_other w.tree (state_path path) e path (path-state_path path content) in
        elim here [
          | inl old ↦ inl (Holds-of_eq w.tree w'.tree path same old)
          | inr new ↦ inr (Holds-of_eq w.tree w'.tree path same new)
        ]

    -- The sidecar file has the first bytes of what was to be written.
    torn-IsSafe :
        (n : ℕ) (w w' : World)
        → IsOriginal path content w.tree
        → w'.tree ≡ put w (state_path path) (take n (o.states.encode st)) 0o600
        → IsSafe path content o.states w'.tree
    torn-IsSafe n w w' here wrote =
        let text = o.states.encode st in
        let env = IsOriginal-put w w' _ wrote here in
        let side : Holds w'.tree (state_path path) (take n text) =
          Holds-of_eq (put w (state_path path) (take n text) 0o600) w'.tree (state_path path)
            (ap (λ t. t (state_path path)) wrote)
            (Holds-put w (state_path path) (take n text) 0o600) in
        elim (dec_lt n (length text)) [
          | yes short ↦ broken (take n text) env side (faithful.no_part n short)
          | no long ↦
              IsPending-IsSafe path content o.states
                (original-IsPending w'.tree env (rw (take_of_le n text (omega arith)) at side))
        ]

    abbrev rest : State → S Bool
    rest saved =
        remember saved >> save_patched o (env_of path content) (set (parse content) app_url url)

    Wrote-IsReady :
        (s : Session) (r : Outcome (Unit {0}) × World)
        → s.state ≡ none
        → IsClean path content o.states s.world.tree
        → Wrote s.world (state_path path) (o.states.encode st) 0o600 r
        → Ready (then_in (on_disk s (continue r (λ _. Disk.pure st))) rest).1
    Wrote-IsReady s (ok u, w') unset (here, absent) (whole _ wrote) =
        save_patched-IsReady (record s { world = w'; state = some st })
          (set (parse content) app_url url).1 refl (IsOriginal-put s.world w' _ wrote here)
          (Holds-of_eq (put s.world (state_path path) (o.states.encode st) 0o600) w'.tree
            (state_path path) (ap (λ t. t (state_path path)) wrote)
            (Holds-put s.world (state_path path) (o.states.encode st) 0o600))
    Wrote-IsReady s (ok u, w') unset _ (part n e _) = cc
    Wrote-IsReady s (ok u, w') unset _ (nothing e _) = cc
    Wrote-IsReady s (err x, w') unset _ (whole e _) = cc
    Wrote-IsReady s (err x, w') unset (here, absent) (part n _ wrote) =
        idle unset (torn-IsSafe n s.world w' here wrote)
    Wrote-IsReady s (err x, w') unset (here, absent) (nothing _ same) =
        idle unset (rw same (clean here absent))
    Wrote-IsReady s (dead, w') unset _ (whole e _) = cc
    Wrote-IsReady s (dead, w') unset (here, absent) (part n _ wrote) =
        idle unset (torn-IsSafe n s.world w' here wrote)
    Wrote-IsReady s (dead, w') unset (here, absent) (nothing _ same) =
        idle unset (rw same (clean here absent))

    -- From a session that has nothing to put back and a disk with the original `.env`.
    pub patch-IsReady :
        (s : Session) (wanted : Bool)
        → s.state ≡ none
        → IsClean path content o.states s.world.tree
        → Ready (patch o wanted (env_of path content) url s).1
    unfolding patch
    patch-IsReady s false unset (here, absent) = idle unset (clean here absent)
    patch-IsReady s true unset done =
        unfold save_state in
        Wrote-IsReady s _ unset done
          (write_file-Wrote (state_path path) (o.states.encode st) 0o600 s.world)
