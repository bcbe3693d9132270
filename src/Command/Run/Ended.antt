-- ===== src/Command/Run/Ended.antt =====
-- The clean-up of a run: `.env` is put back, or the failure is told.
use localhoist.Common.{
  ◌≡◌, refl, Bool, true, false, Option, none, some, [], ◌∷◌, ◌++◌, Bytes, inl, inr, ◌⊎◌,
  if◌then◌else◌,
}
use localhoist.Common.Disk.{World, Outcome, ok, err, dead}
use localhoist.EnvFile.State.{State, state_path, restore}
use localhoist.Command.Safe.{state_of}
use localhoist.Command.Safe.Cleared.{IsClean, IsPending, restore_ok}
use localhoist.Command.Session.{
  Session, said, stopped, effect, put_back, tell_restored, cleanup, ◌>>◌, restore_failed,
  originals_in,
}
use localhoist.Command.Run.{Surroundings}
use localhoist.Command.Run.Settled.{
  any-append, any-last, Restored, Stage, unpatched, to_undo, over, Went, Went-then,
}

module _ (o : Surroundings) (path content : Bytes) where
  abbrev Ok : Session → Type 0
  Ok = Restored path content o.states

  abbrev At : Session → Type 0
  At = Stage path content o.states

  -- `cleanup` has run.
  pub record IsOver (s : Session) : Type 0 where
    pub ran : s.cleaned ≡ true
    pub restored : Ok s

  -- A step that is not killed ends with the clean-up done.
  abbrev Finished : {A : Type 0} → Outcome A × Session → Type 0
  Finished r = Went (λ _ s. IsOver s) IsOver r

  told-IsOver :
      (s : Session) (r : Outcome (Unit {0})) (w : World)
      → IsPending path content o.states s.world.tree
      → s.cleaned ≡ true
      → restore (state_of path content) s.world ≡ (r, w)
      → Finished (tell_restored path (r, record s { world = w }))
  told-IsOver s (ok tt) w waiting done e = record {
    ran = done;
    restored = inl (restore_ok path content o.states s.world w waiting e);
  }
  told-IsOver s (err x) w waiting done e = record {
    ran = done;
    restored = inr (
        any-append (s.effects ++ said (restore_failed x) ∷ [])
          (said (originals_in (state_path path)))
          (any-last s.effects (said (restore_failed x)) refl));
  }
  told-IsOver s dead w waiting done e = tt

  put_back-IsOver :
      (s : Session) (st : Option State)
      → s.cleaned ≡ true
      → ((st ≡ none) × IsClean path content o.states s.world.tree)
        ⊎ ((st ≡ some (state_of path content)) × IsPending path content o.states s.world.tree)
      → Finished (put_back path st s)
  put_back-IsOver s st done (inl (unset, whole)) =
      rw unset (record { ran = done; restored = inl whole })
  put_back-IsOver s st done (inr (set_, waiting)) = rw set_ (told-IsOver s _ _ waiting done refl)

  stop-IsOver : (s : Session) → IsOver s → IsOver (effect stopped s).1
  stop-IsOver s h = record {
    ran = h.ran;
    restored = elim h.restored [
      | inl whole ↦ inl whole
      | inr told ↦ inr (any-append s.effects stopped told)
    ];
  }

  to_do :
      (s : Session)
      → s.cleaned ≡ false
      → At s
      → ((s.state ≡ none) × IsClean path content o.states s.world.tree)
        ⊎ ((s.state ≡ some (state_of path content)) × IsPending path content o.states s.world.tree)
  to_do s e (unpatched unset _ whole) = inl (unset, whole)
  to_do s e (to_undo set_ _ waiting) = inr (set_, waiting)
  to_do s e (over ran restored) = cc

  cleaned-IsOver :
      (s : Session) (b : Bool)
      → s.cleaned ≡ b
      → At s
      → let r : Outcome (Unit {0}) × Session =
          if b
          then (ok tt, s)
          else (put_back path s.state >> effect stopped) (record s { cleaned = true }) in
        Finished r
  cleaned-IsOver s true e (unpatched _ not_yet _) = cc
  cleaned-IsOver s true e (to_undo _ not_yet _) = cc
  cleaned-IsOver s true e (over ran restored) = record { ran = ran; restored = restored }
  cleaned-IsOver s false e h =
      Went-then (λ _ s. IsOver s) (λ _ s. IsOver s) IsOver
        (put_back path s.state (record s { cleaned = true })) (λ _. effect stopped)
        (put_back-IsOver (record s { cleaned = true }) s.state refl (to_do s e h))
        (λ _ s h. stop-IsOver s h)

  pub cleanup-IsOver : (s : Session) → At s → Finished (cleanup path s)
  unfolding cleanup
  cleanup-IsOver s h = cleaned-IsOver s s.cleaned refl h
