-- ===== src/Command/Safe/Recover.antt =====
-- The repair at the start of a run: interrupted, it leaves a safe disk; undisturbed, it ends with
-- the original lines, or reports a sidecar file that it cannot read and touches nothing.
use mathlib.Core.Path.{subst}
use localhoist.Common.{◌≡◌, refl, sym, ap, ◌∙◌, Bool, true, false, none, some, Bytes, inr, equal}
use localhoist.Common.Disk.{
  World, Tree, Outcome, ok, err, dead, continue, settle, pure, Error, read_file, remove, not_exist,
  fail, restoring, ◌>>◌,
}
use localhoist.Common.Disk.Laws.{
  Holds, Holds-of_eq, Holds-unique, update_other, update_same, Read, read_file-Read, Read-tree,
  Read-Holds, Removed, remove-Removed,
}
use localhoist.EnvFile.{File, parse, render, save, load, temp_path}
use localhoist.EnvFile.Format.{parse-render, parse-ne-nil, parse-All-lacks}
use localhoist.EnvFile.Save.{Saved, replaced, kept, save-Saved}
use localhoist.EnvFile.State.{
  State, Codec, state_path, restore_lines, load_state, restore, decoded, absent,
}
use localhoist.Command.Patch.{recover, repair}
use localhoist.Command.Safe.{state_of, IsFaithful, IsSafe, clean, broken, pending}
use localhoist.Command.Safe.Undo.{path-state_path, state_path-path, state_path-temp_path, unpatched}

module _ (path content : Bytes) (codec : Codec) where
  abbrev st : State
  st = state_of path content

  abbrev Sidecar : Tree → Type 0
  Sidecar t = Holds t (state_path path) (codec.encode st)

  abbrev restored : File
  restored = record { path = path; lines = parse content }

  -- The lines that `Restore` has written are their own restoration.
  settled : restore_lines st.original (parse (render (parse content))) ≡ parse content
  settled =
      ap (restore_lines st.original)
        (parse-render (parse content) (parse-ne-nil content) (parse-All-lacks content))
      ∙ unpatched path content

  Removed-IsSafe :
      (w : World) (r : Outcome (Unit {0}) × World)
      → Holds w.tree path (render (parse content))
      → Sidecar w.tree
      → Removed w (state_path path) r
      → IsSafe path content codec r.1.tree
  Removed-IsSafe w r here side (Removed.done gone_now) =
      clean
        (inr (
          Holds-of_eq w.tree r.1.tree path
            (ap (λ t. t path) gone_now
              ∙ update_other w.tree (state_path path) none path (path-state_path path content))
            here))
        (ap (λ t. t (state_path path)) gone_now ∙ update_same w.tree (state_path path) none)
  Removed-IsSafe w r here side (Removed.nothing _ same) =
      pending (render (parse content))
        (Holds-of_eq w.tree r.1.tree path (ap (λ t. t path) same) here) settled
        (Holds-of_eq w.tree r.1.tree (state_path path) (ap (λ t. t (state_path path)) same) side)

  -- `Save` leaves the sidecar file alone.
  keep_side :
      (w w' : World)
      → Sidecar w.tree
      → ((q : Bytes)
          → equal q path ≡ false
          → equal q (temp_path path) ≡ false
          → w'.tree q ≡ w.tree q)
      → Sidecar w'.tree
  keep_side w w' side untouched =
      Holds-of_eq w.tree w'.tree (state_path path)
        (untouched (state_path path) (state_path-path path content)
          (state_path-temp_path path content))
        side

  -- The two ways in which `Save` can end, when `Restore` goes no further.
  stopped-IsSafe :
      (w : World) (now : Bytes) (r : Outcome (Unit {0}) × World)
      → Holds w.tree path now
      → restore_lines st.original (parse now) ≡ parse content
      → Sidecar w.tree
      → Saved restored w r
      → IsSafe path content codec r.1.tree
  stopped-IsSafe w now r here back side (replaced done untouched) =
      pending (render (parse content)) done settled (keep_side w r.1 side untouched)
  stopped-IsSafe w now r here back side (kept _ same untouched) =
      pending now (Holds-of_eq w.tree r.1.tree path same here) back (keep_side w r.1 side untouched)

  Saved-IsSafe :
      (w : World) (now : Bytes) (r : Outcome (Unit {0}) × World)
      → Holds w.tree path now
      → restore_lines st.original (parse now) ≡ parse content
      → Sidecar w.tree
      → Saved restored w r
      → IsSafe path content codec (continue r (λ _. remove (state_path path))).1.tree
  Saved-IsSafe w now (ok u, w') here back side (replaced done untouched) =
      Removed-IsSafe w' _ done (keep_side w w' side untouched) (remove-Removed (state_path path) w')
  Saved-IsSafe w now (ok u, w') here back side (kept e _ _) = cc
  Saved-IsSafe w now (err x, w') here back side s =
      stopped-IsSafe w now (err x, w') here back side s
  Saved-IsSafe w now (dead, w') here back side s = stopped-IsSafe w now (dead, w') here back side s

  -- The rest of `Restore`, behind a load of the lines.
  loaded-IsSafe :
      (w : World) (now : Bytes)
      → Holds w.tree path now
      → restore_lines st.original (parse now) ≡ parse content
      → Sidecar w.tree
      → IsSafe path content codec
          (continue
            (save (record { path = path; lines = restore_lines st.original (parse now) }) w)
            (λ _. remove (state_path path))).1.tree
  loaded-IsSafe w now here back side =
      rw back (Saved-IsSafe w now (save restored w) here back side (save-Saved restored w))

  Read-IsSafe :
      (w : World) (now : Bytes) (r : Outcome Bytes × World)
      → Holds w.tree path now
      → restore_lines st.original (parse now) ≡ parse content
      → Sidecar w.tree
      → Read w path r
      → IsSafe path content codec
          (continue (continue r (λ c. pure (record { path = path; lines = parse c }))) (λ env.
            save (record env { lines = restore_lines st.original env.lines })
            >> remove (state_path path))).1.tree
  Read-IsSafe w now (ok c, w') here back side read =
      let same = Read-tree read in
      let c_is : c ≡ now = Holds-unique w.tree path (Read-Holds read) here in
      loaded-IsSafe w' c (Holds-of_eq w.tree w'.tree path (ap (λ t. t path) same) (Read-Holds read))
        (rw c_is back)
        (Holds-of_eq w.tree w'.tree (state_path path) (ap (λ t. t (state_path path)) same) side)
  Read-IsSafe w now (err x, w') here back side read =
      subst (IsSafe path content codec) (sym (Read-tree read)) (pending now here back side)
  Read-IsSafe w now (dead, w') here back side read =
      subst (IsSafe path content codec) (sym (Read-tree read)) (pending now here back side)

  pub restore-IsSafe :
      (w : World) (now : Bytes)
      → Holds w.tree path now
      → restore_lines st.original (parse now) ≡ parse content
      → Sidecar w.tree
      → IsSafe path content codec (restore st w).1.tree
  unfolding restore load
  restore-IsSafe w now here back side =
      Read-IsSafe w now (read_file path w) here back side (read_file-Read path w)

  settle-tree :
      {A : Type 0} (r : Outcome A × World) (good : A → Bool) (bad : Error → Error)
      → (settle r (λ a. pure (good a)) (λ e. fail (bad e))).1 ≡ r.1
  settle-tree (ok a, w) good bad = refl
  settle-tree (err x, w) good bad = refl
  settle-tree (dead, w) good bad = refl

  -- The repair of a state that was read, and a read that finds none.
  repair-IsSafe :
      (w : World) (now : Bytes)
      → Holds w.tree path now
      → restore_lines st.original (parse now) ≡ parse content
      → Sidecar w.tree
      → IsSafe path content codec (repair codec (some st) w).1.tree
  repair-IsSafe w now here back side =
      subst (λ x. IsSafe path content codec x.tree)
        (sym (settle-tree (restore st w) (λ _. true) restoring))
        (restore-IsSafe w now here back side)

  module _ (faithful : IsFaithful path content codec) where
    sidecar_read :
        (w w' : World) (c : Bytes)
        → IsSafe path content codec w.tree
        → Holds w.tree (state_path path) c
        → w'.tree ≡ w.tree
        → IsSafe path content codec
            (continue (decoded codec path (codec.decode c) w') (repair codec)).1.tree
    sidecar_read w w' c (clean _ absent) (e, there, _) same = cc
    sidecar_read w w' c (broken part env side bad) held same =
        let c_is = Holds-unique w.tree (state_path path) held side in
        rw (c_is, bad) (subst (IsSafe path content codec) (sym same) (broken part env side bad))
    sidecar_read w w' c (pending now here back side) held same =
        let c_is = Holds-unique w.tree (state_path path) held side in
        rw (c_is, faithful.reads_back)
          (repair-IsSafe w' now (Holds-of_eq w.tree w'.tree path (ap (λ t. t path) same) here) back
            (Holds-of_eq w.tree w'.tree (state_path path) (ap (λ t. t (state_path path)) same)
              side))

    no_sidecar :
        (w : World) (x : Error) → (continue (absent codec x w) (repair codec)).1.tree ≡ w.tree
    no_sidecar w (not_exist p) = refl
    no_sidecar w _ = refl

    load_state-IsSafe :
        (w : World) (r : Outcome Bytes × World)
        → IsSafe path content codec w.tree
        → Read w (state_path path) r
        → IsSafe path content codec
            (continue
              (settle r (λ c. decoded codec path (codec.decode c)) (absent codec))
              (repair codec)).1.tree
    load_state-IsSafe w (ok c, w') safe read =
        sidecar_read w w' c safe (Read-Holds read) (Read-tree read)
    load_state-IsSafe w (err x, w') safe read =
        subst (IsSafe path content codec) (sym (no_sidecar w' x ∙ Read-tree read)) safe
    load_state-IsSafe w (dead, w') safe read =
        subst (IsSafe path content codec) (sym (Read-tree read)) safe

    -- A repair that is itself interrupted, wherever that is, leaves a safe disk again. Assumed: the
    -- JSON of the snapshot is read back whole and not in part.
    pub recover-IsSafe :
        (w : World)
        → IsSafe path content codec w.tree
        → IsSafe path content codec (recover codec path w).1.tree
    unfolding recover load_state
    recover-IsSafe w safe =
        load_state-IsSafe w (read_file (state_path path) w) safe
          (read_file-Read (state_path path) w)
