-- ===== src/Command/Safe/Cleared.antt =====
-- What a repair that succeeds has done, among whatever faults.
use mathlib.Core.Path.{subst}
use localhoist.Common.{
  ◌⊎◌, ◌≡◌, refl, sym, ap, ◌∙◌, Bool, true, Option, none, some, Bytes, inl, inr,
}
use localhoist.Common.Disk.{
  World, Tree, Outcome, ok, err, dead, not_exist, ◌>>◌, settle, pure, fail, read_file, remove,
  restoring,
}
use localhoist.Common.Disk.Laws.{
  Holds, Holds-of_eq, Holds-unique, update_other, update_same, Read, read_file-Read, Read-tree,
  Read-Holds, Read-missing, Removed, remove-Removed, is_ok, >>=-eq-ok,
}
use localhoist.EnvFile.{File, parse, render, save, load}
use localhoist.EnvFile.Save.{Saved, replaced, kept, save-Saved}
use localhoist.EnvFile.State.{
  State, Codec, state_path, restore_lines, load_state, restore, decoded, absent,
}
use localhoist.Command.Patch.{recover, repair}
use localhoist.Command.Safe.{state_of, IsOriginal, IsFaithful, IsSafe, clean, broken, pending}
use localhoist.Command.Safe.Undo.{path-state_path}

module _ (path content : Bytes) (codec : Codec) where
  -- Nothing is to be repaired.
  abbrev pub IsClean : Tree → Type 0
  IsClean t = IsOriginal path content t × (t (state_path path) ≡ none)

  -- A patched or unpatched `.env`, with the sidecar file that belongs to it.
  abbrev pub IsPending : Tree → Type 0
  IsPending t =
      (now : Bytes) × Holds t path now
      × (restore_lines (state_of path content).original (parse now) ≡ parse content)
      × Holds t (state_path path) (codec.encode (state_of path content))

  pub IsClean-IsSafe : {t : Tree} → IsClean t → IsSafe path content codec t
  IsClean-IsSafe (env, absent) = clean env absent

  pub IsPending-IsSafe : {t : Tree} → IsPending t → IsSafe path content codec t
  IsPending-IsSafe (now, here, back, side) = pending now here back side

  removed_ok :
      (w : World) (r : Outcome (Unit {0}) × World)
      → is_ok r.0 ≡ true
      → Holds w.tree path (render (parse content))
      → Removed w (state_path path) r
      → IsClean r.1.tree
  removed_ok w r good here (Removed.done gone) = (
    inr (
        Holds-of_eq w.tree r.1.tree path
          (ap (λ t. t path) gone
            ∙ update_other w.tree (state_path path) none path (path-state_path path content))
          here),
    ap (λ t. t (state_path path)) gone ∙ update_same w.tree (state_path path) none,
  )
  removed_ok w r good here (Removed.nothing bad _) = cc

  saved_ok :
      (f : File) (w : World) (r : Outcome (Unit {0}) × World)
      → is_ok r.0 ≡ true
      → Saved f w r
      → Holds r.1.tree f.path (render f.lines)
  saved_ok f w r good (replaced here _) = here
  saved_ok f w r good (kept bad _ _) = cc

  abbrev restore_to : File → File
  restore_to env = record env { lines = restore_lines (state_of path content).original env.lines }

  -- A restoration that succeeds leaves the original and no sidecar file.
  pub restore_ok :
      (w w' : World) {u : Unit {0}}
      → IsPending w.tree
      → restore (state_of path content) w ≡ (ok u, w')
      → IsClean w'.tree
  unfolding restore load
  restore_ok w w' (now, here, back, side) h =
      let (env, w1, loaded, rest) =
        >>=-eq-ok (load path) (λ env. save (restore_to env) >> remove (state_path path)) w h in
      let (c, w0, read, made) =
        >>=-eq-ok (read_file path) (λ c. pure (record { path = path; lines = parse c })) w loaded in
      let c_is : c ≡ now =
        Holds-unique w.tree path (Read-Holds (rw read at (read_file-Read path w))) here in
      let loaded_env : record { path = path; lines = parse c } ≡ env = cc in
      let written : restore_to env ≡ record { path = path; lines = parse content } =
        ap restore_to (sym loaded_env)
        ∙ ap (λ ls. record { path = path; lines = ls })
            (ap (λ b. restore_lines (state_of path content).original (parse b)) c_is ∙ back) in
      let (_, w2, saved, gone) =
        >>=-eq-ok (save (record { path = path; lines = parse content }))
          (λ _. remove (state_path path)) w1 (rw written at rest) in
      removed_ok w2 (ok tt, w') refl
        (saved_ok (record { path = path; lines = parse content }) w1 (ok tt, w2) refl
          (rw saved at (save-Saved (record { path = path; lines = parse content }) w1)))
        (rw gone at (remove-Removed (state_path path) w2))

  IsClean-same : {t u : Tree} → u ≡ t → IsClean t → IsClean u
  IsClean-same same = subst IsClean (sym same)

  IsPending-same : {t u : Tree} → u ≡ t → IsPending t → IsPending u
  IsPending-same same = subst IsPending (sym same)

  -- A safe disk without a sidecar file, and one with a sidecar file that can be read.
  safe_absent : {t : Tree} → IsSafe path content codec t → t (state_path path) ≡ none → IsClean t
  safe_absent (clean env _) absent = (env, absent)
  safe_absent (broken part env (e, there, _) _) absent = cc
  safe_absent (pending now here back (e, there, _)) absent = cc

  abbrev Loaded : Option State → Tree → Type 0
  Loaded found t =
      ((found ≡ none) × IsClean t) ⊎ ((found ≡ some (state_of path content)) × IsPending t)

  module _ (faithful : IsFaithful path content codec) where
    bytes_back :
        (w w' w1 : World) (c : Bytes) {found : Option State}
        → IsSafe path content codec w.tree
        → Holds w.tree (state_path path) c
        → w'.tree ≡ w.tree
        → decoded codec path (codec.decode c) w' ≡ (ok found, w1)
        → Loaded found w1.tree
    bytes_back w w' w1 c (clean _ absent) (e, there, _) same h = cc
    bytes_back w w' w1 c (broken part env side bad) held same h =
        let c_is = Holds-unique w.tree (state_path path) held side in
        let k = rw (c_is, bad) at h in cc
    bytes_back w w' w1 c (pending now here back side) held same h =
        let c_is = Holds-unique w.tree (state_path path) held side in
        let k = rw (c_is, faithful.reads_back) at h in
        let there : w1 ≡ w' = cc in
        inr (cc, IsPending-same (ap (λ (v : World). v.tree) there ∙ same) (now, here, back, side))

    state_back :
        (w w1 : World) (r : Outcome Bytes × World) {found : Option State}
        → IsSafe path content codec w.tree
        → Read w (state_path path) r
        → settle r (λ c. decoded codec path (codec.decode c)) (absent codec) ≡ (ok found, w1)
        → Loaded found w1.tree
    state_back w w1 (ok c, w') safe read h =
        bytes_back w w' w1 c safe (Read-Holds read) (Read-tree read) h
    state_back w w1 (err (not_exist p), w') safe read h =
        let there : w1 ≡ w' = cc in
        inl (
          cc,
          IsClean-same (ap (λ (v : World). v.tree) there ∙ Read-tree read)
              (safe_absent safe (Read-missing read)),
        )
    state_back w w1 (err _, w') safe read h = cc
    state_back w w1 (dead, w') safe read h = cc

    settled_ok :
        (r : Outcome (Unit {0}) × World) {b : Bool} {w' : World}
        → settle r (λ _. pure true) (λ e. fail (restoring e)) ≡ (ok b, w')
        → r ≡ (ok tt, w')
    settled_ok (ok u, w1) h = cc
    settled_ok (err e, w1) h = cc
    settled_ok (dead, w1) h = cc

    repair_ok :
        (w w' : World) (found : Option State) {b : Bool}
        → Loaded found w.tree
        → repair codec found w ≡ (ok b, w')
        → IsClean w'.tree
    repair_ok w w' found (inl (e, done)) h =
        let k = rw e at h in
        let same : w' ≡ w = cc in IsClean-same (ap (λ (v : World). v.tree) same) done
    repair_ok w w' found (inr (e, waiting)) h =
        restore_ok w w' waiting (settled_ok (restore (state_of path content) w) (rw e at h))

    -- A start that gets past its repair has nothing left to repair.
    pub recover_ok :
        (w w' : World) {b : Bool}
        → IsSafe path content codec w.tree
        → recover codec path w ≡ (ok b, w')
        → IsClean w'.tree
    unfolding recover load_state
    recover_ok w w' safe h =
        let (found, w1, loaded, repaired) = >>=-eq-ok (load_state codec path) (repair codec) w h in
        repair_ok w1 w' found
          (state_back w w1 (read_file (state_path path) w) safe (read_file-Read (state_path path) w)
            loaded)
          repaired
