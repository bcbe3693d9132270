-- ===== src/EnvFile/Save.antt =====
-- internal/envfile/envfile.go: `Save` replaces the file at once or leaves it alone, whatever fails.
use localhoist.Common.{ℕ, ◌≡◌, refl, ◌∙◌, ap, false, Option, none, Bytes, equal, equal-self_append}
use localhoist.Common.Disk.{
  Entry, World, Outcome, ok, err, dead, continue, settle, put, update, rename, stat,
}
use localhoist.Common.Disk.Laws.{
  is_ok, Wrote, write_file-Wrote, Moved, rename-Moved, stat-tree, Holds, update_same, update_other,
  Holds-put, Holds-unique, Holds-of_eq, whole, part, nothing,
}
use localhoist.EnvFile.{File, render, temp_path, save_with, save}

-- Every other file than the two that `Save` writes.
abbrev Untouched : File → World → World → Type 0
Untouched f w w' =
    (q : Bytes) → equal q f.path ≡ false → equal q (temp_path f.path) ≡ false → w'.tree q ≡ w.tree q

pub data Saved (f : File) (w : World) (r : Outcome (Unit {0}) × World) : Type 0 where
  replaced : Holds r.1.tree f.path (render f.lines) → Untouched f w r.1 → Saved f w r
  kept : is_ok r.0 ≡ false → r.1.tree f.path ≡ w.tree f.path → Untouched f w r.1 → Saved f w r

module _ (f : File) where
  path-temp_path : equal f.path (temp_path f.path) ≡ false
  path-temp_path = equal-self_append f.path _ _

  -- The tree after the temporary file is written.
  abbrev WroteTemp : World → World → ℕ → Type 0
  WroteTemp w w' perm = w'.tree ≡ put w (temp_path f.path) (render f.lines) perm

  WroteTemp-Untouched : (w w' : World) (perm : ℕ) → WroteTemp w w' perm → Untouched f w w'
  WroteTemp-Untouched w w' perm wrote q h g =
      ap (λ t. t q) wrote ∙ update_other w.tree (temp_path f.path) _ q g

  Moved-Saved :
      (w w' : World) (r : Outcome (Unit {0}) × World) (perm : ℕ)
      → WroteTemp w w' perm
      → Moved w' (temp_path f.path) f.path r
      → Saved f w r
  Moved-Saved w w' r perm wrote (Moved.done e there _ moved) =
      let temp : Holds w'.tree (temp_path f.path) (render f.lines) =
        Holds-of_eq (put w (temp_path f.path) (render f.lines) perm) w'.tree (temp_path f.path)
          (ap (λ t. t (temp_path f.path)) wrote)
          (Holds-put w (temp_path f.path) (render f.lines) perm) in
      replaced
        (
          e,
          ap (λ t. t f.path) moved ∙ update_same (update w'.tree (temp_path f.path) none) f.path _,
          Holds-unique w'.tree (temp_path f.path) (e, there, refl) temp,
        )
        (λ q h g.
          ap (λ t. t q) moved
          ∙ update_other (update w'.tree (temp_path f.path) none) f.path _ q h
          ∙ update_other w'.tree (temp_path f.path) none q g
          ∙ WroteTemp-Untouched w w' perm wrote q h g)
  Moved-Saved w w' r perm wrote (Moved.nothing failed same) =
      kept failed
        (ap (λ t. t f.path) same
          ∙ ap (λ t. t f.path) wrote
          ∙ update_other w.tree (temp_path f.path) _ f.path path-temp_path)
        (λ q h g. ap (λ t. t q) same ∙ WroteTemp-Untouched w w' perm wrote q h g)

  -- A call that fails behind a write of the temporary file, or behind none.
  stopped :
      (w w' : World) (o : Outcome (Unit {0})) (e : Option Entry)
      → is_ok o ≡ false
      → w'.tree ≡ update w.tree (temp_path f.path) e
      → Saved f w (o, w')
  stopped w w' o e failed wrote =
      kept failed
        (ap (λ t. t f.path) wrote ∙ update_other w.tree (temp_path f.path) e f.path path-temp_path)
        (λ q h g. ap (λ t. t q) wrote ∙ update_other w.tree (temp_path f.path) e q g)

  idle :
      (w w' : World) (o : Outcome (Unit {0}))
      → is_ok o ≡ false
      → w'.tree ≡ w.tree
      → Saved f w (o, w')
  idle w w' o failed same = kept failed (ap (λ t. t f.path) same) (λ q h g. ap (λ t. t q) same)

  Wrote-Saved :
      (w : World) (perm : ℕ) (r : Outcome (Unit {0}) × World)
      → Wrote w (temp_path f.path) (render f.lines) perm r
      → Saved f w (continue r (λ _. rename (temp_path f.path) f.path))
  Wrote-Saved w perm (ok u, w') (whole _ wrote) =
      Moved-Saved w w' _ perm wrote (rename-Moved (temp_path f.path) f.path w')
  Wrote-Saved w perm (ok u, w') (part n e _) = cc
  Wrote-Saved w perm (ok u, w') (nothing e _) = cc
  Wrote-Saved w perm (err x, w') (whole e _) = cc
  Wrote-Saved w perm (err x, w') (part n _ wrote) = stopped w w' (err x) _ refl wrote
  Wrote-Saved w perm (err x, w') (nothing _ same) = idle w w' (err x) refl same
  Wrote-Saved w perm (dead, w') (whole e _) = cc
  Wrote-Saved w perm (dead, w') (part n _ wrote) = stopped w w' dead _ refl wrote
  Wrote-Saved w perm (dead, w') (nothing _ same) = idle w w' dead refl same

  save_with-Saved : (perm : ℕ) (w : World) → Saved f w (save_with f perm w)
  save_with-Saved perm w =
      Wrote-Saved w perm _ (write_file-Wrote (temp_path f.path) (render f.lines) perm w)

  Untouched-of_eq : (w w' w'' : World) → w'.tree ≡ w.tree → Untouched f w' w'' → Untouched f w w''
  Untouched-of_eq w w' w'' same u q h g = u q h g ∙ ap (λ t. t q) same

  Saved-of_eq :
      (w w' : World) (r : Outcome (Unit {0}) × World)
      → w'.tree ≡ w.tree
      → Saved f w' r
      → Saved f w r
  Saved-of_eq w w' r same (replaced h u) = replaced h (Untouched-of_eq w w' r.1 same u)
  Saved-of_eq w w' r same (kept x k u) =
      kept x (k ∙ ap (λ t. t f.path) same) (Untouched-of_eq w w' r.1 same u)

  settle-Saved :
      (w : World) (r : Outcome Entry × World)
      → r.1.tree ≡ w.tree
      → Saved f w (settle r (λ info. save_with f info.mode) (λ _. save_with f 0o644))
  settle-Saved w (ok info, w') same = Saved-of_eq w w' _ same (save_with-Saved info.mode w')
  settle-Saved w (err x, w') same = Saved-of_eq w w' _ same (save_with-Saved 0o644 w')
  settle-Saved w (dead, w') same = idle w w' dead refl same

  -- Whatever fails, and wherever the process is killed: `Save` leaves the file with the new lines,
  -- or leaves it as it was and does not report success. Of the other files it touches its
  -- temporary file alone.
  pub save-Saved : (w : World) → Saved f w (save f w)
  unfolding save
  save-Saved w = settle-Saved w (stat f.path w) (stat-tree f.path w)
