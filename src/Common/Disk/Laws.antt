-- ===== src/Common/Disk/Laws.antt =====
-- What one call can do to the tree, whatever its fault, and what it does with no fault.
use localhoist.Common.{
  ℕ, ◌≡◌, refl, Bool, true, false, Option, none, some, [], Bytes, take, arith, equal, equal_refl,
  ◌∙◌,
}
use localhoist.Common.Disk.{
  Entry, Tree, Fault, fine, refused, torn, killed, killed_within, World, Outcome, ok, err, dead, io,
  not_exist, update, next_fault, put, write_under, write_file, stat, rename, remove, call, moved,
  removed, read_file, found, continue, pure, M, ◌>>=◌, make_dirs,
}

abbrev pub is_ok {ℓ} : {A : Type ℓ} → Outcome A → Bool
is_ok (ok a) = true
is_ok _ = false

-- What became of a write.
pub data Wrote (w : World) (path content : Bytes) (perm : ℕ) (r : Outcome (Unit {0}) × World)
    : Type 0 where
  whole : r.0 ≡ ok tt → r.1.tree ≡ put w path content perm → Wrote w path content perm r
  part :
      (n : ℕ)
      → is_ok r.0 ≡ false
      → r.1.tree ≡ put w path (take n content) perm
      → Wrote w path content perm r
  nothing : is_ok r.0 ≡ false → r.1.tree ≡ w.tree → Wrote w path content perm r

write_under-Wrote :
    (f : Fault) (path content : Bytes) (perm : ℕ) (w : World)
    → Wrote w path content perm (write_under f path content perm w)
write_under-Wrote fine path content perm w = whole refl refl
write_under-Wrote refused path content perm w = nothing refl refl
write_under-Wrote (torn n) path content perm w = part n refl refl
write_under-Wrote killed path content perm w = nothing refl refl
write_under-Wrote (killed_within n) path content perm w = part n refl refl

pub write_file-Wrote :
    (path content : Bytes) (perm : ℕ) (w : World)
    → Wrote w path content perm (write_file path content perm w)
unfolding write_file
write_file-Wrote path content perm w = write_under-Wrote (next_fault w.faults) path content perm w

-- What became of a rename: it was done, or nothing was.
pub data Moved (w : World) (from to : Bytes) (r : Outcome (Unit {0}) × World) : Type 0 where
  done :
      (e : Entry)
      → w.tree from ≡ some e
      → r.0 ≡ ok tt
      → r.1.tree ≡ update (update w.tree from none) to (some e)
      → Moved w from to r
  nothing : is_ok r.0 ≡ false → r.1.tree ≡ w.tree → Moved w from to r

call-Moved :
    (f : Fault) (from to : Bytes) (w : World) (o : Option Entry)
    → w.tree from ≡ o
    → Moved w from to (call f from w (moved from to w.tree o))
call-Moved fine from to w none e = nothing refl refl
call-Moved fine from to w (some x) e = done x e refl refl
call-Moved refused from to w o e = nothing refl refl
call-Moved (torn n) from to w o e = nothing refl refl
call-Moved killed from to w o e = nothing refl refl
call-Moved (killed_within n) from to w o e = nothing refl refl

pub rename-Moved : (from to : Bytes) (w : World) → Moved w from to (rename from to w)
unfolding rename
rename-Moved from to w = call-Moved (next_fault w.faults) from to w (w.tree from) refl

-- What became of a removal.
pub data Removed (w : World) (path : Bytes) (r : Outcome (Unit {0}) × World) : Type 0 where
  done : r.1.tree ≡ update w.tree path none → Removed w path r
  nothing : is_ok r.0 ≡ false → r.1.tree ≡ w.tree → Removed w path r

call-Removed :
    (f : Fault) (path : Bytes) (w : World) (o : Option Entry)
    → Removed w path (call f path w (removed path w.tree o))
call-Removed fine path w none = nothing refl refl
call-Removed fine path w (some x) = done refl
call-Removed refused path w o = nothing refl refl
call-Removed (torn n) path w o = nothing refl refl
call-Removed killed path w o = nothing refl refl
call-Removed (killed_within n) path w o = nothing refl refl

pub remove-Removed : (path : Bytes) (w : World) → Removed w path (remove path w)
unfolding remove
remove-Removed path w = call-Removed (next_fault w.faults) path w (w.tree path)

-- What became of a read: nothing is changed, and what is returned was there.
pub data Read (w : World) (path : Bytes) (r : Outcome Bytes × World) : Type 0 where
  got : (e : Entry) → w.tree path ≡ some e → r.0 ≡ ok e.content → r.1.tree ≡ w.tree → Read w path r
  missing : w.tree path ≡ none → r.0 ≡ err (not_exist path) → r.1.tree ≡ w.tree → Read w path r
  failed : r.0 ≡ err (io path) → r.1.tree ≡ w.tree → Read w path r
  gone : r.0 ≡ dead → r.1.tree ≡ w.tree → Read w path r

call-Read :
    (f : Fault) (path : Bytes) (w : World) (o : Option Entry)
    → w.tree path ≡ o
    → Read w path (continue (call f path w (found path o, w.tree)) (λ e. pure e.content))
call-Read fine path w none e = missing e refl refl
call-Read fine path w (some x) e = got x e refl refl
call-Read refused path w o e = failed refl refl
call-Read (torn n) path w o e = failed refl refl
call-Read killed path w o e = gone refl refl
call-Read (killed_within n) path w o e = gone refl refl

pub read_file-Read : (path : Bytes) (w : World) → Read w path (read_file path w)
unfolding read_file
read_file-Read path w = call-Read (next_fault w.faults) path w (w.tree path) refl

pub stat-tree : (path : Bytes) (w : World) → (stat path w).1.tree ≡ w.tree
unfolding stat
stat-tree path w = ground arith

-- A run in which nothing fails.
abbrev pub calm : Tree → ℕ → World
calm t umask = record { tree = t; faults = []; umask = umask }

module _ (t : Tree) (umask : ℕ) where
  pub stat-calm :
      (path : Bytes) {e : Entry} → t path ≡ some e → stat path (calm t umask) ≡ (ok e, calm t umask)
  unfolding stat
  stat-calm path h = rw h refl

  pub read_file-calm :
      (path : Bytes) {e : Entry}
      → t path ≡ some e
      → read_file path (calm t umask) ≡ (ok e.content, calm t umask)
  unfolding read_file
  read_file-calm path h = rw h refl

  pub read_file_absent :
      (path : Bytes)
      → t path ≡ none
      → read_file path (calm t umask) ≡ (err (not_exist path), calm t umask)
  unfolding read_file
  read_file_absent path h = rw h refl

  pub write_file-calm :
      (path content : Bytes) (perm : ℕ)
      → write_file path content perm (calm t umask)
        ≡ (ok tt, calm (put (calm t umask) path content perm) umask)
  unfolding write_file
  write_file-calm path content perm = refl

  pub make_dirs-calm : (path : Bytes) → make_dirs path (calm t umask) ≡ (ok tt, calm t umask)
  unfolding make_dirs
  make_dirs-calm path = refl

  pub rename-calm :
      (from to : Bytes) {e : Entry}
      → t from ≡ some e
      → rename from to (calm t umask)
        ≡ (ok tt, calm (update (update t from none) to (some e)) umask)
  unfolding rename
  rename-calm from to h = rw h refl

  pub remove-calm :
      (path : Bytes) {e : Entry}
      → t path ≡ some e
      → remove path (calm t umask) ≡ (ok tt, calm (update t path none) umask)
  unfolding remove
  remove-calm path h = rw h refl

-- A file that is there, with these bytes.
abbrev pub Holds : Tree → Bytes → Bytes → Type 0
Holds t path content = (e : Entry) × (t path ≡ some e) × (e.content ≡ content)

pub update_same : (t : Tree) (path : Bytes) (e : Option Entry) → update t path e path ≡ e
update_same t path e = rw (equal_refl path) refl

pub update_other :
    (t : Tree) (path : Bytes) (e : Option Entry) (q : Bytes)
    → equal q path ≡ false
    → update t path e q ≡ t q
update_other t path e q h = rw h refl

pub Holds-put :
    (w : World) (path content : Bytes) (perm : ℕ) → Holds (put w path content perm) path content
Holds-put w path content perm = (_, update_same w.tree path _, refl)

pub Holds-of_eq :
    (t u : Tree) (path : Bytes) {content : Bytes}
    → u path ≡ t path
    → Holds t path content
    → Holds u path content
Holds-of_eq t u path same (e, there, bytes) = (e, same ∙ there, bytes)

pub Holds-unique : (t : Tree) (path : Bytes) {a b : Bytes} → Holds t path a → Holds t path b → a ≡ b
Holds-unique t path (e, there, bytes) (e', there', bytes') = cc

pub Read-tree :
    {w : World} {path : Bytes} {r : Outcome Bytes × World} → Read w path r → r.1.tree ≡ w.tree
Read-tree (got e _ _ same) = same
Read-tree (missing _ _ same) = same
Read-tree (failed _ same) = same
Read-tree (gone _ same) = same

pub Read-Holds : {w w' : World} {path c : Bytes} → Read w path (ok c, w') → Holds w.tree path c
Read-Holds (got e there result _) = (e, there, cc)
Read-Holds (missing _ result _) = cc
Read-Holds (failed result _) = cc
Read-Holds (gone result _) = cc

pub Read-missing :
    {w w' : World} {path q : Bytes} → Read w path (err (not_exist q), w') → w.tree path ≡ none
Read-missing (got e _ result _) = cc
Read-missing (missing absent _ _) = absent
Read-missing (failed result _) = cc
Read-missing (gone result _) = cc

continue-eq-ok :
    {A B : Type 0} (r : Outcome A × World) (f : A → M B) {b : B} {w' : World}
    → continue r f ≡ (ok b, w')
    → (a : A) × (w1 : World) × (r ≡ (ok a, w1)) × (f a w1 ≡ (ok b, w'))
continue-eq-ok (ok a, w1) f h = (a, w1, refl, h)
continue-eq-ok (err x, w1) f h = cc
continue-eq-ok (dead, w1) f h = cc

-- A successful chain of two calls, taken apart.
pub >>=-eq-ok :
    {A B : Type 0} (m : M A) (f : A → M B) (w : World) {b : B} {w' : World}
    → (m >>= f) w ≡ (ok b, w')
    → (a : A) × (w1 : World) × (m w ≡ (ok a, w1)) × (f a w1 ≡ (ok b, w'))
>>=-eq-ok m f w h = continue-eq-ok (m w) f h
