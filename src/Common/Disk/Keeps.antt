-- ===== src/Common/Disk/Keeps.antt =====
-- Steps that leave the file at one path as it is, whatever fails.
use localhoist.Common.{ℕ, ◌≡◌, refl, ap, ◌∙◌, Bool, true, false, Bytes, equal, if◌then◌else◌}
use localhoist.Common.Disk.{
  M, World, Error, Outcome, ok, err, dead, Fault, fine, refused, torn, killed, killed_within,
  continue, settle, ◌>>=◌, attempt, read_file, write_file, make_dirs, next_fault, call, write_under,
}
use localhoist.Common.Disk.Laws.{Read-tree, read_file-Read, update_other}

abbrev pub Keeps : {A : Type 0} → Bytes → M A → Type 0
Keeps q m = (w : World) → (m w).1.tree q ≡ w.tree q

module _ (q : Bytes) {A B : Type 0} where
  continue-Keeps :
      (f : A → M B)
      → ((a : A) → Keeps q (f a))
      → (w : World) (r : Outcome A × World) → r.1.tree q ≡ w.tree q
      → (continue r f).1.tree q ≡ w.tree q
  continue-Keeps f rest w (ok a, w') same = rest a w' ∙ same
  continue-Keeps f rest w (err e, w') same = same
  continue-Keeps f rest w (dead, w') same = same

  pub Keeps->>= :
      (m : M A) (f : A → M B) → Keeps q m → ((a : A) → Keeps q (f a)) → Keeps q (m >>= f)
  Keeps->>= m f first rest w = continue-Keeps f rest w (m w) (first w)

  settle-Keeps :
      (good : A → M B) (bad : Error → M B)
      → ((a : A) → Keeps q (good a))
      → ((e : Error) → Keeps q (bad e))
      → (w : World) (r : Outcome A × World) → r.1.tree q ≡ w.tree q
      → (settle r good bad).1.tree q ≡ w.tree q
  settle-Keeps good bad g b w (ok a, w') same = g a w' ∙ same
  settle-Keeps good bad g b w (err e, w') same = b e w' ∙ same
  settle-Keeps good bad g b w (dead, w') same = same

  pub Keeps-attempt :
      (m : M A) (good : A → M B) (bad : Error → M B)
      → Keeps q m
      → ((a : A) → Keeps q (good a))
      → ((e : Error) → Keeps q (bad e))
      → Keeps q (attempt m good bad)
  Keeps-attempt m good bad first g b w = settle-Keeps good bad g b w (m w) (first w)

pub Keeps-if :
    (q : Bytes) {A : Type 0} (b : Bool) (m k : M A)
    → Keeps q m
    → Keeps q k
    → Keeps q (if b then m else k)
Keeps-if q true m k hm hk = hm
Keeps-if q false m k hm hk = hk

pub Keeps-read_file : (q path : Bytes) → Keeps q (read_file path)
Keeps-read_file q path w = ap (λ t. t q) (Read-tree (read_file-Read path w))

write_under-Keeps :
    (q path content : Bytes) (perm : ℕ)
    → equal q path ≡ false
    → (f : Fault) → Keeps q (write_under f path content perm)
write_under-Keeps q path content perm other fine w = update_other w.tree path _ q other
write_under-Keeps q path content perm other refused w = refl
write_under-Keeps q path content perm other (torn n) w = update_other w.tree path _ q other
write_under-Keeps q path content perm other killed w = refl
write_under-Keeps q path content perm other (killed_within n) w = update_other w.tree path _ q other

pub Keeps-write_file :
    (q path content : Bytes) (perm : ℕ)
    → equal q path ≡ false
    → Keeps q (write_file path content perm)
unfolding write_file
Keeps-write_file q path content perm other w =
    write_under-Keeps q path content perm other (next_fault w.faults) w

call_keeps :
    (q path : Bytes) (f : Fault) (w : World) → (call f path w (ok tt, w.tree)).1.tree q ≡ w.tree q
call_keeps q path fine w = refl
call_keeps q path refused w = refl
call_keeps q path (torn n) w = refl
call_keeps q path killed w = refl
call_keeps q path (killed_within n) w = refl

pub Keeps-make_dirs : (q path : Bytes) → Keeps q (make_dirs path)
unfolding make_dirs
Keeps-make_dirs q path w = call_keeps q path (next_fault w.faults) w
