-- ===== src/EnvFile/State/Restore.antt =====
-- Putting back the original values undoes the patches, in whatever order the map is visited.
use mathlib.Core.Path.{subst₂}
use mathlib.Core.List.{Permᴰ}
use localhoist.Common.{
  ◌≡◌, refl, sym, ap, ◌∙◌, Bool, true, false, none, some, List, [], ◌∷◌, Bytes, All, equal,
  equal_iff, Bool-cases, Option-cases, inl, inr, arith, any, ◌⊎◌,
}
use localhoist.EnvFile.{get_raw, set}
use localhoist.EnvFile.Lines.{IsKey, set_self, set_absent, set_again, set_comm, get_raw-set}
use localhoist.EnvFile.State.{snapshot, restore_lines}

-- The snapshot of a file puts nothing new into that file.
pub restore_lines-snapshot :
    (lines keys : List Bytes) → restore_lines (snapshot lines keys) lines ≡ lines
unfolding restore_lines snapshot
restore_lines-snapshot lines [] = refl
restore_lines-snapshot lines (k ∷ keys) = elim (Option-cases (get_raw lines k)) [
  | inl gone ↦ rw gone (restore_lines-snapshot lines keys)
  | inr (raw, there) ↦ rw there (
      ap (restore_lines (snapshot lines keys)) (set_self lines k there)
      ∙ restore_lines-snapshot lines keys)
]

abbrev pub HasKeys : List (Bytes × Bytes) → Type 0
HasKeys = All (λ p. IsKey p.0)

abbrev pub listed : Bytes → List (Bytes × Bytes) → Bool
listed k = any (λ p. equal p.0 k)

-- A write of a key that is restored later leaves no trace.
pub restore_lines-set :
    (original : List (Bytes × Bytes)) (lines : List Bytes) (k v : Bytes)
    → HasKeys original
    → IsKey k
    → listed k original ≡ true
    → restore_lines original (set lines k v).0 ≡ restore_lines original lines
unfolding restore_lines
restore_lines-set [] lines k v h g m = cc
restore_lines-set ((j, w) ∷ original) lines k v h g m = elim (Bool-cases (equal j k)) [
  | inl same ↦ rw ((equal_iff j k).0 same, set_again lines k v w) refl
  | inr other ↦
      rw (set_comm k j g h.0 lines v w (λ e. ground (arith, equal_iff j k)))
        (restore_lines-set original (set lines j w).0 k v h.1 g (ground arith))
]

listed-snapshot :
    (k : Bytes) (lines keys : List Bytes) {raw : Bytes}
    → get_raw lines k ≡ some raw
    → any (λ j. equal j k) keys ≡ true
    → listed k (snapshot lines keys) ≡ true
unfolding snapshot
listed-snapshot k lines [] there h = cc
listed-snapshot k lines (j ∷ keys) {raw} there h =
    ground (arith, equal_iff j k, listed-snapshot k lines keys {raw = raw} there)

snapshot-HasKeys : (lines keys : List Bytes) → All IsKey keys → HasKeys (snapshot lines keys)
unfolding snapshot
snapshot-HasKeys lines [] h = tt
snapshot-HasKeys lines (j ∷ keys) h = ground (arith, snapshot-HasKeys lines keys h.1)

-- A key that the program may write: one whose value the snapshot has, or that no line has.
abbrev Covered : List (Bytes × Bytes) → List Bytes → Bytes → Type 0
Covered original lines k = (listed k original ≡ true) ⊎ (get_raw lines k ≡ none)

Covered-set :
    (original : List (Bytes × Bytes)) (lines : List Bytes) (j v k : Bytes)
    → IsKey j
    → IsKey k
    → Covered original lines j
    → Covered original lines k
    → Covered original (set lines j v).0 k
Covered-set original lines j v k hj hk cj (inl m) = inl m
Covered-set original lines j v k hj hk (inr gone) (inr e) = inr (rw (set_absent lines j v gone) e)
Covered-set original lines j v k hj hk (inl m) (inr e) = elim (Bool-cases (equal j k)) [
  | inl same ↦ inl (rw (← (equal_iff j k).0 same) m)
  | inr other ↦ inr (rw (get_raw-set j k hj hk lines v, other) e)
]

-- Keys of patches, each with the fact that it is covered.
abbrev AllCovered : List (Bytes × Bytes) → List Bytes → List (Bytes × Bytes) → Type 0
AllCovered original lines = All (λ p. IsKey p.0 × Covered original lines p.0)

AllCovered-set :
    (original : List (Bytes × Bytes)) (lines : List Bytes) (j v : Bytes)
    (patches : List (Bytes × Bytes))
    → IsKey j
    → Covered original lines j
    → AllCovered original lines patches
    → AllCovered original (set lines j v).0 patches
AllCovered-set original lines j v [] hj cj h = tt
AllCovered-set original lines j v (p ∷ patches) hj cj h = (
  (h.0.0, Covered-set original lines j v p.0 hj h.0.0 cj h.0.1),
  AllCovered-set original lines j v patches hj cj h.1,
)

restore_lines-restore_lines :
    (original patches : List (Bytes × Bytes)) (lines : List Bytes)
    → HasKeys original
    → AllCovered original lines patches
    → restore_lines original (restore_lines patches lines) ≡ restore_lines original lines
unfolding restore_lines
restore_lines-restore_lines original [] lines h c = refl
restore_lines-restore_lines original ((j, v) ∷ patches) lines h ((hj, inl m), c) =
    restore_lines-restore_lines original patches (set lines j v).0 h
      (AllCovered-set original lines j v patches hj (inl m) c)
    ∙ restore_lines-set original lines j v h hj m
restore_lines-restore_lines original ((j, v) ∷ patches) lines h ((hj, inr gone), c) =
    rw (set_absent lines j v gone) (restore_lines-restore_lines original patches lines h c)

all_covered :
    (lines keys : List Bytes) (patches : List (Bytes × Bytes))
    → All (λ p. IsKey p.0 × (any (λ j. equal j p.0) keys ≡ true)) patches
    → AllCovered (snapshot lines keys) lines patches
all_covered lines keys [] h = tt
all_covered lines keys (p ∷ patches) h = elim (Option-cases (get_raw lines p.0)) [
  | inl gone ↦ ((h.0.0, inr gone), all_covered lines keys patches h.1)
  | inr (raw, there) ↦ (
    (h.0.0, inl (listed-snapshot p.0 lines keys there h.0.1)),
    all_covered lines keys patches h.1,
  )
]

-- Whatever values are written to snapshotted keys, in any order and however often, putting back
-- the snapshot gives every line of the file as it was. The keys hold no `=`.
pub restore_lines_undo :
    (lines keys : List Bytes) (patches : List (Bytes × Bytes))
    → All IsKey keys
    → All (λ p. IsKey p.0 × (any (λ j. equal j p.0) keys ≡ true)) patches
    → restore_lines (snapshot lines keys) (restore_lines patches lines) ≡ lines
restore_lines_undo lines keys patches h g =
    restore_lines-restore_lines (snapshot lines keys) patches lines (snapshot-HasKeys lines keys h)
      (all_covered lines keys patches g)
    ∙ restore_lines-snapshot lines keys

-- No key stands twice in the list, as in a map.
abbrev pub HasDistinctKeys : List (Bytes × Bytes) → Type 0
HasDistinctKeys [] = Unit
HasDistinctKeys (p ∷ original) = (listed p.0 original ≡ false) × HasDistinctKeys original

listed_perm : {a b : List (Bytes × Bytes)} (k : Bytes) → Permᴰ a b → listed k a ≡ listed k b
listed_perm k Permᴰ.nil = refl
listed_perm k (Permᴰ.cons {l₁} {l₂} e p) = rw (e, listed_perm k p) refl
listed_perm k (Permᴰ.swap e f) = rw (e, f) (ground arith)
listed_perm k (Permᴰ.trans p q) = listed_perm k p ∙ listed_perm k q

HasKeys-perm : {a b : List (Bytes × Bytes)} → Permᴰ a b → HasKeys a → HasKeys b
HasKeys-perm Permᴰ.nil h = h
HasKeys-perm (Permᴰ.cons e p) h = (rw e at h.0, HasKeys-perm p h.1)
HasKeys-perm (Permᴰ.swap e f) h = (rw f at h.1.0, (rw e at h.0, h.1.1))
HasKeys-perm (Permᴰ.trans p q) h = HasKeys-perm q (HasKeys-perm p h)

HasDistinctKeys-swap :
    (x y : Bytes × Bytes) (l : List (Bytes × Bytes))
    → HasDistinctKeys (x ∷ y ∷ l)
    → HasDistinctKeys (y ∷ x ∷ l)
HasDistinctKeys-swap x y l h = ground (arith, equal_iff x.0 y.0, equal_iff y.0 x.0)

HasDistinctKeys-perm :
    {a b : List (Bytes × Bytes)} → Permᴰ a b → HasDistinctKeys a → HasDistinctKeys b
HasDistinctKeys-perm Permᴰ.nil h = h
HasDistinctKeys-perm (Permᴰ.cons {a = x} {b = y} {l₁ = s} {l₂ = t} e p) h =
    (sym (listed_perm y.0 p) ∙ rw e at h.0, HasDistinctKeys-perm p h.1)
HasDistinctKeys-perm (Permᴰ.swap {a = x} {b = y} {l = l} e f) h =
    subst₂ (λ u v. HasDistinctKeys (v ∷ u ∷ l)) e f (HasDistinctKeys-swap x y l h)
HasDistinctKeys-perm (Permᴰ.trans p q) h = HasDistinctKeys-perm q (HasDistinctKeys-perm p h)

-- The order in which the map is visited does not matter, for distinct keys without `=`.
pub restore_lines_perm :
    {a b : List (Bytes × Bytes)} (lines : List Bytes)
    → Permᴰ a b
    → HasKeys a
    → HasDistinctKeys a
    → restore_lines a lines ≡ restore_lines b lines
unfolding restore_lines
restore_lines_perm lines Permᴰ.nil h d = refl
restore_lines_perm lines (Permᴰ.cons {a = x} e p) h d =
    rw (← e) (restore_lines_perm (set lines x.0 x.1).0 p h.1 d.1)
restore_lines_perm lines (Permᴰ.swap {a = x} {b = y} {l = l} e f) h d =
    rw (← e, ← f)
      (ap (restore_lines l) (
        set_comm x.0 y.0 h.0 h.1.0 lines x.1 y.1
          (λ q. ground (arith, equal_iff y.0 x.0, equal_iff x.0 y.0))))
restore_lines_perm lines (Permᴰ.trans p q) h d =
    restore_lines_perm lines p h d
    ∙ restore_lines_perm lines q (HasKeys-perm p h) (HasDistinctKeys-perm p d)
