-- ===== src/Config/Files.antt =====
-- `Set` and `Unset` on a config file, and what `Resolve` then finds in it.
use localhoist.Common.{
  ℕ, ◌≡◌, refl, ◌∙◌, true, false, ◌&&◌, none, some, [], ◌∷◌, ◌++◌, Bytes, codes, equal, equal_iff,
  Bool-cases, Option-cases, inl, inr, arith, if◌then◌else◌,
}
use localhoist.Common.Disk.{
  World, Tree, Entry, ok, err, nil_map, unknown_transport, unknown_key, put,
}
use localhoist.Common.Disk.Laws.{
  calm, read_file-calm, read_file_absent, write_file-calm, make_dirs-calm, update_same,
  update_other,
}
use localhoist.Config.{
  Value, text, Object, Codec, null, object, lookup, insert, delete, is_transport, transport_key,
  transport_of, read, read_transport, write, set, unset,
}

pub lookup-insert :
    (k j : Bytes) (v : Value) (m : Object)
    → lookup j (insert k v m) ≡ (if equal k j then some v else lookup j m)
unfolding lookup insert
lookup-insert k j v [] = ground (arith, equal_iff k j, equal_iff j k)
lookup-insert k j v ((i, w) ∷ m) = ground (
  arith,
  equal_iff k j,
  equal_iff j k,
  equal_iff i k,
  equal_iff i j,
  equal_iff k i,
  equal_iff j i,
  lookup-insert k j v m,
)

pub lookup-delete :
    (k j : Bytes) (m : Object) → lookup j (delete k m) ≡ (if equal k j then none else lookup j m)
unfolding lookup delete
lookup-delete k j [] = ground arith
lookup-delete k j ((i, w) ∷ m) = ground (
  arith,
  equal_iff k j,
  equal_iff j k,
  equal_iff i k,
  equal_iff i j,
  equal_iff k i,
  equal_iff j i,
  lookup-delete k j m,
)

-- A supported transport is not the empty text.
pub supported-given : (v : Bytes) → is_transport v ≡ true → equal v [] ≡ false
unfolding is_transport equal
supported-given [] h = cc
supported-given (c ∷ v) h = refl

module _ (codec : Codec) where
  -- What the program relies on in `encoding/json`: a map that is written and read back holds the
  -- same values under the same keys, in whatever order.
  abbrev pub IsReadBack : Object → Type 0
  IsReadBack m =
      (m' : Object) × (codec.parse (codec.print m ++ codes "\n") ≡ object m')
      × ((k : Bytes) → lookup k m' ≡ lookup k m)

  -- The config file at `path` holds the map `m`; a missing file holds the empty one.
  pub data Stores (t : Tree) (path : Bytes) : Object → Type 0 where
    nothing : {m : Object} → t path ≡ none → m ≡ [] → Stores t path m
    a_file :
        {m : Object} (e : Entry)
        → t path ≡ some e
        → codec.parse e.content ≡ object m
        → Stores t path m

  read_stored :
      (t : Tree) (umask : ℕ) (path : Bytes) {m : Object}
      → Stores t path m
      → read codec path (calm t umask) ≡ (ok (some m), calm t umask)
  unfolding read
  read_stored t umask path (nothing absent e) = rw (read_file_absent t umask path absent, e) refl
  read_stored t umask path (a_file e there parses) =
      rw (read_file-calm t umask path there) (rw parses refl)

  -- A config file written anew: what it holds, and that no other file is touched.
  pub record IsWritten (t t' : Tree) (path : Bytes) (m : Object) : Type 0 where
    pub now : Object
    pub stored : Stores t' path now
    pub same : (k : Bytes) → lookup k now ≡ lookup k m
    pub others : (q : Bytes) → equal q path ≡ false → t' q ≡ t q

  abbrev after_write : Tree → ℕ → Bytes → Object → Tree
  after_write t umask path m = put (calm t umask) path (codec.print m ++ codes "\n") 0o644

  write-calm :
      (t : Tree) (umask : ℕ) (path : Bytes) (m : Object)
      → write codec path m (calm t umask) ≡ (ok tt, calm (after_write t umask path m) umask)
  unfolding write
  write-calm t umask path m =
      rw (make_dirs-calm t umask path)
        (write_file-calm t umask path (codec.print m ++ codes "\n") 0o644)

  after_write-IsWritten :
      (t : Tree) (umask : ℕ) (path : Bytes) (m : Object)
      → IsReadBack m
      → IsWritten t (after_write t umask path m) path m
  after_write-IsWritten t umask path m (m', parses, same) = record {
    now = m';
    stored = a_file _ (update_same t path _) parses;
    same = same;
    others = λ q h. update_other t path _ q h;
  }

  -- `config set transport v` for a supported `v`: the file then holds `v` under `transport`, every
  -- other key keeps its value, known to this version or not, and no other file is touched.
  -- Assumed: no call fails, the file is missing or holds a map, and the new map is read back.
  pub set-calm :
      (t : Tree) (umask : ℕ) (path v : Bytes) {m : Object}
      → Stores t path m
      → is_transport v ≡ true
      → IsReadBack (insert transport_key (text v) m)
      → (t' : Tree) × (set codec path transport_key v (calm t umask) ≡ (ok tt, calm t' umask))
        × IsWritten t t' path (insert transport_key (text v) m)
  unfolding set equal
  set-calm t umask path v {m} stores good back = (
    after_write t umask path (insert transport_key (text v) m),
    rw good (rw (read_stored t umask path stores) (write-calm t umask path _)),
    after_write-IsWritten t umask path _ back,
  )

  -- `config unset transport`: the file then holds nothing under `transport`, every other key keeps
  -- its value, and no other file is touched. Assumed: no call fails, the file is missing or holds
  -- a map, and the new map is read back.
  pub unset-calm :
      (t : Tree) (umask : ℕ) (path : Bytes) {m : Object}
      → Stores t path m
      → IsReadBack (delete transport_key m)
      → (t' : Tree) × (unset codec path transport_key (calm t umask) ≡ (ok tt, calm t' umask))
        × IsWritten t t' path (delete transport_key m)
  unfolding unset equal
  unset-calm t umask path {m} stores back = elim (Option-cases (lookup transport_key m)) [
    | inl gone ↦ (
      t,
      rw (read_stored t umask path stores) (rw gone refl),
      record {
        now = m;
        stored = stores;
        same = λ k. ground (arith, lookup-delete transport_key k m, equal_iff transport_key k);
        others = λ q h. refl;
      },
    )
    | inr (v, there) ↦ (
      after_write t umask path (delete transport_key m),
      rw (read_stored t umask path stores)
          (rw there (write-calm t umask path (delete transport_key m))),
      after_write-IsWritten t umask path (delete transport_key m) back,
    )
  ]

  pub read_transport_stored :
      (t : Tree) (umask : ℕ) (path : Bytes) {m : Object}
      → Stores t path m
      → read_transport codec path (calm t umask)
        ≡ transport_of path (lookup transport_key m) (calm t umask)
  unfolding read_transport
  read_transport_stored t umask path stores = rw (read_stored t umask path stores) refl

  -- What was set is what a later start reads from that file, for every other content of the file.
  pub read_transport-set :
      (t : Tree) (umask : ℕ) (path v : Bytes) {m : Object}
      → Stores t path m
      → is_transport v ≡ true
      → IsReadBack (insert transport_key (text v) m)
      → (t' : Tree) × (set codec path transport_key v (calm t umask) ≡ (ok tt, calm t' umask))
        × (read_transport codec path (calm t' umask) ≡ (ok v, calm t' umask))
  read_transport-set t umask path v {m} stores good back =
      let (t', done, written) = set-calm t umask path v stores good back in
      (
        t',
        done,
        read_transport_stored t' umask path written.stored
            ∙ rw (written.same transport_key, lookup-insert transport_key transport_key (text v) m)
                (unfold equal in rw good refl),
      )

  -- An unknown key, or a value that is no transport, is refused before anything is read or
  -- written, and the error names the key, or the value if the key is known.
  pub set_refused :
      (path key v : Bytes) (w : World)
      → (equal key transport_key && is_transport v) ≡ false
      → set codec path key v w
        ≡ (err (if equal key transport_key then unknown_transport v else unknown_key key), w)
  unfolding set
  set_refused path key v w h = elim (Bool-cases (equal key transport_key)) [
    | inl known ↦
        let bad_value : is_transport v ≡ false = rw known at h in rw (known, bad_value) refl
    | inr unknown ↦ rw unknown refl
  ]

  -- config set transport at a file that holds null ends in a panic, by the assignment to the nil
  -- map: nothing is written. Assumed: the value is supported and no call fails.
  pub set-null :
      (t : Tree) (umask : ℕ) (path v : Bytes) (e : Entry)
      → t path ≡ some e
      → codec.parse e.content ≡ null
      → is_transport v ≡ true
      → set codec path transport_key v (calm t umask) ≡ (err (nil_map path), calm t umask)
  unfolding set read equal
  set-null t umask path v e there parses good =
      rw good (rw (read_file-calm t umask path there) (rw parses refl))
