-- ===== src/Config/Others.antt =====
-- `Resolve` and `Set` against all other files: what they leave as it is, whatever fails.
use localhoist.Common.{
  ◌≡◌, refl, [], ◌++◌, codes, false, Option, none, some, Bytes, equal, Bool-cases, inl, inr,
}
use localhoist.Common.Disk.{Error, not_exist, make_dirs, read_file}
use localhoist.Common.Disk.Keeps.{
  Keeps, Keeps->>=, Keeps-attempt, Keeps-if, Keeps-read_file, Keeps-write_file, Keeps-make_dirs,
}
use localhoist.Config.{
  Value, text, other, Object, Parsed, bad, null, object, Codec, Resolution, global, project, read,
  read_transport, parsed, or_empty, lookup_in, transport_of, transport_key, validate_transport,
  is_transport, with_flag, layer, unset_resolution, resolve, insert, assign, check_value, drop_key,
  delete, unset, validate_key, write, set,
}

module _ (codec : Codec) (q : Bytes) where
  pub Keeps-read : (path : Bytes) → Keeps q (read codec path)
  unfolding read
  Keeps-read path =
      Keeps-attempt q (read_file path) (λ bytes. parsed path (codec.parse bytes)) or_empty
        (Keeps-read_file q path) (λ bytes. after (codec.parse bytes)) missing
    where
      after : (p : Parsed) → Keeps q (parsed path p)
      after bad w = refl
      after null w = refl
      after (object m) w = refl

      missing : (e : Error) → Keeps q (or_empty e)
      missing (not_exist p) w = refl
      missing _ w = refl

  Keeps-transport_of : (path : Bytes) (v : Option Value) → Keeps q (transport_of path v)
  Keeps-transport_of path none w = refl
  Keeps-transport_of path (some (other v)) w = refl
  Keeps-transport_of path (some (text v)) w = elim (Bool-cases (is_transport v)) [
    | inl good ↦ rw good refl
    | inr bad_one ↦ rw bad_one refl
  ]

  Keeps-read_transport : (path : Bytes) → Keeps q (read_transport codec path)
  unfolding read_transport
  Keeps-read_transport path =
      Keeps->>= q (read codec path) (λ m. transport_of path (lookup_in transport_key m))
        (Keeps-read path) (λ m. Keeps-transport_of path (lookup_in transport_key m))

  Keeps-with_flag : (value : Bytes) (res : Resolution) → Keeps q (with_flag value res)
  Keeps-with_flag value res =
      Keeps-if q (equal value []) _ _ (λ w. refl)
        (Keeps->>= q (validate_transport value) _
          (Keeps-if q (is_transport value) _ _ (λ w. refl) (λ w. refl)) (λ _ w. refl))

  -- `Resolve` only reads.
  pub Keeps-resolve :
      (global_file project_file value : Bytes)
      → Keeps q (resolve codec global_file project_file value)
  unfolding resolve
  Keeps-resolve global_file project_file value =
      Keeps->>= q (read_transport codec global_file) _ (Keeps-read_transport global_file) (λ g.
        Keeps->>= q (read_transport codec project_file)
          (λ p.
            with_flag value
              (layer (layer unset_resolution global_file global g) project_file project p))
          (Keeps-read_transport project_file) (λ p. Keeps-with_flag value _))

  valid_key : (key : Bytes) → Keeps q (validate_key key)
  valid_key key = Keeps-if q (equal key transport_key) _ _ (λ w. refl) (λ w. refl)

  valid_value : (key value : Bytes) → Keeps q (check_value key value)
  valid_value key value =
      Keeps-if q (equal key transport_key) _ _
        (Keeps-if q (is_transport value) _ _ (λ w. refl) (λ w. refl)) (λ w. refl)

  assigned :
      (path key value : Bytes)
      → equal q path ≡ false
      → (m : Option Object) → Keeps q (assign codec path key value m)
  unfolding write
  assigned path key value apart none = λ w. refl
  assigned path key value apart (some m) =
      Keeps->>= q (make_dirs path) _ (Keeps-make_dirs q path) (λ _.
        Keeps-write_file q path (codec.print (insert key (text value) m) ++ codes "\n") 0o644 apart)

  -- `Set` changes its own file at most.
  pub Keeps-set :
      (path key value : Bytes) → equal q path ≡ false → Keeps q (set codec path key value)
  unfolding set write
  Keeps-set path key value apart = Keeps->>= q (validate_key key) _ (valid_key key) (λ _.
      Keeps->>= q (check_value key value) _ (valid_value key value) (λ _.
        Keeps->>= q (read codec path) _ (Keeps-read path) (λ m. assigned path key value apart m)))

  dropped :
      (path key : Bytes)
      → equal q path ≡ false
      → (m : Option Object) (v : Option Value) → Keeps q (drop_key codec path key m v)
  unfolding write
  dropped path key apart (some m) (some v) =
      Keeps->>= q (make_dirs path) _ (Keeps-make_dirs q path)
        (λ _. Keeps-write_file q path (codec.print (delete key m) ++ codes "\n") 0o644 apart)
  dropped path key apart (some m) none = λ w. refl
  dropped path key apart none v = λ w. refl

  -- `Unset` changes its own file at most.
  pub Keeps-unset : (path key : Bytes) → equal q path ≡ false → Keeps q (unset codec path key)
  unfolding unset write
  Keeps-unset path key apart = Keeps->>= q (validate_key key) _ (valid_key key) (λ _.
      Keeps->>= q (read codec path) _ (Keeps-read path)
        (λ m. dropped path key apart m (lookup_in key m)))
