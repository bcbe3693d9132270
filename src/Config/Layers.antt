-- ===== src/Config/Layers.antt =====
-- `Resolve`: which layer decides.
use localhoist.Common.{
  ◌≡◌, refl, true, false, Option, none, some, List, [], ◌∷◌, Bytes, equal, equal_iff, Bool-cases,
  inl, inr, arith, if◌then◌else◌, ◌⊎◌,
}
use localhoist.Common.Disk.{World, ok, ◌>>=◌}
use localhoist.Common.Disk.Laws.{>>=-eq-ok}
use localhoist.Config.{
  Value, text, other, Codec, Source, default, global, project, flag, Resolution, cloudflare,
  is_transport, lookup_in, transport_of, read, read_transport, layer, unset_resolution, with_flag,
  resolve, transport_key,
}

-- The first text that is not empty.
abbrev pub first_given : List Bytes → Bytes
first_given [] = []
first_given (v ∷ vs) = if equal v [] then first_given vs else v

abbrev Valid : Bytes → Type 0
Valid t = (t ≡ []) ⊎ (is_transport t ≡ true)

transport_of-Valid :
    (path : Bytes) (v : Option Value) (w w' : World) {t : Bytes}
    → transport_of path v w ≡ (ok t, w')
    → Valid t
transport_of-Valid path none w w' h = inl cc
transport_of-Valid path (some (other x)) w w' h = cc
transport_of-Valid path (some (text x)) w w' h = ground arith

read_transport-Valid :
    (codec : Codec) (path : Bytes) (w w' : World) {t : Bytes}
    → read_transport codec path w ≡ (ok t, w')
    → Valid t
unfolding read_transport
read_transport-Valid codec path w w' h =
    let (m, w1, _, last) =
      >>=-eq-ok (read codec path) (λ m. transport_of path (lookup_in transport_key m)) w h in
    transport_of-Valid path (lookup_in transport_key m) w1 w' last

-- The layer that decides, of the two files' transports and the flag's.
abbrev pub deciding : Bytes → Bytes → Bytes → Source
deciding g p value =
    if equal value []
    then if equal p [] then (if equal g [] then default else global) else project
    else flag

-- What `Resolve` returns for the transports of the two files and of the flag.
pub record IsResolved (g p value : Bytes) (res : Resolution) : Type 0 where
  pub decided : res.transport ≡ first_given (value ∷ p ∷ g ∷ cloudflare ∷ [])
  pub by : res.source ≡ deciding g p value
  pub saved : res.saved ≡ first_given (p ∷ g ∷ [])
  pub supported : is_transport res.transport ≡ true

abbrev by_flag : Bytes → Resolution → Resolution
by_flag value res = record { transport = value; source = flag; source_path = []; saved = res.saved }

with_flag-ok :
    (value : Bytes) (base res : Resolution) (w w' : World)
    → with_flag value base w ≡ (ok res, w')
    → ((equal value [] ≡ true) × (res ≡ base))
      ⊎ ((equal value [] ≡ false) × (is_transport value ≡ true) × (res ≡ by_flag value base))
with_flag-ok value base res w w' h = elim (Bool-cases (equal value [])) [
  | inl silent ↦ let k = rw silent at h in inl (silent, cc)
  | inr given ↦ elim (Bool-cases (is_transport value)) [
    | inl good ↦ let k = rw (given, good) at h in inr (given, good, cc)
    | inr bad ↦ let k = rw (given, bad) at h in cc
  ]
]

module _ (global_file project_file g p : Bytes) where
  abbrev base : Resolution
  base = layer (layer unset_resolution global_file global g) project_file project p

  base-IsResolved : Valid g → Valid p → IsResolved g p [] base
  unfolding equal is_transport
  base-IsResolved vg vp = record {
    decided = ground (arith, equal_iff p [], equal_iff g []);
    by = ground (arith, equal_iff p [], equal_iff g []);
    saved = ground (arith, equal_iff p [], equal_iff g []);
    supported = ground (arith, equal_iff p [], equal_iff g []);
  }

  by_flag-IsResolved :
      (value : Bytes)
      → IsResolved g p [] base
      → equal value [] ≡ false
      → is_transport value ≡ true
      → IsResolved g p value (by_flag value base)
  by_flag-IsResolved value b given good = record {
    decided = rw given refl;
    by = rw given refl;
    saved = b.saved;
    supported = good;
  }

  layered-IsResolved :
      (value : Bytes) (w w' : World) {res : Resolution}
      → Valid g
      → Valid p
      → with_flag value base w ≡ (ok res, w')
      → IsResolved g p value res
  layered-IsResolved value w w' {res} vg vp h = elim (with_flag-ok value base res w w' h) [
    | inl (silent, e) ↦ rw (e, (equal_iff value []).0 silent) (base-IsResolved vg vp)
    | inr (given, good, e) ↦ rw e (by_flag-IsResolved value (base-IsResolved vg vp) given good)
  ]

-- A successful `Resolve` has read both files, and returns the flag's transport if there is one, else
-- the project's, else the global one, else cloudflare, with the layer that decided, and with what
-- the files alone say. The transport is one of the two that are supported.
pub resolve-IsResolved :
    (codec : Codec) (global_file project_file value : Bytes) (w w' : World) {res : Resolution}
    → resolve codec global_file project_file value w ≡ (ok res, w')
    → (g p : Bytes) × (w1 w2 : World) × (read_transport codec global_file w ≡ (ok g, w1))
      × (read_transport codec project_file w1 ≡ (ok p, w2))
      × IsResolved g p value res
unfolding resolve
resolve-IsResolved codec global_file project_file value w w' h =
    let (g, w1, first, rest) =
      >>=-eq-ok (read_transport codec global_file)
        (λ g. read_transport codec project_file >>= λ p.
          with_flag value (base global_file project_file g p))
        w h in
    let (p, w2, second, last) =
      >>=-eq-ok (read_transport codec project_file)
        (λ p. with_flag value (base global_file project_file g p)) w1 rest in
    (
      g,
      p,
      w1,
      w2,
      first,
      second,
      layered-IsResolved global_file project_file g p value w2 w'
          (read_transport-Valid codec global_file w w1 first)
          (read_transport-Valid codec project_file w1 w2 second) last,
    )

with_flag-given :
    (value : Bytes) (base : Resolution) (w : World)
    → Valid value
    → (res : Resolution) × (with_flag value base w ≡ (ok res, w))
with_flag-given value base w valid = elim (Bool-cases (equal value [])) [
  | inl silent ↦ (base, rw silent refl)
  | inr given ↦
      let good : is_transport value ≡ true = ground (arith, equal_iff value []) in
      (by_flag value base, rw (given, good) refl)
]

-- When both files can be read, each naming no transport or a supported one, and the flag is absent
-- or supported, `Resolve` succeeds, behind the two reads and with no other effect; the transport is
-- the flag's, else the project's, else the global one, else cloudflare, with the layer that
-- decided, and with what the files alone say. It is one of the two that are supported.
pub resolve_given :
    (codec : Codec) (global_file project_file value g p : Bytes) (w w1 w2 : World)
    → read_transport codec global_file w ≡ (ok g, w1)
    → read_transport codec project_file w1 ≡ (ok p, w2)
    → (value ≡ []) ⊎ (is_transport value ≡ true)
    → (res : Resolution) × (resolve codec global_file project_file value w ≡ (ok res, w2))
      × IsResolved g p value res
unfolding resolve
resolve_given codec global_file project_file value g p w w1 w2 first second valid =
    let (res, done) = with_flag-given value (base global_file project_file g p) w2 valid in
    (
      res,
      rw (first, second) done,
      layered-IsResolved global_file project_file g p value w2 w2
          (read_transport-Valid codec global_file w w1 first)
          (read_transport-Valid codec project_file w1 w2 second) done,
    )
