-- ===== src/Command/Settings/Effective.antt =====
-- What a `localhoist config set` makes of the next run.
use localhoist.Common.{ℕ, ◌≡◌, refl, ◌∙◌, true, false, [], ◌∷◌, Bytes, codes, equal}
use localhoist.Common.Arguments.{parse_from, classify, cut_value, parse_bool, value_of}
use localhoist.Common.Disk.{World, Tree, ok}
use localhoist.Common.Disk.Laws.{calm}
use localhoist.Config.{
  Codec, text, Object, project, is_transport, insert, lookup, transport_key, transport_of,
  project_path, resolve, read_transport,
}
use localhoist.Config.Files.{
  supported-given, Stores, nothing, a_file, IsReadBack, set-calm, read_transport_stored,
  lookup-insert,
}
use localhoist.Command.Session.{Session}
use localhoist.Command.Settings.{returned, run_config}

abbrev pub project_file : Bytes
project_file = project_path (codes ".")

module _ (codec : Codec) (global_file : Bytes) where
  moved-Stores :
      (t t' : Tree) (path : Bytes) {m : Object}
      → t' path ≡ t path
      → Stores codec t path m
      → Stores codec t' path m
  moved-Stores t t' path same (nothing absent e) = nothing (same ∙ absent) e
  moved-Stores t t' path same (a_file e there parses) = a_file e (same ∙ there) parses

  -- config set --project transport v, where no call fails and v is supported, returns, and Resolve
  -- without a flag then finds v, from the project's file, whatever the global file says. Assumed:
  -- both files are missing or hold a map, the global one names a supported transport or none, they
  -- are two files, and the JSON of the new map is read back.
  pub run_config-resolve :
      (v g : Bytes) (t : Tree) (umask : ℕ) (s : Session) (m gm : Object)
      → s.world ≡ calm t umask
      → is_transport v ≡ true
      → equal global_file project_file ≡ false
      → Stores codec t project_file m
      → Stores codec t global_file gm
      → ((w : World) → transport_of global_file (lookup transport_key gm) w ≡ (ok g, w))
      → IsReadBack codec (insert transport_key (text v) m)
      → let r =
          run_config codec global_file
            (codes "set" ∷ (codes "--project" ∷ (transport_key ∷ (v ∷ []))))
            s in
        (r.0 ≡ ok returned)
        × ((resolve codec global_file project_file [] r.1.world).0
            ≡ ok
                (record { transport = v; source = project; source_path = project_file; saved = v }))
  unfolding run_config resolve equal parse_from classify cut_value parse_bool value_of
  run_config-resolve v g t umask s m gm at_rest good apart stores global_stores global_says back =
      let (t', done, written) = set-calm codec t umask project_file v stores good back in
      let global_read =
        read_transport_stored codec t' umask global_file
          (moved-Stores t t' global_file (written.others global_file apart) global_stores)
        ∙ global_says (calm t' umask) in
      let project_read : read_transport codec project_file (calm t' umask) ≡ (ok v, calm t' umask) =
        read_transport_stored codec t' umask project_file written.stored
        ∙ rw (written.same transport_key, lookup-insert transport_key transport_key (text v) m)
            (rw good refl) in
      rw (at_rest, done) (refl, rw (global_read, project_read, supported-given v good) refl)
