-- ===== src/Command/Run/Asked.antt =====
-- The question for a default transport is asked once.
use localhoist.Common.{
  ℕ, ◌≡◌, refl, Bool, true, false, ◌&&◌, ◌||◌, not, [], ◌∷◌, Bytes, codes, equal, inl, inr,
  Bool-cases, if◌then◌else◌,
}
use localhoist.Common.Text.{to_lower, trim_space}
use localhoist.Common.Disk.{World, Tree, ok}
use localhoist.Common.Disk.Laws.{calm}
use localhoist.Config.{
  text, Object, Resolution, is_transport, insert, transport_key, resolve, default_transport,
}
use localhoist.Config.Files.{supported-given, Stores, IsReadBack, read_transport-set}
use localhoist.Config.Layers.{first_given, resolve-IsResolved}
use localhoist.Command.Banner.{may_ask, is_flag}
use localhoist.Command.Session.{Session}
use localhoist.Command.Run.{Surroundings, settings_path, choice, save_choice}

choice-supported :
    (o : Surroundings) (transport line : Bytes)
    → is_transport transport ≡ true
    → is_transport (choice o transport line) ≡ true
unfolding is_transport equal
choice-supported o transport line good = go (
    equal (to_lower (trim_space line)) (codes "y")
    || equal (to_lower (trim_space line)) (codes "yes"))
  where
    go : (agreed : Bool) → is_transport (if agreed then transport else default_transport) ≡ true
    go true = good
    go false = refl

-- A list with a text behind its first has one.
first_given-given : (p g : Bytes) → equal g [] ≡ false → equal (first_given (p ∷ g ∷ [])) [] ≡ false
first_given-given p g given = elim (Bool-cases (equal p [])) [
  | inl none_there ↦ rw (none_there, given) given
  | inr named ↦ rw named named
]

not_both : (b c : Bool) → (b && (false && c)) ≡ false
not_both true c = refl
not_both false c = refl

module _ (o : Surroundings) where
  -- Whatever was answered to the question for a default transport, and with no call failing: each
  -- later Resolve that succeeds, with the global file as the answer left it, gives a resolution
  -- for which the question is not asked. Assumed: the transport is supported, the global file is
  -- missing or holds a map, and the JSON of the new map is read back.
  pub save_choice-may_ask :
      (transport line : Bytes) (t : Tree) (umask : ℕ) (s : Session) (m : Object)
      → s.world ≡ calm t umask
      → is_transport transport ≡ true
      → Stores o.settings t (settings_path o) m
      → IsReadBack o.settings (insert transport_key (text (choice o transport line)) m)
      → (project_file value : Bytes) (res : Resolution) (w' : World)
      → resolve o.settings
          (settings_path o)
          project_file
          value
          (save_choice o transport (choice o transport line) s).1.world
        ≡ (ok res, w')
      → may_ask res ≡ false
  unfolding save_choice may_ask
  save_choice-may_ask transport line t umask s m at_rest good stores back project_file value res w'
        h =
      let (t', done, read_back) =
        read_transport-set o.settings t umask (settings_path o) (choice o transport line) stores
          (choice-supported o transport line good) back in
      let (g, p, w1, w2, global_read, project_read, is) =
        resolve-IsResolved o.settings (settings_path o) project_file value (calm t' umask) w'
          (rw (at_rest, done) at h) in
      let chosen : choice o transport line ≡ g = cc in
      let saved : equal res.saved [] ≡ false = rw is.saved (
        first_given-given p g (
          rw (← chosen) (
            supported-given (choice o transport line) (choice-supported o transport line good)))) in
      rw saved (not_both (is_flag res.source) (not (equal res.transport default_transport)))
