-- ===== src/Command/Settings/Untouched.antt =====
-- Which file `localhoist config` may change.
use localhoist.Common.{
  ◌≡◌, refl, sym, ap, ◌∙◌, Bool, true, false, ◌||◌, Option, none, some, List, [], ◌∷◌, Bytes, codes,
  equal, inl, inr, Bool-cases, if◌then◌else◌,
}
use localhoist.Common.Arguments
use localhoist.Common.Arguments.{Parsed, given, parse_from}
use localhoist.Common.Disk.{err, unknown_command}
use localhoist.Config.{Codec, resolve, read, set, unset, project_path, lookup_in, transport_key}
use localhoist.Config.Others.{Keeps-resolve, Keeps-read, Keeps-set, Keeps-unset}
use localhoist.Command.Session.{
  Session, S, lift, say, give, pure, ◌>>◌, effective, change_hint, config_usage, key_set, key_unset,
}
use localhoist.Command.Run.Still.{Still, Still->>=}
use localhoist.Command.Settings.{
  returned, source_label, formal, chosen_path, show_layer, show_config, set_key, unset_key, change,
  run_config, layer_line,
}

module _ (codec : Codec) (global_file : Bytes) where
  -- The file of a `set` with two arguments behind its flags, or of an `unset` with one.
  abbrev target_of : Bool → List (Bytes × Bytes) → List Bytes → Option Bytes
  target_of true flags (key ∷ (value ∷ [])) = some (chosen_path codec global_file flags)
  target_of false flags (key ∷ []) = some (chosen_path codec global_file flags)
  target_of _ _ _ = none

  abbrev parsed_target : Bool → Parsed → Option Bytes
  parsed_target sets (given flags rest) = target_of sets flags rest
  parsed_target sets _ = none

  -- The file that a command line is about, if it changes any.
  unfoldable pub target : List Bytes → Option Bytes
  unfolding parse_from
  target [] = none
  target (command ∷ args) =
      if equal command (codes "set")
      then parsed_target true (parse_from formal none args)
      else if equal command (codes "unset")
      then parsed_target false (parse_from formal none args)
      else none

  abbrev pub is_at : Bytes → Option Bytes → Bool
  is_at q none = false
  is_at q (some p) = equal q p

  module _ (q : Bytes) where
    abbrev file : Session → Option localhoist.Common.Disk.Entry
    file s = s.world.tree q

    then_returned : (m : S (Unit {0})) → Still file m → Still file (m >> pure returned)
    then_returned m first = Still->>= file m (λ _. pure returned) first (λ _ s. refl)

    show_layer-Still : (name path : Bytes) → Still file (show_layer codec global_file name path)
    show_layer-Still name path =
        Still->>= file (lift (read codec path))
          (λ m. say (layer_line name path (lookup_in transport_key m)))
          (λ s. Keeps-read codec q path s.world) (λ m s. refl)

    abbrev layers : Bytes → S (Unit {0})
    layers dir =
        show_layer codec global_file (codes "global ") global_file
        >> (show_layer codec global_file (codes "project") (project_path dir) >> say change_hint)

    layers-Still : (dir : Bytes) → Still file (layers dir)
    layers-Still dir =
        Still->>= file (show_layer codec global_file (codes "global ") global_file)
          (λ _.
            show_layer codec global_file (codes "project") (project_path dir) >> say change_hint)
          (show_layer-Still (codes "global ") global_file)
          (λ _.
            Still->>= file (show_layer codec global_file (codes "project") (project_path dir))
              (λ _. say change_hint) (show_layer-Still (codes "project") (project_path dir))
              (λ _ s. refl))

    show_config-Still : (dir : Bytes) → Still file (show_config codec global_file dir)
    unfolding show_config
    show_config-Still dir =
        Still->>= file (lift (resolve codec global_file (project_path dir) []))
          (λ res. say (effective res.transport (source_label res)) >> layers dir)
          (λ s. Keeps-resolve codec q global_file (project_path dir) [] s.world)
          (λ res.
            Still->>= file (say (effective res.transport (source_label res))) (λ _. layers dir)
              (λ s. refl) (λ _. layers-Still dir))

    set_key-Still :
        (flags : List (Bytes × Bytes)) (rest : List Bytes)
        → is_at q (target_of true flags rest) ≡ false
        → Still file (set_key codec global_file (chosen_path codec global_file flags) rest)
    set_key-Still flags [] apart = λ s. refl
    set_key-Still flags (key ∷ []) apart = λ s. refl
    set_key-Still flags (key ∷ (value ∷ [])) apart =
        let path = chosen_path codec global_file flags in
        Still->>= file (lift (set codec path key value)) (λ _. say (key_set key value path))
          (λ s. Keeps-set codec q path key value apart s.world) (λ _ s. refl)
    set_key-Still flags (key ∷ (value ∷ (more ∷ rest))) apart = λ s. refl

    unset_key-Still :
        (flags : List (Bytes × Bytes)) (rest : List Bytes)
        → is_at q (target_of false flags rest) ≡ false
        → Still file (unset_key codec global_file (chosen_path codec global_file flags) rest)
    unset_key-Still flags [] apart = λ s. refl
    unset_key-Still flags (key ∷ []) apart =
        let path = chosen_path codec global_file flags in
        Still->>= file (lift (unset codec path key)) (λ _. say (key_unset key path))
          (λ s. Keeps-unset codec q path key apart s.world) (λ _ s. refl)
    unset_key-Still flags (key ∷ (value ∷ rest)) apart = λ s. refl

    change-Still-set :
        (command : Bytes) (p : Parsed)
        → equal command (codes "set") ≡ true
        → is_at q (parsed_target true p) ≡ false
        → Still file (change codec global_file command p)
    change-Still-set command (given flags rest) is apart = rw is (
        then_returned (set_key codec global_file (chosen_path codec global_file flags) rest)
          (set_key-Still flags rest apart))
    change-Still-set command (Arguments.exits code) is apart = λ s. refl

    change-Still-unset :
        (command : Bytes) (p : Parsed)
        → equal command (codes "set") ≡ false
        → is_at q (parsed_target false p) ≡ false
        → Still file (change codec global_file command p)
    change-Still-unset command (given flags rest) is apart = rw is (
        then_returned (unset_key codec global_file (chosen_path codec global_file flags) rest)
          (unset_key-Still flags rest apart))
    change-Still-unset command (Arguments.exits code) is apart = λ s. refl

    unchanging :
        (command : Bytes)
        → Still file (
            if equal command (codes "-h")
              || equal command (codes "--help")
              || equal command (codes "help")
            then say config_usage >> pure returned
            else give (err (unknown_command command)))
    unchanging command =
        elim (Bool-cases (
          equal command (codes "-h")
          || equal command (codes "--help")
          || equal command (codes "help"))) [
            | inl help ↦ rw help (λ s. refl)
            | inr unknown ↦ rw unknown (λ s. refl)
          ]

    command-Still :
        (command : Bytes) (args : List Bytes)
        → is_at q (target (command ∷ args)) ≡ false
        → Still file (run_config codec global_file (command ∷ args))
    unfolding run_config target
    command-Still command args apart = elim (Bool-cases (equal command (codes "set"))) [
      | inl sets ↦
          rw sets (change-Still-set command (parse_from formal none args) sets (rw sets at apart))
      | inr other ↦ elim (Bool-cases (equal command (codes "unset"))) [
        | inl unsets ↦
            rw (other, unsets)
              (change-Still-unset command (parse_from formal none args) other
                (rw (other, unsets) at apart))
        | inr neither ↦ rw (other, neither) (unchanging command)
      ]
    ]

    -- Whatever fails, localhoist config changes no file but the one that its set or unset is
    -- about, and none in any other use: without arguments, with too few or too many, with help or
    -- an unknown command, or where the flags end it.
    pub run_config-Still :
        (args : List Bytes)
        → is_at q (target args) ≡ false
        → Still file (run_config codec global_file args)
    unfolding run_config target
    run_config-Still [] apart =
        then_returned (show_config codec global_file (codes ".")) (show_config-Still (codes "."))
    run_config-Still (command ∷ args) apart = command-Still command args apart
