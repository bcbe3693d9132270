-- ===== src/Tunnel/Install.antt =====
-- internal/tunnel/ensure.go: the transport's binary, which may be installed first. The search of
-- PATH, the terminal, the line that is read and the run of `brew` are the host's.
use localhoist.Common.{
  sym, ◌≡◌, refl, Bool, true, false, not, ◌&&◌, ◌||◌, Option, none, some, List, [], ◌∷◌, ◌++◌,
  Bytes, codes, equal, any, Bool-cases, inl, inr, if◌then◌else◌,
}
use localhoist.Common.Text.{to_lower, trim_space}

-- `exec.LookPath` gives a path or none, before an installation and behind it.
pub record Host : Type 0 where
  pub look_path : Bytes → Option Bytes
  pub look_again : Bytes → Option Bytes
  pub stdio_is_tty : Bool
  -- What `ReadString` returns: none for an error without a text.
  pub line : Option Bytes
  -- The error of `brew install`, if it has one.
  pub brew_error : Option Bytes

-- What is done on the way: the question is asked, `brew install` is run.
pub data Act : Type 0 where
  asked : Bytes → Bytes → Act
  installed : Bytes → Bytes → Act

pub data Binary : Type 0 where
  at : Bytes → Binary
  missing : Bytes → Binary

abbrev answer : Bool → Bytes → Bool
answer default_yes a =
    if equal a [] then default_yes else equal a (codes "y") || equal a (codes "yes")

-- `readYes`
unfoldable pub read_yes : Bool → Option Bytes → Bool
read_yes default_yes none = false
read_yes default_yes (some line) = answer default_yes (to_lower (trim_space line))

module _ (h : Host) (name formula hint : Bytes) where
  abbrev pub not_found : Binary
  not_found =
      missing (name ++ (codes " not found in PATH " ++ (226 ∷ 128 ∷ 148 ∷ codes " " ++ hint)))

  abbrev found_again : Option Bytes → Binary
  found_again (some path) = at path
  found_again none = missing (name ++ codes " still not in PATH after brew install")

  abbrev brewed : Option Bytes → Binary
  brewed (some e) = missing (codes "brew install " ++ (formula ++ (codes " failed: " ++ e)))
  brewed none = found_again (h.look_again name)

  abbrev offered : Option Bytes → List Act × Binary
  offered none = ([], not_found)
  offered (some brew) =
      if read_yes true h.line
      then (asked name formula ∷ (installed brew formula ∷ []), brewed h.brew_error)
      else (asked name formula ∷ [], not_found)

  abbrev looked : Option Bytes → List Act × Binary
  looked (some path) = ([], at path)
  looked none = if h.stdio_is_tty then offered (h.look_path (codes "brew")) else ([], not_found)

  -- `ensureBinary`
  unfoldable pub ensure_binary : List Act × Binary
  unfolding read_yes
  ensure_binary = looked (h.look_path name)

abbrev pub is_install : Act → Bool
is_install (installed brew formula) = true
is_install _ = false

abbrev pub is_some : Option Bytes → Bool
is_some (some v) = true
is_some none = false

module _ (h : Host) (name formula hint : Bytes) where
  offered-installs :
      (brew : Option Bytes)
      → any is_install (offered h name formula hint brew).0 ≡ (is_some brew && read_yes true h.line)
  offered-installs none = refl
  offered-installs (some brew) = elim (Bool-cases (read_yes true h.line)) [
    | inl agreed ↦ rw agreed refl
    | inr declined ↦ rw declined refl
  ]

  looked-installs :
      (found brew : Option Bytes)
      → h.look_path (codes "brew") ≡ brew
      → any is_install (looked h name formula hint found).0
        ≡ (not (is_some found) && (h.stdio_is_tty && (is_some brew && read_yes true h.line)))
  looked-installs (some path) brew e = refl
  looked-installs none brew e = elim (Bool-cases h.stdio_is_tty) [
    | inl tty ↦ rw (tty, e) (offered-installs brew)
    | inr piped ↦ rw piped refl
  ]

-- A line was read that is empty, `y` or `yes`, but for its case and the blanks around it.
abbrev pub agrees : Option Bytes → Bool
agrees none = false
agrees (some line) =
    any (equal (to_lower (trim_space line))) ([] ∷ (codes "y" ∷ (codes "yes" ∷ [])))

answer-any : (a : Bytes) → answer true a ≡ any (equal a) ([] ∷ (codes "y" ∷ (codes "yes" ∷ [])))
answer-any a = elim (Bool-cases (equal a [])) [
  | inl silent ↦ rw silent refl
  | inr given ↦ elim (Bool-cases (equal a (codes "y"))) [
    | inl short ↦ rw (given, short) refl
    | inr long ↦ rw (given, long) (sym (or_false (equal a (codes "yes"))))
  ]
]
  where
    or_false : (b : Bool) → (b || false) ≡ b
    or_false true = refl
    or_false false = refl

read_yes-agrees : (line : Option Bytes) → read_yes true line ≡ agrees line
unfolding read_yes
read_yes-agrees none = refl
read_yes-agrees (some line) = answer-any (to_lower (trim_space line))

-- brew install is run exactly if the binary is not there, stdin and stdout are terminals, brew is
-- there, and a line was read that is empty, y or yes, but for its case and the blanks around it.
pub ensure_binary-installs :
    (h : Host) (name formula hint : Bytes)
    → any is_install (ensure_binary h name formula hint).0 ≡ (
        not (is_some (h.look_path name))
        && (h.stdio_is_tty && (is_some (h.look_path (codes "brew")) && agrees h.line)))
unfolding ensure_binary
ensure_binary-installs h name formula hint =
    rw (← read_yes-agrees h.line)
      (looked-installs h name formula hint (h.look_path name) (h.look_path (codes "brew")) refl)
