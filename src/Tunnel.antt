-- ===== src/Tunnel.antt =====
-- internal/tunnel/tunnel.go: the start of a tunnel process, up to the choice of the first result.
-- The process, the scanner of its output, the clock and the context are one sequence of events, in
-- any order: an event is one line that the scanner returns, the end of the process as `Wait`
-- reports it, the timeout, or the end of the context. A channel of one element is an option.
pub mod Parse
pub mod Install
pub mod Launch
pub mod Opened
pub mod Channels
pub mod Outcomes
pub mod Stop
pub mod QuickUrl
pub mod QuickFound
mod Tests
use localhoist.Common.{
  Bool, true, false, not, Option, none, some, List, [], ◌∷◌, ◌++◌, Bytes, codes, equal,
  if◌then◌else◌, ◌≡◌,
}

-- `lineParser`, which returns a URL and an error message.
abbrev pub LineParser : Type 0
LineParser = Bytes → Bytes × Bytes

-- `procConfig`; the length of the timeout is not modelled.
pub record ProcConfig : Type 0 where
  pub name : Bytes
  pub abort_on_err : Bool
  pub exit_hint : Bytes

pub data Event : Type 0 where
  scanned : Bytes → Event
  exited : Event
  timed_out : Event
  cancelled : Bytes → Event

-- The variables of `start` that its goroutines share.
pub record Shared : Type 0 where
  pub url_ch : Option Bytes
  pub err_ch : Option Bytes
  pub last_err : Bytes
  pub done : Bool
  pub late : Bool
  pub context_err : Option Bytes

abbrev pub at_start : Shared
at_start = record {
  url_ch = none;
  err_ch = none;
  last_err = [];
  done = false;
  late = false;
  context_err = none;
}

-- A send with a default: it does nothing where the buffer is full.
abbrev pub offer : Option Bytes → Bytes → Option Bytes
offer none v = some v
offer (some v) w = some v

module _ (pc : ProcConfig) where
  -- The body of the scanner's loop, at what the parser returned.
  unfoldable pub scan : Bytes × Bytes → Shared → Shared
  scan (u, err_msg) s =
      if not (equal u [])
      then record s { url_ch = offer s.url_ch u }
      else if not (equal err_msg [])
      then record s {
        last_err = err_msg;
        err_ch = if pc.abort_on_err then offer s.err_ch err_msg else s.err_ch;
      }
      else s

  module _ (parse : LineParser) where
    unfoldable pub happen : Event → Shared → Shared
    unfolding scan
    happen (scanned line) s = scan (parse line) s
    happen exited s = record s { done = true }
    happen timed_out s = record s { late = true }
    happen (cancelled e) s = record s { context_err = some e }

    unfoldable pub run : List Event → Shared → Shared
    unfolding happen
    run [] s = s
    run (e ∷ events) s = run events (happen e s)

  unfoldable pub exit_text : Bytes → Bytes
  exit_text last =
      pc.name
      ++ (codes " exited before the tunnel came up"
          ++ (if equal last [] then codes " " ++ pc.exit_hint else codes ": " ++ last))

  unfoldable pub timeout_text : Bytes → Bytes
  timeout_text last =
      codes "timed out waiting for "
      ++ (pc.name
          ++ (codes " to open the tunnel"
              ++ (if equal last [] then [] else codes " (last error: " ++ (last ++ codes ")"))))

-- What `start` returns: a URL, or an error and whether the process was told to stop.
pub data Started : Type 0 where
  up : Bytes → Started
  down : Bytes → Bool → Started

-- The `select` of `start`: each case whose channel is ready may be the one that is taken. The last
-- error is read later, when more may have happened.
pub data Selected (parse : LineParser) (pc : ProcConfig) (s : Shared) : Started → Type 0 where
  by_url : {u : Bytes} → s.url_ch ≡ some u → Selected parse pc s (up u)
  by_error :
      {msg : Bytes}
      → s.err_ch ≡ some msg
      → Selected parse pc s (down (pc.name ++ (codes ": " ++ msg)) true)
  by_exit :
      (more : List Event)
      → s.done ≡ true
      → Selected parse pc s (down (exit_text pc (run pc parse more s).last_err) false)
  by_timeout :
      (more : List Event)
      → s.late ≡ true
      → Selected parse pc s (down (timeout_text pc (run pc parse more s).last_err) true)
  by_context : {e : Bytes} → s.context_err ≡ some e → Selected parse pc s (down e true)
