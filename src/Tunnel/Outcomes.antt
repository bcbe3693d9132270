-- ===== src/Tunnel/Outcomes.antt =====
-- What `start` returns, for each order of the events and each choice of the `select`.
use localhoist.Common.{
  ◌≡◌, ◌≢◌, refl, sym, ap, ◌∙◌, Bool, true, false, Option, none, some, List, [], ◌∷◌, ◌++◌, Bytes,
  codes, if◌then◌else◌, inl, inr, any, ◌⊎◌,
}
use localhoist.Tunnel.{
  LineParser, ProcConfig, Event, at_start, run, exit_text, timeout_text, Started, up, down,
  Selected, by_url, by_error, by_exit, by_timeout, by_context,
}
use localhoist.Tunnel.Channels.{
  urls, errors, first_of, last_of, context_of, is_exit, is_timeout, run-IsScanned,
}

-- The last message among the events and those that follow before it is read.
abbrev pub last_error : LineParser → List Event → List Event → Bytes
last_error parse events more = last_of (last_of [] (errors parse events)) (errors parse more)

-- What a result of `start` says of the events before it.
pub data IsExplained (parse : LineParser) (pc : ProcConfig) (events : List Event)
    : Started → Type 0 where
  -- The URL is the first one of the log.
  opened :
      {u : Bytes} → first_of none (urls parse events) ≡ some u → IsExplained parse pc events (up u)
  -- Errors are fatal, and this is the first one. The process is told to stop.
  aborted :
      {msg : Bytes}
      → pc.abort_on_err ≡ true
      → first_of none (errors parse events) ≡ some msg
      → IsExplained parse pc events (down (pc.name ++ (codes ": " ++ msg)) true)
  -- The process is gone, so it need not be stopped; the text has the last error that was seen.
  ended :
      {text : Bytes} (more : List Event)
      → any is_exit events ≡ true
      → text ≡ exit_text pc (last_error parse events more)
      → IsExplained parse pc events (down text false)
  -- The time is up. The process is told to stop.
  late :
      {text : Bytes} (more : List Event)
      → any is_timeout events ≡ true
      → text ≡ timeout_text pc (last_error parse events more)
      → IsExplained parse pc events (down text true)
  -- The context has ended. The process is told to stop.
  interrupted :
      {text : Bytes}
      → context_of none events ≡ some text
      → IsExplained parse pc events (down text true)

last_error_read :
    (parse : LineParser) (pc : ProcConfig) (events more : List Event)
    → (run pc parse more (run pc parse events at_start)).last_err ≡ last_error parse events more
last_error_read parse pc events more =
    (run-IsScanned parse pc more (run pc parse events at_start)).last
    ∙ ap (λ v. last_of v (errors parse more)) (run-IsScanned parse pc events at_start).last

fatal :
    (abort : Bool) (found : Option Bytes) {msg : Bytes}
    → (if abort then found else none) ≡ some msg
    → (abort ≡ true) × (found ≡ some msg)
fatal true found h = (refl, h)
fatal false found h = cc

-- Whatever the order of the events and the choice of the `select`: a URL that `start` returns is
-- the first one of the log; and where it returns an error, the process is gone or is told to stop,
-- an error of the log is the reason only if errors are fatal, and then the first one is, and the
-- other reasons are the end of the process, the timeout and the context. The text of the end and of
-- the timeout has the last error that was seen until it was composed.
pub selected-IsExplained :
    (parse : LineParser) (pc : ProcConfig) (events : List Event) {result : Started}
    → Selected parse pc (run pc parse events at_start) result
    → IsExplained parse pc events result
selected-IsExplained parse pc events (by_url e) =
    opened (sym (run-IsScanned parse pc events at_start).url ∙ e)
selected-IsExplained parse pc events (by_error e) =
    let (abort, found) =
      fatal pc.abort_on_err _ (sym (run-IsScanned parse pc events at_start).error ∙ e) in
    aborted abort found
selected-IsExplained parse pc events (by_exit more e) =
    ended more (sym (run-IsScanned parse pc events at_start).exit ∙ e)
      (ap (exit_text pc) (last_error_read parse pc events more))
selected-IsExplained parse pc events (by_timeout more e) =
    late more (sym (run-IsScanned parse pc events at_start).timeout ∙ e)
      (ap (timeout_text pc) (last_error_read parse pc events more))
selected-IsExplained parse pc events (by_context e) =
    interrupted (sym (run-IsScanned parse pc events at_start).context ∙ e)

-- `start` does not wait for ever: once the log has a URL, or the process has ended, or the timeout
-- has passed, the `select` has a case to take.
pub run-Selected :
    (parse : LineParser) (pc : ProcConfig) (events : List Event)
    → (urls parse events ≢ []) ⊎ (any is_exit events ≡ true) ⊎ (any is_timeout events ≡ true)
    → (result : Started) × Selected parse pc (run pc parse events at_start) result
run-Selected parse pc events (inl some_url) =
    let (u, e) = head_of (urls parse events) some_url in
    (up u, by_url ((run-IsScanned parse pc events at_start).url ∙ e))
  where
    head_of : (vs : List Bytes) → vs ≢ [] → (u : Bytes) × (first_of none vs ≡ some u)
    head_of [] ne = absurd (ne refl)
    head_of (v ∷ vs) ne = (v, refl)
run-Selected parse pc events (inr (inl gone)) =
    (_, by_exit [] ((run-IsScanned parse pc events at_start).exit ∙ gone))
run-Selected parse pc events (inr (inr passed)) =
    (_, by_timeout [] ((run-IsScanned parse pc events at_start).timeout ∙ passed))
