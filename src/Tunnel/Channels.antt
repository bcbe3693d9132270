-- ===== src/Tunnel/Channels.antt =====
-- What the log of the process has put into the variables of `start`.
use localhoist.Common.{
  ◌≡◌, refl, sym, ◌∙◌, Bool, true, false, not, ◌&&◌, ◌||◌, Option, none, some, List, [], ◌∷◌, Bytes,
  equal, if◌then◌else◌, arith, Bool-cases, inl, inr, any,
}
use localhoist.Tunnel.{
  LineParser, ProcConfig, Event, scanned, exited, timed_out, cancelled, Shared, offer, scan, happen,
  run,
}

-- The URLs of the log, and the messages of its lines without a URL.
abbrev with_url : Bytes × Bytes → List Bytes → List Bytes
with_url r rest = if equal r.0 [] then rest else r.0 ∷ rest

abbrev with_error : Bytes × Bytes → List Bytes → List Bytes
with_error r rest = if equal r.0 [] && not (equal r.1 []) then r.1 ∷ rest else rest

unfoldable pub urls : LineParser → List Event → List Bytes
urls parse [] = []
urls parse (scanned line ∷ events) = with_url (parse line) (urls parse events)
urls parse (_ ∷ events) = urls parse events

pub errors : LineParser → List Event → List Bytes
errors parse [] = []
errors parse (scanned line ∷ events) = with_error (parse line) (errors parse events)
errors parse (_ ∷ events) = errors parse events

-- The first of a list behind what is there, and the last of a list before it.
abbrev pub first_of : Option Bytes → List Bytes → Option Bytes
first_of (some v) vs = some v
first_of none [] = none
first_of none (v ∷ vs) = some v

pub last_of : Bytes → List Bytes → Bytes
last_of v [] = v
last_of v (w ∷ ws) = last_of w ws

abbrev pub is_exit : Event → Bool
is_exit exited = true
is_exit _ = false

abbrev pub is_timeout : Event → Bool
is_timeout timed_out = true
is_timeout _ = false

-- The error of the context, if it has ended.
pub context_of : Option Bytes → List Event → Option Bytes
context_of before [] = before
context_of before (cancelled e ∷ events) = context_of (some e) events
context_of before (_ ∷ events) = context_of before events

-- The variables behind a sequence of events.
pub record IsScanned (parse : LineParser) (pc : ProcConfig) (events : List Event)
    (before s : Shared) : Type 0 where
  pub url : s.url_ch ≡ first_of before.url_ch (urls parse events)
  pub error :
      s.err_ch
      ≡ (if pc.abort_on_err then first_of before.err_ch (errors parse events) else before.err_ch)
  pub last : s.last_err ≡ last_of before.last_err (errors parse events)
  pub exit : s.done ≡ (before.done || any is_exit events)
  pub timeout : s.late ≡ (before.late || any is_timeout events)
  pub context : s.context_err ≡ context_of before.context_err events

first_of-cons :
    (before : Option Bytes) (v : Bytes) (vs : List Bytes)
    → first_of before (v ∷ vs) ≡ first_of (offer before v) vs
first_of-cons none v [] = refl
first_of-cons none v (w ∷ vs) = refl
first_of-cons (some u) v vs = refl

first_of-nil : (before : Option Bytes) → first_of before [] ≡ before
first_of-nil none = refl
first_of-nil (some v) = refl

error_kept :
    (abort : Bool) (before : Option Bytes) → before ≡ (if abort then first_of before [] else before)
error_kept true before = sym (first_of-nil before)
error_kept false before = refl

error_offered :
    (abort : Bool) (before : Option Bytes) (v : Bytes) (vs : List Bytes)
    → (if abort
        then first_of (if abort then offer before v else before) vs
        else if abort
        then offer before v
        else before)
      ≡ (if abort then first_of before (v ∷ vs) else before)
error_offered true before v vs = sym (first_of-cons before v vs)
error_offered false before v vs = refl

scanned-IsScanned :
    (parse : LineParser) (pc : ProcConfig) (line : Bytes) (events : List Event) (before s : Shared)
    → IsScanned parse pc events (scan pc (parse line) before) s
    → IsScanned parse pc (scanned line ∷ events) before s
unfolding scan urls errors last_of context_of
scanned-IsScanned parse pc line events before s h = elim (Bool-cases (equal (parse line).0 [])) [
  | inr found ↦
      let k = rw found at h in
      record {
        url =
            k.url ∙ rw found (sym (first_of-cons before.url_ch (parse line).0 (urls parse events)));
        error = k.error ∙ rw found refl;
        last = k.last ∙ rw found refl;
        exit = k.exit;
        timeout = k.timeout;
        context = k.context;
      }
  | inl quiet ↦ elim (Bool-cases (equal (parse line).1 [])) [
    | inl noise ↦
        let k = rw (quiet, noise) at h in
        record {
          url = k.url ∙ rw quiet refl;
          error = k.error ∙ rw (quiet, noise) refl;
          last = k.last ∙ rw (quiet, noise) refl;
          exit = k.exit;
          timeout = k.timeout;
          context = k.context;
        }
    | inr told ↦
        let k = rw (quiet, told) at h in
        record {
          url = k.url ∙ rw quiet refl;
          error =
              k.error
              ∙ rw (quiet, told)
                  (error_offered pc.abort_on_err before.err_ch (parse line).1
                    (errors parse events));
          last = k.last ∙ rw (quiet, told) refl;
          exit = k.exit;
          timeout = k.timeout;
          context = k.context;
        }
  ]
]

-- Whatever the order of the events: the URL's channel holds the first URL of the log and no later
-- one; the error's channel holds the first message if errors are fatal, else nothing ever; the
-- last error is the last message; and the end, the timeout and the context's error are seen exactly
-- if they happened.
pub run-IsScanned :
    (parse : LineParser) (pc : ProcConfig) (events : List Event) (before : Shared)
    → IsScanned parse pc events before (run pc parse events before)
unfolding run happen urls errors last_of context_of
run-IsScanned parse pc [] before = record {
  url = sym (first_of-nil before.url_ch);
  error = error_kept pc.abort_on_err before.err_ch;
  last = refl;
  exit = ground arith;
  timeout = ground arith;
  context = refl;
}
run-IsScanned parse pc (scanned line ∷ events) before =
    scanned-IsScanned parse pc line events before _
      (run-IsScanned parse pc events (scan pc (parse line) before))
run-IsScanned parse pc (exited ∷ events) before =
    let k = run-IsScanned parse pc events (record before { done = true }) in
    record {
      url = k.url;
      error = k.error;
      last = k.last;
      exit = k.exit ∙ ground arith;
      timeout = k.timeout;
      context = k.context;
    }
run-IsScanned parse pc (timed_out ∷ events) before =
    let k = run-IsScanned parse pc events (record before { late = true }) in
    record {
      url = k.url;
      error = k.error;
      last = k.last;
      exit = k.exit;
      timeout = k.timeout ∙ ground arith;
      context = k.context;
    }
run-IsScanned parse pc (cancelled e ∷ events) before =
    let k = run-IsScanned parse pc events (record before { context_err = some e }) in
    record {
      url = k.url;
      error = k.error;
      last = k.last;
      exit = k.exit;
      timeout = k.timeout;
      context = k.context;
    }
