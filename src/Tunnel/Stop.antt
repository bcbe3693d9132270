-- ===== src/Tunnel/Stop.antt =====
-- internal/tunnel/tunnel.go: `Stop`, which signals the process and waits for it. The steps of `Stop`
-- and those of the process and the clock come in any order. What a signal does to the process is not
-- modelled: it ends at any time, or never.
pub mod Returns
mod Tests
use localhoist.Common.{ℕ, ◌≡◌, Bool, true, false, List, [], ◌∷◌, ◌++◌}

pub data Signal : Type 0 where
  terminate kill : Signal

-- Where `Stop` stands: at its `select`, at the receive behind the kill, or behind its end.
pub data Phase : Type 0 where
  selecting reaping returned : Phase

-- `done` is whether `Done` is closed, which is when `Wait` has returned; `late` is whether the timer
-- of three seconds has fired; `sent` are the signals to the process.
pub record Stopping : Type 0 where
  pub phase : Phase
  pub done : Bool
  pub late : Bool
  pub sent : List Signal

-- The call, up to the `select`: whether there is a process, and whether it has ended by then.
unfoldable pub call_stop : Bool → Bool → Stopping
call_stop false done = record { phase = returned; done = done; late = false; sent = [] }
call_stop true done = record { phase = selecting; done = done; late = false; sent = terminate ∷ [] }

-- A step of `Stop`. The `select` may take any case that is ready.
pub data Own (s : Stopping) : Stopping → Type 0 where
  by_done : s.phase ≡ selecting → s.done ≡ true → Own s (record s { phase = returned })
  by_timer :
      s.phase ≡ selecting
      → s.late ≡ true
      → Own s (record s { phase = reaping; sent = s.sent ++ kill ∷ [] })
  reaped : s.phase ≡ reaping → s.done ≡ true → Own s (record s { phase = returned })

pub data Step (s : Stopping) : Stopping → Type 0 where
  own : {t : Stopping} → Own s t → Step s t
  exits : Step s (record s { done = true })
  -- The timer runs from the `select` on.
  fires : s.phase ≡ selecting → Step s (record s { late = true })

pub data Reached (there done : Bool) : Stopping → Type 0 where
  called : Reached there done (call_stop there done)
  then_ : {s t : Stopping} → Reached there done s → Step s t → Reached there done t
