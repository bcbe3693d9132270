-- ===== src/Tunnel/Stop/Returns.antt =====
-- When `Stop` returns, and what it has sent by then.
use localhoist.Common.{ℕ, ◌≡◌, Bool, true, false, [], ◌∷◌}
use localhoist.Tunnel.Stop.{terminate, kill, Phase, selecting, reaping, returned, Stopping}

-- What has been sent in a phase.
pub data IsSent (there : Bool) (s : Stopping) : Type 0 where
  -- Without a process `Stop` returns at once.
  none_there : there ≡ false → s.phase ≡ returned → s.sent ≡ [] → IsSent there s
  asked : there ≡ true → s.phase ≡ selecting → s.sent ≡ terminate ∷ [] → IsSent there s
  forced :
      there ≡ true
      → s.phase ≡ reaping
      → s.late ≡ true
      → s.sent ≡ terminate ∷ (kill ∷ [])
      → IsSent there s
  obeyed :
      there ≡ true → s.phase ≡ returned → s.done ≡ true → s.sent ≡ terminate ∷ [] → IsSent there s
  gone :
      there ≡ true
      → s.phase ≡ returned
      → s.done ≡ true
      → s.late ≡ true
      → s.sent ≡ terminate ∷ (kill ∷ [])
      → IsSent there s

-- How many steps `Stop` has before it at most.
abbrev pub left : Phase → ℕ
left selecting = 2
left reaping = 1
left returned = 0
