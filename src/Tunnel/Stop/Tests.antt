-- ===== src/Tunnel/Stop/Tests.antt =====
-- A process that does not obey SIGTERM, and is killed.
use localhoist.Common.{true, false, [], ◌∷◌}
use localhoist.Tunnel.Stop.{terminate, kill, reaping, returned, Stopping}

abbrev forced : Stopping
forced = record { phase = reaping; done = false; late = true; sent = terminate ∷ (kill ∷ []) }

abbrev over : Stopping
over = record { phase = returned; done = true; late = true; sent = terminate ∷ (kill ∷ []) }
