-- ===== src/Config/Domain.antt =====
-- `Finalize`: a static domain needs ngrok.
use localhoist.Common.{◌≡◌, ◌||◌, [], ◌∷◌, Bytes, equal, equal_iff, arith, if◌then◌else◌}
use localhoist.Common.Disk.{ok, err, dead, static_domain}
use localhoist.Config.Layers.{first_given, IsResolved}
use localhoist.Common.Disk.{Outcome}
use localhoist.Config.{cloudflare, Resolution, ngrok, finalize}

abbrev pub chosen : Outcome (Resolution × Bytes) → Outcome Bytes
chosen (ok (res, note)) = ok res.transport
chosen (err e) = err e
chosen dead = dead

-- The transport that the flag or a file names, if one does.
abbrev pub explicit : Bytes → Bytes → Bytes → Bytes
explicit g p value = first_given (value ∷ p ∷ g ∷ [])

-- What `Finalize` makes of what `Resolve` returned. Without a static domain the transport is the one
-- that was named, else cloudflare. With one it is ngrok, unless the flag or a config file names
-- another transport, which is an error.
pub finalize-explicit :
    (g p value domain : Bytes) (res : Resolution)
    → IsResolved g p value res
    → chosen (finalize res domain) ≡ (
        if equal domain []
        then ok (first_given (explicit g p value ∷ cloudflare ∷ []))
        else if equal (explicit g p value) [] || equal (explicit g p value) ngrok
        then ok ngrok
        else err (static_domain domain))
unfolding finalize equal
finalize-explicit g p value domain res r =
    rw (r.decided, r.by)
      (ground (arith, equal_iff value [], equal_iff p [], equal_iff g [], equal_iff domain []))
